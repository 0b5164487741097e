-- ===== src/Plugin/Load.antt =====
-- lib/plugin.c: loading plugins in the order of their priorities, and unloading them. What the
-- dynamic linker finds in a file is an argument.
use mptcpd.Common.{
  ℕ, Bool, Option, none, some, List, [], ◌∷◌, ◌++◌, ℤ, less, Ordering, is_some, if◌then◌else◌,
}
use mptcpd.Ell.Queue.{Queue}

-- `struct mptcpd_plugin_desc`: the name, which may be NULL, the priority, and which of the two
-- functions are set.
pub record Desc : Type 0 where
  pub name : Option (List ℕ)
  pub priority : ℤ
  pub has_init : Bool
  pub has_exit : Bool

-- `struct plugin_info`.
pub record PluginInfo : Type 0 where
  pub handle : ℕ
  pub desc : Desc

unfoldable pub compare_plugin_priority : PluginInfo → PluginInfo → Ordering
compare_plugin_priority a b =
    if less a.desc.priority b.desc.priority then Ordering.lt else Ordering.gt

-- The answers of `dlopen`, a handle, and of `dlsym`, the descriptor.
abbrev pub Linker : Type 0
Linker = List ℕ → Option (ℕ × Option Desc)

-- The plugin in a file, where `load_plugin` reaches the insertion.
unfoldable pub plugin_of : Linker → List ℕ → Option PluginInfo
plugin_of dl filename = elim (dl filename) [
  | none ↦ none
  | some (handle, none) ↦ none
  | some (handle, some desc) ↦
      if is_some desc.name then some (record { handle = handle; desc = desc }) else none
]

-- "%s/%s.so".
abbrev pub path : List ℕ → List ℕ → List ℕ
path dir name = dir ++ 0x2f ∷ name ++ 0x2e ∷ 0x73 ∷ 0x6f ∷ []

-- The plugins whose `init` function `load_plugins` calls, in the order of the calls.
unfoldable pub init_calls : List PluginInfo → List PluginInfo
init_calls [] = []
init_calls (p ∷ rest) = if p.desc.has_init then p ∷ init_calls rest else init_calls rest

unfoldable pub exit_calls : List PluginInfo → List PluginInfo
exit_calls [] = []
exit_calls (p ∷ rest) = if p.desc.has_exit then p ∷ exit_calls rest else exit_calls rest

module _ (queue : Queue PluginInfo) (dl : Linker) where
  open queue use {Q, new, entries, insert}

  unfoldable pub load_plugin : Q → List ℕ → Q
  unfolding plugin_of
  load_plugin q filename = elim (plugin_of dl filename) [
    | none ↦ q
    | some p ↦ (insert q p compare_plugin_priority).0
  ]

  unfoldable pub load_plugins_queue : List ℕ → Q → List (List ℕ) → Q
  unfolding load_plugin
  load_plugins_queue dir q [] = q
  load_plugins_queue dir q (name ∷ rest) =
      load_plugins_queue dir (load_plugin q (path dir name)) rest

  -- `load_plugins` with a list of names, once the directory is found to be safe: the queue and the
  -- calls of `init`.
  unfoldable pub load_plugins : List ℕ → List (List ℕ) → Q × List PluginInfo
  unfolding load_plugins_queue init_calls
  load_plugins dir plugins_to_load =
      let q = load_plugins_queue dir new plugins_to_load in (q, init_calls (entries q))

-- `unload_plugins`: the queue is destroyed; the calls of `exit` are left.
unfoldable pub unload_plugins : (queue : Queue PluginInfo) → queue.Q → List PluginInfo
unfolding exit_calls
unload_plugins queue q = exit_calls (queue.entries (queue.reverse q))
