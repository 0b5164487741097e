-- ===== src/Plugin/LoadTests.antt =====
-- Runs of the loading of plugins, and the theorems at inputs that meet their hypotheses.
use mptcpd.Common.{
  ℕ, true, none, some, List, [], ◌∷◌, ℤ, pos, negsuc, ◌≡◌, ◌==◌, if◌then◌else◌, refl,
}
use mptcpd.Ell.Queue.{list_queue, insert_entry, reversed}
use mptcpd.Plugin.Load.{
  PluginInfo, Linker, plugin_of, compare_plugin_priority, load_plugin, load_plugins_queue,
  init_calls, exit_calls, load_plugins, unload_plugins,
}
use mptcpd.Plugin.Priority.{Sorted, at_priority, found}
use mptcpd.Plugin.LoadOrder.{load_plugins-order}

runs : Unit {0}
unfolding insert_entry reversed plugin_of compare_plugin_priority load_plugin load_plugins_queue
    init_calls exit_calls load_plugins unload_plugins Sorted at_priority found
runs = tt

abbrev plugin : ℕ → ℤ → PluginInfo
plugin handle priority = record {
  handle = handle;
  desc = record {
    name = some (handle ∷ []);
    priority = priority;
    has_init = true;
    has_exit = true;
  };
}

-- The files "/a.so" to "/d.so": "/c.so" has no descriptor, other files do not exist.
abbrev files : Linker
files [] = none
files (slash ∷ []) = none
files (slash ∷ name ∷ rest) =
    if name == 0x61
    then some (1, some (plugin 1 (pos 0)).desc)
    else if name == 0x62
    then some (2, some (plugin 2 (negsuc 19)).desc)
    else if name == 0x63
    then some (3, none)
    else if name == 0x64
    then some (4, some (plugin 4 (pos 0)).desc)
    else none

abbrev request : List (List ℕ)
request = (0x61 ∷ []) ∷ (0x62 ∷ []) ∷ (0x63 ∷ []) ∷ (0x64 ∷ []) ∷ (0x65 ∷ []) ∷ []

abbrev kept : List PluginInfo
kept = plugin 2 (negsuc 19) ∷ plugin 1 (pos 0) ∷ plugin 4 (pos 0) ∷ []

loads : load_plugins (list_queue PluginInfo) files [] request ≡ (kept, kept)
unfolding runs
loads = refl

load_plugins-order_example :
    Sorted kept × ((k : ℤ) → at_priority k kept ≡ at_priority k (found files [] request))
unfolding runs
load_plugins-order_example =
    load_plugins-order (list_queue PluginInfo) files [] request (λ q p. refl)
