-- ===== src/Plugin/LoadOrder.antt =====
-- The order in which plugins are initialised and finalised.
use mptcpd.Common.{
  ℕ, true, List, [], ◌∷◌, ◌++◌, ℤ, ◌≡◌, refl, sym, append-nil, ap, ◌∙◌, arith, inl, inr,
  Option-cases,
}
use mptcpd.Ell.Queue.{Queue, reversed}
use mptcpd.Plugin.Load.{
  PluginInfo, Linker, compare_plugin_priority, plugin_of, path, load_plugin, load_plugins_queue,
  exit_calls, load_plugins, unload_plugins,
}
use mptcpd.Plugin.Priority.{Sorted, at_priority, found, add, Sorted-add, at_priority-add}

module _ (queue : Queue PluginInfo) (dl : Linker) where
  open queue use {Q, new, entries, insert}

  -- `l_queue_insert` takes every entry.
  abbrev pub Takes : Type 0
  Takes = (q : Q) (p : PluginInfo) → (insert q p compare_plugin_priority).1 ≡ true

  entries-load_plugin :
      (q : Q) (file : List ℕ)
      → Takes
      → entries (load_plugin queue dl q file) ≡ add (plugin_of dl file) (entries q)
  unfolding load_plugin
  entries-load_plugin q file takes = elim (Option-cases (plugin_of dl file)) [
    | inl e ↦ ground (arith, e)
    | inr (p, e) ↦ ground (arith, e, queue.entries-insert q p compare_plugin_priority, takes q p)
  ]

  load_plugins_queue-order :
      (dir : List ℕ) (q : Q) (names : List (List ℕ))
      → Takes
      → Sorted (entries q)
      → Sorted (entries (load_plugins_queue queue dl dir q names))
        × ((k : ℤ)
            → at_priority k (entries (load_plugins_queue queue dl dir q names))
              ≡ at_priority k (entries q) ++ at_priority k (found dl dir names))
  unfolding load_plugins_queue found at_priority
  load_plugins_queue-order dir q [] takes s = (s, λ k. sym (append-nil (at_priority k (entries q))))
  load_plugins_queue-order dir q (name ∷ rest) takes s =
      let o = plugin_of dl (path dir name) in
      let e = entries-load_plugin q (path dir name) takes in
      let q' = load_plugin queue dl q (path dir name) in
      let (sorted, same) =
        load_plugins_queue-order dir q' rest takes (rw e (Sorted-add o (entries q) s)) in
      (
        sorted,
        λ k.
            same k
            ∙ ap (λ l. at_priority k l ++ at_priority k (found dl dir rest)) e
            ∙ at_priority-add k o (entries q) (found dl dir rest) s,
      )

  -- The plugins found are kept in the order of their priorities, the lowest number first, and those
  -- of one priority in the order in which they were requested; each is kept once for each request,
  -- and no other is, if the queue takes every entry.
  pub load_plugins-order :
      (dir : List ℕ) (names : List (List ℕ))
      → Takes
      → Sorted (entries (load_plugins queue dl dir names).0)
        × ((k : ℤ)
            → at_priority k (entries (load_plugins queue dl dir names).0)
              ≡ at_priority k (found dl dir names))
  unfolding load_plugins Sorted at_priority
  load_plugins-order dir names takes =
      let e = queue.entries-new in
      let (sorted, same) = load_plugins_queue-order dir new names takes (rw e tt) in
      (sorted, λ k. same k ∙ ap (λ l. at_priority k l ++ at_priority k (found dl dir names)) e)

exit_calls-append :
    (xs ys : List PluginInfo) → exit_calls (xs ++ ys) ≡ exit_calls xs ++ exit_calls ys
unfolding exit_calls
exit_calls-append [] ys = refl
exit_calls-append (x ∷ xs) ys = ground (arith, exit_calls-append xs ys)

exit_calls-reversed : (xs : List PluginInfo) → exit_calls (reversed xs) ≡ reversed (exit_calls xs)
unfolding exit_calls reversed
exit_calls-reversed [] = refl
exit_calls-reversed (x ∷ xs) = ground (
  arith,
  exit_calls-append (reversed xs) (x ∷ []),
  exit_calls-reversed xs,
  append-nil (reversed (exit_calls xs)),
)

-- Unloading calls the `exit` functions that are set, in the reverse order of the queue.
pub unload_plugins-reversed :
    (queue : Queue PluginInfo) (q : queue.Q)
    → unload_plugins queue q ≡ reversed (exit_calls (queue.entries q))
unfolding unload_plugins
unload_plugins-reversed queue q =
    rw (queue.entries-reverse q) (exit_calls-reversed (queue.entries q))
