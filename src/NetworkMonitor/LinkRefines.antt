-- ===== src/NetworkMonitor/LinkRefines.antt =====
-- The handlers of link messages implement the table of links.
use mptcpd.Common.{
  ℕ, Bool, Option, none, some, List, [], update, ◌≡◌, refl, sym, ap, subst, ◌∙◌, arith,
  if◌then◌else◌, map, Bool-cases, Option-cases, inl, inr,
}
use mptcpd.Ell.Queue.{Queue}
use mptcpd.NetworkMonitor.{
  Link, LinkMsg, Event, Call, Nm, nm_foreach_interface, matches_index, notify,
}
use mptcpd.NetworkMonitor.Links.{
  link_of, interface_create, interface_compare, is_interface_ready, insert_link, update_link,
  remove_link, LinkType, newlink, dellink, unexpected, handle_link, put_all,
}
use mptcpd.NetworkMonitor.LinkList.{
  find_link, drop_link, with_flags, Increasing, find_link-insert_entry, Increasing-insert_entry,
  find_link-drop_link, Increasing-drop_link, find_link-set_flags, Increasing-set_flags,
}
use mptcpd.NetworkMonitor.LinkView.{link_behind}
use mptcpd.NetworkMonitor.LinkSpec.{
  Change, up, down, nothing, table_step, gone_event, table_event, Takes, Inv, view, Became, ready,
  told_by, notify_lem, notify_list_lem, find_view, inserted_links, updated_links, removed_links,
}

-- What a message of a type asks of the table; `loopback` is whether loopback links are monitored.
abbrev pub change_of : LinkType → Bool → LinkMsg → Change
change_of newlink loopback m = if ready loopback m.flags then up m else down m.index
change_of dellink loopback m = down m.index
change_of unexpected loopback m = nothing

module _ (queue : Queue ℕ) where
  open queue use {Q, entries, insert, find, remove_if}

  -- The calls that an event of the table makes.
  abbrev pub calls_of : Nm queue → Option Event → List Call
  calls_of nm none = []
  calls_of nm (some e) = told_by (map nm.ops_at (entries nm.ops)) e

  -- A handler that went from `nm` to `nm'` did to the table what `c` asks for, told every observer,
  -- and kept the invariant and the observers.
  pub record Refines (nm nm' : Nm queue) (calls : List Call) (c : Change) : Type 0 where
    pub valid : Inv queue nm'
    pub table : (j : ℕ) → view queue nm' j ≡ table_step c (view queue nm) j
    pub told : calls ≡ calls_of nm (table_event c (view queue nm))
    pub ops : nm'.ops ≡ nm.ops
    pub ops_at : nm'.ops_at ≡ nm.ops_at
    pub loopback : nm'.monitor_loopback ≡ nm.monitor_loopback

  update_link_new :
      (m : LinkMsg) (nm : Nm queue)
      → Takes queue
      → find nm.interfaces (matches_index queue nm m.index) ≡ none
      → update_link queue m nm
        ≡ ((insert_link queue m nm).0, notify queue nm (Event.new_interface (link_of m)))
  unfolding update_link insert_link notify interface_create
  update_link_new m nm takes h = ground (
    arith,
    h,
    takes nm.interfaces nm.fresh
        (interface_compare queue (update nm.iface_at nm.fresh (interface_create queue m))),
  )

  update_link_known :
      (m : LinkMsg) (nm : Nm queue) (at : ℕ)
      → find nm.interfaces (matches_index queue nm m.index) ≡ some at
      → update_link queue m nm ≡ (
        record nm {
          iface_at =
              update nm.iface_at at
                (record (nm.iface_at at) { link = with_flags (nm.iface_at at).link m.flags });
        },
        notify queue nm (Event.update_interface (with_flags (nm.iface_at at).link m.flags)),
      )
  unfolding update_link notify
  update_link_known m nm at h = ground (arith, h)

  refine :
      (nm nm' : Nm queue) (calls : List Call) (c : Change) (ls : List Link)
      → Became queue nm nm' ls
      → Increasing ls
      → ((j : ℕ) → find_link j ls ≡ table_step c (view queue nm) j)
      → calls ≡ calls_of nm (table_event c (view queue nm))
      → Refines nm nm' calls c
  unfolding view
  refine nm nm' calls c ls b sorted table told = record {
    valid = record { below = b.below; sorted = subst Increasing (sym b.links) sorted };
    table = λ j. ap (find_link j) b.links ∙ table j;
    told = told;
    ops = b.ops;
    ops_at = b.ops_at;
    loopback = b.loopback;
  }

  update_link-Refines :
      (m : LinkMsg) (nm : Nm queue)
      → Takes queue
      → Inv queue nm
      → Refines nm (update_link queue m nm).0 (update_link queue m nm).1 (up m)
  unfolding view link_of
  update_link-Refines m nm takes i =
      let ls = nm_foreach_interface queue nm in
      elim (Option-cases (find nm.interfaces (matches_index queue nm m.index))) [
        | inl h ↦
            let free : find_link m.index ls ≡ none =
              sym (find_view queue nm m.index) ∙ ap (link_behind queue nm.iface_at) h in
            rw (update_link_new m nm takes h) (
              refine nm (insert_link queue m nm).0 _ (up m) _ (inserted_links queue m nm takes i)
                (Increasing-insert_entry (link_of m) ls free i.sorted)
                (λ j. ground (arith, free, find_link-insert_entry j (link_of m) ls free))
                (notify_lem queue nm (Event.new_interface (link_of m)) ∙ ground (arith, free)))
        | inr (at, h) ↦
            let there : find_link m.index ls ≡ some (nm.iface_at at).link =
              sym (find_view queue nm m.index) ∙ ap (link_behind queue nm.iface_at) h in
            rw (update_link_known m nm at h) (
              refine nm _ _ (up m) _ (updated_links queue nm m.index at m.flags i h)
                (Increasing-set_flags m.index m.flags ls i.sorted)
                (λ j. ground (arith, there, find_link-set_flags m.index j m.flags ls))
                (notify_lem queue nm
                    (Event.update_interface (with_flags (nm.iface_at at).link m.flags))
                  ∙ ground (arith, there)))
      ]

  removed_calls :
      (i : ℕ) (nm : Nm queue)
      → (remove_link queue i nm).1 ≡ calls_of nm (gone_event (view queue nm i))
  unfolding remove_link notify
  removed_calls i nm =
      let found = queue.remove_if-entries nm.interfaces (matches_index queue nm i) in
      let same = queue.find-entries nm.interfaces (matches_index queue nm i) in
      let view_lem = find_view queue nm i in
      elim (Option-cases (remove_if nm.interfaces (matches_index queue nm i)).1) [
        | inl h ↦ ground (arith, found, same, view_lem, h)
        | inr (at, h) ↦
            let e = Event.delete_interface (nm.iface_at at).link in
            ground
              (arith, found, same, view_lem, h, notify_list_lem queue nm.ops_at (entries nm.ops) e)
      ]

  removed_state :
      (i : ℕ) (nm : Nm queue)
      → Inv queue nm
      → Became queue nm (remove_link queue i nm).0 (drop_link i (nm_foreach_interface queue nm))
  unfolding remove_link nm_foreach_interface
  removed_state i nm inv = go (remove_if nm.interfaces (matches_index queue nm i)).1
    where
      b :
          Became queue nm
            (record nm { interfaces = (remove_if nm.interfaces (matches_index queue nm i)).0 })
            (drop_link i (nm_foreach_interface queue nm))
      b = removed_links queue nm i inv

      go :
          (o : Option ℕ)
          → let nm' = record nm {
            interfaces = (remove_if nm.interfaces (matches_index queue nm i)).0;
          } in
            let after : Nm queue × List Call = elim o [
              | none ↦ (nm', [])
              | some at ↦ (
                record nm' { addr_at = put_all nm.addr_at (entries (nm.iface_at at).addrs) },
                notify queue nm' (Event.delete_interface (nm.iface_at at).link),
              )
            ] in
            Became queue nm after.0 (drop_link i (nm_foreach_interface queue nm))
      go none = b
      go (some at) = record {
        links = b.links;
        below = b.below;
        ops = b.ops;
        ops_at = b.ops_at;
        loopback = b.loopback;
      }

  remove_link-Refines :
      (i : ℕ) (nm : Nm queue)
      → Inv queue nm
      → Refines nm (remove_link queue i nm).0 (remove_link queue i nm).1 (down i)
  unfolding view
  remove_link-Refines i nm inv =
      let ls = nm_foreach_interface queue nm in
      refine nm _ _ (down i) _ (removed_state i nm inv) (Increasing-drop_link i ls inv.sorted)
        (λ j. find_link-drop_link i j ls inv.sorted) (removed_calls i nm)

  is_interface_ready_lem :
      (nm : Nm queue) (m : LinkMsg)
      → is_interface_ready queue nm m ≡ ready nm.monitor_loopback m.flags
  unfolding is_interface_ready
  is_interface_ready_lem nm m = ground arith

  -- On a valid monitor the handler of link messages implements the table of links: the table changes
  -- as the message asks, every observer that has the callback is told of the change once and no one
  -- of anything else, and the monitor is valid, with the same observers, after it, if the queue takes
  -- every entry. A new link counts as up if IFF_UP and IFF_RUNNING are set, and IFF_LOOPBACK is not
  -- unless such links are monitored.
  pub handle_link-Refines :
      (kind : LinkType) (m : LinkMsg) (nm : Nm queue)
      → Takes queue
      → Inv queue nm
      → Refines nm
          (handle_link queue kind m nm).0
          (handle_link queue kind m nm).1
          (change_of kind nm.monitor_loopback m)
  unfolding handle_link
  handle_link-Refines newlink m nm takes i =
      let is_ready = is_interface_ready_lem nm m in
      elim (Bool-cases (ready nm.monitor_loopback m.flags)) [
        | inl e ↦ rw (is_ready, e) (update_link-Refines m nm takes i)
        | inr e ↦ rw (is_ready, e) (remove_link-Refines m.index nm i)
      ]
  handle_link-Refines dellink m nm takes i = remove_link-Refines m.index nm i
  handle_link-Refines unexpected m nm takes i = record {
    valid = i;
    table = λ j. refl;
    told = refl;
    ops = refl;
    ops_at = refl;
    loopback = refl;
  }
