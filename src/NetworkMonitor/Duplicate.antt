-- ===== src/NetworkMonitor/Duplicate.antt =====
-- A link that is reported both by a notification and by the answer to the first request.
use mptcpd.Common.{ℕ, true, Option, none, some, List, [], ◌∷◌, ◌≡◌, ap, ◌∙◌, arith}
use mptcpd.Ell.Queue.{Queue, insert_entry}
use mptcpd.NetworkMonitor.{
  Link, LinkMsg, Event, Call, Nm, nm_foreach_interface, links_at, matches_index, notify,
}
use mptcpd.NetworkMonitor.Links.{
  link_of, insert_link, remove_link, put_all, is_interface_ready, dellink, handle_link,
  handle_rtm_getlink,
}
use mptcpd.NetworkMonitor.LinkList.{compare_link, find_link, drop_link}
use mptcpd.NetworkMonitor.LinkView.{links_at-drop_entry}
use mptcpd.NetworkMonitor.LinkSpec.{Takes, Inv, view, inserted_links}

-- The first link of its index is the one that was put in last.
drop_link-insert_entry :
    (a : Link) (ls : List Link) → drop_link a.index (insert_entry compare_link a ls) ≡ ls
unfolding drop_link insert_entry compare_link
drop_link-insert_entry a [] = ground arith
drop_link-insert_entry a (l ∷ ls) = ground (arith, drop_link-insert_entry a ls)

module _ (queue : Queue ℕ) where
  open queue use {entries, remove_if}

  remove_link-links :
      (i : ℕ) (nm : Nm queue)
      → nm_foreach_interface queue (remove_link queue i nm).0
        ≡ drop_link i (nm_foreach_interface queue nm)
  unfolding remove_link nm_foreach_interface
  remove_link-links i nm =
      let match = matches_index queue nm i in
      go (remove_if nm.interfaces match).1 (
        ap (links_at queue nm.iface_at) (queue.entries-remove_if nm.interfaces match)
        ∙ links_at-drop_entry queue nm.iface_at i (entries nm.interfaces))
    where
      go :
          (o : Option ℕ)
          → links_at queue nm.iface_at
              (entries (remove_if nm.interfaces (matches_index queue nm i)).0)
            ≡ drop_link i (links_at queue nm.iface_at (entries nm.interfaces))
          → let nm' = record nm {
            interfaces = (remove_if nm.interfaces (matches_index queue nm i)).0;
          } in
            let after : Nm queue × List Call = elim o [
              | none ↦ (nm', [])
              | some at ↦ (
                record nm' { addr_at = put_all nm.addr_at (entries (nm.iface_at at).addrs) },
                notify queue nm' (Event.delete_interface (nm.iface_at at).link),
              )
            ] in
            links_at queue after.0.iface_at (entries after.0.interfaces)
            ≡ drop_link i (links_at queue nm.iface_at (entries nm.interfaces))
      go none e = e
      go (some at) e = e

  -- On a valid monitor that already has a ready link, the answer to the request for all links adds it
  -- once more; when the link is then removed, only the second entry goes, and the monitor still has
  -- all the links from before, the removed one among them, if the queue takes every entry.
  pub handle_rtm_getlink_ghost :
      (m : LinkMsg) (nm : Nm queue) (l : Link)
      → Takes queue
      → Inv queue nm
      → is_interface_ready queue nm m ≡ true
      → view queue nm m.index ≡ some l
      → let answered = handle_rtm_getlink queue 0 m nm in
        let removed = (handle_link queue dellink m answered).0 in
        (nm_foreach_interface queue removed ≡ nm_foreach_interface queue nm)
        × (view queue removed m.index ≡ some l)
  unfolding handle_rtm_getlink handle_link view link_of
  handle_rtm_getlink_ghost m nm l takes i ready known =
      let ls = nm_foreach_interface queue nm in
      let e : nm_foreach_interface queue
            (handle_link queue dellink m (handle_rtm_getlink queue 0 m nm)).0
          ≡ ls =
        rw ready (
          remove_link-links m.index (insert_link queue m nm).0
          ∙ ap (drop_link m.index) (inserted_links queue m nm takes i).links
          ∙ drop_link-insert_entry (link_of m) ls) in
      (e, ap (find_link m.index) e ∙ known)
