-- ===== src/NetworkMonitor/LinkSpec.antt =====
-- What the network monitor promises about links: a table of the links that are up, by index.
use mptcpd.Common.{
  ℕ, ◌+◌, ◌/◌, ◌%◌, ◌<◌, Bool, true, ◌&&◌, ◌||◌, map, Option, none, some, List, [], ◌∷◌, ◌==◌,
  if◌then◌else◌, All, update, ◌≡◌, refl, sym, ap, subst, ◌∙◌, arith, Ordering,
}
use mptcpd.Ell.Queue.{Queue, insert_entry, All-insert_entry, All-drop_entry}
use mptcpd.NetworkMonitor.{
  Link, LinkMsg, Event, Nm, Call, OpsInfo, Callback, on_new_interface, on_update_interface,
  on_delete_interface, on_new_address, on_delete_address, callback, notify_list, notify, links_at,
  nm_foreach_interface, matches_index,
}
use mptcpd.NetworkMonitor.Links.{link_of, interface_create, interface_compare, insert_link}
use mptcpd.NetworkMonitor.LinkList.{
  compare_link, find_link, drop_link, set_flags, with_flags, Increasing,
}
use mptcpd.NetworkMonitor.LinkView.{
  link_behind, links_at-insert_entry, links_at_fresh, find_entry_link, links_at-drop_entry,
  links_at-set_flags,
}

-- The links that are up, by index.
abbrev pub Table : Type 0
Table = ℕ → Option Link

abbrev pub put_link : Table → ℕ → Option Link → Table
put_link t i l j = if i == j then l else t j

-- What a message asks for: a link is up, or down, or nothing is said.
pub data Change : Type 0 where
  up : LinkMsg → Change
  down : ℕ → Change
  nothing : Change

-- A link that comes up is new, or keeps what is known of it but its flags.
abbrev pub known : Option Link → LinkMsg → Link
known none m = link_of m
known (some l) m = with_flags l m.flags

abbrev pub table_step : Change → Table → Table
table_step (up m) t = put_link t m.index (some (known (t m.index) m))
table_step (down i) t = put_link t i none
table_step nothing t = t

-- The event that the observers of the table see.
abbrev pub link_event : Option Link → LinkMsg → Event
link_event none m = Event.new_interface (link_of m)
link_event (some l) m = Event.update_interface (with_flags l m.flags)

abbrev pub gone_event : Option Link → Option Event
gone_event none = none
gone_event (some l) = some (Event.delete_interface l)

abbrev pub table_event : Change → Table → Option Event
table_event (up m) t = some (link_event (t m.index) m)
table_event (down i) t = gone_event (t i)
table_event nothing t = none

-- The callback of an event.
abbrev wanted : Event → Callback
wanted (Event.new_interface l) = on_new_interface
wanted (Event.update_interface l) = on_update_interface
wanted (Event.delete_interface l) = on_delete_interface
wanted (Event.new_address l sa) = on_new_address
wanted (Event.delete_address l sa) = on_delete_address

-- The observers among `obs` that have the callback of an event, each called once, in their order.
abbrev pub told_by : List OpsInfo → Event → List Call
told_by [] e = []
told_by (o ∷ obs) e = if o.implements (wanted e) then (o, e) ∷ told_by obs e else told_by obs e

told_step :
    (o : OpsInfo) (e : Event) (more less : List Call)
    → (if o.implements (callback e) then more else less)
      ≡ (if o.implements (wanted e) then more else less)
told_step o (Event.new_interface l) more less = refl
told_step o (Event.update_interface l) more less = refl
told_step o (Event.delete_interface l) more less = refl
told_step o (Event.new_address l sa) more less = refl
told_step o (Event.delete_address l sa) more less = refl

pub notify_list_lem :
    (queue : Queue ℕ) (ops_at : ℕ → OpsInfo) (ats : List ℕ) (e : Event)
    → notify_list queue ops_at ats e ≡ told_by (map ops_at ats) e
unfolding notify_list
notify_list_lem queue ops_at [] e = refl
notify_list_lem queue ops_at (at ∷ ats) e =
    ap (λ l. if (ops_at at).implements (callback e) then (ops_at at, e) ∷ l else l)
      (notify_list_lem queue ops_at ats e)
    ∙ told_step (ops_at at) e _ _

pub notify_lem :
    (queue : Queue ℕ) (nm : Nm queue) (e : Event)
    → notify queue nm e ≡ told_by (map nm.ops_at (queue.entries nm.ops)) e
unfolding notify
notify_lem queue nm e = notify_list_lem queue nm.ops_at (queue.entries nm.ops) e

-- A link with these flags is up: IFF_UP and IFF_RUNNING are set, and IFF_LOOPBACK is not unless such
-- links are monitored.
abbrev pub ready : Bool → ℕ → Bool
ready loopback flags = flags % 2 == 1 && flags / 64 % 2 == 1 && (loopback || flags / 8 % 2 == 0)

pub grown : (l : List ℕ) (n : ℕ) → All (λ k. k < n) l → All (λ k. k < n + 1) l
grown [] n all = tt
grown (x ∷ l) n all = (omega arith, grown l n all.1)

module _ (queue : Queue ℕ) where
  open queue use {Q, entries, insert, find, remove_if}

  -- `l_queue_insert` takes every entry.
  abbrev pub Takes : Type 0
  Takes = (q : Q) (a : ℕ) (compare : ℕ → ℕ → Ordering) → (insert q a compare).1 ≡ true

  -- The indices grow along the queue, and its pointers are in use.
  pub record Inv (nm : Nm queue) : Type 0 where
    pub below : All (λ at. at < nm.fresh) (entries nm.interfaces)
    pub sorted : Increasing (nm_foreach_interface queue nm)

  unfoldable pub view : Nm queue → Table
  view nm i = find_link i (nm_foreach_interface queue nm)

  -- The links of `nm'` are `ls`, and nothing else of it that matters to links has changed.
  pub record Became (nm nm' : Nm queue) (ls : List Link) : Type 0 where
    pub links : nm_foreach_interface queue nm' ≡ ls
    pub below : All (λ at. at < nm'.fresh) (entries nm'.interfaces)
    pub ops : nm'.ops ≡ nm.ops
    pub ops_at : nm'.ops_at ≡ nm.ops_at
    pub loopback : nm'.monitor_loopback ≡ nm.monitor_loopback

  pub find_view :
      (nm : Nm queue) (i : ℕ)
      → link_behind queue nm.iface_at (find nm.interfaces (matches_index queue nm i)) ≡ view nm i
  unfolding view nm_foreach_interface
  find_view nm i =
      ap (link_behind queue nm.iface_at)
        (queue.find-entries nm.interfaces (matches_index queue nm i))
      ∙ find_entry_link queue nm.iface_at i (entries nm.interfaces)

  pub inserted_links :
      (m : LinkMsg) (nm : Nm queue)
      → Takes
      → Inv nm
      → Became nm
          (insert_link queue m nm).0
          (insert_entry compare_link (link_of m) (nm_foreach_interface queue nm))
  unfolding insert_link nm_foreach_interface interface_create
  inserted_links m nm takes i =
      let at = nm.fresh in
      let f = update nm.iface_at at (interface_create queue m) in
      let compare = interface_compare queue f in
      let e : entries (insert nm.interfaces at compare).0
          ≡ insert_entry compare at (entries nm.interfaces) =
        ground
          (arith, queue.entries-insert nm.interfaces at compare, takes nm.interfaces at compare) in
      record {
        links =
            ap (links_at queue f) e
            ∙ links_at-insert_entry queue f at (entries nm.interfaces)
            ∙ ground (
              arith,
              links_at_fresh queue nm.iface_at at (interface_create queue m) (entries nm.interfaces)
                  i.below,
            );
        below = subst (All (λ k. k < nm.fresh + 1)) (sym e) (
            All-insert_entry (λ k. k < nm.fresh + 1) compare at (entries nm.interfaces)
              (omega arith) (grown (entries nm.interfaces) nm.fresh i.below));
        ops = refl;
        ops_at = refl;
        loopback = refl;
      }

  pub updated_links :
      (nm : Nm queue) (i at flags : ℕ)
      → Inv nm
      → find nm.interfaces (matches_index queue nm i) ≡ some at
      → Became nm
          (record nm {
            iface_at =
                update nm.iface_at at
                  (record (nm.iface_at at) { link = with_flags (nm.iface_at at).link flags });
          })
          (set_flags i flags (nm_foreach_interface queue nm))
  unfolding nm_foreach_interface
  updated_links nm i at flags inv h = record {
    links =
        links_at-set_flags queue nm.iface_at i at flags (entries nm.interfaces) inv.sorted
          (sym (queue.find-entries nm.interfaces (matches_index queue nm i)) ∙ h);
    below = inv.below;
    ops = refl;
    ops_at = refl;
    loopback = refl;
  }

  pub removed_links :
      (nm : Nm queue) (i : ℕ)
      → Inv nm
      → Became nm
          (record nm { interfaces = (remove_if nm.interfaces (matches_index queue nm i)).0 })
          (drop_link i (nm_foreach_interface queue nm))
  unfolding nm_foreach_interface
  removed_links nm i inv =
      let e = queue.entries-remove_if nm.interfaces (matches_index queue nm i) in
      record {
        links =
            ap (links_at queue nm.iface_at) e
            ∙ links_at-drop_entry queue nm.iface_at i (entries nm.interfaces);
        below = subst (All (λ k. k < nm.fresh)) (sym e) (
            All-drop_entry (λ k. k < nm.fresh) (matches_index queue nm i) (entries nm.interfaces)
              inv.below);
        ops = refl;
        ops_at = refl;
        loopback = refl;
      }
