-- ===== src/NetworkMonitor/Tracking.antt =====
-- Which addresses an interface has, and what the observers hear of them.
use mptcpd.Common.{
  ℕ, ◌/◌, ◌%◌, ◌<◌, map, Bool, true, false, ◌||◌, ◌&&◌, not, Option, none, some, List, [], ◌∷◌,
  ◌==◌, is_some, if◌then◌else◌, Ordering, All, update, ◌≡◌, refl, sym, ap, ◌∙◌, fun_ext, arith,
  Bool-cases, inl, inr,
}
use mptcpd.Ell.Queue.{Queue, insert_entry, find_entry}
use mptcpd.Ell.HashMap.{is_eq}
use mptcpd.HashSockaddr.{memcmp}
use mptcpd.NetworkMonitor.{AddrInfo, Call, Event, Nm, notify, matches_index, has_bit}
use mptcpd.NetworkMonitor.Links.{addr_put}
use mptcpd.NetworkMonitor.Routes.{
  RouteReply, is_default, found_route, handle_rtm_getroute, check_default_route,
}
use mptcpd.NetworkMonitor.RouteLife.{replied}
use mptcpd.NetworkMonitor.Addresses.{
  addr_create, addr_match, matches_addr, addr_compare, insert_addr_return, update_addr, remove_addr,
  interface_link, flag_route_check,
}
use mptcpd.NetworkMonitor.LinkSpec.{Takes, told_by, notify_lem}
use mptcpd.Sockaddr.{Sockaddr, is_inet}

-- The flags that leave an address of some scope out.
abbrev pub skipped : ℕ → ℕ → Bool
skipped flags scope = (flags / 2 % 2 == 1 && scope == 253) || (flags / 4 % 2 == 1 && scope == 254)

-- Byte sequences that are the same.
abbrev pub same_bytes : List ℕ → List ℕ → Bool
same_bytes [] [] = true
same_bytes (x ∷ xs) (y ∷ ys) = x == y && same_bytes xs ys
same_bytes _ _ = false

-- Addresses of one family and the same 4 or 16 bytes, whatever their ports.
unfoldable pub same_host : Sockaddr → Sockaddr → Bool
same_host a b =
    a.family == b.family
    && (if a.family == 2 then a.addr4 == b.addr4 else same_bytes a.addr6 b.addr6)

pub is_eq-memcmp : (xs ys : List ℕ) → is_eq (memcmp xs ys) ≡ same_bytes xs ys
unfolding memcmp
is_eq-memcmp [] [] = refl
is_eq-memcmp [] (y ∷ ys) = refl
is_eq-memcmp (x ∷ xs) [] = refl
is_eq-memcmp (x ∷ xs) (y ∷ ys) = ground (arith, is_eq-memcmp xs ys)

addr_match_lem : (a b : Sockaddr) → addr_match a b ≡ same_host a b
unfolding addr_match same_host
addr_match_lem a b = ground (arith, is_eq-memcmp a.addr6 b.addr6)

appended_found :
    (match : ℕ → Bool) (a : ℕ) (l : List ℕ)
    → is_some (find_entry match (insert_entry (λ x y. Ordering.gt) a l))
      ≡ (match a || is_some (find_entry match l))
unfolding find_entry insert_entry
appended_found match a [] = ground arith
appended_found match a (x ∷ l) = ground (arith, appended_found match a l)

module _ (queue : Queue ℕ) where
  open queue use {entries, insert, find, remove_if}

  -- A queue of addresses has the address.
  unfoldable pub tracks_in : (ℕ → AddrInfo) → queue.Q → Sockaddr → Bool
  tracks_in f q sa = is_some (find q (λ at. same_host (f at).address sa))

  -- The interface at `i` has the address.
  abbrev pub tracks : Nm queue → ℕ → Sockaddr → Bool
  tracks nm i sa = tracks_in nm.addr_at (nm.iface_at i).addrs sa

  -- What the code looks for.
  matches_lem :
      (nm : Nm queue) (sa : Sockaddr)
      → matches_addr queue nm sa ≡ (λ at. same_host (nm.addr_at at).address sa)
  matches_lem nm sa = fun_ext (λ at. addr_match_lem (nm.addr_at at).address sa)

  fresh_found :
      (f : ℕ → AddrInfo) (a : ℕ) (ai : AddrInfo) (sa : Sockaddr) (l : List ℕ)
      → All (λ at. at < a) l
      → find_entry (λ at. same_host (update f a ai at).address sa) l
        ≡ find_entry (λ at. same_host (f at).address sa) l
  unfolding find_entry
  fresh_found f a ai sa [] all = refl
  fresh_found f a ai sa (x ∷ l) all = ground (arith, all, fresh_found f a ai sa l all.1)

  update_self : (f : ℕ → AddrInfo) (a : ℕ) (ai : AddrInfo) → update f a ai a ≡ ai
  update_self f a ai = ground arith

  inserted_tracks :
      (f : ℕ → AddrInfo) (a : ℕ) (ai : AddrInfo) (q : queue.Q) (sb : Sockaddr)
      → (insert q a addr_compare).1 ≡ true
      → All (λ at. at < a) (entries q)
      → tracks_in (update f a ai) (insert q a addr_compare).0 sb
        ≡ (same_host ai.address sb || tracks_in f q sb)
  unfolding tracks_in
  inserted_tracks f a ai q sb ok below =
      let match = λ (at : ℕ). same_host (update f a ai at).address sb in
      let e : entries (insert q a addr_compare).0 ≡ insert_entry addr_compare a (entries q) =
        ground (arith, queue.entries-insert q a addr_compare, ok) in
      ap is_some (queue.find-entries (insert q a addr_compare).0 match ∙ ap (find_entry match) e)
      ∙ appended_found match a (entries q)
      ∙ ground (
        arith,
        update_self f a ai,
        fresh_found f a ai sb (entries q) below,
        queue.find-entries q (λ at. same_host (f at).address sb),
      )

  -- `update_addr` on an address that the interface has already, or whose scope is left out.
  update_addr_known :
      (sent : Bool) (scope i : ℕ) (sa : Sockaddr) (nm : Nm queue)
      → (skipped nm.notify_flags scope || tracks nm i sa) ≡ true
      → update_addr queue sent scope i sa nm ≡ (nm, [])
  unfolding update_addr tracks_in
  update_addr_known sent scope i sa nm h =
      ground (arith, h, ap (find (nm.iface_at i).addrs) (matches_lem nm sa))

  -- The address as it is stored.
  abbrev stored : ℕ → Sockaddr → Nm queue → AddrInfo
  stored i sa nm = record (addr_create sa) {
    interface = some i;
    index = (nm.iface_at i).link.index;
  }

  update_addr_new :
      (sent : Bool) (scope i : ℕ) (sa : Sockaddr) (nm : Nm queue)
      → Takes queue
      → (skipped nm.notify_flags scope || tracks nm i sa) ≡ false
      → is_inet sa ≡ true
      → let r = update_addr queue sent scope i sa nm in
        let ai =
          (if has_bit nm.notify_flags flag_route_check
            then check_default_route sent (stored i sa nm)
            else stored i sa nm) in
        ((k : ℕ) → r.0.addr_at k ≡ update nm.addr_at nm.fresh ai k)
        × ((r.0.iface_at i).addrs ≡ (insert (nm.iface_at i).addrs nm.fresh addr_compare).0)
        × (r.1 ≡ (
            if has_bit nm.notify_flags flag_route_check
            then []
            else notify queue nm (Event.new_address (nm.iface_at i).link (record sa { port = 0 }))))
  unfolding update_addr insert_addr_return tracks_in notify addr_create
  update_addr_new sent scope i sa nm takes h inet =
      let t = takes (nm.iface_at i).addrs nm.fresh addr_compare in
      let e = ap (find (nm.iface_at i).addrs) (matches_lem nm sa) in
      (
        λ k. ground (arith, h, inet, t, e),
        ground (arith, h, inet, t, e),
        ground (arith, h, inet, t, e),
      )

  check_address : (sent : Bool) (ai : AddrInfo) → (check_default_route sent ai).address ≡ ai.address
  unfolding check_default_route
  check_address sent ai = ground arith

  new_address_joins :
      (sent : Bool) (scope i : ℕ) (sa sb : Sockaddr) (nm : Nm queue)
      → Takes queue
      → All (λ at. at < nm.fresh) (entries (nm.iface_at i).addrs)
      → (skipped nm.notify_flags scope || tracks nm i sa) ≡ false
      → is_inet sa ≡ true
      → tracks (update_addr queue sent scope i sa nm).0 i sb ≡ (same_host sa sb || tracks nm i sb)
  unfolding addr_create same_host
  new_address_joins sent scope i sa sb nm takes below h inet =
      let (store, addrs, _) = update_addr_new sent scope i sa nm takes h inet in
      let ai : AddrInfo =
        (if has_bit nm.notify_flags flag_route_check
          then check_default_route sent (stored i sa nm)
          else stored i sa nm) in
      let same : ai.address ≡ record sa { port = 0 } =
        ground (arith, check_address sent (stored i sa nm)) in
      ap (λ f. tracks_in f ((update_addr queue sent scope i sa nm).0.iface_at i).addrs sb)
        (fun_ext store)
      ∙ ap (λ q. tracks_in (update nm.addr_at nm.fresh ai) q sb) addrs
      ∙ inserted_tracks nm.addr_at nm.fresh ai (nm.iface_at i).addrs sb
          (takes (nm.iface_at i).addrs nm.fresh addr_compare) below
      ∙ ap (λ a. same_host a sb || tracks nm i sb) same

  -- After `update_addr` of an IPv4 or IPv6 address an interface has the addresses from before, and the
  -- new one if its scope is not left out. Each observer with the callback is told of it once exactly if
  -- the interface did not have it, its scope is not left out and no route has to be checked first. The
  -- queue takes every entry, and the pointers of the interface's addresses are below the next fresh one.
  pub update_addr-tracks :
      (sent : Bool) (scope i : ℕ) (sa sb : Sockaddr) (nm : Nm queue)
      → Takes queue
      → All (λ at. at < nm.fresh) (entries (nm.iface_at i).addrs)
      → is_inet sa ≡ true
      → let r = update_addr queue sent scope i sa nm in
        let known = skipped nm.notify_flags scope || tracks nm i sa in
        (tracks r.0 i sb ≡ (tracks nm i sb || (not known && same_host sa sb)))
        × (r.1 ≡ (
            if known || nm.notify_flags / 8 % 2 == 1
            then []
            else told_by
                (map nm.ops_at (entries nm.ops))
                (Event.new_address (nm.iface_at i).link (record sa { port = 0 }))))
  update_addr-tracks sent scope i sa sb nm takes below inet =
      elim (Bool-cases (skipped nm.notify_flags scope || tracks nm i sa)) [
        | inl h ↦
            let e = update_addr_known sent scope i sa nm h in
            (ground (arith, e, h), ground (arith, e, h))
        | inr h ↦
            let calls = (update_addr_new sent scope i sa nm takes h inet).2 in
            (
              ground (arith, h, new_address_joins sent scope i sa sb nm takes below h inet),
              ground (
                arith,
                h,
                calls,
                notify_lem queue nm
                    (Event.new_address (nm.iface_at i).link (record sa { port = 0 })),
              ),
            )
      ]

  same_state :
      (o : Option ℕ) (nm : Nm queue) (calls : ℕ → List Call)
      → (elim o as (λ x. Nm queue × List Call) [
        | none ↦ (nm, [])
        | some i ↦ (nm, calls i)
      ]).0.addr_at
        ≡ nm.addr_at
  same_state none nm calls = refl
  same_state (some i) nm calls = refl

  -- What `handle_rtm_getroute` does to its address object.
  getroute_replied :
      (armed : Bool) (r : RouteReply) (at : ℕ) (nm : Nm queue)
      → (handle_rtm_getroute queue armed r at nm).0.addr_at
        ≡ update nm.addr_at at (
            replied armed r
              (find nm.interfaces (matches_index queue nm (nm.addr_at at).index))
              (nm.addr_at at))
  unfolding handle_rtm_getroute
  getroute_replied armed r at nm =
      let interface = find nm.interfaces (matches_index queue nm (nm.addr_at at).index) in
      elim (Bool-cases (is_default r (nm.addr_at at))) [
        | inl h ↦ rw h (
            same_state interface
              (record nm { addr_at = update nm.addr_at at (found_route interface (nm.addr_at at)) })
              (λ i.
                notify queue nm (Event.new_address (nm.iface_at i).link (nm.addr_at at).address)))
        | inr h ↦ rw h
      ]

  put_keeps :
      (addr_at : ℕ → AddrInfo) (at : ℕ) (r : RouteReply)
      → is_default r (addr_at at) ≡ true
      → (is_default r (addr_put addr_at at at) ≡ true)
        × ((addr_put addr_at at at).index ≡ (addr_at at).index)
        × ((addr_put addr_at at at).address ≡ (addr_at at).address)
  unfolding addr_put
  put_keeps addr_at at r h = (
    elim r [ RouteReply.failed ↦ ground arith | RouteReply.route d n ↦ ground arith ],
    ground arith,
    ground arith,
  )

  -- What `remove_addr` leaves behind of the address object `at` and of the interfaces.
  remove_addr_found :
      (i at : ℕ) (sa : Sockaddr) (nm : Nm queue)
      → find (nm.iface_at i).addrs (matches_addr queue nm sa) ≡ some at
      → remove_addr queue i sa nm ≡ (
        record nm {
          iface_at = update nm.iface_at i (record (nm.iface_at i) {
            addrs = (remove_if (nm.iface_at i).addrs (matches_addr queue nm sa)).0;
          });
          addr_at = addr_put nm.addr_at at;
        },
        notify queue nm (Event.delete_address (interface_link queue nm at) (nm.addr_at at).address),
      )
  unfolding remove_addr notify
  remove_addr_found i at sa nm has =
      let match = matches_addr queue nm sa in
      let e : (remove_if (nm.iface_at i).addrs match).1 ≡ some at =
        queue.remove_if-entries (nm.iface_at i).addrs match
        ∙ sym (queue.find-entries (nm.iface_at i).addrs match)
        ∙ has in
      ground (arith, e)

  getroute_announced :
      (armed : Bool) (r : RouteReply) (i at : ℕ) (nm : Nm queue)
      → is_default r (nm.addr_at at) ≡ true
      → find nm.interfaces (matches_index queue nm (nm.addr_at at).index) ≡ some i
      → (handle_rtm_getroute queue armed r at nm).1
        ≡ notify queue nm (Event.new_address (nm.iface_at i).link (nm.addr_at at).address)
  unfolding handle_rtm_getroute
  getroute_announced armed r i at nm h e = rw (h, e)

  getroute_keeps :
      (armed : Bool) (r : RouteReply) (at : ℕ) (nm : Nm queue)
      → (handle_rtm_getroute queue armed r at nm).0.iface_at ≡ nm.iface_at
  unfolding handle_rtm_getroute
  getroute_keeps armed r at nm = ground arith

  -- An address object that its interface has, and whose interface the monitor still has when the
  -- reply about its route comes, which names a default route through it: where the address is removed
  -- before the reply, each observer with the callback is told once that it has gone, and then once
  -- more that it is new, although the reply does not put it back into the list of the interface.
  pub removed_address_announced :
      (armed : Bool) (r : RouteReply) (i at : ℕ) (sa : Sockaddr) (nm : Nm queue)
      → find (nm.iface_at i).addrs (matches_addr queue nm sa) ≡ some at
      → (nm.addr_at at).interface ≡ some i
      → find nm.interfaces (matches_index queue nm (nm.addr_at at).index) ≡ some i
      → is_default r (nm.addr_at at) ≡ true
      → let removed = remove_addr queue i sa nm in
        let answered = handle_rtm_getroute queue armed r at removed.0 in
        let link = (nm.iface_at i).link in
        let address = (nm.addr_at at).address in
        let observers = map nm.ops_at (entries nm.ops) in
        (removed.1 ≡ told_by observers (Event.delete_address link address))
        × (answered.1 ≡ told_by observers (Event.new_address link address))
        × (answered.0.iface_at ≡ removed.0.iface_at)
  unfolding notify
  removed_address_announced armed r i at sa nm has back still default =
      let f = update nm.iface_at i (record (nm.iface_at i) {
        addrs = (remove_if (nm.iface_at i).addrs (matches_addr queue nm sa)).0;
      }) in
      let after : Nm queue = record nm { iface_at = f; addr_at = addr_put nm.addr_at at } in
      let same : (k : ℕ) → (f k).link ≡ (nm.iface_at k).link = λ k. ground arith in
      let (default', index, address) = put_keeps nm.addr_at at r default in
      let still' : find nm.interfaces (matches_index queue after (after.addr_at at).index)
          ≡ some i =
        ap (find nm.interfaces) (fun_ext (λ k. ground (arith, same k, index))) ∙ still in
      rw (remove_addr_found i at sa nm has) (
        ap (λ l. notify queue nm (Event.delete_address l (nm.addr_at at).address))
              (ground (arith, back))
            ∙ notify_lem queue nm
                (Event.delete_address (nm.iface_at i).link (nm.addr_at at).address),
        getroute_announced armed r i at after default' still'
            ∙ ap (λ l. notify queue nm (Event.new_address l (after.addr_at at).address)) (same i)
            ∙ ap (λ a. notify queue nm (Event.new_address (nm.iface_at i).link a)) address
            ∙ notify_lem queue nm (Event.new_address (nm.iface_at i).link (nm.addr_at at).address),
        getroute_keeps armed r at after,
      )
