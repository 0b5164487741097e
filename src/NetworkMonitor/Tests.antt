-- ===== src/NetworkMonitor/Tests.antt =====
-- Runs of the network monitor, and the theorems at inputs that meet their hypotheses.
use mptcpd.Common.{
  ℕ, ◌+◌, ◌/◌, ◌%◌, ◌==◌, ◌≤◌, map, true, false, not, none, some, List, [], ◌∷◌, ◌≡◌, refl, arith,
  ◌||◌, ◌&&◌, if◌then◌else◌,
}
use mptcpd.Ell.Queue.{Queue, list_queue, insert_entry, find_entry, drop_entry}
use mptcpd.HashSockaddr.{memcmp}
use mptcpd.NetworkMonitor.{
  Link, LinkMsg, Event, Call, Nm, nm_create, register_ops, nm_monitor_loopback, notify, notify_list,
  nm_foreach_interface, links_at, matches_index,
}
use mptcpd.NetworkMonitor.Addresses.{
  addr_create, addr_match, matches_addr, insert_addr_return, update_addr, remove_addr,
  foreach_ifaddr, get_interface, handle_ifaddr, insert_addr, handle_rtm_getaddr, asks_addresses,
}
use mptcpd.NetworkMonitor.Duplicate.{handle_rtm_getlink_ghost}
use mptcpd.NetworkMonitor.LinkHistory.{run, run-table, changes, table_run, calls_run}
use mptcpd.NetworkMonitor.LinkList.{find_link, Increasing}
use mptcpd.NetworkMonitor.LinkRefines.{Refines, change_of, handle_link-Refines}
use mptcpd.NetworkMonitor.LinkSpec.{Inv, view, told_by}
use mptcpd.NetworkMonitor.Links.{
  cstring, link_name, link_of, addr_put, put_all, interface_create, interface_compare,
  is_interface_ready, insert_link, update_link, remove_link, handle_link, handle_rtm_getlink,
  LinkType,
}
use mptcpd.NetworkMonitor.RouteLife.{
  Life, Step, Reach, start, steps, start-counts, start-leaks, start-ends,
}
use mptcpd.NetworkMonitor.Routes.{
  RouteReply, check_default_route, schedule_route_check, handle_rtm_timeout, found_route,
  is_default, handle_rtm_getroute,
}
use mptcpd.NetworkMonitor.Tracking.{
  tracks, tracks_in, same_host, skipped, update_addr-tracks, removed_address_announced,
}
use mptcpd.Sockaddr.{Sockaddr}

runs : Unit {0}
unfolding find_entry insert_entry drop_entry memcmp nm_create register_ops nm_monitor_loopback
    notify notify_list nm_foreach_interface links_at cstring link_name link_of addr_put put_all
    interface_create interface_compare is_interface_ready insert_link update_link remove_link
    handle_link handle_rtm_getlink addr_create addr_match insert_addr_return update_addr remove_addr
    foreach_ifaddr get_interface handle_ifaddr insert_addr handle_rtm_getaddr asks_addresses
    check_default_route schedule_route_check handle_rtm_timeout found_route handle_rtm_getroute run
    find_link Increasing view start tracks_in same_host
runs = tt

abbrev q : Queue ℕ
q = list_queue ℕ

-- 192.0.2.1.
abbrev sa : Sockaddr
sa = record { family = 2; port = 0; addr4 = 0x010200c0; addr6 = [] }

abbrev no_link : Link
no_link = record { family = 0; kind = 0; index = 0; flags = 0; name = [] }

abbrev new_monitor : ℕ → Nm q
new_monitor flags =
    nm_create q flags (λ at. record { link = no_link; addrs = [] }) (λ at. addr_create sa)
      (λ at. record { implements = λ c. false; user_data = 0 })

-- An observer that wants every event.
abbrev observed : ℕ → Nm q
observed flags = elim (register_ops q (some (new_monitor flags)) (some (λ c. true)) 7).0 [
  | none ↦ new_monitor flags
  | some nm ↦ nm
]

-- The link eth0, up and running, with the attribute of its name.
abbrev eth0 : LinkMsg
eth0 = record {
  family = 0;
  kind = 1;
  index = 2;
  flags = 65;
  attrs = record { kind = 3; payload = 101 ∷ 116 ∷ 104 ∷ 48 ∷ 0 ∷ [] } ∷ [];
}

-- The loopback device, and a link that is not running.
abbrev lo : LinkMsg
lo = record eth0 { index = 1; flags = 73; attrs = [] }

abbrev eth1 : LinkMsg
eth1 = record eth0 { index = 3; flags = 1 }

abbrev watching : ℕ → Nm q
watching flags = (handle_link q LinkType.newlink eth0 (observed flags)).0

abbrev names : List Link → List (List ℕ)
names [] = []
names (l ∷ ls) = l.name ∷ names ls

eth0_is_known : names (nm_foreach_interface q (watching 0)) ≡ (101 ∷ 116 ∷ 104 ∷ 48 ∷ []) ∷ []
unfolding runs
eth0_is_known = refl

loopback_is_left_out : (handle_link q LinkType.newlink lo (watching 0)).1 ≡ []
unfolding runs
loopback_is_left_out = refl

watching-Inv : (flags : ℕ) → Inv q (watching flags)
unfolding runs
watching-Inv flags = record { below = ground arith; sorted = ground arith }

handle_link-Refines_example :
    Refines q
      (watching 0)
      (handle_link q LinkType.dellink eth0 (watching 0)).0
      (handle_link q LinkType.dellink eth0 (watching 0)).1
      (change_of LinkType.dellink (is_interface_ready q (watching 0) eth0) eth0)
handle_link-Refines_example =
    handle_link-Refines q LinkType.dellink eth0 (watching 0) (λ l a compare. refl) (watching-Inv 0)

abbrev history : List (LinkType × LinkMsg)
history =
    (LinkType.newlink, eth0)
    ∷ (LinkType.newlink, eth1)
    ∷ (LinkType.newlink, lo)
    ∷ (LinkType.newlink, record eth0 { flags = 4163 })
    ∷ (LinkType.newlink, record eth0 { flags = 0 })
    ∷ []

abbrev count_calls : List Call → ℕ
count_calls [] = 0
count_calls (c ∷ cs) = count_calls cs + 1

three_calls : count_calls (run q history (observed 0)).1 ≡ 3
unfolding runs
three_calls = refl

observed-Inv : Inv q (observed 0)
unfolding runs
observed-Inv = record { below = tt; sorted = tt }

run-table_example :
    Inv q (run q history (observed 0)).0
    × ((j : ℕ)
        → view q (run q history (observed 0)).0 j
          ≡ table_run (changes q (observed 0) history) (view q (observed 0)) j)
    × ((run q history (observed 0)).1
        ≡ calls_run q (observed 0) (changes q (observed 0) history) (view q (observed 0)))
run-table_example = run-table q history (observed 0) (λ l a compare. refl) observed-Inv

eth0_ready : is_interface_ready q (watching 0) eth0 ≡ true
unfolding runs
eth0_ready = refl

eth0_in_table : view q (watching 0) 2 ≡ some (link_of eth0)
unfolding runs
eth0_in_table = refl

handle_rtm_getlink_ghost_example :
    let answered = handle_rtm_getlink q 0 eth0 (watching 0) in
    let removed = (handle_link q LinkType.dellink eth0 answered).0 in
    (nm_foreach_interface q removed ≡ nm_foreach_interface q (watching 0))
    × (view q removed 2 ≡ some (link_of eth0))
handle_rtm_getlink_ghost_example =
    handle_rtm_getlink_ghost q eth0 (watching 0) (link_of eth0) (λ l a compare. refl)
      (watching-Inv 0) eth0_ready eth0_in_table

-- A request is sent, its reply is no default route, and the timer fires: then the address goes.
abbrev begun : Life
begun = start sa (some 1) 2 true

abbrev waiting : Life
waiting = record begun {
  ai = (schedule_route_check true begun.ai).0;
  pending = false;
  ticking = true;
}

abbrev retried : Life
retried = record waiting {
  ai = handle_rtm_timeout true waiting.ai;
  pending = true;
  ticking = false;
  retries = 1;
}

abbrev dropped : Life
dropped = record retried { ai = record retried.ai { count = 2 }; listed = false }

to_retried : Reach begun retried
unfolding runs
to_retried =
    Reach.next (Reach.next Reach.here (Step.reply begun true RouteReply.failed none refl))
      (Step.fire waiting true refl)

retried_dropped : Reach retried dropped
unfolding runs
retried_dropped = Reach.next Reach.here (Step.drop retried refl)

start-counts_example : (retried.ai.count ≡ 1 + 1 + 1) × ((true && false) ≡ false)
unfolding start
start-counts_example = start-counts sa (some 1) 2 true to_retried

start-leaks_example : 1 ≤ dropped.ai.count
start-leaks_example = start-leaks sa (some 1) 2 true to_retried (omega arith) retried_dropped

start-ends_example : (retried.retries ≤ 4) × (steps to_retried ≤ 10)
start-ends_example = start-ends sa (some 1) 2 true to_retried

update_addr-tracks_example :
    let r = update_addr q true 0 1 sa (watching 0) in
    let known = skipped 0 0 || tracks q (watching 0) 1 sa in
    (tracks q r.0 1 sa ≡ (tracks q (watching 0) 1 sa || (not known && same_host sa sa)))
    × (r.1 ≡ (
        if known || 0 / 8 % 2 == 1
        then []
        else told_by
            (map (watching 0).ops_at (watching 0).ops)
            (Event.new_address (link_of eth0) sa)))
unfolding runs
update_addr-tracks_example =
    update_addr-tracks q true 0 1 sa sa (watching 0) (λ l a compare. refl) tt refl

-- With the check of routes: the address 192.0.2.1 of eth0, whose route is asked for.
abbrev asking : Nm q
asking = (update_addr q true 0 1 sa (watching 8)).0

asking_has : find_entry (matches_addr q asking sa) (asking.iface_at 1).addrs ≡ some 2
unfolding runs
asking_has = refl

asking_back : (asking.addr_at 2).interface ≡ some 1
unfolding runs
asking_back = refl

asking_still :
    find_entry (matches_index q asking (asking.addr_at 2).index) asking.interfaces ≡ some 1
unfolding runs
asking_still = refl

asking_default : is_default (RouteReply.route false 2) (asking.addr_at 2) ≡ true
unfolding runs
asking_default = refl

removed_address_announced_example :
    let removed = remove_addr q 1 sa asking in
    let answered = handle_rtm_getroute q true (RouteReply.route false 2) 2 removed.0 in
    let link = (asking.iface_at 1).link in
    let address = (asking.addr_at 2).address in
    let observers = map asking.ops_at asking.ops in
    (removed.1 ≡ told_by observers (Event.delete_address link address))
    × (answered.1 ≡ told_by observers (Event.new_address link address))
    × (answered.0.iface_at ≡ removed.0.iface_at)
removed_address_announced_example =
    removed_address_announced q true (RouteReply.route false 2) 1 2 sa asking asking_has asking_back
      asking_still asking_default
