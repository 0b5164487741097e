-- ===== src/NetworkMonitor/Routes.antt =====
-- lib/network_monitor.c: waiting for a default route before an address is announced. An address
-- object is kept alive by its count of references.
use mptcpd.Common.{
  ℕ, ◌+◌, ◌-◌, ◌^◌, Bool, true, false, ◌&&◌, not, Option, none, some, List, [], ◌==◌, ltb,
  if◌then◌else◌, update,
}
use mptcpd.Ell.Queue.{Queue}
use mptcpd.NetworkMonitor.{AddrInfo, Call, Event, Nm, notify, matches_index}

-- MPTCPD_MAX_ROUTE_CHECK.
abbrev pub max_route_check : ℕ
max_route_check = 3

-- What comes back for a request for the route to a test address: an error, or a route with the
-- number of its interface and whether it names a destination, as a default route does not.
pub data RouteReply : Type 0 where
  failed : RouteReply
  route : Bool → ℕ → RouteReply

abbrev pub put_one : AddrInfo → AddrInfo
put_one ai =
    let ai' = record ai { count = ai.count - 1 } in
    if ai.count == 1 then record ai' { timeout = none } else ai'

-- `check_default_route`: a reference for the reply, which is dropped where the request is not sent.
-- `sent` is whether `netlink_send` succeeds.
unfoldable pub check_default_route : Bool → AddrInfo → AddrInfo
check_default_route sent ai =
    let ai' = record ai { count = ai.count + 1 } in if sent then ai' else put_one ai'

-- `schedule_route_check`: the object, and whether its timer was set. `armed` is whether a new timer
-- can be had.
unfoldable pub schedule_route_check : Bool → AddrInfo → AddrInfo × Bool
schedule_route_check armed ai =
    let ai' = record ai { attempts = ai.attempts + 1 } in
    if ltb max_route_check ai.attempts then (put_one ai', false) else (elim ai.timeout [
      | none ↦ if armed then (record ai' { timeout = some 1 }, true) else (put_one ai', false)
      | some ms ↦ (record ai' { timeout = some (2 ^ ai'.attempts) }, true)
    ])

-- `handle_rtm_timeout`.
unfoldable pub handle_rtm_timeout : Bool → AddrInfo → AddrInfo
unfolding check_default_route
handle_rtm_timeout sent ai = check_default_route sent ai

-- A route that is a default route through the interface of the address.
abbrev pub is_default : RouteReply → AddrInfo → Bool
is_default failed ai = false
is_default (route has_dst ifindex) ai = not has_dst && ifindex == ai.index

-- The end of `handle_rtm_getroute` for a default route, for the interface found again by its index.
unfoldable pub found_route : Option ℕ → AddrInfo → AddrInfo
found_route interface ai = put_one (record ai { timeout = none; interface = interface })

module _ (queue : Queue ℕ) where
  open queue use {find}

  -- `handle_rtm_getroute`, for the address object at `at`.
  unfoldable pub handle_rtm_getroute : Bool → RouteReply → ℕ → Nm queue → Nm queue × List Call
  handle_rtm_getroute armed reply at nm =
      let ai = nm.addr_at at in
      let interface = find nm.interfaces (matches_index queue nm ai.index) in
      let found = record nm { addr_at = update nm.addr_at at (found_route interface ai) } in
      if not (is_default reply ai)
      then (record nm { addr_at = update nm.addr_at at (schedule_route_check armed ai).0 }, [])
      else (elim interface [
        | none ↦ (found, [])
        | some i ↦ (found, notify queue nm (Event.new_address (nm.iface_at i).link ai.address))
      ])
