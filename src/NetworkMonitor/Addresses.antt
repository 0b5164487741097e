-- ===== src/NetworkMonitor/Addresses.antt =====
-- lib/network_monitor.c: addresses of interfaces, which come and go.
use mptcpd.Common.{
  ℕ, ◌+◌, Bool, false, ◌&&◌, not, Option, none, some, List, [], ◌∷◌, ◌++◌, ◌==◌, if◌then◌else◌,
  Ordering, update,
}
use mptcpd.Ell.HashMap.{is_eq}
use mptcpd.Ell.Queue.{Queue}
use mptcpd.HashSockaddr.{memcmp}
use mptcpd.NetworkMonitor.{AddrInfo, Call, Event, Nm, Link, notify, matches_index, has_bit}
use mptcpd.NetworkMonitor.Links.{addr_put}
use mptcpd.NetworkMonitor.Routes.{check_default_route}
use mptcpd.Sockaddr.{Sockaddr, af_inet, is_inet}

-- `MPTCPD_NOTIFY_FLAG_EXISTING` and the flags after it.
abbrev pub flag_existing : ℕ
flag_existing = 1

abbrev pub flag_skip_ll : ℕ
flag_skip_ll = 2

abbrev pub flag_skip_host : ℕ
flag_skip_host = 4

abbrev pub flag_route_check : ℕ
flag_route_check = 8

abbrev pub scope_link : ℕ
scope_link = 253

abbrev pub scope_host : ℕ
scope_host = 254

-- `struct ifaddrmsg` with the payloads of its IFA_ADDRESS attributes, each read as the address that
-- the family of the message makes of it.
pub record AddrMsg : Type 0 where
  pub scope : ℕ
  pub index : ℕ
  pub addresses : List Sockaddr

-- `mptcpd_addr_create`, less the family that it refuses.
unfoldable pub addr_create : Sockaddr → AddrInfo
addr_create sa = record {
  address = record sa { port = 0 };
  interface = none;
  index = 0;
  count = 1;
  timeout = none;
  attempts = 0;
}

-- `mptcpd_addr_match`.
unfoldable pub addr_match : Sockaddr → Sockaddr → Bool
addr_match lhs rhs =
    if not (lhs.family == rhs.family)
    then false
    else if lhs.family == af_inet
    then lhs.addr4 == rhs.addr4
    else is_eq (memcmp lhs.addr6 rhs.addr6)

-- The types of messages: RTM_NEWADDR, RTM_DELADDR and any other.
pub data AddrType : Type 0 where
  newaddr deladdr unexpected : AddrType

-- `mptcpd_addr_compare`.
abbrev pub addr_compare : ℕ → ℕ → Ordering
addr_compare a b = Ordering.gt

module _ (queue : Queue ℕ) where
  open queue use {Q, entries, insert, find, remove_if, isempty}

  abbrev pub matches_addr : Nm queue → Sockaddr → ℕ → Bool
  matches_addr nm sa at = addr_match (nm.addr_at at).address sa

  -- `insert_addr_return`, for the interface at `i`: the state, and the new object.
  unfoldable pub insert_addr_return : ℕ → Sockaddr → Nm queue → Nm queue × Option ℕ
  unfolding addr_create
  insert_addr_return i sa nm =
      let at = nm.fresh in
      let inserted = insert (nm.iface_at i).addrs at addr_compare in
      let made = record (addr_create sa) {
        interface = some i;
        index = (nm.iface_at i).link.index;
      } in
      let nm' = record nm {
        addr_at = update nm.addr_at at made;
        iface_at = update nm.iface_at i (record (nm.iface_at i) { addrs = inserted.0 });
        fresh = nm.fresh + 1;
      } in
      if not (is_inet sa) then (nm, none) else if inserted.1 then (nm', some at) else (nm, none)

  -- `update_addr`; `sent` is whether a request for a route can be sent.
  unfoldable pub update_addr : Bool → ℕ → ℕ → Sockaddr → Nm queue → Nm queue × List Call
  unfolding insert_addr_return check_default_route
  update_addr sent scope i sa nm =
      let made = insert_addr_return i sa nm in
      if has_bit nm.notify_flags flag_skip_ll && scope == scope_link
      then (nm, [])
      else if has_bit nm.notify_flags flag_skip_host && scope == scope_host
      then (nm, [])
      else (elim (find (nm.iface_at i).addrs (matches_addr nm sa)) [
        | some at ↦ (nm, [])
        | none ↦ elim made.1 [
          | none ↦ (made.0, [])
          | some at ↦
              let ai = made.0.addr_at at in
              if has_bit nm.notify_flags flag_route_check
              then (
                record made.0 { addr_at = update made.0.addr_at at (check_default_route sent ai) },
                [],
              )
              else (made.0, notify queue made.0 (Event.new_address (nm.iface_at i).link ai.address))
        ]
      ])

  -- The interface that an address points to, for a pointer that is not NULL.
  abbrev pub interface_link : Nm queue → ℕ → Link
  interface_link nm at = elim (nm.addr_at at).interface [
    | none ↦ (nm.iface_at 0).link
    | some i ↦ (nm.iface_at i).link
  ]

  -- `remove_addr`.
  unfoldable pub remove_addr : ℕ → Sockaddr → Nm queue → Nm queue × List Call
  unfolding addr_put
  remove_addr i sa nm =
      let removed = remove_if (nm.iface_at i).addrs (matches_addr nm sa) in
      let nm' = record nm {
        iface_at = update nm.iface_at i (record (nm.iface_at i) { addrs = removed.0 });
      } in
      elim removed.1 [
        | none ↦ (nm', [])
        | some at ↦ (
          record nm' { addr_at = addr_put nm.addr_at at },
          notify queue nm' (Event.delete_address (interface_link nm at) (nm.addr_at at).address),
        )
      ]

  abbrev pub Handler : Type 0
  Handler = ℕ → Sockaddr → Nm queue → Nm queue × List Call

  -- `foreach_ifaddr`.
  unfoldable pub foreach_ifaddr : Handler → ℕ → List Sockaddr → Nm queue → Nm queue × List Call
  foreach_ifaddr handler i [] nm = (nm, [])
  foreach_ifaddr handler i (sa ∷ rest) nm =
      let now = handler i sa nm in
      let later = foreach_ifaddr handler i rest now.0 in (later.0, now.1 ++ later.1)

  -- `get_mptcpd_interface`.
  unfoldable pub get_interface : ℕ → Nm queue → Option ℕ
  get_interface index nm = find nm.interfaces (matches_index queue nm index)

  unfoldable pub handle_ifaddr : AddrType → Bool → AddrMsg → Nm queue → Nm queue × List Call
  unfolding get_interface foreach_ifaddr update_addr remove_addr
  handle_ifaddr kind sent m nm = elim (get_interface m.index nm) [
    | none ↦ (nm, [])
    | some i ↦ elim kind [
      | newaddr ↦ foreach_ifaddr (update_addr sent m.scope) i m.addresses nm
      | deladdr ↦ foreach_ifaddr remove_addr i m.addresses nm
      | unexpected ↦ (nm, [])
    ]
  ]

  -- `insert_addr`, as a handler.
  unfoldable pub insert_addr : Handler
  unfolding insert_addr_return
  insert_addr i sa nm = ((insert_addr_return i sa nm).0, [])

  -- `handle_rtm_getaddr`: an answer to the request for all addresses, with its error.
  unfoldable pub handle_rtm_getaddr : ℕ → Bool → AddrMsg → Nm queue → Nm queue × List Call
  unfolding get_interface foreach_ifaddr update_addr insert_addr
  handle_rtm_getaddr error sent m nm =
      if not (error == 0) then (nm, []) else (elim (get_interface m.index nm) [
        | none ↦ (nm, [])
        | some i ↦
            let handler : Handler =
              (if has_bit nm.notify_flags flag_existing
                then update_addr sent m.scope
                else insert_addr) in
            foreach_ifaddr handler i m.addresses nm
      ])

  -- `send_getaddr_command`: whether addresses are asked for.
  unfoldable pub asks_addresses : Nm queue → Bool
  asks_addresses nm = not (isempty nm.interfaces)
