-- ===== src/Events/Calls.antt =====
-- What the handlers of src/path_manager.c pass on to the plugins.
use mptcpd.Common.{
  ℕ, Bool, true, ◌||◌, ◌&&◌, Option, none, some, List, [], is_some, if◌then◌else◌, ◌≡◌, ◌≢◌, arith,
  refl, inl, inr, Bool-cases,
}
use mptcpd.Events.Attributes.{Attrs}
use mptcpd.Events.{
  deref, truth, storage, both_addresses, has_connection, handle_subflow, handle_listener,
  handle_connection_created, handle_connection_established, handle_connection_closed,
  handle_new_addr, handle_addr_removed, handle_new_subflow, handle_subflow_closed,
  handle_priority_changed, handle_listener_created, handle_listener_closed, dispatch,
}
use mptcpd.Plugin.{Platform, Registry, invoke, name_to_ops}
use mptcpd.Plugin
use mptcpd.Sockaddr.{Sockaddr, af_inet, af_inet6, sockaddr_storage_init}

-- The address that an event names: IPv4 where it is given, and IPv6 otherwise.
abbrev pub address_of : Option ℕ → Option (List ℕ) → Option ℕ → Sockaddr
address_of (some a) addr6 port = record {
  family = af_inet;
  port = deref 0 port;
  addr4 = a;
  addr6 = [];
}
address_of none addr6 port = record {
  family = af_inet6;
  port = deref 0 port;
  addr4 = 0;
  addr6 = deref [] addr6;
}

abbrev pub local_address : Attrs → Sockaddr
local_address attrs = address_of attrs.laddr4 attrs.laddr6 attrs.local_port

abbrev pub remote_address : Attrs → Sockaddr
remote_address attrs = address_of attrs.raddr4 attrs.raddr6 attrs.remote_port

-- Either address, or none.
abbrev pub has_remote : Attrs → Bool
has_remote attrs = is_some attrs.raddr4 || is_some attrs.raddr6

abbrev pub has_local : Attrs → Bool
has_local attrs = is_some attrs.laddr4 || is_some attrs.laddr6

init_address :
    (addr4 : Option ℕ) (addr6 : Option (List ℕ)) (port : Option ℕ)
    → (is_some addr4 || is_some addr6) ≡ true
    → sockaddr_storage_init addr4 addr6 (deref 0 port) storage ≡ some (address_of addr4 addr6 port)
unfolding sockaddr_storage_init
init_address (some a) addr6 port h = refl
init_address none (some a) port h = refl
init_address none none port h = cc

both_addresses_lem :
    (attrs : Attrs)
    → has_connection attrs ≡ true
    → both_addresses attrs ≡ some (local_address attrs, remote_address attrs)
unfolding has_connection both_addresses
both_addresses_lem attrs h = ground (
  arith,
  h,
  init_address attrs.laddr4 attrs.laddr6 attrs.local_port,
  init_address attrs.raddr4 attrs.raddr6 attrs.remote_port,
)

handle_subflow_lem :
    (attrs : Attrs)
    → handle_subflow attrs ≡ (
        if has_connection attrs && is_some attrs.backup
        then some (local_address attrs, remote_address attrs)
        else none)
unfolding handle_subflow
handle_subflow_lem attrs = elim (Bool-cases (has_connection attrs)) [
  | inl h ↦ ground (arith, h, both_addresses_lem attrs h)
  | inr h ↦ ground (arith, h)
]

module _ (p : Platform) (r : Registry p) (attrs : Attrs) where
  -- A creation event reaches the plugins exactly if token, addresses and ports are there; the
  -- error branch behind that test is never taken. The plugin is looked up with no name, and the
  -- addresses are the IPv4 ones where both kinds are given.
  pub handle_connection_created_lem : handle_connection_created p r attrs ≡ (
      if has_connection attrs
      then Plugin.new_connection p r none
          (deref 0 attrs.token)
          (local_address attrs)
          (remote_address attrs)
          (truth attrs.server_side)
      else (r, []))
  unfolding handle_connection_created
  handle_connection_created_lem = elim (Bool-cases (has_connection attrs)) [
    | inl h ↦ ground (arith, h, both_addresses_lem attrs h)
    | inr h ↦ ground (arith, h)
  ]

  pub handle_connection_established_lem : handle_connection_established p r attrs ≡ (
      if has_connection attrs
      then Plugin.connection_established p r
          (deref 0 attrs.token)
          (local_address attrs)
          (remote_address attrs)
          (truth attrs.server_side)
      else [])
  unfolding handle_connection_established
  handle_connection_established_lem = elim (Bool-cases (has_connection attrs)) [
    | inl h ↦ ground (arith, h, both_addresses_lem attrs h)
    | inr h ↦ ground (arith, h)
  ]

  pub handle_new_addr_lem : handle_new_addr p r attrs ≡ (
      if is_some attrs.token && is_some attrs.raddr_id && has_remote attrs
      then Plugin.new_address p r
          (deref 0 attrs.token)
          (deref 0 attrs.raddr_id)
          (remote_address attrs)
      else [])
  unfolding handle_new_addr
  handle_new_addr_lem = elim (Bool-cases (has_remote attrs)) [
    | inl h ↦ ground (arith, h, init_address attrs.raddr4 attrs.raddr6 attrs.remote_port h)
    | inr h ↦ ground (arith, h)
  ]

  handle_listener_lem :
      handle_listener attrs
      ≡ (if has_local attrs && is_some attrs.local_port then some (local_address attrs) else none)
  unfolding handle_listener
  handle_listener_lem = elim (Bool-cases (has_local attrs)) [
    | inl h ↦ ground (arith, h, init_address attrs.laddr4 attrs.laddr6 attrs.local_port h)
    | inr h ↦ ground (arith, h)
  ]

  -- The listener events need a local address and a port, and go to the default plugin.
  pub listener_events :
      (handle_listener_created p r attrs ≡ (
        if has_local attrs && is_some attrs.local_port
        then Plugin.listener_created p r none (local_address attrs)
        else []))
      × (handle_listener_closed p r attrs ≡ (
          if has_local attrs && is_some attrs.local_port
          then Plugin.listener_closed p r none (local_address attrs)
          else []))
  unfolding handle_listener_created handle_listener_closed
  listener_events = (ground (arith, handle_listener_lem), ground (arith, handle_listener_lem))

  -- The events on subflows need all of token, addresses, ports and backup priority, and whatever
  -- the value of the backup attribute is, the plugin is told `true`.
  pub subflows_backup :
      (handle_new_subflow p r attrs ≡ (
        if has_connection attrs && is_some attrs.backup
        then Plugin.new_subflow p r
            (deref 0 attrs.token)
            (local_address attrs)
            (remote_address attrs)
            true
        else []))
      × (handle_subflow_closed p r attrs ≡ (
          if has_connection attrs && is_some attrs.backup
          then Plugin.subflow_closed p r
              (deref 0 attrs.token)
              (local_address attrs)
              (remote_address attrs)
              true
          else []))
      × (handle_priority_changed p r attrs ≡ (
          if has_connection attrs && is_some attrs.backup
          then Plugin.subflow_priority p r
              (deref 0 attrs.token)
              (local_address attrs)
              (remote_address attrs)
              true
          else []))
  unfolding handle_new_subflow handle_subflow_closed handle_priority_changed
  subflows_backup = (
    ground (arith, handle_subflow_lem attrs),
    ground (arith, handle_subflow_lem attrs),
    ground (arith, handle_subflow_lem attrs),
  )

  -- A message without a token changes nothing and calls no plugin, unless it is about a listener.
  pub dispatch_tokenless :
      (cmd : ℕ) → attrs.token ≡ none → cmd ≢ 15 → cmd ≢ 16 → dispatch p r cmd attrs ≡ (r, [])
  unfolding dispatch handle_connection_closed handle_addr_removed has_connection
  dispatch_tokenless cmd h a b = ground (
    arith, h, a, b, handle_connection_created_lem, handle_connection_established_lem,
    handle_new_addr_lem, subflows_backup.0, subflows_backup.1, subflows_backup.2,
  )
