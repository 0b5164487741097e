-- ===== src/Events.antt =====
-- src/path_manager.c: MPTCP events of the kernel, from the attributes of a netlink message to the
-- calls of lib/plugin.c. A message is the list of its attributes, in the order in which
-- `l_genl_attr_next` gives them.
pub mod Sync
pub mod Attributes
pub mod Fields
pub mod Calls
pub mod Sequence
pub mod Lifecycle
pub mod Notices
mod Tests
mod SyncTests
mod LifeTests
use mptcpd.Common.{
  ℕ, Bool, true, false, ◌||◌, ◌&&◌, not, Option, none, some, List, [], ◌∷◌, is_some, ◌==◌,
  if◌then◌else◌, Option-cases,
}
use mptcpd.Plugin.Calls.{Call}
use mptcpd.Plugin.{Platform, Registry}
use mptcpd.Plugin
use mptcpd.Sockaddr.{Sockaddr, sockaddr_storage_init}
use Attributes.{Attrs, Attribute, parse, no_attrs}

-- `*p` for a pointer that was tested.
abbrev pub deref {ℓ} : {A : Type ℓ} → A → Option A → A
deref d none = d
deref d (some a) = a

-- `attrs->server_side != NULL ? *attrs->server_side : false`, as a `bool`.
abbrev pub truth : Option ℕ → Bool
truth none = false
truth (some n) = not (n == 0)

-- A `struct sockaddr_storage` on the stack, before it is initialised.
abbrev pub storage : Option Sockaddr
storage = some (record { family = 0; port = 0; addr4 = 0; addr6 = [] })

-- The local and the remote address of an event that has both, with their ports.
unfoldable pub both_addresses : Attrs → Option (Sockaddr × Sockaddr)
both_addresses attrs =
    elim (sockaddr_storage_init attrs.laddr4 attrs.laddr6 (deref 0 attrs.local_port) storage) [
      | none ↦ none
      | some laddr ↦
          elim (sockaddr_storage_init attrs.raddr4 attrs.raddr6 (deref 0 attrs.remote_port)
            storage) [ none ↦ none | some raddr ↦ some (laddr, raddr) ]
    ]

-- The attributes that `handle_connection_created` and `handle_connection_established` require.
unfoldable pub has_connection : Attrs → Bool
has_connection attrs =
    is_some attrs.token
    && (is_some attrs.laddr4 || is_some attrs.laddr6)
    && is_some attrs.local_port
    && (is_some attrs.raddr4 || is_some attrs.raddr6)
    && is_some attrs.remote_port

-- `handle_subflow`.
unfoldable pub handle_subflow : Attrs → Option (Sockaddr × Sockaddr)
unfolding has_connection both_addresses
handle_subflow attrs =
    if not (has_connection attrs && is_some attrs.backup) then none else both_addresses attrs

-- `handle_listener`.
unfoldable pub handle_listener : Attrs → Option Sockaddr
handle_listener attrs =
    if not ((is_some attrs.laddr4 || is_some attrs.laddr6) && is_some attrs.local_port)
    then none
    else sockaddr_storage_init attrs.laddr4 attrs.laddr6 (deref 0 attrs.local_port) storage

module _ (p : Platform) where
  unfoldable pub handle_connection_created : Registry p → Attrs → Registry p × List Call
  handle_connection_created r attrs =
      if not (has_connection attrs) then (r, []) else (elim (both_addresses attrs) [
        | none ↦ (r, [])
        | some (laddr, raddr) ↦
            Plugin.new_connection p r none (deref 0 attrs.token) laddr raddr
              (truth attrs.server_side)
      ])

  unfoldable pub handle_connection_established : Registry p → Attrs → List Call
  handle_connection_established r attrs =
      if not (has_connection attrs) then [] else (elim (both_addresses attrs) [
        | none ↦ []
        | some (laddr, raddr) ↦
            Plugin.connection_established p r (deref 0 attrs.token) laddr raddr
              (truth attrs.server_side)
      ])

  unfoldable pub handle_connection_closed : Registry p → Attrs → List Call
  handle_connection_closed r attrs = elim attrs.token [
    | none ↦ []
    | some token ↦ Plugin.connection_closed p r token
  ]

  unfoldable pub handle_new_addr : Registry p → Attrs → List Call
  handle_new_addr r attrs =
      if not (
        is_some attrs.token
        && is_some attrs.raddr_id
        && (is_some attrs.raddr4 || is_some attrs.raddr6))
      then []
      else (elim (sockaddr_storage_init attrs.raddr4 attrs.raddr6 (deref 0 attrs.remote_port)
          storage) [
            | none ↦ []
            | some addr ↦ Plugin.new_address p r (deref 0 attrs.token) (deref 0 attrs.raddr_id) addr
          ])

  unfoldable pub handle_addr_removed : Registry p → Attrs → List Call
  handle_addr_removed r attrs =
      if not (is_some attrs.token && is_some attrs.raddr_id)
      then []
      else Plugin.address_removed p r (deref 0 attrs.token) (deref 0 attrs.raddr_id)

  -- The three events on subflows pass `attrs->backup`, a pointer, as the `bool`.
  unfoldable pub handle_new_subflow : Registry p → Attrs → List Call
  handle_new_subflow r attrs = elim (handle_subflow attrs) [
    | none ↦ []
    | some (laddr, raddr) ↦
        Plugin.new_subflow p r (deref 0 attrs.token) laddr raddr (is_some attrs.backup)
  ]

  unfoldable pub handle_subflow_closed : Registry p → Attrs → List Call
  handle_subflow_closed r attrs = elim (handle_subflow attrs) [
    | none ↦ []
    | some (laddr, raddr) ↦
        Plugin.subflow_closed p r (deref 0 attrs.token) laddr raddr (is_some attrs.backup)
  ]

  unfoldable pub handle_priority_changed : Registry p → Attrs → List Call
  handle_priority_changed r attrs = elim (handle_subflow attrs) [
    | none ↦ []
    | some (laddr, raddr) ↦
        Plugin.subflow_priority p r (deref 0 attrs.token) laddr raddr (is_some attrs.backup)
  ]

  unfoldable pub handle_listener_created : Registry p → Attrs → List Call
  handle_listener_created r attrs = elim (handle_listener attrs) [
    | none ↦ []
    | some laddr ↦ Plugin.listener_created p r none laddr
  ]

  unfoldable pub handle_listener_closed : Registry p → Attrs → List Call
  handle_listener_closed r attrs = elim (handle_listener attrs) [
    | none ↦ []
    | some laddr ↦ Plugin.listener_closed p r none laddr
  ]

  -- The switch of `handle_mptcp_event` on the numbers of `enum mptcp_event_type`, built with
  -- HAVE_UPSTREAM_KERNEL.
  unfoldable pub dispatch : Registry p → ℕ → Attrs → Registry p × List Call
  dispatch r cmd attrs =
      if cmd == 1
      then handle_connection_created r attrs
      else if cmd == 2
      then (r, handle_connection_established r attrs)
      else if cmd == 3
      then (r, handle_connection_closed r attrs)
      else if cmd == 6
      then (r, handle_new_addr r attrs)
      else if cmd == 7
      then (r, handle_addr_removed r attrs)
      else if cmd == 10
      then (r, handle_new_subflow r attrs)
      else if cmd == 11
      then (r, handle_subflow_closed r attrs)
      else if cmd == 13
      then (r, handle_priority_changed r attrs)
      else if cmd == 15
      then (r, handle_listener_created r attrs)
      else if cmd == 16
      then (r, handle_listener_closed r attrs)
      else (r, [])

  unfoldable pub handle_mptcp_event :
      Registry p → ℕ → Option (List Attribute) → Registry p × List Call
  unfolding dispatch
  handle_mptcp_event r cmd msg = dispatch r cmd (parse msg no_attrs)
