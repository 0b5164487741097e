-- ===== src/Sspi.antt =====
-- plugins/path_managers/sspi.c: a plugin that allows a connection one subflow on each network
-- interface. It keeps the tokens of the connections that have a subflow there. The objects in its
-- queue are the values of a store, and so are those of the network monitor that it reads.
pub mod Infos
pub mod Scan
pub mod Lookup
pub mod Effects
pub mod Where
pub mod Refines
pub mod History
mod Tests
use mptcpd.Common.{
  ℕ, ◌+◌, Bool, true, false, not, Option, none, some, List, [], ◌∷◌, ◌==◌, ◌&&◌, is_some,
  if◌then◌else◌, Ordering, update,
}
use mptcpd.Ell.HashMap.{is_eq}
use mptcpd.Ell.Queue.{Queue}
use mptcpd.Ell.Removal.{Removal}
use mptcpd.HashSockaddr.{memcmp}
use mptcpd.NetworkMonitor.{Nm}
use mptcpd.PathManager.{Pm, pm_add_addr, pm_remove_subflow}
use mptcpd.Plugin.Calls.{
  Event, new_connection, connection_established, connection_closed, new_address, address_removed,
  new_subflow, subflow_closed, subflow_priority, listener_created, listener_closed, new_interface,
  update_interface, delete_interface, new_local_address, delete_local_address,
}
use mptcpd.Sockaddr.{Sockaddr, af_inet, sockaddr_copy}

-- SSPI_BAD_INDEX, which is INT_MAX.
abbrev pub bad_index : ℕ
bad_index = 2147483647

-- `sspi_sockaddr_match`.
unfoldable pub sockaddr_match : Sockaddr → Sockaddr → Bool
sockaddr_match lhs rhs =
    if not (lhs.family == rhs.family)
    then false
    else if lhs.family == af_inet
    then lhs.addr4 == rhs.addr4
    else is_eq (memcmp lhs.addr6 rhs.addr6)

-- `sspi_interface_info_compare` and `sspi_token_compare`.
abbrev pub append : ℕ → ℕ → Ordering
append a b = Ordering.gt

module _ (queue : Queue ℕ) where
  open queue use {Q, new, entries, insert, find}

  -- `struct sspi_interface_info`.
  pub record Info : Type 0 where
    pub index : ℕ
    pub tokens : Q

  -- `sspi_interfaces`, and the memory of its objects.
  pub record Sspi : Type 0 where
    pub interfaces : Q
    pub info_at : ℕ → Info
    pub fresh : ℕ

  -- `sspi_init`, up to the registration of the plugin; `info_at` is what memory holds.
  unfoldable pub init : (ℕ → Info) → Sspi
  init info_at = record { interfaces = new; info_at = info_at; fresh = 0 }

  -- `sspi_get_index`, for the interface at `i` and the index so far.
  unfoldable pub get_index : Nm queue → Sockaddr → ℕ → ℕ → ℕ
  unfolding sockaddr_match
  get_index nm addr i index =
      if not (index == bad_index)
      then index
      else if is_some
          (find (nm.iface_at i).addrs (λ at. sockaddr_match (nm.addr_at at).address addr))
      then (nm.iface_at i).link.index
      else bad_index

  -- `mptcpd_nm_foreach_interface` with that function.
  unfoldable pub get_index_all : Nm queue → Sockaddr → List ℕ → ℕ → ℕ
  unfolding get_index
  get_index_all nm addr [] index = index
  get_index_all nm addr (i ∷ rest) index = get_index_all nm addr rest (get_index nm addr i index)

  -- `sspi_addr_to_index`; none where it returns false.
  unfoldable pub addr_to_index : Nm queue → Sockaddr → Option ℕ
  unfolding get_index_all
  addr_to_index nm addr =
      let index = get_index_all nm addr (entries nm.interfaces) bad_index in
      if index == bad_index then none else some index

  -- `sspi_interface_info_lookup`, for an index that was found.
  unfoldable pub info_of_index : ℕ → Sspi → Sspi × Option ℕ
  info_of_index index s =
      let at = s.fresh in
      let inserted = insert s.interfaces at append in
      let made = record s {
        interfaces = inserted.0;
        info_at = update s.info_at at (record { index = index; tokens = new });
        fresh = s.fresh + 1;
      } in
      elim (find s.interfaces (λ a. (s.info_at a).index == index)) [
        | some a ↦ (s, some a)
        | none ↦ if inserted.1 then (made, some at) else (s, none)
      ]

  unfoldable pub interface_info_lookup : Nm queue → Sockaddr → Sspi → Sspi × Option ℕ
  interface_info_lookup nm addr s = elim (addr_to_index nm addr) [
    | none ↦ (s, none)
    | some index ↦ info_of_index index s
  ]

  abbrev pub set_tokens : ℕ → Q → Sspi → Sspi
  set_tokens a tokens s = record s {
    info_at = update s.info_at a (record (s.info_at a) { tokens = tokens });
  }

  module _ (W : Type 0) (pm : Pm W) where
    -- `sspi_send_addr` for each address of a list.
    unfoldable pub send_addr_all : Nm queue → ℕ → List ℕ → W → W
    send_addr_all nm token [] w = w
    send_addr_all nm token (at ∷ rest) w =
        let sent =
          pm_add_addr W (some pm) (sockaddr_copy (some (nm.addr_at at).address)) 0 token w in
        send_addr_all nm token rest sent.0

    -- `sspi_send_addrs` for each interface of a list; `index` is that of the new connection.
    unfoldable pub send_addrs_all : Nm queue → ℕ → ℕ → List ℕ → W → W
    unfolding send_addr_all
    send_addrs_all nm token index [] w = w
    send_addrs_all nm token index (i ∷ rest) w =
        let interface = nm.iface_at i in
        send_addrs_all nm token index rest (
          if not (interface.link.index == index)
          then send_addr_all nm token (entries interface.addrs) w
          else w)

    -- `sspi_new_connection`.
    unfoldable pub connect : Nm queue → ℕ → Sockaddr → Sspi → W → Sspi × W
    connect nm token laddr s w =
        let found = interface_info_lookup nm laddr s in
        elim found.1 [
          | none ↦ (found.0, w)
          | some a ↦
              let info = found.0.info_at a in
              let inserted = insert info.tokens token append in
              if not inserted.1 then (found.0, w) else (
                set_tokens a inserted.0 found.0,
                send_addrs_all nm token info.index (entries nm.interfaces) w,
              )
        ]

    -- `sspi_new_subflow`. A token 0 that is found is a NULL pointer.
    unfoldable pub join : Nm queue → ℕ → Sockaddr → Sockaddr → Sspi → W → Sspi × W
    join nm token laddr raddr s w =
        let found = interface_info_lookup nm laddr s in
        elim found.1 [
          | none ↦ (found.0, w)
          | some a ↦
              let info = found.0.info_at a in
              let inserted = insert info.tokens token append in
              let known = is_some (find info.tokens (λ t. t == token)) && not (token == 0) in
              if known
              then (found.0, (pm_remove_subflow W (some pm) token (some laddr) (some raddr) w).0)
              else if inserted.1
              then (set_tokens a inserted.0 found.0, w)
              else (found.0, w)
        ]

  module _ (removal : Removal queue) where
    -- `sspi_subflow_closed`.
    unfoldable pub leave : Nm queue → ℕ → Sockaddr → Sspi → Sspi
    leave nm token laddr s =
        let found = interface_info_lookup nm laddr s in
        elim found.1 [
          | none ↦ found.0
          | some a ↦ set_tokens a (removal.remove (found.0.info_at a).tokens token).0 found.0
        ]

    -- `sspi_remove_token`, on memory.
    unfoldable pub remove_token : ℕ → ℕ → (ℕ → Info) → (ℕ → Info) × Bool
    remove_token token a info_at =
        let removed = removal.remove (info_at a).tokens token in
        (update info_at a (record (info_at a) { tokens = removed.0 }), removed.1)

    -- `sspi_connection_closed`.
    unfoldable pub close : ℕ → Sspi → Sspi
    close token s =
        let removed = removal.foreach_remove s.interfaces (remove_token token) s.info_at in
        record s { interfaces = removed.0; info_at = removed.1 }

    -- The table `pm_ops`, on the calls that the registry makes; a member that is not set, or whose
    -- function does nothing, leaves all as it is.
    unfoldable pub handle : (W : Type 0) → Pm W → Nm queue → Event → Sspi → W → Sspi × W
    unfolding connect join leave close
    handle W pm nm (new_connection token laddr raddr server_side) s w =
        connect W pm nm token laddr s w
    handle W pm nm (connection_established token laddr raddr server_side) s w = (s, w)
    handle W pm nm (connection_closed token) s w = (close token s, w)
    handle W pm nm (new_address token id addr) s w = (s, w)
    handle W pm nm (address_removed token id) s w = (s, w)
    handle W pm nm (new_subflow token laddr raddr backup) s w = join W pm nm token laddr raddr s w
    handle W pm nm (subflow_closed token laddr raddr backup) s w = (leave nm token laddr s, w)
    handle W pm nm (subflow_priority token laddr raddr backup) s w = (s, w)
    handle W pm nm (listener_created laddr) s w = (s, w)
    handle W pm nm (listener_closed laddr) s w = (s, w)
    handle W pm nm (new_interface i) s w = (s, w)
    handle W pm nm (update_interface i) s w = (s, w)
    handle W pm nm (delete_interface i) s w = (s, w)
    handle W pm nm (new_local_address i sa) s w = (s, w)
    handle W pm nm (delete_local_address i sa) s w = (s, w)
