-- ===== src/Plugin/Calls.antt =====
-- `struct mptcpd_plugin_ops` of include/mptcpd/plugin.h, and the calls of its functions.
use mptcpd.Common.{ℕ, Bool}
use mptcpd.Sockaddr.{Sockaddr}

-- The members of the structure.
pub data Callback : Type 0 where
  on_new_connection on_connection_established on_connection_closed : Callback
  on_new_address on_address_removed : Callback
  on_new_subflow on_subflow_closed on_subflow_priority : Callback
  on_listener_created on_listener_closed : Callback
  on_new_interface on_update_interface on_delete_interface : Callback
  on_new_local_address on_delete_local_address : Callback

-- The operations of one plugin: its number, and which members are not NULL.
pub record Ops : Type 0 where
  pub ident : ℕ
  pub implements : Callback → Bool

-- A call of a member, with its arguments. An interface stands for the object that describes it.
pub data Event : Type 0 where
  new_connection connection_established : ℕ → Sockaddr → Sockaddr → Bool → Event
  connection_closed : ℕ → Event
  new_address : ℕ → ℕ → Sockaddr → Event
  address_removed : ℕ → ℕ → Event
  new_subflow subflow_closed subflow_priority : ℕ → Sockaddr → Sockaddr → Bool → Event
  listener_created listener_closed : Sockaddr → Event
  new_interface update_interface delete_interface : ℕ → Event
  new_local_address delete_local_address : ℕ → Sockaddr → Event

abbrev pub callback : Event → Callback
callback (new_connection token laddr raddr server_side) = on_new_connection
callback (connection_established token laddr raddr server_side) = on_connection_established
callback (connection_closed token) = on_connection_closed
callback (new_address token id addr) = on_new_address
callback (address_removed token id) = on_address_removed
callback (new_subflow token laddr raddr backup) = on_new_subflow
callback (subflow_closed token laddr raddr backup) = on_subflow_closed
callback (subflow_priority token laddr raddr backup) = on_subflow_priority
callback (listener_created laddr) = on_listener_created
callback (listener_closed laddr) = on_listener_closed
callback (new_interface i) = on_new_interface
callback (update_interface i) = on_update_interface
callback (delete_interface i) = on_delete_interface
callback (new_local_address i sa) = on_new_local_address
callback (delete_local_address i sa) = on_delete_local_address

-- Which plugin is called, and how.
abbrev pub Call : Type 0
Call = Ops × Event
