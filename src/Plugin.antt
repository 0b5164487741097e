-- ===== src/Plugin.antt =====
-- lib/plugin.c: registration of path manager plugins and the calls of their operations. A call of a
-- plugin's function is an entry in the list that the operation returns; the maps are ELL's, through
-- the interface of `Ell`.
pub mod Calls
pub mod Default
pub mod Dispatch
pub mod Broadcast
pub mod Load
pub mod Priority
pub mod LoadOrder
mod LoadTests
pub mod Samples
mod Tests
use mptcpd.Common.{
  ℕ, ◌+◌, ◌&&◌, Bool, true, false, not, Option, none, some, List, [], ◌∷◌, ◌++◌, take, Ordering,
  ◌≡◌, is_some, if◌then◌else◌,
}
use mptcpd.Ell.HashMap.{HashMap, Keys, is_eq}
use mptcpd.HashSockaddr.{memcmp}
use Calls.{Ops, Call, Event, callback}
use mptcpd.Sockaddr.{Sockaddr}

-- The maps of the two tables, MPTCP_PM_NAME_LEN, and what the hash functions of ELL compare.
pub record Platform : Type 1 where
  pub string_keys : Keys (List ℕ)
  pub token_keys : Keys ℕ
  pub names : HashMap string_keys Ops
  pub tokens : HashMap token_keys Ops
  pub name_len : ℕ
  pub string_eq : (a b : List ℕ) → string_keys.compare a b ≡ Ordering.eq → a ≡ b
  pub token_eq : (a b : ℕ) → token_keys.compare a b ≡ Ordering.eq → a ≡ b

module _ (p : Platform) where
  open p use {names, tokens, name_len}

  -- The global variables of the file while plugins are loaded. A name is the list of its
  -- characters.
  pub record Registry : Type 0 where
    pub pm_plugins : names.Map
    pub token_ops : tokens.Map
    pub default_name : List ℕ
    pub default_ops : Option Ops

  -- The state in which `mptcpd_plugin_load` loads the plugins. `l_strlcpy` keeps the characters
  -- that fit; without a name the buffer is empty.
  unfoldable pub start : Option (List ℕ) → Registry
  start default_name = record {
    pm_plugins = names.new;
    token_ops = tokens.new;
    default_name = elim default_name [ none ↦ [] | some name ↦ take name_len name ];
    default_ops = none;
  }

  unfoldable pub name_to_ops : Registry → Option (List ℕ) → Option Ops
  name_to_ops r none = r.default_ops
  name_to_ops r (some name) = elim (names.lookup r.pm_plugins name) [
    | none ↦ r.default_ops
    | some ops ↦ some ops
  ]

  unfoldable pub token_to_ops : Registry → ℕ → Option Ops
  token_to_ops r token = tokens.lookup r.token_ops token

  -- `mptcpd_plugin_register_ops`. A NULL pointer is `none`.
  unfoldable pub register_ops : Registry → Option (List ℕ) → Option Ops → Registry × Bool
  register_ops r none ops = (r, false)
  register_ops r (some name) none = (r, false)
  register_ops r (some name) (some ops) =
      let first_registration = names.isempty r.pm_plugins in
      let inserted = names.insert r.pm_plugins name ops in
      let r' = record r { pm_plugins = inserted.0 } in
      if not inserted.1
      then (r', false)
      else if is_eq (memcmp r.default_name name)
      then (record r' { default_ops = some ops }, true)
      else if first_registration
      then (record r' { default_ops = some ops }, true)
      else (r', true)

  -- `if (ops && ops->callback) ops->callback(...)`.
  unfoldable pub invoke : Option Ops → Event → List Call
  invoke none event = []
  invoke (some ops) event = if ops.implements (callback event) then (ops, event) ∷ [] else []

  -- `mptcpd_plugin_new_connection`. Where no plugin is found a NULL value is mapped, which a lookup
  -- does not tell from no entry.
  unfoldable pub new_connection :
      Registry → Option (List ℕ) → ℕ → Sockaddr → Sockaddr → Bool → Registry × List Call
  unfolding invoke
  new_connection r name token laddr raddr server_side =
      let ops = name_to_ops r name in
      let calls = invoke ops (Event.new_connection token laddr raddr server_side) in
      elim ops [
        | none ↦ (r, calls)
        | some o ↦ (record r { token_ops = (tokens.insert r.token_ops token o).0 }, calls)
      ]

  unfoldable pub connection_established : Registry → ℕ → Sockaddr → Sockaddr → Bool → List Call
  unfolding invoke token_to_ops
  connection_established r token laddr raddr server_side =
      invoke (token_to_ops r token) (Event.connection_established token laddr raddr server_side)

  unfoldable pub connection_closed : Registry → ℕ → List Call
  unfolding invoke token_to_ops
  connection_closed r token = invoke (token_to_ops r token) (Event.connection_closed token)

  unfoldable pub new_address : Registry → ℕ → ℕ → Sockaddr → List Call
  unfolding invoke token_to_ops
  new_address r token id addr = invoke (token_to_ops r token) (Event.new_address token id addr)

  unfoldable pub address_removed : Registry → ℕ → ℕ → List Call
  unfolding invoke token_to_ops
  address_removed r token id = invoke (token_to_ops r token) (Event.address_removed token id)

  unfoldable pub new_subflow : Registry → ℕ → Sockaddr → Sockaddr → Bool → List Call
  unfolding invoke token_to_ops
  new_subflow r token laddr raddr backup =
      invoke (token_to_ops r token) (Event.new_subflow token laddr raddr backup)

  unfoldable pub subflow_closed : Registry → ℕ → Sockaddr → Sockaddr → Bool → List Call
  unfolding invoke token_to_ops
  subflow_closed r token laddr raddr backup =
      invoke (token_to_ops r token) (Event.subflow_closed token laddr raddr backup)

  unfoldable pub subflow_priority : Registry → ℕ → Sockaddr → Sockaddr → Bool → List Call
  unfolding invoke token_to_ops
  subflow_priority r token laddr raddr backup =
      invoke (token_to_ops r token) (Event.subflow_priority token laddr raddr backup)

  unfoldable pub listener_created : Registry → Option (List ℕ) → Sockaddr → List Call
  unfolding invoke name_to_ops
  listener_created r name laddr = invoke (name_to_ops r name) (Event.listener_created laddr)

  unfoldable pub listener_closed : Registry → Option (List ℕ) → Sockaddr → List Call
  unfolding invoke name_to_ops
  listener_closed r name laddr = invoke (name_to_ops r name) (Event.listener_closed laddr)

  -- `l_hashmap_foreach` over the plugins, with a function that calls an operation that is set.
  unfoldable pub invoke_all : List (List ℕ × Ops) → Event → List Call
  unfolding invoke
  invoke_all [] event = []
  invoke_all ((name, ops) ∷ rest) event = invoke (some ops) event ++ invoke_all rest event

  unfoldable pub new_interface : Registry → ℕ → List Call
  unfolding invoke_all
  new_interface r i = invoke_all (names.entries r.pm_plugins) (Event.new_interface i)

  unfoldable pub update_interface : Registry → ℕ → List Call
  unfolding invoke_all
  update_interface r i = invoke_all (names.entries r.pm_plugins) (Event.update_interface i)

  unfoldable pub delete_interface : Registry → ℕ → List Call
  unfolding invoke_all
  delete_interface r i = invoke_all (names.entries r.pm_plugins) (Event.delete_interface i)

  unfoldable pub new_local_address : Registry → ℕ → Sockaddr → List Call
  unfolding invoke_all
  new_local_address r i sa = invoke_all (names.entries r.pm_plugins) (Event.new_local_address i sa)

  unfoldable pub delete_local_address : Registry → ℕ → Sockaddr → List Call
  unfolding invoke_all
  delete_local_address r i sa =
      invoke_all (names.entries r.pm_plugins) (Event.delete_local_address i sa)
