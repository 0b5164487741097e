-- ===== src/Plugin/Dispatch.antt =====
-- The events of a connection go to the plugin that was chosen when it was created.
use mptcpd.Common.{
  ℕ, Bool, true, Option, List, ◌≡◌, if◌then◌else◌, arith, refl, inl, inr, Option-cases, ◌==◌, sym,
  ◌∙◌, none, some, [], ◌∷◌,
}
use mptcpd.Ell.HashMap.{same}
use mptcpd.Plugin.Calls.{Callback, Ops, Event, Call}
use mptcpd.Plugin.{
  Platform, Registry, invoke, name_to_ops, token_to_ops, new_connection, connection_established,
  connection_closed, new_address, address_removed, new_subflow, subflow_closed, subflow_priority,
}
use mptcpd.Sockaddr.{Sockaddr}

-- An event of a connection that exists, and its token.
pub data TokenEvent : Type 0 where
  established : Sockaddr → Sockaddr → Bool → TokenEvent
  closed : TokenEvent
  address : ℕ → Sockaddr → TokenEvent
  removed : ℕ → TokenEvent
  subflow subflow_end priority : Sockaddr → Sockaddr → Bool → TokenEvent

-- The callback of an event.
abbrev wanted : TokenEvent → Callback
wanted (established l a s) = Callback.on_connection_established
wanted closed = Callback.on_connection_closed
wanted (address id a) = Callback.on_new_address
wanted (removed id) = Callback.on_address_removed
wanted (subflow l a b) = Callback.on_new_subflow
wanted (subflow_end l a b) = Callback.on_subflow_closed
wanted (priority l a b) = Callback.on_subflow_priority

abbrev pub or_else : Option Ops → Option Ops → Option Ops
or_else none d = d
or_else (some ops) d = some ops

module _ (p : Platform) where
  open p use {names, tokens, name_len}

  -- The function of the file that handles an event.
  unfoldable pub handle : Registry p → ℕ → TokenEvent → List Call
  handle r token (established l a s) = connection_established p r token l a s
  handle r token closed = connection_closed p r token
  handle r token (address id a) = new_address p r token id a
  handle r token (removed id) = address_removed p r token id
  handle r token (subflow l a b) = new_subflow p r token l a b
  handle r token (subflow_end l a b) = subflow_closed p r token l a b
  handle r token (priority l a b) = subflow_priority p r token l a b

  -- The call that a plugin expects for it.
  abbrev pub event : ℕ → TokenEvent → Event
  event token (established l a s) = Event.connection_established token l a s
  event token closed = Event.connection_closed token
  event token (address id a) = Event.new_address token id a
  event token (removed id) = Event.address_removed token id
  event token (subflow l a b) = Event.new_subflow token l a b
  event token (subflow_end l a b) = Event.subflow_closed token l a b
  event token (priority l a b) = Event.subflow_priority token l a b

  -- The plugin of a name: the one registered under it, and the default where no name is given or
  -- nothing is registered under it.
  abbrev pub chosen : Registry p → Option (List ℕ) → Option Ops
  chosen r none = r.default_ops
  chosen r (some name) = or_else (names.lookup r.pm_plugins name) r.default_ops

  name_to_ops_lem : (r : Registry p) (name : Option (List ℕ)) → name_to_ops p r name ≡ chosen r name
  unfolding name_to_ops
  name_to_ops_lem r none = refl
  name_to_ops_lem r (some name) = ground arith

  -- The call of a plugin for an event: one if the plugin has the callback of the event, and else none.
  abbrev pub one_call : Option Ops → ℕ → TokenEvent → List Call
  one_call none token e = []
  one_call (some ops) token e = if ops.implements (wanted e) then (ops, event token e) ∷ [] else []

  invoke_lem :
      (o : Option Ops) (token : ℕ) (e : TokenEvent)
      → invoke p o (event token e) ≡ one_call o token e
  unfolding invoke
  invoke_lem none token e = refl
  invoke_lem (some ops) token (established l a s) = refl
  invoke_lem (some ops) token closed = refl
  invoke_lem (some ops) token _ = refl

  handle_lem :
      (r : Registry p) (token : ℕ) (e : TokenEvent)
      → handle r token e ≡ invoke p (token_to_ops p r token) (event token e)
  unfolding handle connection_established connection_closed new_address address_removed new_subflow
      subflow_closed subflow_priority
  handle_lem r token (established l a s) = refl
  handle_lem r token closed = refl
  handle_lem r token _ = refl

  same_token : (t u : ℕ) → same p.token_keys t u ≡ (t == u)
  same_token t u = ground (arith, p.token_eq t u, p.token_keys.compare_self t)

  token_to_ops-new_connection :
      (r : Registry p) (name : Option (List ℕ)) (token t : ℕ) (laddr raddr : Sockaddr)
      (server_side : Bool)
      → tokens.lookup r.token_ops token ≡ none
      → ((ops : Ops) → (tokens.insert r.token_ops token ops).1 ≡ true)
      → token_to_ops p (new_connection p r name token laddr raddr server_side).0 t
        ≡ (if token == t then chosen r name else token_to_ops p r t)
  unfolding new_connection token_to_ops
  token_to_ops-new_connection r name token t laddr raddr server_side free takes =
      let same_ops = name_to_ops_lem r name in
      elim (Option-cases (name_to_ops p r name)) [
        | inl e ↦ ground (arith, e, free, sym same_ops ∙ e)
        | inr (o, e) ↦ ground (
          arith,
          e,
          sym same_ops ∙ e,
          free,
          takes o,
          tokens.lookup-insert r.token_ops token t o free,
          same_token token t,
        )
      ]

  -- Once a connection is created under a token that was free, each later event of it is one call,
  -- with the arguments of the event, of the plugin registered under the name, or of the default plugin
  -- where no name is given or nothing is registered under it, if that plugin has the callback; events
  -- of every other token are handled as before. The map of tokens takes the entry of the connection.
  pub handle-new_connection :
      (r : Registry p) (name : Option (List ℕ)) (token t : ℕ) (laddr raddr : Sockaddr)
      (server_side : Bool) (e : TokenEvent)
      → tokens.lookup r.token_ops token ≡ none
      → ((ops : Ops) → (tokens.insert r.token_ops token ops).1 ≡ true)
      → handle (new_connection p r name token laddr raddr server_side).0 t e
        ≡ (if token == t then one_call (chosen r name) t e else handle r t e)
  handle-new_connection r name token t laddr raddr server_side e free takes =
      let r' = (new_connection p r name token laddr raddr server_side).0 in
      ground (
        arith,
        handle_lem r' t e,
        handle_lem r t e,
        invoke_lem (chosen r name) t e,
        token_to_ops-new_connection r name token t laddr raddr server_side free takes,
      )
