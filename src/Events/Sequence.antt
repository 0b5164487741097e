-- ===== src/Events/Sequence.antt =====
-- The events of one connection, from messages to plugins.
use mptcpd.Common.{ℕ, true, none, some, List, ◌==◌, if◌then◌else◌, ◌≡◌, arith, ◌∙◌}
use mptcpd.Events.Attributes.{Attribute, parse, no_attrs}
use mptcpd.Events.{truth, has_connection, handle_connection_closed, dispatch, handle_mptcp_event}
use mptcpd.Plugin.Calls.{Call}
use mptcpd.Plugin.Dispatch.{TokenEvent, handle, one_call, handle-new_connection}
use mptcpd.Plugin.{Platform, Registry}
use mptcpd.Plugin
use mptcpd.Events.Calls.{local_address, remote_address, handle_connection_created_lem}

if_self : {A : Type 0} (x y : A) (n : ℕ) → (if n == n then x else y) ≡ x
if_self x y n = ground arith

created_step :
    (p : Platform) (r : Registry p) (msg : List Attribute) (token : ℕ)
    → let a = parse (some msg) no_attrs in
      has_connection a ≡ true
      → a.token ≡ some token
      → handle_mptcp_event p r 1 (some msg)
        ≡ Plugin.new_connection p r none token
            (local_address a)
            (remote_address a)
            (truth a.server_side)
unfolding handle_mptcp_event dispatch
created_step p r msg token full t =
    ground (arith, handle_connection_created_lem p r (parse (some msg) no_attrs), full, t)

closed_step :
    (p : Platform) (r : Registry p) (msg : List Attribute) (token : ℕ)
    → (parse (some msg) no_attrs).token ≡ some token
    → (handle_mptcp_event p r 3 (some msg)).1 ≡ handle p r token TokenEvent.closed
unfolding handle_mptcp_event dispatch handle_connection_closed handle
closed_step p r msg token t = ground (arith, t)

-- From messages to plugins: after a complete creation message for a free token, a message that the
-- connection is closed makes one call, of the default plugin of the time of creation, if there is one
-- and it has the callback, and else none. The map of tokens takes the entry of the connection.
pub closed-created :
    (p : Platform) (r : Registry p) (created closed : List Attribute) (token : ℕ)
    → has_connection (parse (some created) no_attrs) ≡ true
    → (parse (some created) no_attrs).token ≡ some token
    → (parse (some closed) no_attrs).token ≡ some token
    → p.tokens.lookup r.token_ops token ≡ none
    → ((ops : Plugin.Calls.Ops) → (p.tokens.insert r.token_ops token ops).1 ≡ true)
    → (handle_mptcp_event p (handle_mptcp_event p r 1 (some created)).0 3 (some closed)).1
      ≡ one_call p r.default_ops token TokenEvent.closed
closed-created p r created closed token full t u free takes =
    let a = parse (some created) no_attrs in
    let server_side = truth a.server_side in
    let laddr = local_address a in
    let raddr = remote_address a in
    let e = TokenEvent.closed in
    rw (created_step p r created token full t) (
      closed_step p (Plugin.new_connection p r none token laddr raddr server_side).0 closed token u
      ∙ handle-new_connection p r none token token laddr raddr server_side e free takes
      ∙ if_self (one_call p r.default_ops token e) _ token)
