-- ===== src/Sspi/History.antt =====
-- Histories of calls of the plugin: how many subflows a connection gets on an interface.
use mptcpd.Common.{
  ℕ, ◌≤◌, Bool, ◌&&◌, ◌||◌, Option, none, some, List, [], ◌∷◌, ◌==◌, if◌then◌else◌, ◌≡◌, ◌≢◌, sym,
  ap, subst, ◌∙◌, arith, Bool-cases, inl, inr,
}
use mptcpd.Ell.Queue.{Queue}
use mptcpd.Ell.Removal.{Removal}
use mptcpd.NetworkMonitor.{Nm}
use mptcpd.NetworkMonitor.LinkSpec.{Takes}
use mptcpd.PathManager.{Pm}
use mptcpd.Plugin.Calls.{
  Event, new_connection, connection_established, connection_closed, new_address, address_removed,
  new_subflow, subflow_closed, subflow_priority, listener_created, listener_closed, new_interface,
  update_interface, delete_interface, new_local_address, delete_local_address,
}
use mptcpd.Sockaddr.{Sockaddr}
use mptcpd.Sspi.{Sspi, addr_to_index, handle}
use mptcpd.Sspi.Lookup.{Inv, tokens}
use mptcpd.Sspi.Refines.{Table, table_step, one_more, one_less, has_room, handle_lem}

module _ (queue : Queue ℕ) where
  -- At most one subflow of a connection on an interface.
  abbrev pub Single : Table → Type 0
  Single t = (i token : ℕ) → t i token ≤ 1

  -- What the kernel keeps to: no token is 0, and a new connection has a token that is not in use.
  unfoldable pub Opens : Event → Table → Type 0
  Opens (new_connection token laddr raddr server_side) t = (i : ℕ) → t i token ≡ 0
  Opens (new_subflow token laddr raddr backup) t = token ≢ 0
  Opens _ t = Unit

  one_more_first :
      (j token i u : ℕ) (t : Table) → t i u ≤ 1 → t j token ≡ 0 → one_more (some j) token t i u ≤ 1
  one_more_first j token i u t h z = elim (Bool-cases (j == i && token == u)) [
    | inl e ↦
        let here : i ≡ j = ground (arith, e) in
        let same : u ≡ token = ground (arith, e) in
        let zero_there : t i u ≡ 0 = ap (λ x. t x u) here ∙ ap (t j) same ∙ z in
        ground (arith, e, zero_there)
    | inr e ↦ ground (arith, e, h)
  ]

  table_step-Single :
      (index : Sockaddr → Option ℕ) (e : Event) (t : Table)
      → Single t
      → Opens e t
      → Single (table_step index e t)
  unfolding Opens
  table_step-Single index (new_connection token laddr raddr server_side) t h k i u =
      one (index laddr)
    where
      one : (o : Option ℕ) → one_more o token t i u ≤ 1
      one none = h i u
      one (some j) = one_more_first j token i u t (h i u) (k j)
  table_step-Single index (new_subflow token laddr raddr backup) t h k i u = one (index laddr)
    where
      one : (o : Option ℕ) → (if has_room o token t then one_more o token t else t) i u ≤ 1
      one none = h i u
      one (some j) = elim (Bool-cases (t j token == 0 || token == 0)) [
        | inl e ↦ rw e (one_more_first j token i u t (h i u) (ground (arith, e, k)))
        | inr e ↦ rw e (h i u)
      ]
  table_step-Single index (subflow_closed token laddr raddr backup) t h k i u = one (index laddr)
    where
      one : (o : Option ℕ) → one_less o token t i u ≤ 1
      one none = h i u
      one (some j) = ground (arith, h i u)
  table_step-Single index (connection_closed token) t h k i u = ground (arith, h i u)
  table_step-Single index (connection_established token laddr raddr b) t h k i u = h i u
  table_step-Single index (new_address token id addr) t h k i u = h i u
  table_step-Single index (address_removed token id) t h k i u = h i u
  table_step-Single index (subflow_priority token laddr raddr b) t h k i u = h i u
  table_step-Single index (listener_created laddr) t h k i u = h i u
  table_step-Single index (listener_closed laddr) t h k i u = h i u
  table_step-Single index (new_interface n) t h k i u = h i u
  table_step-Single index (update_interface n) t h k i u = h i u
  table_step-Single index (delete_interface n) t h k i u = h i u
  table_step-Single index (new_local_address n sa) t h k i u = h i u
  table_step-Single index (delete_local_address n sa) t h k i u = h i u

  module _ (removal : Removal queue) (W : Type 0) (pm : Pm W) where
    -- Calls, each with what the network monitor knows at its time.
    unfoldable pub run : List (Nm queue × Event) → Sspi queue → W → Sspi queue × W
    run [] s w = (s, w)
    run ((nm, e) ∷ rest) s w = let now = handle queue removal W pm nm e s w in run rest now.0 now.1

    unfoldable pub Orderly : List (Nm queue × Event) → Sspi queue → W → Type 0
    Orderly [] s w = Unit
    Orderly ((nm, e) ∷ rest) s w =
        let now = handle queue removal W pm nm e s w in
        Opens e (tokens queue s) × Orderly rest now.0 now.1

    -- From a valid state with at most one subflow of each connection on an interface, any history of
    -- calls in which the kernel gives out no token 0, and to a new connection none that is in use,
    -- leads to such a state, whatever the network monitor knows, if the queue takes every entry.
    pub run-Single :
        (history : List (Nm queue × Event)) (s : Sspi queue) (w : W)
        → Takes queue
        → Inv queue s
        → Single (tokens queue s)
        → Orderly history s w
        → Inv queue (run history s w).0 × Single (tokens queue (run history s w).0)
    unfolding run Orderly
    run-Single [] s w takes inv single o = (inv, single)
    run-Single ((nm, e) ∷ rest) s w takes inv single o =
        let now = handle queue removal W pm nm e s w in
        let r = handle_lem queue removal W pm nm e s w takes inv in
        let after = table_step-Single (addr_to_index queue nm) e (tokens queue s) single o.0 in
        run-Single rest now.0 now.1 takes r.valid
          (λ i t. subst (λ n. n ≤ 1) (sym (r.table i t)) (after i t)) o.1

    -- When a connection is closed that has a subflow on an interface, the plugin forgets there the
    -- subflows of every other connection: the next one of such a connection is let in, with no
    -- command to close it, if the queue takes every entry.
    pub connection_closed_forgets :
        (nm : Nm queue) (s : Sspi queue) (w : W) (i token other : ℕ) (laddr raddr : Sockaddr)
        (backup : Bool)
        → Takes queue
        → Inv queue s
        → addr_to_index queue nm laddr ≡ some i
        → tokens queue s i token ≢ 0
        → let closed = handle queue removal W pm nm (connection_closed token) s w in
          let again =
            handle queue removal W pm nm (new_subflow other laddr raddr backup) closed.0 w in
          (tokens queue closed.0 i other ≡ 0) × (tokens queue again.0 i other ≡ 1) × (again.1 ≡ w)
    connection_closed_forgets nm s w i token other laddr raddr backup takes inv here there =
        let closed = handle queue removal W pm nm (connection_closed token) s w in
        let r = handle_lem queue removal W pm nm (connection_closed token) s w takes inv in
        let free : tokens queue closed.0 i other ≡ 0 = r.table i other ∙ ground (arith, there) in
        let again =
          handle_lem queue removal W pm nm (new_subflow other laddr raddr backup) closed.0 w takes
            r.valid in
        (
          free,
          again.table i other ∙ rw here (ground (arith, free)),
          again.world ∙ rw here (ground (arith, free)),
        )
