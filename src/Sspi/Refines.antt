-- ===== src/Sspi/Refines.antt =====
-- The plugin implements a table that counts, for each interface, the subflows of each connection.
use mptcpd.Common.{
  ℕ, ◌+◌, ◌-◌, ◌<◌, Bool, true, false, ◌&&◌, ◌||◌, Option, none, some, ◌==◌, if◌then◌else◌, All,
  ◌≡◌, refl, sym, ap, subst, ◌∙◌, arith, Bool-cases, Option-cases, inl, inr, ◌⊎◌,
}
use mptcpd.Ell.Queue.{Queue}
use mptcpd.Ell.Removal.{Removal}
use mptcpd.NetworkMonitor.{Nm}
use mptcpd.NetworkMonitor.LinkSpec.{Takes}
use mptcpd.PathManager.{Pm, pm_remove_subflow}
use mptcpd.Plugin.Calls.{
  Event, new_connection, connection_established, connection_closed, new_address, address_removed,
  new_subflow, subflow_closed, subflow_priority, listener_created, listener_closed, new_interface,
  update_interface, delete_interface, new_local_address, delete_local_address,
}
use mptcpd.Sockaddr.{Sockaddr}
use mptcpd.Sspi.{
  Sspi, append, addr_to_index, handle, connect, join, leave, close, remove_token, set_tokens,
}
use mptcpd.Sspi.Where.{where_is, addr_to_index_lem}
use mptcpd.Sspi.Scan.{times_gone, Apart-gone, All-gone}
use mptcpd.Sspi.Lookup.{Inv, tokens, Found, info_of_index-Found, tokens-Found, set_tokens-Found}
use mptcpd.Sspi.Effects.{
  times_with, connect_nowhere, connect_found, join_nowhere, join_found, times_less, leave_nowhere,
  leave_found, with_token,
}

-- The number of subflows of a connection on an interface, by its index and the token.
abbrev pub Table : Type 0
Table = ℕ → ℕ → ℕ

abbrev pub one_more : Option ℕ → ℕ → Table → Table
one_more none token t j u = t j u
one_more (some i) token t j u = if i == j && token == u then t j u + 1 else t j u

abbrev pub one_less : Option ℕ → ℕ → Table → Table
one_less none token t j u = t j u
one_less (some i) token t j u = if i == j && token == u then t j u - 1 else t j u

-- There is room for a subflow where the connection has none.
abbrev pub has_room : Option ℕ → ℕ → Table → Bool
has_room none token t = true
has_room (some i) token t = t i token == 0 || token == 0

-- Every interface on which the connection has a subflow loses all its subflows.
abbrev pub forget : ℕ → Table → Table
forget token t j u = if t j token == 0 then t j u else 0

-- What a call does to the table; `index` says on which interface an address is.
abbrev pub table_step : (Sockaddr → Option ℕ) → Event → Table → Table
table_step index (new_connection token laddr raddr server_side) t = one_more (index laddr) token t
table_step index (new_subflow token laddr raddr backup) t =
    if has_room (index laddr) token t then one_more (index laddr) token t else t
table_step index (subflow_closed token laddr raddr backup) t = one_less (index laddr) token t
table_step index (connection_closed token) t = forget token t
table_step index _ t = t

-- What it does to the world: a subflow for which there is no room is closed.
abbrev pub world_step : (W : Type 0) → Pm W → (Sockaddr → Option ℕ) → Event → Table → W → W
world_step W pm index (new_subflow token laddr raddr backup) t w =
    if has_room (index laddr) token t
    then w
    else (pm_remove_subflow W (some pm) token (some laddr) (some raddr) w).0
world_step W pm index _ t w = w

module _ (queue : Queue ℕ) (removal : Removal queue) (W : Type 0) (pm : Pm W) (nm : Nm queue) where
  open queue use {entries}

  -- A call that led from `s` and `w` to `r` did to the table and the world what `e` asks for, where
  -- `index` says on which interface an address is.
  pub record Refines (index : Sockaddr → Option ℕ) (s : Sspi queue) (w : W) (r : Sspi queue × W)
      (e : Event) : Type 0 where
    pub valid : Inv queue r.0
    pub table : (j u : ℕ) → tokens queue r.0 j u ≡ table_step index e (tokens queue s) j u
    pub world : r.1 ≡ world_step W pm index e (tokens queue s) w

  unchanged :
      (s : Sspi queue) (w : W) (e : Event)
      → Inv queue s
      → ((j u : ℕ)
          → table_step (addr_to_index queue nm) e (tokens queue s) j u ≡ tokens queue s j u)
      → world_step W pm (addr_to_index queue nm) e (tokens queue s) w ≡ w
      → Refines (addr_to_index queue nm) s w (s, w) e
  unchanged s w e inv table world = record {
    valid = inv;
    table = λ j u. sym (table j u);
    world = sym world;
  }

  added :
      (s s' : Sspi queue) (i a token : ℕ)
      → Takes queue
      → Found queue s s' i a
      → Inv queue (with_token queue a token s')
        × ((j u : ℕ)
            → tokens queue (with_token queue a token s') j u
              ≡ one_more (some i) token (tokens queue s) j u)
  added s s' i a token takes found =
      let q = (s'.info_at a).tokens in
      let (valid, table) = set_tokens-Found queue s s' i a (queue.insert q token append).0 found in
      (
        valid,
        λ j u.
            table j u
            ∙ same_index j u _ _ (Bool-cases (i == j)) (times_with queue W pm nm q token u takes)
                (tokens-Found queue s s' i a u found),
      )
    where
      same_index :
          (j u n m : ℕ)
          → (i == j) ≡ true ⊎ (i == j) ≡ false
          → n ≡ (if token == u then m + 1 else m)
          → m ≡ tokens queue s i u
          → (if i == j then n else tokens queue s j u)
            ≡ one_more (some i) token (tokens queue s) j u
      same_index j u n m (inl e) h k =
          let here : i ≡ j = ground (arith, e) in
          let k' = k ∙ ap (λ x. tokens queue s x u) here in ground (arith, e, h, k')
      same_index j u n m (inr e) h k = ground (arith, e)

  removed :
      (s s' : Sspi queue) (i a token : ℕ)
      → Found queue s s' i a
      → let less = set_tokens queue a (removal.remove (s'.info_at a).tokens token).0 s' in
        Inv queue less
        × ((j u : ℕ) → tokens queue less j u ≡ one_less (some i) token (tokens queue s) j u)
  removed s s' i a token found =
      let q = (s'.info_at a).tokens in
      let (valid, table) = set_tokens-Found queue s s' i a (removal.remove q token).0 found in
      (
        valid,
        λ j u.
            table j u
            ∙ same_index j u _ _ (Bool-cases (i == j)) (times_less queue W pm nm removal q token u)
                (tokens-Found queue s s' i a u found),
      )
    where
      same_index :
          (j u n m : ℕ)
          → (i == j) ≡ true ⊎ (i == j) ≡ false
          → n ≡ (if u == token then m - 1 else m)
          → m ≡ tokens queue s i u
          → (if i == j then n else tokens queue s j u)
            ≡ one_less (some i) token (tokens queue s) j u
      same_index j u n m (inl e) h k =
          let here : i ≡ j = ground (arith, e) in
          let k' = k ∙ ap (λ x. tokens queue s x u) here in ground (arith, e, h, k')
      same_index j u n m (inr e) h k = ground (arith, e)

  connect-Refines :
      (token : ℕ) (laddr raddr : Sockaddr) (server_side : Bool) (s : Sspi queue) (w : W)
      → Takes queue
      → Inv queue s
      → Refines
          (addr_to_index queue nm)
          s
          w
          (connect queue W pm nm token laddr s w)
          (new_connection token laddr raddr server_side)
  connect-Refines token laddr raddr server_side s w takes inv =
      elim (Option-cases (addr_to_index queue nm laddr)) [
        | inl h ↦
            rw (connect_nowhere queue W pm nm token laddr s w h)
              (unchanged s w (new_connection token laddr raddr server_side) inv (λ j u. rw h) refl)
        | inr (i, h) ↦
            let (a, s', e, found) = info_of_index-Found queue i s takes inv in
            let (valid, table) = added s s' i a token takes found in
            rw (connect_found queue W pm nm token laddr s s' w i a takes h e)
              (record { valid = valid; table = λ j u. table j u ∙ rw h; world = refl })
      ]

  join-Refines :
      (token : ℕ) (laddr raddr : Sockaddr) (backup : Bool) (s : Sspi queue) (w : W)
      → Takes queue
      → Inv queue s
      → Refines
          (addr_to_index queue nm)
          s
          w
          (join queue W pm nm token laddr raddr s w)
          (new_subflow token laddr raddr backup)
  join-Refines token laddr raddr backup s w takes inv =
      elim (Option-cases (addr_to_index queue nm laddr)) [
        | inl h ↦
            rw (join_nowhere queue W pm nm token laddr raddr s w h)
              (unchanged s w (new_subflow token laddr raddr backup) inv (λ j u. rw h) (rw h))
        | inr (i, h) ↦
            let (a, s', e, found) = info_of_index-Found queue i s takes inv in
            let (valid, table) = added s s' i a token takes found in
            let count = tokens-Found queue s s' i a token found in
            rw (join_found queue W pm nm token laddr raddr s s' w i a takes h e, count)
              (elim (Bool-cases (tokens queue s i token == 0 || token == 0)) [
                | inl r ↦ rw r (record {
                  valid = valid;
                  table = λ j u. table j u ∙ rw (h, r);
                  world = rw (h, r);
                })
                | inr r ↦ rw r (record {
                  valid = found.valid;
                  table = λ j u. found.same j u ∙ rw (h, r);
                  world = rw (h, r);
                })
              ])
      ]

  leave-Refines :
      (token : ℕ) (laddr raddr : Sockaddr) (backup : Bool) (s : Sspi queue) (w : W)
      → Takes queue
      → Inv queue s
      → Refines
          (addr_to_index queue nm)
          s
          w
          (leave queue removal nm token laddr s, w)
          (subflow_closed token laddr raddr backup)
  leave-Refines token laddr raddr backup s w takes inv =
      elim (Option-cases (addr_to_index queue nm laddr)) [
        | inl h ↦
            rw (leave_nowhere queue W pm nm removal token laddr s h)
              (unchanged s w (subflow_closed token laddr raddr backup) inv (λ j u. rw h) refl)
        | inr (i, h) ↦
            let (a, s', e, found) = info_of_index-Found queue i s takes inv in
            let (valid, table) = removed s s' i a token found in
            rw (leave_found queue W pm nm removal token laddr s s' i a h e)
              (record { valid = valid; table = λ j u. table j u ∙ rw h; world = refl })
      ]

  close-Refines :
      (token : ℕ) (s : Sspi queue) (w : W)
      → Inv queue s
      → Refines
          (addr_to_index queue nm)
          s
          w
          (close queue removal token s, w)
          (connection_closed token)
  unfolding close tokens
  close-Refines token s w inv =
      let l = entries s.interfaces in
      let f = s.info_at in
      let list = removal.entries-foreach_remove s.interfaces (remove_token queue removal token) f in
      let store =
        removal.foreach_remove-entries s.interfaces (remove_token queue removal token) f in
      record {
        valid = record {
          below =
              subst (All (λ k. k < s.fresh)) (sym list)
                (All-gone queue removal (λ k. k < s.fresh) token l f inv.below);
          apart = rw (list, store) (Apart-gone queue removal token l f inv.apart);
        };
        table = λ j u. rw (list, store) (times_gone queue removal token l f j u inv.apart);
        world = refl;
      }

  -- The same, by the index that the plugin finds.
  pub handle_lem :
      (e : Event) (s : Sspi queue) (w : W)
      → Takes queue
      → Inv queue s
      → Refines (addr_to_index queue nm) s w (handle queue removal W pm nm e s w) e
  unfolding handle
  handle_lem (new_connection token laddr raddr server_side) s w takes inv =
      connect-Refines token laddr raddr server_side s w takes inv
  handle_lem (new_subflow token laddr raddr backup) s w takes inv =
      join-Refines token laddr raddr backup s w takes inv
  handle_lem (subflow_closed token laddr raddr backup) s w takes inv =
      leave-Refines token laddr raddr backup s w takes inv
  handle_lem (connection_closed token) s w takes inv = close-Refines token s w inv
  handle_lem (connection_established token laddr raddr b) s w takes inv =
      unchanged s w _ inv (λ j u. refl) refl
  handle_lem (new_address token id addr) s w takes inv = unchanged s w _ inv (λ j u. refl) refl
  handle_lem (address_removed token id) s w takes inv = unchanged s w _ inv (λ j u. refl) refl
  handle_lem (subflow_priority token laddr raddr b) s w takes inv =
      unchanged s w _ inv (λ j u. refl) refl
  handle_lem (listener_created laddr) s w takes inv = unchanged s w _ inv (λ j u. refl) refl
  handle_lem (listener_closed laddr) s w takes inv = unchanged s w _ inv (λ j u. refl) refl
  handle_lem (new_interface i) s w takes inv = unchanged s w _ inv (λ j u. refl) refl
  handle_lem (update_interface i) s w takes inv = unchanged s w _ inv (λ j u. refl) refl
  handle_lem (delete_interface i) s w takes inv = unchanged s w _ inv (λ j u. refl) refl
  handle_lem (new_local_address i sa) s w takes inv = unchanged s w _ inv (λ j u. refl) refl
  handle_lem (delete_local_address i sa) s w takes inv = unchanged s w _ inv (λ j u. refl) refl

  -- On a valid state the plugin's operations implement the table of subflows: each changes the table
  -- as the call asks, and a new subflow is closed by a command exactly if the connection has one on
  -- the interface already; nothing else is sent to the kernel, if the queue takes every entry. A
  -- closed connection takes with it all subflows, also of others, on the interfaces that it used. The
  -- interface of an address is the first of the network monitor that has it, by family and bytes.
  pub handle-Refines :
      (e : Event) (s : Sspi queue) (w : W)
      → Takes queue
      → Inv queue s
      → Refines (where_is queue nm) s w (handle queue removal W pm nm e s w) e
  handle-Refines e s w takes inv =
      subst (λ index. Refines index s w (handle queue removal W pm nm e s w) e)
        (addr_to_index_lem queue nm) (handle_lem e s w takes inv)
