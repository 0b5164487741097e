-- ===== src/Sspi/Effects.antt =====
-- What each operation of the plugin comes to, given what the search for the interface finds.
use mptcpd.Common.{
  ℕ, ◌+◌, ◌-◌, not, ◌||◌, Option, none, some, List, [], ◌∷◌, ◌==◌, is_some, if◌then◌else◌, ◌≡◌,
  refl, ap, ◌∙◌, arith,
}
use mptcpd.Ell.Queue.{Queue, insert_entry}
use mptcpd.Ell.Removal.{Removal}
use mptcpd.NetworkMonitor.{Nm}
use mptcpd.NetworkMonitor.LinkSpec.{Takes}
use mptcpd.PathManager.{Pm, pm_add_addr, do_pm_add_addr, pm_remove_subflow}
use mptcpd.Sockaddr.{Sockaddr}
use mptcpd.Sspi.{
  Sspi, append, addr_to_index, info_of_index, interface_info_lookup, set_tokens, send_addr_all,
  send_addrs_all, connect, join, leave,
}
use mptcpd.Sspi.Infos.{times, times-insert_entry, times-drop_entry, found_times}

module _ (queue : Queue ℕ) where
  -- The tokens of an object with one more.
  abbrev pub with_token : ℕ → ℕ → Sspi queue → Sspi queue
  with_token a token s = set_tokens queue a (queue.insert (s.info_at a).tokens token append).0 s

module _ (queue : Queue ℕ) (W : Type 0) (pm : Pm W) (nm : Nm queue) where
  open queue use {entries, insert, find}

  -- An address is announced with the ID 0, which the command refuses.
  refused :
      (addr : Option Sockaddr) (token : ℕ) (w : W) → (pm_add_addr W (some pm) addr 0 token w).0 ≡ w
  unfolding pm_add_addr do_pm_add_addr
  refused none token w = refl
  refused (some addr) token w = refl

  send_addr_all_silent :
      (token : ℕ) (l : List ℕ) (w : W) → send_addr_all queue W pm nm token l w ≡ w
  unfolding send_addr_all
  send_addr_all_silent token [] w = refl
  send_addr_all_silent token (at ∷ rest) w = send_addr_all_silent token rest _ ∙ refused _ token w

  send_addrs_all_silent :
      (token index : ℕ) (l : List ℕ) (w : W) → send_addrs_all queue W pm nm token index l w ≡ w
  unfolding send_addrs_all
  send_addrs_all_silent token index [] w = refl
  send_addrs_all_silent token index (i ∷ rest) w =
      send_addrs_all_silent token index rest _
      ∙ ground (arith, send_addr_all_silent token (entries (nm.iface_at i).addrs) w)

  pub times_with :
      (q : queue.Q) (token t : ℕ)
      → Takes queue
      → times t (entries (insert q token append).0)
        ≡ (if token == t then times t (entries q) + 1 else times t (entries q))
  times_with q token t takes =
      let e : entries (insert q token append).0 ≡ insert_entry append token (entries q) =
        ground (arith, queue.entries-insert q token append, takes q token append) in
      ap (times t) e ∙ times-insert_entry t token (entries q)

  lookup_none :
      (laddr : Sockaddr) (s : Sspi queue)
      → addr_to_index queue nm laddr ≡ none
      → interface_info_lookup queue nm laddr s ≡ (s, none)
  unfolding interface_info_lookup
  lookup_none laddr s h = rw (interface_info_lookup, h)

  lookup_some :
      (laddr : Sockaddr) (s s' : Sspi queue) (i a : ℕ)
      → addr_to_index queue nm laddr ≡ some i
      → info_of_index queue i s ≡ (s', some a)
      → interface_info_lookup queue nm laddr s ≡ (s', some a)
  unfolding interface_info_lookup
  lookup_some laddr s s' i a h e = rw (interface_info_lookup, h) e

  pub connect_nowhere :
      (token : ℕ) (laddr : Sockaddr) (s : Sspi queue) (w : W)
      → addr_to_index queue nm laddr ≡ none
      → connect queue W pm nm token laddr s w ≡ (s, w)
  unfolding connect
  connect_nowhere token laddr s w h =
      let found = lookup_none laddr s h in rw (connect, found, found)

  pub connect_found :
      (token : ℕ) (laddr : Sockaddr) (s s' : Sspi queue) (w : W) (i a : ℕ)
      → Takes queue
      → addr_to_index queue nm laddr ≡ some i
      → info_of_index queue i s ≡ (s', some a)
      → connect queue W pm nm token laddr s w ≡ (with_token queue a token s', w)
  unfolding connect
  connect_found token laddr s s' w i a takes h e =
      let found = lookup_some laddr s s' i a h e in
      rw (connect, found, found, takes (s'.info_at a).tokens token append)
        (ap (λ v. (with_token queue a token s', v))
          (send_addrs_all_silent token (s'.info_at a).index (entries nm.interfaces) w))

  pub join_nowhere :
      (token : ℕ) (laddr raddr : Sockaddr) (s : Sspi queue) (w : W)
      → addr_to_index queue nm laddr ≡ none
      → join queue W pm nm token laddr raddr s w ≡ (s, w)
  unfolding join
  join_nowhere token laddr raddr s w h =
      let found = lookup_none laddr s h in rw (join, found, found)

  pub join_found :
      (token : ℕ) (laddr raddr : Sockaddr) (s s' : Sspi queue) (w : W) (i a : ℕ)
      → Takes queue
      → addr_to_index queue nm laddr ≡ some i
      → info_of_index queue i s ≡ (s', some a)
      → join queue W pm nm token laddr raddr s w ≡ (
          if times token (entries (s'.info_at a).tokens) == 0 || token == 0
          then (with_token queue a token s', w)
          else (s', (pm_remove_subflow W (some pm) token (some laddr) (some raddr) w).0))
  unfolding join
  join_found token laddr raddr s s' w i a takes h e =
      let q = (s'.info_at a).tokens in
      let found : is_some (find q (λ t. t == token)) ≡ not (times token (entries q) == 0) =
        ap is_some (queue.find-entries q (λ t. t == token)) ∙ found_times token (entries q) in
      let looked = lookup_some laddr s s' i a h e in
      rw (join, looked, looked, found, takes q token append) (ground arith)

  module _ (removal : Removal queue) where
    open removal use {remove}

    pub times_less :
        (q : queue.Q) (token t : ℕ)
        → times t (entries (remove q token).0)
          ≡ (if t == token then times t (entries q) - 1 else times t (entries q))
    times_less q token t =
        ap (times t) (removal.entries-remove q token) ∙ times-drop_entry token t (entries q)

    pub leave_nowhere :
        (token : ℕ) (laddr : Sockaddr) (s : Sspi queue)
        → addr_to_index queue nm laddr ≡ none
        → leave queue removal nm token laddr s ≡ s
    unfolding leave
    leave_nowhere token laddr s h = let found = lookup_none laddr s h in rw (leave, found, found)

    pub leave_found :
        (token : ℕ) (laddr : Sockaddr) (s s' : Sspi queue) (i a : ℕ)
        → addr_to_index queue nm laddr ≡ some i
        → info_of_index queue i s ≡ (s', some a)
        → leave queue removal nm token laddr s
          ≡ set_tokens queue a (remove (s'.info_at a).tokens token).0 s'
    unfolding leave
    leave_found token laddr s s' i a h e =
        let found = lookup_some laddr s s' i a h e in rw (leave, found, found)
