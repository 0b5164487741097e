-- ===== src/ListenerManager/Listen.antt =====
-- What `mptcpd_lm_listen` does.
use mptcpd.Common.{
  ℕ, ◌≤◌, true, false, ◌&&◌, not, zero, suc, Option, none, some, ℤ, pos, neg, ◌≡◌, refl, arith,
  Option-cases, Bool-cases, inl, inr, ◌⊎◌, subst,
}
use mptcpd.ListenerManager.Invariant.{Inv, Honest, Stores, shared, shared-Inv, added, added-Inv}
use mptcpd.ListenerManager.{
  ListenerMap, Lm, Answers, Sys, done, failed, update, open_listener, map_listener, make_listener,
  share_or_make, lm_listen, einval, is_unbound_address,
}
use mptcpd.Sockaddr.{Sockaddr, is_inet}
use mptcpd.ListenerManager.Count.{Listened, count-shared, count-added, same_state}

Sys-cases : {A : Type 0} (s : Sys A) → ((e : ℕ) × (s ≡ failed e)) ⊎ ((a : A) × (s ≡ done a))
Sys-cases (failed e) = inl (e, refl)
Sys-cases (done a) = inr (a, refl)

module _ (p : ListenerMap) where
  open p use {seed, hm}

  -- A failure to open leaves every descriptor as it was.
  open_listener_cases :
      (lm : Lm p) (ans : Answers)
      → Honest p lm ans
      → ((e : ℕ) × (1 ≤ e)
          × ((open_listener ans lm.open_fds).1 ≡ neg (pos e))
          × ((fd : ℕ) → (open_listener ans lm.open_fds).0 fd ≡ lm.open_fds fd))
        ⊎ ((fd : ℕ) × (ans.socket ≡ done fd)
            × (open_listener ans lm.open_fds ≡ (update lm.open_fds fd true, pos fd)))
  unfolding open_listener
  open_listener_cases lm ans h = elim (Sys-cases ans.socket) [
    | inl (e, s) ↦ inl (e, h.socket_errno e s, rw s, λ fd. rw s)
    | inr (fd, s) ↦ elim (Sys-cases ans.bind) [
      | inl (e, b) ↦
          inl (e, h.bind_errno e b, rw (s, b), λ k. rw (s, b) (ground (arith, h.new_fd fd s)))
      | inr (_, b) ↦ elim (Sys-cases ans.listen) [
        | inl (e, l) ↦
            inl (
              e,
              h.listen_errno e l,
              rw (s, b, l),
              λ k. rw (s, b, l) (ground (arith, h.new_fd fd s)),
            )
        | inr (_, l) ↦ inr (fd, s, rw (s, b, l))
      ]
    ]
  ]

  make_failed :
      (lm : Lm p) (ans : Answers) (sa : Sockaddr) (e : ℕ)
      → 1 ≤ e
      → (open_listener ans lm.open_fds).1 ≡ neg (pos e)
      → make_listener p ans lm sa
        ≡ (record lm { open_fds = (open_listener ans lm.open_fds).0 }, sa, pos e)
  unfolding make_listener
  make_failed lm ans sa zero one o = absurd (omega arith)
  make_failed lm ans sa (suc e) one o = ground (arith, o)

  make_unnamed :
      (lm : Lm p) (ans : Answers) (sa : Sockaddr) (e fd : ℕ)
      → open_listener ans lm.open_fds ≡ (update lm.open_fds fd true, pos fd)
      → ans.getsockname ≡ failed e
      → make_listener p ans lm sa
        ≡ (record lm { open_fds = update (update lm.open_fds fd true) fd false }, sa, pos e)
  unfolding make_listener
  make_unnamed lm ans sa e fd o n = ground (arith, o, n)

  make_added :
      (lm : Lm p) (ans : Answers) (sa name : Sockaddr) (fd : ℕ)
      → open_listener ans lm.open_fds ≡ (update lm.open_fds fd true, pos fd)
      → ans.getsockname ≡ done name
      → (hm.insert lm.map name lm.fresh).1 ≡ true
      → make_listener p ans lm sa ≡ (added p lm name fd, name, pos 0)
  unfolding make_listener map_listener added
  make_added lm ans sa name fd o n stored = ground (arith, o, n, stored)

  added-Listened :
      (lm : Lm p) (name : Sockaddr) (fd : ℕ)
      → lm.open_fds fd ≡ false
      → hm.lookup lm.map name ≡ none
      → (hm.insert lm.map name lm.fresh).1 ≡ true
      → Inv p lm
      → Listened p lm (added p lm name fd) name (pos 0)
  added-Listened lm name fd closed new stored i = record {
    valid = added-Inv p lm name fd closed new stored i;
    counts = λ z a. count-added p lm name a fd new stored i;
    counts_failed = λ z. absurd (z refl);
    fds_failed = λ z. absurd (z refl);
  }

  make_listener-Listened :
      (lm : Lm p) (ans : Answers) (sa : Sockaddr)
      → Honest p lm ans
      → Stores p lm ans
      → Inv p lm
      → let r = make_listener p ans lm sa in Listened p lm r.0 r.1 r.2
  make_listener-Listened lm ans sa h stores i = elim (open_listener_cases lm ans h) [
    | inl (e, one, failed_with, same_fds) ↦
        rw (make_failed lm ans sa e one failed_with) (same_state p lm _ sa e one same_fds i)
    | inr (fd, s, opened) ↦ elim (Sys-cases ans.getsockname) [
      | inl (e, n) ↦
          rw (make_unnamed lm ans sa e fd opened n)
            (same_state p lm _ sa e (h.name_errno e n) (λ k. ground (arith, h.new_fd fd s)) i)
      | inr (name, n) ↦
          let stored = stores name n in
          rw (make_added lm ans sa name fd opened n stored)
            (added-Listened lm name fd (h.new_fd fd s) (h.new_name name n) stored i)
    ]
  ]

  shared-Listened :
      (lm : Lm p) (sa : Sockaddr) (at : ℕ)
      → hm.lookup lm.map sa ≡ some at
      → Inv p lm
      → Listened p lm (shared p lm at) sa (pos 0)
  shared-Listened lm sa at h i = record {
    valid = shared-Inv p lm at i;
    counts = λ z a. count-shared p lm sa a at h i;
    counts_failed = λ z. absurd (z refl);
    fds_failed = λ z. absurd (z refl);
  }

  share_or_make-Listened :
      (lm : Lm p) (ans : Answers) (sa : Sockaddr)
      → Honest p lm ans
      → Stores p lm ans
      → Inv p lm
      → let r = share_or_make p ans lm sa in Listened p lm r.0 r.1 r.2
  unfolding share_or_make
  share_or_make-Listened lm ans sa h stores i = elim (Option-cases (hm.lookup lm.map sa)) [
    | inl e ↦ rw (e, share_or_make) (make_listener-Listened lm ans sa h stores i)
    | inr (at, e) ↦ rw (e, share_or_make) (shared-Listened lm sa at e i)
  ]

  same-Listened : (lm : Lm p) (sa : Sockaddr) → Inv p lm → Listened p lm lm sa (pos einval)
  same-Listened lm sa i = record {
    valid = i;
    counts = λ z. absurd (ground (arith, z));
    counts_failed = λ z a. refl;
    fds_failed = λ z fd. refl;
  }

  Listened-eq :
      (lm m lm' : Lm p) (sa sa' : Sockaddr) (q r : ℤ)
      → Listened p lm m sa q
      → ◌≡◌ {A = Option (Lm p) × Option Sockaddr × ℤ} (some m, some sa, q) (some lm', some sa', r)
      → Listened p lm lm' sa' r
  Listened-eq lm m lm' sa sa' q r l e =
      let states : m ≡ lm' = cc in
      let addresses : sa ≡ sa' = cc in
      let results : q ≡ r = cc in
      subst (Listened p lm lm' sa') results
        (subst (λ s. Listened p lm lm' s q) addresses (subst (λ s. Listened p lm s sa q) states l))

  -- On a valid manager, with a kernel that keeps its guarantees and a hash map that takes the
  -- entry, `listen` keeps the manager valid. Its result 0 means one listener more on the address
  -- that it leaves behind, and the same number on every other; any other result means that no
  -- count and no descriptor has changed.
  pub lm_listen-Listened :
      (lm lm' : Lm p) (ans : Answers) (sa sa' : Sockaddr) (r : ℤ)
      → Honest p lm ans
      → Stores p lm ans
      → Inv p lm
      → lm_listen p ans (some lm) (some sa) ≡ (some lm', some sa', r)
      → Listened p lm lm' sa' r
  unfolding lm_listen
  lm_listen-Listened lm lm' ans sa sa' r h stores i e =
      let made = share_or_make-Listened lm ans sa h stores i in
      let refused = same-Listened lm sa i in
      elim (Bool-cases (is_inet sa && not (is_unbound_address sa))) [
        | inl g ↦ Listened-eq lm _ lm' _ sa' _ r made (ground (arith, g, e))
        | inr g ↦ Listened-eq lm lm lm' sa sa' (pos einval) r refused (ground (arith, g, e))
      ]
