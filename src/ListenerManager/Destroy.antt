-- ===== src/ListenerManager/Destroy.antt =====
-- The end of a listener manager.
use mptcpd.Common.{ℕ, true, List, [], ◌∷◌, some, ◌≡◌, ◌≢◌, ◌↔◌, refl, sym, subst, arith, inl, inr}
use mptcpd.Ell.HashMap.{Has}
use mptcpd.ListenerManager.Invariant.{Inv}
use mptcpd.ListenerManager.{ListenerMap, Lm, close_listener, close_all, lm_destroy}
use mptcpd.Sockaddr.{Sockaddr}

module _ (p : ListenerMap) where
  open p use {hm}

  -- No entry of a list has the descriptor.
  abbrev Unheld : Lm p → ℕ → List (Sockaddr × ℕ) → Type 0
  Unheld lm fd l = (a : Sockaddr) (at : ℕ) → Has (a, at) l → (lm.values at).fd ≢ fd

  close_listener_open :
      (lm : Lm p) (at fd : ℕ)
      → ((close_listener p lm at).open_fds fd ≡ true)
        ↔ ((lm.open_fds fd ≡ true) × ((lm.values at).fd ≢ fd))
  unfolding close_listener
  close_listener_open lm at fd =
      (λ h. (ground (arith, h), λ e. ground (arith, h, e)), λ h. ground (arith, h.0, h.1))

  close_all_open :
      (lm : Lm p) (fd : ℕ) (l : List (Sockaddr × ℕ))
      → ((close_all p lm l).open_fds fd ≡ true) ↔ ((lm.open_fds fd ≡ true) × Unheld lm fd l)
  unfolding close_all close_listener
  close_all_open lm fd [] = (λ h. (h, λ a at k. absurd k), λ h. h.0)
  close_all_open lm fd ((sa, at) ∷ rest) =
      let ih = close_all_open (close_listener p lm at) fd rest in
      (
        λ h.
            let (open_fd, unheld) = ih.0 h in
            (
              ((close_listener_open lm at fd).0 open_fd).0,
              λ a k has. elim has [
                | inl e ↦
                    let m : k ≡ at = cc e in
                    subst (λ n. (lm.values n).fd ≢ fd) (sym m)
                      ((close_listener_open lm at fd).0 open_fd).1
                | inr r ↦ unheld a k r
              ],
            ),
        λ h. ih.1 (
          (close_listener_open lm at fd).1 (h.0, h.1 sa at (inl refl)),
          λ a k has. h.1 a k (inr has),
        ),
      )

  -- Destroying a valid manager closes the descriptors of its listeners, and no other.
  pub lm_destroy_iff :
      (lm : Lm p) (fd : ℕ)
      → Inv p lm
      → (lm_destroy p lm fd ≡ true) ↔ (
          (lm.open_fds fd ≡ true)
          × ((a : Sockaddr) (at : ℕ) → hm.lookup lm.map a ≡ some at → (lm.values at).fd ≢ fd))
  unfolding lm_destroy
  lm_destroy_iff lm fd i =
      let e = close_all_open lm fd (hm.entries lm.map) in
      (
        λ h.
            let (open_fd, unheld) = e.0 h in
            (
              open_fd,
              λ a at k. let (j, s, has) = hm.entries-lookup lm.map a at k in unheld j at has,
            ),
        λ h. e.1 (h.0, λ a at has. h.1 a at (hm.lookup-entries lm.map a at i.distinct has)),
      )
