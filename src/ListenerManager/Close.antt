-- ===== src/ListenerManager/Close.antt =====
-- `mptcpd_lm_close`, and the error path of `make_listener`.
use mptcpd.Common.{
  ℕ, ◌-◌, true, false, Option, none, some, ◌==◌, if◌then◌else◌, ℤ, pos, negsuc, ◌≡◌, ◌≢◌, refl,
  arith, Option-cases, inl, inr, subst,
}
use mptcpd.Ell.HashMap.{same}
use mptcpd.ListenerManager.Count.{count}
use mptcpd.ListenerManager.Invariant.{Inv, release-Inv}
use mptcpd.ListenerManager.Keys.{listener_keys}
use mptcpd.ListenerManager.{ListenerMap, Lm, map_listener, release, lm_close, einval}
use mptcpd.Sockaddr.{Sockaddr}

module _ (p : ListenerMap) where
  open p use {seed, hm}

  -- What `close` does, for the states before and after, the address and the result.
  pub record Closed (lm lm' : Lm p) (sa : Sockaddr) (r : ℤ) : Type 0 where
    pub valid : Inv p lm'
    pub result : r ≡ (if count p lm sa == 0 then pos einval else pos 0)
    pub counts :
        (a : Sockaddr)
        → count p lm' a ≡ count p lm a - (if same (listener_keys seed) sa a then 1 else 0)
    pub fds_kept : count p lm sa ≢ 1 → (fd : ℕ) → lm'.open_fds fd ≡ lm.open_fds fd
    pub fds_closed :
        (v fd : ℕ)
        → hm.lookup lm.map sa ≡ some v
        → count p lm sa ≡ 1
        → lm'.open_fds fd ≡ (if fd == (lm.values v).fd then false else lm.open_fds fd)

  count-release :
      (lm : Lm p) (sa a : Sockaddr) (at : ℕ)
      → hm.lookup lm.map sa ≡ some at
      → Inv p lm
      → count p (release p lm sa at) a
        ≡ count p lm a - (if same (listener_keys seed) sa a then 1 else 0)
  unfolding count release
  count-release lm sa a at h i = elim (Option-cases (hm.lookup lm.map a)) [
    | inl e ↦
        ground (arith, e, h, hm.lookup_same lm.map sa a, hm.lookup-remove lm.map sa a i.distinct)
    | inr (w, e) ↦ ground (
      arith,
      e,
      h,
      hm.lookup_same lm.map sa a,
      hm.lookup-remove lm.map sa a i.distinct,
      i.apart sa a at w h e,
    )
  ]

  count-mapped :
      (lm : Lm p) (sa : Sockaddr) (at : ℕ)
      → hm.lookup lm.map sa ≡ some at
      → count p lm sa ≡ (lm.values at).refcnt
  unfolding count
  count-mapped lm sa at h = ground (arith, h)

  release-Closed :
      (lm : Lm p) (sa : Sockaddr) (at : ℕ)
      → hm.lookup lm.map sa ≡ some at
      → Inv p lm
      → Closed lm (release p lm sa at) sa (pos 0)
  unfolding release
  release-Closed lm sa at h i =
      let c = count-mapped lm sa at h in
      record {
        valid = release-Inv p lm sa at h i;
        result = ground (arith, c, i.counted sa at h);
        counts = λ a. count-release lm sa a at h i;
        fds_kept = λ n fd. ground (arith, c, n);
        fds_closed = λ v fd k n. ground (arith, c, n, h, k);
      }

  unmapped-Closed :
      (lm : Lm p) (sa : Sockaddr)
      → hm.lookup lm.map sa ≡ none
      → Inv p lm
      → Closed lm lm sa (pos einval)
  unfolding count
  unmapped-Closed lm sa h i = record {
    valid = i;
    result = ground (arith, h);
    counts = λ a. ground (arith, h, hm.lookup_same lm.map sa a);
    fds_kept = λ n fd. refl;
    fds_closed = λ v fd k n. ground (arith, h, k);
  }

  Closed-eq :
      (lm m lm' : Lm p) (sa : Sockaddr) (q r : ℤ)
      → Closed lm m sa q
      → ◌≡◌ {A = Option (Lm p) × ℤ} (some m, q) (some lm', r)
      → Closed lm lm' sa r
  Closed-eq lm m lm' sa q r l e =
      let states : m ≡ lm' = cc in
      let results : q ≡ r = cc in
      subst (Closed lm lm' sa) results (subst (λ s. Closed lm s sa q) states l)

  -- On a valid manager `close` fails with EINVAL exactly if nobody listens on the address, and then
  -- changes no count. Otherwise it returns 0 and there is one listener less on the address, and as
  -- many as before on every other. The descriptor of the last listener on an address is closed, and
  -- no other descriptor is.
  pub lm_close-Closed :
      (lm lm' : Lm p) (sa : Sockaddr) (r : ℤ)
      → Inv p lm
      → lm_close p (some lm) (some sa) ≡ (some lm', r)
      → Closed lm lm' sa r
  unfolding lm_close
  lm_close-Closed lm lm' sa r i e = elim (Option-cases (hm.lookup lm.map sa)) [
    | inl h ↦ Closed-eq lm lm lm' sa _ r (unmapped-Closed lm sa h i) (ground (arith, e, h))
    | inr (at, h) ↦ Closed-eq lm _ lm' sa _ r (release-Closed lm sa at h i) (ground (arith, e, h))
  ]

  -- A new listener that the hash map refuses is reported by -1, but its descriptor is left open,
  -- and descriptor 0 is closed in its place.
  pub map_listener_refused :
      (lm : Lm p) (name : Sockaddr) (fd : ℕ)
      → (hm.insert lm.map name lm.fresh).1 ≡ false
      → lm.open_fds fd ≡ true
      → fd ≢ 0
      → ((map_listener p lm name fd).1 ≡ negsuc 0)
        × ((map_listener p lm name fd).0.open_fds fd ≡ true)
        × ((map_listener p lm name fd).0.open_fds 0 ≡ false)
  unfolding map_listener
  map_listener_refused lm name fd h o nz = ground (arith, h, o, nz)
