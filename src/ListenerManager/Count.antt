-- ===== src/ListenerManager/Count.antt =====
-- The listener manager as a count of listeners for each address.
use mptcpd.Common.{
  ℕ, ◌+◌, ◌≤◌, Bool, true, none, some, if◌then◌else◌, ℤ, pos, ◌≡◌, ◌≢◌, refl, arith, Option-cases,
  inl, inr,
}
use mptcpd.Ell.HashMap.{same}
use mptcpd.ListenerManager.Invariant.{Inv, shared, added, lookup-added}
use mptcpd.ListenerManager.Keys.{listener_keys}
use mptcpd.ListenerManager.{ListenerMap, Lm}
use mptcpd.Sockaddr.{Sockaddr}

module _ (p : ListenerMap) where
  open p use {seed, hm}

  -- How many listeners share an address.
  unfoldable pub count : Lm p → Sockaddr → ℕ
  count lm a = elim (hm.lookup lm.map a) [ none ↦ 0 | some v ↦ (lm.values v).refcnt ]

  -- What `listen` does, for the states before and after, the address it leaves and its result.
  pub record Listened (lm lm' : Lm p) (sa' : Sockaddr) (r : ℤ) : Type 0 where
    pub valid : Inv p lm'
    pub counts :
        r ≡ pos 0
        → (a : Sockaddr)
        → count lm' a ≡ count lm a + (if same (listener_keys seed) sa' a then 1 else 0)
    pub counts_failed : r ≢ pos 0 → (a : Sockaddr) → count lm' a ≡ count lm a
    pub fds_failed : r ≢ pos 0 → (fd : ℕ) → lm'.open_fds fd ≡ lm.open_fds fd

  pub count-shared :
      (lm : Lm p) (sa a : Sockaddr) (at : ℕ)
      → hm.lookup lm.map sa ≡ some at
      → Inv p lm
      → count (shared p lm at) a ≡ count lm a + (if same (listener_keys seed) sa a then 1 else 0)
  unfolding count
  count-shared lm sa a at h i = elim (Option-cases (hm.lookup lm.map a)) [
    | inl e ↦ ground (arith, e, h, hm.lookup_same lm.map sa a)
    | inr (w, e) ↦ ground (arith, e, h, hm.lookup_same lm.map sa a, i.apart sa a at w h e)
  ]

  pub count-added :
      (lm : Lm p) (name a : Sockaddr) (fd : ℕ)
      → hm.lookup lm.map name ≡ none
      → (hm.insert lm.map name lm.fresh).1 ≡ true
      → Inv p lm
      → count (added p lm name fd) a
        ≡ count lm a + (if same (listener_keys seed) name a then 1 else 0)
  unfolding count added
  count-added lm name a fd new stored i = elim (Option-cases (hm.lookup lm.map a)) [
    | inl e ↦
        ground (arith, e, new, hm.lookup_same lm.map name a, lookup-added p lm name a fd new stored)
    | inr (w, e) ↦ ground (
      arith,
      e,
      new,
      hm.lookup_same lm.map name a,
      lookup-added p lm name a fd new stored,
      i.below a w e,
    )
  ]

  pub same_state :
      (lm : Lm p) (open_fds : ℕ → Bool) (sa : Sockaddr) (e : ℕ)
      → 1 ≤ e
      → ((fd : ℕ) → open_fds fd ≡ lm.open_fds fd)
      → Inv p lm
      → Listened lm (record lm { open_fds = open_fds }) sa (pos e)
  unfolding count
  same_state lm open_fds sa e h same_fds i = record {
    valid = record {
      distinct = i.distinct;
      below = i.below;
      counted = i.counted;
      opened = λ a v k. ground (arith, same_fds (lm.values v).fd, i.opened a v k);
      apart = i.apart;
    };
    counts = λ z. absurd (ground (arith, z));
    counts_failed = λ z a. refl;
    fds_failed = λ z fd. same_fds fd;
  }
