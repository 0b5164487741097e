-- ===== src/ListenerManager/Invariant.antt =====
-- The invariant of the listener manager.
use mptcpd.Common.{ℕ, ◌+◌, ◌≤◌, ◌<◌, Bool, true, false, none, some, if◌then◌else◌, ◌≡◌, arith}
use mptcpd.Ell.HashMap.{same}
use mptcpd.ListenerManager.Keys.{listener_keys, compare_sym, compare_trans}
use mptcpd.ListenerManager.{ListenerMap, Lm, Answers, done, failed, update, lm_create, release}
use mptcpd.Sockaddr.{Sockaddr}

-- Each mapped address has a value of its own in memory, with a positive count and a descriptor of
-- its own that is open.
pub record Inv (p : ListenerMap) (lm : Lm p) : Type 0 where
  pub distinct : p.hm.Distinct lm.map
  pub below : (a : Sockaddr) (v : ℕ) → p.hm.lookup lm.map a ≡ some v → v < lm.fresh
  pub counted : (a : Sockaddr) (v : ℕ) → p.hm.lookup lm.map a ≡ some v → 1 ≤ (lm.values v).refcnt
  pub opened :
      (a : Sockaddr) (v : ℕ) → p.hm.lookup lm.map a ≡ some v → lm.open_fds (lm.values v).fd ≡ true
  pub apart :
      (a b : Sockaddr) (v w : ℕ)
      → p.hm.lookup lm.map a ≡ some v
      → p.hm.lookup lm.map b ≡ some w
      → (lm.values v).fd ≡ (lm.values w).fd
      → same (listener_keys p.seed) a b ≡ true

-- What the kernel guarantees: an errno is positive, a new descriptor is not open yet, and no two
-- listening sockets are bound to one name.
pub record Honest (p : ListenerMap) (lm : Lm p) (ans : Answers) : Type 0 where
  pub socket_errno : (e : ℕ) → ans.socket ≡ failed e → 1 ≤ e
  pub bind_errno : (e : ℕ) → ans.bind ≡ failed e → 1 ≤ e
  pub listen_errno : (e : ℕ) → ans.listen ≡ failed e → 1 ≤ e
  pub name_errno : (e : ℕ) → ans.getsockname ≡ failed e → 1 ≤ e
  pub new_fd : (fd : ℕ) → ans.socket ≡ done fd → lm.open_fds fd ≡ false
  pub new_name : (name : Sockaddr) → ans.getsockname ≡ done name → p.hm.lookup lm.map name ≡ none

module _ (p : ListenerMap) where
  open p use {seed, hm}

  -- The hash map takes the entry of a new listener.
  abbrev pub Stores : Lm p → Answers → Type 0
  Stores lm ans =
      (name : Sockaddr) → ans.getsockname ≡ done name → (hm.insert lm.map name lm.fresh).1 ≡ true

  pub lm_create-Inv : (open_fds : ℕ → Bool) → Inv p (lm_create p open_fds)
  unfolding lm_create
  lm_create-Inv open_fds = record {
    distinct = hm.new-Distinct;
    below = λ a v h. ground (arith, h, hm.lookup-new a);
    counted = λ a v h. ground (arith, h, hm.lookup-new a);
    opened = λ a v h. ground (arith, h, hm.lookup-new a);
    apart = λ a b v w h k e. ground (arith, h, hm.lookup-new a);
  }

  -- The count of an address goes up.
  abbrev pub shared : Lm p → ℕ → Lm p
  shared lm at =
      let v = lm.values at in
      record lm { values = update lm.values at (record v { refcnt = v.refcnt + 1 }) }

  pub shared-Inv : (lm : Lm p) (at : ℕ) → Inv p lm → Inv p (shared lm at)
  shared-Inv lm at i = record {
    distinct = i.distinct;
    below = i.below;
    counted = λ a v h. ground (arith, i.counted a v h);
    opened = λ a v h. ground (arith, i.opened a v h);
    apart = λ a b v w h k e. ground (arith, i.apart a b v w h k);
  }

  -- A new listener.
  unfoldable pub added : Lm p → Sockaddr → ℕ → Lm p
  added lm name fd = record {
    map = (hm.insert lm.map name lm.fresh).0;
    values = update lm.values lm.fresh (record { fd = fd; refcnt = 1 });
    fresh = lm.fresh + 1;
    open_fds = update lm.open_fds fd true;
  }

  pub lookup-added :
      (lm : Lm p) (name a : Sockaddr) (fd : ℕ)
      → hm.lookup lm.map name ≡ none
      → (hm.insert lm.map name lm.fresh).1 ≡ true
      → hm.lookup (added lm name fd).map a
        ≡ (if same (listener_keys seed) name a then some lm.fresh else hm.lookup lm.map a)
  unfolding added
  lookup-added lm name a fd new stored =
      ground (arith, hm.lookup-insert lm.map name a lm.fresh new, stored)

  same_meet :
      (a b c : Sockaddr)
      → same (listener_keys seed) a b ≡ true
      → same (listener_keys seed) a c ≡ true
      → same (listener_keys seed) b c ≡ true
  same_meet a b c h k = ground (arith, compare_sym a b, compare_trans b a c)

  pub added-Inv :
      (lm : Lm p) (name : Sockaddr) (fd : ℕ)
      → lm.open_fds fd ≡ false
      → hm.lookup lm.map name ≡ none
      → (hm.insert lm.map name lm.fresh).1 ≡ true
      → Inv p lm
      → Inv p (added lm name fd)
  unfolding added
  added-Inv lm name fd closed new stored i = record {
    distinct = hm.insert-Distinct lm.map name lm.fresh new i.distinct;
    below = λ a v h. ground (arith, h, lookup-added lm name a fd new stored, i.below a v);
    counted = λ a v h.
        ground (arith, h, lookup-added lm name a fd new stored, i.below a v, i.counted a v);
    opened =
        λ a v h. ground (arith, h, lookup-added lm name a fd new stored, i.below a v, i.opened a v);
    apart = λ a b v w h k e. ground (
      arith,
      h,
      k,
      e,
      lookup-added lm name a fd new stored,
      lookup-added lm name b fd new stored,
      i.below a v,
      i.below b w,
      i.opened a v,
      i.opened b w,
      i.apart a b v w,
      same_meet name a b,
      closed,
    );
  }

  pub release-Inv :
      (lm : Lm p) (sa : Sockaddr) (at : ℕ)
      → hm.lookup lm.map sa ≡ some at
      → Inv p lm
      → Inv p (release p lm sa at)
  unfolding release
  release-Inv lm sa at h i = record {
    distinct = ground (arith, i.distinct, hm.remove-Distinct lm.map sa i.distinct);
    below = λ a v k. ground (arith, k, hm.lookup-remove lm.map sa a i.distinct, i.below a v);
    counted = λ a v k.
        ground (
          arith,
          k,
          hm.lookup-remove lm.map sa a i.distinct,
          i.counted a v,
          i.apart sa a at v h,
          h,
        );
    opened = λ a v k.
        ground
          (arith, k, hm.lookup-remove lm.map sa a i.distinct, i.opened a v, i.apart sa a at v h, h);
    apart = λ a b v w k l e. ground (
      arith,
      k,
      l,
      e,
      hm.lookup-remove lm.map sa a i.distinct,
      hm.lookup-remove lm.map sa b i.distinct,
      i.apart a b v w,
    );
  }
