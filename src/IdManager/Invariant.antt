-- ===== src/IdManager/Invariant.antt =====
-- The invariant of the ID manager.
use mptcpd.Common.{ℕ, ◌≤◌, true, false, some, ◌≡◌, arith}
use mptcpd.Ell.HashMap.{same}
use mptcpd.IdManager.{Platform, Idm, idm_create, put_id}
use mptcpd.IdManager.Keys.{ip_keys, compare_sym, compare_trans}
use mptcpd.IdManager.Put.{put_id_found, put_id-Distinct, contains-put_id}
use mptcpd.Sockaddr.{Sockaddr}

-- No key twice in the map, every mapped ID is marked used, and no ID belongs to two IP addresses.
pub record Inv (p : Platform) (idm : Idm p) : Type 0 where
  pub distinct : p.hm.Distinct idm.map
  pub used :
      (a : Sockaddr) (id : ℕ) → p.hm.lookup idm.map a ≡ some id → p.us.contains idm.ids id ≡ true
  pub unique :
      (a b : Sockaddr) (id : ℕ)
      → p.hm.lookup idm.map a ≡ some id
      → p.hm.lookup idm.map b ≡ some id
      → same (ip_keys p.seed) a b ≡ true

module _ (p : Platform) where
  open p use {seed, hm, us}

  same_meet :
      (a b c : Sockaddr)
      → same (ip_keys seed) a b ≡ true
      → same (ip_keys seed) a c ≡ true
      → same (ip_keys seed) b c ≡ true
  same_meet a b c h k = ground (arith, compare_sym a b, compare_trans b a c)

  pub idm_create-Inv : Inv p (idm_create p)
  unfolding idm_create
  idm_create-Inv = record {
    distinct = hm.new-Distinct;
    used = λ a id h. ground (arith, h, hm.lookup-new a);
    unique = λ a b id h k. ground (arith, h, hm.lookup-new a);
  }

  pub put_id-Inv :
      (idm : Idm p) (sa : Sockaddr) (id : ℕ)
      → us.contains idm.ids id ≡ false
      → Inv p idm
      → Inv p (put_id p idm sa id).0
  put_id-Inv idm sa id fresh v = record {
    distinct = put_id-Distinct p idm sa id v.distinct;
    used = λ a i h. ground (
      arith,
      contains-put_id p idm sa id i fresh,
      put_id_found p idm sa a id i v.distinct h,
      v.used a i,
    );
    unique = λ a b i h k. ground (
      arith,
      put_id_found p idm sa a id i v.distinct h,
      put_id_found p idm sa b id i v.distinct k,
      v.unique a b i,
      v.used a i,
      v.used b i,
      fresh,
      same_meet sa a b,
    );
  }

  -- A mapped ID is between 1 and 255.
  pub mapped_range :
      {idm : Idm p} (a : Sockaddr) (id : ℕ)
      → Inv p idm
      → hm.lookup idm.map a ≡ some id
      → (1 ≤ id) × (id ≤ 255)
  mapped_range {idm} a id v h = us.contains_range idm.ids id (v.used a id h)
