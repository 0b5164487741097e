-- ===== src/IdManager/Get.antt =====
-- `mptcpd_idm_get_id` of lib/id_manager.c.
use mptcpd.Common.{
  ℕ, ◌≤◌, ◌<◌, ◌%◌, true, false, ◌||◌, none, some, ◌≡◌, ◌≢◌, ◌↔◌, inl, inr, arith, if◌then◌else◌,
  ◌==◌, leb, subst, Bool-cases, Option-cases,
}
use mptcpd.Ell.HashMap.{same}
use mptcpd.IdManager.{Platform, Idm, hashmap_replace, put_id, idm_map_id, new_id, idm_get_id}
use mptcpd.IdManager.Keys.{ip_keys}
use mptcpd.IdManager.Invariant.{Inv, put_id-Inv, mapped_range}
use mptcpd.IdManager.Put.{lookup-put_id, contains-put_id}
use mptcpd.Sockaddr.{Sockaddr, is_inet}

-- What a caller of `get_id` relies on, for the states before and after and the ID returned.
pub record Got (p : Platform) (idm idm' : Idm p) (sa : Sockaddr) (id : ℕ) : Type 0 where
  pub valid : Inv p idm'
  pub range : (1 ≤ id) × (id ≤ 255)
  pub mapped :
      (j : Sockaddr)
      → p.hm.lookup idm'.map j
        ≡ (if same (ip_keys p.seed) sa j then some id else p.hm.lookup idm.map j)
  pub marked : (n : ℕ) → p.us.contains idm'.ids n ≡ (n == id || p.us.contains idm.ids n)
  pub kept : (old : ℕ) → p.hm.lookup idm.map sa ≡ some old → id ≡ old
  pub fresh : p.hm.lookup idm.map sa ≡ none → p.us.contains idm.ids id ≡ false
  pub least :
      (k : ℕ) → p.hm.lookup idm.map sa ≡ none → 1 ≤ k → k < id → p.us.contains idm.ids k ≡ true

module _ (p : Platform) where
  open p use {seed, hm, us}

  pub get_id_known :
      (idm : Idm p) (sa : Sockaddr) (id : ℕ)
      → Inv p idm
      → hm.lookup idm.map sa ≡ some id
      → idm_get_id p (some idm) (some sa) ≡ (some idm, id)
  unfolding idm_get_id
  get_id_known idm sa id v h = ground (arith, h, mapped_range p sa id v h)

  -- The ID that an unmapped address is given.
  abbrev pub smallest : Idm p → ℕ
  smallest idm = us.find_unused_min idm.ids

  get_id_unmapped :
      (idm idm' : Idm p) (sa : Sockaddr) (id : ℕ)
      → hm.lookup idm.map sa ≡ none
      → idm_get_id p (some idm) (some sa) ≡ (some idm', id)
      → id ≢ 0
      → (id ≡ smallest idm)
        × (smallest idm ≤ 255)
        × ((put_id p idm sa id).1 ≡ true)
        × (idm' ≡ (put_id p idm sa id).0)
  unfolding idm_get_id new_id idm_map_id
  get_id_unmapped idm idm' sa id h e nz = ground (arith, h, us.find_range idm.ids)

  Got-known :
      (idm : Idm p) (sa : Sockaddr) (id : ℕ)
      → Inv p idm
      → hm.lookup idm.map sa ≡ some id
      → Got p idm idm sa id
  Got-known idm sa id v h = record {
    valid = v;
    range = mapped_range p sa id v h;
    mapped = λ j. ground (arith, h, hm.lookup_same idm.map sa j);
    marked = λ n. ground (arith, v.used sa id h);
    kept = λ old k. ground (arith, h, k);
    fresh = λ k. ground (arith, h, k);
    least = λ n k. ground (arith, h, k);
  }

  Got-new :
      (idm : Idm p) (sa : Sockaddr) (id : ℕ)
      → Inv p idm
      → hm.lookup idm.map sa ≡ none
      → id ≡ smallest idm
      → smallest idm ≤ 255
      → (put_id p idm sa id).1 ≡ true
      → Got p idm (put_id p idm sa id).0 sa id
  Got-new idm sa id v h e le ok =
      let unused : us.contains idm.ids id ≡ false = rw e (us.find_unused idm.ids le) in
      record {
        valid = put_id-Inv p idm sa id unused v;
        range = omega (arith, us.find_range idm.ids);
        mapped = λ j. lookup-put_id p idm sa j id v.distinct ok;
        marked = λ n. ground (arith, ok, contains-put_id p idm sa id n unused);
        kept = λ old k. ground (arith, h, k);
        fresh = λ k. unused;
        least = λ n k one below. us.find_below idm.ids n one (omega arith);
      }

  -- An ID other than 0 that `get_id` returns on a valid manager lies in 1 to 255, and stands for
  -- the address, and every address with its IP, from then on; no other address changes. An address
  -- that was mapped keeps its ID. A new ID was used by nobody and is the smallest such.
  pub get_id-Got :
      (idm idm' : Idm p) (sa : Sockaddr) (id : ℕ)
      → Inv p idm
      → idm_get_id p (some idm) (some sa) ≡ (some idm', id)
      → id ≢ 0
      → Got p idm idm' sa id
  get_id-Got idm idm' sa id v e nz = elim (Option-cases (hm.lookup idm.map sa)) [
    | inl h ↦
        let u = get_id_unmapped idm idm' sa id h e nz in rw u.3 (Got-new idm sa id v h u.0 u.1 u.2)
    | inr (old, h) ↦
        let known = get_id_known idm sa old v h in
        let same_id : old ≡ id = cc known in
        let same_state : idm ≡ idm' = cc known in
        subst (λ i. Got p idm i sa id) same_state
          (subst (Got p idm idm sa) same_id (Got-known idm sa old v h))
  ]

  get_id_value :
      (idm : Idm p) (sa : Sockaddr)
      → hm.lookup idm.map sa ≡ none
      → is_inet sa ≡ true
      → (hashmap_replace p idm.map sa (smallest idm)).2 ≡ true
      → (idm_get_id p (some idm) (some sa)).1 ≡ (if leb (smallest idm) 255 then smallest idm else 0)
  unfolding idm_get_id new_id idm_map_id put_id
  get_id_value idm sa h inet ok =
      let n = smallest idm in
      let r = us.find_range idm.ids in
      elim (Bool-cases (leb n 255)) [
        | inl le ↦
            let e : n % 256 ≡ n = ground (arith, r) in
            let unused = us.find_unused idm.ids (ground arith) in
            let put : (us.put idm.ids (n % 256)).1 ≡ true =
              rw e (us.put_unused idm.ids n r.0 (ground arith) unused) in
            let stored : (hashmap_replace p idm.map sa (n % 256)).2 ≡ true = rw e ok in
            ground (arith, h, r, put, stored)
        | inr gt ↦ ground (arith, h, r)
      ]

  -- The function `get_id` gives an unmapped IPv4 or IPv6 address an ID exactly when some ID is
  -- unused, if the hash map takes the entry.
  pub get_id-succeeds_iff :
      (idm : Idm p) (sa : Sockaddr)
      → hm.lookup idm.map sa ≡ none
      → is_inet sa ≡ true
      → (hashmap_replace p idm.map sa (smallest idm)).2 ≡ true
      → ((idm_get_id p (some idm) (some sa)).1 ≢ 0)
        ↔ ((n : ℕ) × (1 ≤ n) × (n ≤ 255) × (us.contains idm.ids n ≡ false))
  get_id-succeeds_iff idm sa h inet ok =
      let e = get_id_value idm sa h inet ok in
      let r = us.find_range idm.ids in
      (
        λ nz. (smallest idm, r.0, ground (arith, e, r), us.find_unused idm.ids (ground (arith, e))),
        λ (n, one, le, unused) z. ground (arith, e, r, us.find_below idm.ids n one),
      )
