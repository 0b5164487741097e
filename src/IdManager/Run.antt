-- ===== src/IdManager/Run.antt =====
-- Histories of calls on one ID manager, and what an ID that was replaced becomes.
use mptcpd.Common.{
  ℕ, ◌%◌, false, Option, none, some, ◌≡◌, inl, inr, sym, arith, subst, Bool-cases, leb, List, [],
  ◌∷◌,
}
use mptcpd.IdManager.{
  Platform, Idm, put_id, new_id, idm_map_id, idm_get_id, idm_remove_id, idm_create,
}
use mptcpd.IdManager.Invariant.{Inv, put_id-Inv, idm_create-Inv}
use mptcpd.IdManager.Remove.{without-Inv, remove_id_lem}
use mptcpd.Sockaddr.{Sockaddr}

-- A call on the manager, with its arguments as the caller passes them.
pub data Call : Type 0 where
  get : Option Sockaddr → Call
  remove : Option Sockaddr → Call
  sync : Option Sockaddr → ℕ → Call

module _ (p : Platform) where
  open p use {seed, hm, us}

  unfoldable pub step : Idm p → Call → Option (Idm p)
  step idm (get sa) = (idm_get_id p (some idm) sa).0
  step idm (remove sa) = (idm_remove_id p (some idm) sa).0
  step idm (sync sa id) = (idm_map_id p (some idm) sa id).0

  unfoldable pub run : Option (Idm p) → List Call → Option (Idm p)
  run none cs = none
  run (some idm) [] = some idm
  run (some idm) (c ∷ cs) = run (step idm c) cs

  -- A call never loses the manager, and `P` holds of it.
  abbrev pub Holds : (Idm p → Type 0) → Option (Idm p) → Type 0
  Holds P none = ⊥
  Holds P (some idm) = P idm

  map_id_cases :
      (P : Idm p → Type 0) (idm : Idm p) (sa : Sockaddr) (id : ℕ)
      → P idm
      → P (put_id p idm sa id).0
      → Holds P (idm_map_id p (some idm) (some sa) id).0
  unfolding idm_map_id
  map_id_cases P idm sa id stay put = ground (arith, stay, put)

  -- A call takes over no number that is marked used.
  abbrev pub Fresh : Idm p → Call → Type 0
  Fresh idm (sync sa id) = us.contains idm.ids id ≡ false
  Fresh idm c = Unit

  -- None of the calls does, each on the manager at its time.
  unfoldable pub Orderly : Option (Idm p) → List Call → Type 0
  Orderly none cs = Unit
  Orderly (some idm) [] = Unit
  Orderly (some idm) (c ∷ cs) = Fresh idm c × Orderly (step idm c) cs

  new_id-Inv : (idm : Idm p) (sa : Sockaddr) → Inv p idm → Holds (Inv p) (new_id p idm (some sa)).0
  unfolding new_id
  new_id-Inv idm sa v =
      let n = us.find_unused_min idm.ids in
      let range = us.find_range idm.ids in
      elim (Bool-cases (leb n 255)) [
        | inl le ↦
            let below : n % 256 ≡ n = ground (arith, le) in
            let unused : us.contains idm.ids (n % 256) ≡ false =
              rw below (us.find_unused idm.ids (ground arith)) in
            let put = put_id-Inv p idm sa (n % 256) unused v in
            ground (arith, v, map_id_cases (Inv p) idm sa (n % 256) v put)
        | inr gt ↦ ground (arith, v, range, gt)
      ]

  get_id-Inv :
      (idm : Idm p) (sa : Sockaddr)
      → Inv p idm
      → Holds (Inv p) (idm_get_id p (some idm) (some sa)).0
  unfolding idm_get_id
  get_id-Inv idm sa v = ground (arith, v, new_id-Inv idm sa v)

  step-Inv : (idm : Idm p) (c : Call) → Fresh idm c → Inv p idm → Holds (Inv p) (step idm c)
  unfolding step idm_get_id idm_remove_id idm_map_id
  step-Inv idm (get none) fresh v = v
  step-Inv idm (get (some sa)) fresh v = get_id-Inv idm sa v
  step-Inv idm (remove none) fresh v = v
  step-Inv idm (remove (some sa)) fresh v =
      subst (λ r. Holds (Inv p) r.0) (sym (remove_id_lem p idm sa v)) (without-Inv p idm sa v)
  step-Inv idm (sync none id) fresh v = v
  step-Inv idm (sync (some sa) id) fresh v =
      map_id_cases (Inv p) idm sa id v (put_id-Inv p idm sa id fresh v)

  run-Inv :
      (s : Option (Idm p)) (cs : List Call)
      → Orderly s cs
      → Holds (Inv p) s
      → Holds (Inv p) (run s cs)
  unfolding run Orderly
  run-Inv none cs orderly v = v
  run-Inv (some idm) [] orderly v = v
  run-Inv (some idm) (c ∷ cs) orderly v =
      run-Inv (step idm c) cs orderly.1 (step-Inv idm c orderly.0 v)

  -- After any history of calls on a new manager in which no number that is marked used at the time is
  -- taken over by `map_id`, no ID belongs to two IP addresses, every mapped ID is marked used, and no
  -- address is stored twice.
  pub run-create-Inv :
      (cs : List Call)
      → Orderly (some (idm_create p)) cs
      → Holds (Inv p) (run (some (idm_create p)) cs)
  run-create-Inv cs orderly = run-Inv (some (idm_create p)) cs orderly (idm_create-Inv p)
