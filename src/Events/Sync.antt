-- ===== src/Events/Sync.antt =====
-- src/path_manager.c: the address IDs of the kernel are taken over when its path management appears.
use mptcpd.Common.{
  ℕ, ◌≤◌, true, false, Option, none, some, List, [], ◌∷◌, All, if◌then◌else◌, ◌≡◌, ◌≢◌, refl, sym,
  ap, ◌∙◌, subst, arith, Bool-cases, inl, inr,
}
use mptcpd.Ell.HashMap.{same}
use mptcpd.IdManager.{Platform, Idm, hashmap_replace, put_id, idm_map_id, idm_get_id}
use mptcpd.IdManager.Get.{get_id_known}
use mptcpd.IdManager.Invariant.{Inv, put_id-Inv}
use mptcpd.IdManager.Keys.{ip_keys, compare_sym, compare_trans}
use mptcpd.IdManager.Put.{lookup-put_id, contains-put_id}
use mptcpd.Sockaddr.{Sockaddr, is_inet}

-- What the kernel reports of an address: the address and its ID.
abbrev pub Entry : Type 0
Entry = Sockaddr × ℕ

module _ (p : Platform) where
  open p use {seed, hm, us}

  -- `dump_addrs_callback`, on the manager of the path manager.
  unfoldable pub dump_addrs_callback : Idm p → Entry → Idm p
  unfolding idm_map_id
  dump_addrs_callback idm (sa, id) = elim (idm_map_id p (some idm) (some sa) id).0 [
    | none ↦ idm
    | some idm' ↦ idm'
  ]

  -- The callback for each address of the answer.
  unfoldable pub sync : Idm p → List Entry → Idm p
  unfolding dump_addrs_callback
  sync idm [] = idm
  sync idm (e ∷ rest) = sync (dump_addrs_callback idm e) rest

  -- The ID that the kernel gives an IP address.
  unfoldable pub assigned : List Entry → Sockaddr → Option ℕ
  assigned [] k = none
  assigned ((sa, id) ∷ rest) k =
      let later = assigned rest k in if same (ip_keys seed) sa k then some id else later

  -- What the kernel keeps to: IDs in 1 to 255, one for an address, and no ID for two addresses.
  unfoldable pub Kept : List Entry → Type 0
  Kept [] = Unit
  Kept ((sa, id) ∷ rest) =
      (is_inet sa ≡ true)
      × (1 ≤ id)
      × (id ≤ 255)
      × All (λ e. e.1 ≢ id) rest
      × (assigned rest sa ≡ none)
      × Kept rest

  -- The IDs are not in use yet.
  abbrev pub Free : Idm p → List Entry → Type 0
  Free idm l = All (λ e. us.contains idm.ids e.1 ≡ false) l

  -- The map takes every entry.
  abbrev pub TakesEntries : Type 0
  TakesEntries = (m : hm.Map) (k : Sockaddr) (v : ℕ) → (hashmap_replace p m k v).2 ≡ true

  put_ok :
      (idm : Idm p) (sa : Sockaddr) (id : ℕ)
      → TakesEntries
      → 1 ≤ id
      → id ≤ 255
      → us.contains idm.ids id ≡ false
      → (put_id p idm sa id).1 ≡ true
  unfolding put_id
  put_ok idm sa id takes lo hi free =
      ground (arith, us.put_unused idm.ids id lo hi free, takes idm.map sa id)

  callback_puts :
      (idm : Idm p) (sa : Sockaddr) (id : ℕ)
      → is_inet sa ≡ true
      → 1 ≤ id
      → dump_addrs_callback idm (sa, id) ≡ (put_id p idm sa id).0
  unfolding dump_addrs_callback idm_map_id
  callback_puts idm sa id inet lo = ground (arith, inet, lo)

  Free-put_id :
      (idm : Idm p) (sa : Sockaddr) (id : ℕ) (l : List Entry)
      → us.contains idm.ids id ≡ false
      → All (λ e. e.1 ≢ id) l
      → Free idm l
      → Free (put_id p idm sa id).0 l
  Free-put_id idm sa id [] free apart all = tt
  Free-put_id idm sa id ((sb, n) ∷ l) free apart all = (
    ground (arith, contains-put_id p idm sa id n free, apart.0, all.0),
    Free-put_id idm sa id l free apart.1 all.1,
  )

  same_as :
      (a b c : Sockaddr)
      → same (ip_keys seed) a b ≡ true
      → same (ip_keys seed) c a ≡ same (ip_keys seed) c b
  same_as a b c h = ground (arith, compare_sym a b, compare_trans c a b, compare_trans c b a)

  assigned_same :
      (a b : Sockaddr) (l : List Entry)
      → same (ip_keys seed) a b ≡ true
      → assigned l a ≡ assigned l b
  unfolding assigned
  assigned_same a b [] h = refl
  assigned_same a b ((sa, id) ∷ l) h = ground (arith, same_as a b sa h, assigned_same a b l h)

  abbrev pub or_else : Option ℕ → Option ℕ → Option ℕ
  or_else none o = o
  or_else (some id) o = some id

  sync_lookup :
      (l : List Entry) (idm : Idm p)
      → TakesEntries
      → Inv p idm
      → Kept l
      → Free idm l
      → Inv p (sync idm l)
        × ((k : Sockaddr)
            → hm.lookup (sync idm l).map k ≡ or_else (assigned l k) (hm.lookup idm.map k))
  unfolding sync assigned Kept
  sync_lookup [] idm takes inv kept free = (inv, λ k. refl)
  sync_lookup ((sa, id) ∷ l) idm takes inv kept free =
      let (inet, lo, hi, apart, alone, rest) = kept in
      let idm' = (put_id p idm sa id).0 in
      let ok = put_ok idm sa id takes lo hi free.0 in
      let later =
        sync_lookup l idm' takes (put_id-Inv p idm sa id free.0 inv) rest
          (Free-put_id idm sa id l free.0 apart free.1) in
      let whole : sync idm ((sa, id) ∷ l) ≡ sync idm' l =
        ap (λ x. sync x l) (callback_puts idm sa id inet lo) in
      (
        subst (Inv p) (sym whole) later.0,
        λ k.
            ap (λ x. hm.lookup x.map k) whole
            ∙ later.1 k
            ∙ first_entry k (lookup-put_id p idm sa k id inv.distinct ok) (assigned_same sa k l)
                alone,
      )
    where
      first_entry :
          (k : Sockaddr)
          → hm.lookup (put_id p idm sa id).0.map k
            ≡ (if same (ip_keys seed) sa k then some id else hm.lookup idm.map k)
          → (same (ip_keys seed) sa k ≡ true → assigned l sa ≡ assigned l k)
          → assigned l sa ≡ none
          → or_else (assigned l k) (hm.lookup (put_id p idm sa id).0.map k)
            ≡ or_else
                (if same (ip_keys seed) sa k then some id else assigned l k)
                (hm.lookup idm.map k)
      first_entry k put agree alone = elim (Bool-cases (same (ip_keys seed) sa k)) [
        | inl e ↦ rw (sym (agree e), alone, put, e)
        | inr e ↦ rw (put, e)
      ]

  -- After the IDs of the kernel are taken over by a valid manager, in which none of them is in use,
  -- it is valid, the function `get_id` returns for every reported IP address the ID that the kernel
  -- has for it, and every other address is mapped as before: if the IDs lie in 1 to 255, no address
  -- and no ID is reported twice, and the hash map takes every entry.
  pub sync-get_id :
      (l : List Entry) (idm : Idm p)
      → TakesEntries
      → Inv p idm
      → Kept l
      → Free idm l
      → Inv p (sync idm l)
        × ((k : Sockaddr) (id : ℕ)
            → assigned l k ≡ some id
            → idm_get_id p (some (sync idm l)) (some k) ≡ (some (sync idm l), id))
        × ((k : Sockaddr)
            → assigned l k ≡ none
            → hm.lookup (sync idm l).map k ≡ hm.lookup idm.map k)
  sync-get_id l idm takes inv kept free =
      let (valid, lookup) = sync_lookup l idm takes inv kept free in
      (
        valid,
        λ k id h.
            get_id_known p (sync idm l) k id valid
              (lookup k ∙ ap (λ o. or_else o (hm.lookup idm.map k)) h),
        λ k h. lookup k ∙ ap (λ o. or_else o (hm.lookup idm.map k)) h,
      )
