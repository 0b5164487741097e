-- ===== src/Ell/Assoc.antt =====
-- A map as an association list, which shows that what `HashMap` asks for can be had.
use mptcpd.Common.{
  ◌≡◌, refl, Bool, true, false, Option, none, some, List, [], ◌∷◌, if◌then◌else◌, arith, inl, inr,
  Bool-cases,
}
use mptcpd.Ell.HashMap.{HashMap, Keys, same, Has}

module _ {K V : Type 0} (keys : Keys K) where
  unfoldable pub find : List (K × V) → K → Option V
  find [] k = none
  find ((j, v) ∷ m) k = if same keys j k then some v else find m k

  unfoldable pub erase : List (K × V) → K → List (K × V)
  erase [] k = []
  erase ((j, v) ∷ m) k = if same keys j k then erase m k else (j, v) ∷ erase m k

  pub find_same : (m : List (K × V)) (k j : K) → same keys k j ≡ true → find m k ≡ find m j
  unfolding find
  find_same [] k j h = refl
  find_same ((i, v) ∷ m) k j h = ground (
    arith,
    find_same m k j h,
    keys.compare_trans i k j,
    keys.compare_trans i j k,
    keys.compare_sym k j,
  )

  pub find-erase :
      (m : List (K × V)) (k j : K) → find (erase m k) j ≡ (if same keys k j then none else find m j)
  unfolding find erase
  find-erase [] k j = ground arith
  find-erase ((i, v) ∷ m) k j = ground (
    arith,
    find-erase m k j,
    keys.compare_trans k i j,
    keys.compare_trans i k j,
    keys.compare_trans k j i,
    keys.compare_sym i k,
    keys.compare_sym k i,
    keys.compare_sym i j,
    keys.compare_sym k j,
  )

  pub find-store :
      (m : List (K × V)) (k j : K) (v : V)
      → find ((k, v) ∷ erase m k) j ≡ (if same keys k j then some v else find m j)
  unfolding find
  find-store m k j v = ground (arith, find-erase m k j)

  pub find-cons :
      (m : List (K × V)) (k j : K) (v : V)
      → find ((k, v) ∷ m) j ≡ (if same keys k j then some v else find m j)
  unfolding find
  find-cons m k j v = refl

  pub find-nil : (k : K) → find [] k ≡ none
  unfolding find
  find-nil k = refl

  -- No two entries have keys that compare equal.
  abbrev pub NoDup : List (K × V) → Type 0
  NoDup [] = Unit {0}
  NoDup ((k, v) ∷ m) = (find m k ≡ none) × NoDup m

  pub erase-NoDup : (m : List (K × V)) (k : K) → NoDup m → NoDup (erase m k)
  unfolding erase
  erase-NoDup [] k d = tt
  erase-NoDup ((j, v) ∷ m) k d = ground (arith, d, erase-NoDup m k, find-erase m k j)

  pub store-NoDup : (m : List (K × V)) (k : K) (v : V) → NoDup m → NoDup ((k, v) ∷ erase m k)
  store-NoDup m k v d = (ground (arith, find-erase m k k, keys.compare_self k), erase-NoDup m k d)

  abbrev pub null : List (K × V) → Bool
  null [] = true
  null (e ∷ m) = false

  pub null-none : (m : List (K × V)) (k : K) → null m ≡ true → find m k ≡ none
  unfolding find
  null-none [] k h = refl
  null-none (e ∷ m) k h = cc

  pub lookup_entry : (m : List (K × V)) (k : K) (v : V) → NoDup m → Has (k, v) m → find m k ≡ some v
  unfolding find
  lookup_entry [] k v d h = absurd h
  lookup_entry ((j, w) ∷ m) k v d (inl h) = ground (arith, h, keys.compare_self j)
  lookup_entry ((j, w) ∷ m) k v d (inr h) =
      ground (arith, d, lookup_entry m k v d.1 h, find_same m j k)

  pub entry_lookup :
      (m : List (K × V)) (k : K) (v : V)
      → find m k ≡ some v
      → (j : K) × (same keys k j ≡ true) × Has (j, v) m
  unfolding find
  entry_lookup [] k v h = absurd (ground (arith, h))
  entry_lookup ((j, w) ∷ m) k v h = elim (Bool-cases (same keys j k)) [
    | inl e ↦ (j, ground (arith, e, keys.compare_sym j k), inl (ground (arith, e, h)))
    | inr e ↦ let (i, s, m') = entry_lookup m k v (ground (arith, e, h)) in (i, s, inr m')
  ]

  -- A map that is never full.
  abbrev pub assoc : HashMap keys V
  assoc = record {
    Map = List (K × V);
    new = [];
    lookup = find;
    insert = λ m k v. ((k, v) ∷ m, true);
    replace = λ m k v. ((k, v) ∷ erase m k, find m k, true);
    remove = λ m k. (erase m k, find m k);
    Distinct = NoDup;
    new-Distinct = tt;
    lookup-new = find-nil;
    lookup_same = find_same;
    lookup-insert = λ m k j v h. find-cons m k j v;
    insert-Distinct = λ m k v h d. (h, d);
    lookup-replace = find-store;
    replace_old = λ m k v h. refl;
    replace-Distinct = λ m k v d. store-NoDup m k v d;
    remove_value = λ m k. refl;
    lookup-remove = λ m k j d. find-erase m k j;
    remove-Distinct = erase-NoDup;
    isempty = null;
    isempty-new = refl;
    isempty-insert = λ m k v h. refl;
    isempty_none = null-none;
    entries = λ m. m;
    lookup-entries = lookup_entry;
    entries-lookup = entry_lookup;
  }
