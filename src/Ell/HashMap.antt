-- ===== src/Ell/HashMap.antt =====
-- `struct l_hashmap`, for a hash function and a comparison function of the caller's.
use mptcpd.Common.{
  ℕ, ◌≡◌, List, [], ◌∷◌, ◌⊎◌, Bool, true, false, Option, none, some, Ordering, if◌then◌else◌,
}

-- What a caller hands to `l_hashmap_set_hash_function` and `l_hashmap_set_compare_function`, with
-- the contract of a hash table: equal keys are an equivalence and have one hash.
pub record Keys (K : Type 0) : Type 0 where
  pub hash : K → ℕ
  pub compare : K → K → Ordering
  pub compare_self : (a : K) → compare a a ≡ Ordering.eq
  pub compare_sym : (a b : K) → compare a b ≡ Ordering.eq → compare b a ≡ Ordering.eq
  pub compare_trans :
      (a b c : K)
      → compare a b ≡ Ordering.eq
      → compare b c ≡ Ordering.eq
      → compare a c ≡ Ordering.eq
  pub hash_agrees : (a b : K) → compare a b ≡ Ordering.eq → hash a ≡ hash b

abbrev pub is_eq : Ordering → Bool
is_eq Ordering.eq = true
is_eq _ = false

abbrev pub same : {K : Type 0} → Keys K → K → K → Bool
same keys a b = is_eq (keys.compare a b)

-- An entry of a list.
abbrev pub Has : {A : Type 0} → A → List A → Type 0
Has a [] = ⊥
Has a (x ∷ xs) = (a ≡ x) ⊎ Has a xs

-- A map, with the functions that the code calls. Values are non-NULL pointers, so `none` is NULL.
-- `Distinct` holds where no key is stored twice; `insert` of a stored key is left open.
pub record HashMap {K : Type 0} (keys : Keys K) (V : Type 0) : Type 1 where
  pub Map : Type 0
  pub new : Map
  pub lookup : Map → K → Option V
  pub insert : Map → K → V → Map × Bool
  pub replace : Map → K → V → Map × Option V × Bool
  pub remove : Map → K → Map × Option V
  pub Distinct : Map → Type 0
  pub new-Distinct : Distinct new
  pub lookup-new : (k : K) → lookup new k ≡ none
  -- Keys that compare equal are one key.
  pub lookup_same : (m : Map) (k j : K) → same keys k j ≡ true → lookup m k ≡ lookup m j
  pub lookup-insert :
      (m : Map) (k j : K) (v : V)
      → lookup m k ≡ none
      → lookup (insert m k v).0 j
        ≡ (if (insert m k v).1 then (if same keys k j then some v else lookup m j) else lookup m j)
  pub insert-Distinct :
      (m : Map) (k : K) (v : V) → lookup m k ≡ none → Distinct m → Distinct (insert m k v).0
  pub lookup-replace :
      (m : Map) (k j : K) (v : V)
      → lookup (replace m k v).0 j
        ≡ (if (replace m k v).2 then (if same keys k j then some v else lookup m j) else lookup m j)
  pub replace_old :
      (m : Map) (k : K) (v : V) → (replace m k v).2 ≡ true → (replace m k v).1 ≡ lookup m k
  pub replace-Distinct : (m : Map) (k : K) (v : V) → Distinct m → Distinct (replace m k v).0
  pub remove_value : (m : Map) (k : K) → (remove m k).1 ≡ lookup m k
  pub lookup-remove :
      (m : Map) (k j : K)
      → Distinct m
      → lookup (remove m k).0 j ≡ (if same keys k j then none else lookup m j)
  pub remove-Distinct : (m : Map) (k : K) → Distinct m → Distinct (remove m k).0
  pub isempty : Map → Bool
  pub isempty-new : isempty new ≡ true
  pub isempty-insert :
      (m : Map) (k : K) (v : V) → (insert m k v).1 ≡ true → isempty (insert m k v).0 ≡ false
  pub isempty_none : (m : Map) (k : K) → isempty m ≡ true → lookup m k ≡ none
  -- The entries in the order in which `l_hashmap_foreach` visits them.
  pub entries : Map → List (K × V)
  pub lookup-entries :
      (m : Map) (k : K) (v : V) → Distinct m → Has (k, v) (entries m) → lookup m k ≡ some v
  pub entries-lookup :
      (m : Map) (k : K) (v : V)
      → lookup m k ≡ some v
      → (j : K) × (same keys k j ≡ true) × Has (j, v) (entries m)
