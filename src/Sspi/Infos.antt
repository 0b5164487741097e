-- ===== src/Sspi/Infos.antt =====
-- The objects of the plugin in a list of pointers: their indices, and how often each has a token.
use mptcpd.Common.{
  ℕ, ◌+◌, ◌-◌, ◌<◌, Bool, true, false, not, ◌&&◌, ◌||◌, Option, some, List, [], ◌∷◌, ◌==◌, is_some,
  if◌then◌else◌, All, update, ◌≡◌, refl, ap, subst, ◌∙◌, arith, Bool-cases, inl, inr, ◌⊎◌,
}
use mptcpd.Ell.Queue.{Queue, insert_entry, find_entry, drop_entry}
use mptcpd.Sspi.{Info, append}

-- How often a token is in a list.
unfoldable pub times : ℕ → List ℕ → ℕ
times t [] = 0
times t (x ∷ l) = let rest = times t l in if x == t then rest + 1 else rest

pub times-insert_entry :
    (t x : ℕ) (l : List ℕ)
    → times t (insert_entry append x l) ≡ (if x == t then times t l + 1 else times t l)
unfolding times insert_entry
times-insert_entry t x [] = ground arith
times-insert_entry t x (y ∷ l) = ground (arith, times-insert_entry t x l)

pub times-drop_entry :
    (t u : ℕ) (l : List ℕ)
    → times u (drop_entry (λ x. x == t) l) ≡ (if u == t then times u l - 1 else times u l)
unfolding times drop_entry
times-drop_entry t u [] = ground arith
times-drop_entry t u (y ∷ l) = ground (arith, times-drop_entry t u l)

pub found_times : (t : ℕ) (l : List ℕ) → is_some (find_entry (λ x. x == t) l) ≡ not (times t l == 0)
unfolding times find_entry
found_times t [] = refl
found_times t (y ∷ l) = ground (arith, found_times t l)

-- A pointer is not in a list.
unfoldable pub absent : ℕ → List ℕ → Bool
absent a [] = true
absent a (x ∷ l) = not (x == a) && absent a l

pub absent_fresh : (n : ℕ) (l : List ℕ) → All (λ k. k < n) l → absent n l ≡ true
unfolding absent
absent_fresh n [] all = refl
absent_fresh n (x ∷ l) all = ground (arith, all, absent_fresh n l all.1)

module _ (queue : Queue ℕ) where
  open queue use {entries}

  abbrev pub Store : Type 0
  Store = ℕ → Info queue

  unfoldable pub has_index : Store → List ℕ → ℕ → Bool
  has_index f [] i = false
  has_index f (a ∷ l) i = (f a).index == i || has_index f l i

  -- No index occurs twice.
  unfoldable pub Apart : Store → List ℕ → Type 0
  Apart f [] = Unit
  Apart f (a ∷ l) = (has_index f l (f a).index ≡ false) × Apart f l

  -- How often the object of an index has a token.
  unfoldable pub times_at : Store → List ℕ → ℕ → ℕ → ℕ
  times_at f [] i t = 0
  times_at f (a ∷ l) i t =
      let rest = times_at f l i t in
      if (f a).index == i then times t (entries (f a).tokens) else rest

  abbrev pub find_index : Store → ℕ → List ℕ → Option ℕ
  find_index f i l = find_entry (λ a. (f a).index == i) l

  pub absent_apart :
      (f : Store) (a : ℕ) (l : List ℕ) → has_index f l (f a).index ≡ false → absent a l ≡ true
  unfolding has_index absent
  absent_apart f a [] h = refl
  absent_apart f a (x ∷ l) h = elim (Bool-cases (x == a)) [
    | inl e ↦
        let same : x ≡ a = ground (arith, e) in
        let has : has_index f (x ∷ l) (f x).index ≡ true = ground arith in
        cc (subst (λ k. has_index f (x ∷ l) (f k).index ≡ true) same has, h)
    | inr e ↦ ground (arith, e, absent_apart f a l (ground (arith, h)))
  ]

  pub times_at-update :
      (f : Store) (a : ℕ) (v : Info queue) (l : List ℕ) (i t : ℕ)
      → absent a l ≡ true
      → times_at (update f a v) l i t ≡ times_at f l i t
  unfolding times_at absent
  times_at-update f a v [] i t h = refl
  times_at-update f a v (x ∷ l) i t h =
      ground (arith, h, times_at-update f a v l i t (ground (arith, h)))

  -- What has the same indices has them apart.
  pub has_index_same :
      (f g : Store) (l : List ℕ) (i : ℕ)
      → All (λ k. (g k).index ≡ (f k).index) l
      → has_index g l i ≡ has_index f l i
  unfolding has_index
  has_index_same f g [] i all = refl
  has_index_same f g (x ∷ l) i all = ground (arith, all, has_index_same f g l i all.1)

  pub Apart-same :
      (f g : Store) (l : List ℕ) → All (λ k. (g k).index ≡ (f k).index) l → Apart f l → Apart g l
  unfolding Apart
  Apart-same f g [] all h = tt
  Apart-same f g (x ∷ l) all h = (
    has_index_same f g l (g x).index all.1 ∙ ap (has_index f l) all.0 ∙ h.0,
    Apart-same f g l all.1 h.1,
  )

  pub All-update :
      (f : Store) (a : ℕ) (v : Info queue) (l : List ℕ)
      → absent a l ≡ true
      → All (λ k. (update f a v k).index ≡ (f k).index) l
  unfolding absent
  All-update f a v [] h = tt
  All-update f a v (x ∷ l) h = (ground (arith, h), All-update f a v l (ground (arith, h)))

  pub All-set :
      (f : Store) (a : ℕ) (v : Info queue) (l : List ℕ)
      → v.index ≡ (f a).index
      → All (λ k. (update f a v k).index ≡ (f k).index) l
  All-set f a v [] h = tt
  All-set f a v (x ∷ l) h = (set_one (Bool-cases (x == a)), All-set f a v l h)
    where
      set_one : (x == a) ≡ true ⊎ (x == a) ≡ false → (update f a v x).index ≡ (f x).index
      set_one (inl e) =
          let same : a ≡ x = ground (arith, e) in
          subst (λ k. (update f a v x).index ≡ (f k).index) same (ground (arith, e, h))
      set_one (inr e) = ground (arith, e)

  -- A new object, without tokens, at the end.
  pub times_at-insert_entry :
      (f : Store) (a : ℕ) (l : List ℕ) (i t : ℕ)
      → entries (f a).tokens ≡ []
      → times_at f (insert_entry append a l) i t ≡ times_at f l i t
  unfolding times_at insert_entry times
  times_at-insert_entry f a [] i t h = ground (arith, h)
  times_at-insert_entry f a (x ∷ l) i t h = ground (arith, times_at-insert_entry f a l i t h)

  has_index-insert_entry :
      (f : Store) (a : ℕ) (l : List ℕ) (i : ℕ)
      → has_index f (insert_entry append a l) i ≡ (has_index f l i || (f a).index == i)
  unfolding has_index insert_entry
  has_index-insert_entry f a [] i = ground arith
  has_index-insert_entry f a (x ∷ l) i = ground (arith, has_index-insert_entry f a l i)

  pub Apart-insert_entry :
      (f : Store) (a : ℕ) (l : List ℕ)
      → has_index f l (f a).index ≡ false
      → Apart f l
      → Apart f (insert_entry append a l)
  unfolding Apart has_index insert_entry
  Apart-insert_entry f a [] free h = (refl, tt)
  Apart-insert_entry f a (x ∷ l) free h = (
    ground (arith, free, h, has_index-insert_entry f a l (f x).index),
    Apart-insert_entry f a l (ground (arith, free)) h.1,
  )

  pub find-insert_entry :
      (f : Store) (a : ℕ) (l : List ℕ)
      → has_index f l (f a).index ≡ false
      → find_index f (f a).index (insert_entry append a l) ≡ some a
  unfolding find_entry has_index insert_entry
  find-insert_entry f a [] free = ground arith
  find-insert_entry f a (x ∷ l) free =
      ground (arith, free, find-insert_entry f a l (ground (arith, free)))

  pub has_index_find :
      (f : Store) (i : ℕ) (l : List ℕ) → has_index f l i ≡ is_some (find_index f i l)
  unfolding find_entry has_index
  has_index_find f i [] = refl
  has_index_find f i (x ∷ l) = ground (arith, has_index_find f i l)

  pub index_found : (f : Store) (i a : ℕ) (l : List ℕ) → find_index f i l ≡ some a → (f a).index ≡ i
  unfolding find_entry
  index_found f i a [] h = cc h
  index_found f i a (x ∷ l) h = elim (Bool-cases ((f x).index == i)) [
    | inl e ↦
        let same : x ≡ a = ground (arith, h, e) in
        subst (λ k. (f k).index ≡ i) same (ground (arith, e))
    | inr e ↦ index_found f i a l (ground (arith, h, e))
  ]

  pub times_found :
      (f : Store) (i a : ℕ) (l : List ℕ) (t : ℕ)
      → find_index f i l ≡ some a
      → times_at f l i t ≡ times t (entries (f a).tokens)
  unfolding find_entry times_at
  times_found f i a [] t h = cc h
  times_found f i a (x ∷ l) t h = elim (Bool-cases ((f x).index == i)) [
    | inl e ↦
        let same : x ≡ a = ground (arith, h, e) in
        ground (arith, e) ∙ ap (λ k. times t (entries (f k).tokens)) same
    | inr e ↦ ground (arith, e, times_found f i a l t (ground (arith, h, e)))
  ]

  set_head :
      (f : Store) (x : ℕ) (q : queue.Q) (l : List ℕ) (j t : ℕ)
      → absent x l ≡ true
      → times_at (update f x (record (f x) { tokens = q })) (x ∷ l) j t
        ≡ (if (f x).index == j then times t (entries q) else times_at f (x ∷ l) j t)
  unfolding times_at
  set_head f x q l j t h = ground (arith, times_at-update f x (record (f x) { tokens = q }) l j t h)

  other_index :
      (f : Store) (x a i : ℕ) → (f a).index ≡ i → ((f x).index == i) ≡ false → (x == a) ≡ false
  other_index f x a i h e = elim (Bool-cases (x == a)) [
    | inl same ↦
        let back : a ≡ x = ground (arith, same) in
        let there : ((f x).index == i) ≡ true =
          subst (λ k. ((f k).index == i) ≡ true) back (ground (arith, h)) in
        cc (there, e)
    | inr apart ↦ apart
  ]

  -- Other tokens for the object of an index.
  pub times_set :
      (f : Store) (i a : ℕ) (q : queue.Q) (l : List ℕ) (j t : ℕ)
      → find_index f i l ≡ some a
      → Apart f l
      → times_at (update f a (record (f a) { tokens = q })) l j t
        ≡ (if i == j then times t (entries q) else times_at f l j t)
  unfolding find_entry times_at Apart
  times_set f i a q [] j t h apart = cc h
  times_set f i a q (x ∷ l) j t h apart = elim (Bool-cases ((f x).index == i)) [
    | inl e ↦
        let same : x ≡ a = ground (arith, h, e) in
        subst
          (λ k.
            times_at (update f k (record (f k) { tokens = q })) (x ∷ l) j t
            ≡ (if i == j then times t (entries q) else times_at f (x ∷ l) j t))
          same (ground (arith, e, set_head f x q l j t (absent_apart f x l apart.0)))
    | inr e ↦
        let h' : find_index f i l ≡ some a = ground (arith, h, e) in
        let differ = other_index f x a i (index_found f i a l h') e in
        ground (arith, e, differ, times_set f i a q l j t h' apart.1)
  ]
