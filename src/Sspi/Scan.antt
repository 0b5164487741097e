-- ===== src/Sspi/Scan.antt =====
-- What the removal of a token from every object, and of the objects that had it, leaves.
use mptcpd.Common.{
  ℕ, ◌-◌, Bool, true, false, not, List, [], ◌∷◌, ◌==◌, if◌then◌else◌, All, ◌≡◌, refl, ap, subst,
  ◌∙◌, arith, Bool-cases, inl, inr, ◌⊎◌,
}
use mptcpd.Ell.Queue.{Queue, drop_entry}
use mptcpd.Ell.Removal.{Removal, scan}
use mptcpd.Sspi.{remove_token}
use mptcpd.Sspi.Infos.{
  times, times-drop_entry, found_times, absent, Store, has_index, Apart, times_at, absent_apart,
  times_at-update, Apart-same, has_index_same,
}

module _ (queue : Queue ℕ) (removal : Removal queue) where
  open queue use {entries}

  abbrev pub gone : ℕ → List ℕ → Store queue → List ℕ × Store queue
  gone token l f = scan (remove_token queue removal token) l f

  -- The store after one object.
  abbrev pub without : ℕ → ℕ → Store queue → Store queue
  without token a f = (remove_token queue removal token a f).0

  without_index :
      (token a : ℕ) (f : Store queue) (k : ℕ) → (without token a f k).index ≡ (f k).index
  unfolding remove_token
  without_index token a f k = elim (Bool-cases (k == a)) [
    | inl e ↦ let same : a ≡ k = ground (arith, e) in ground (arith, e) ∙ ap (λ j. (f j).index) same
    | inr e ↦ ground (arith, e)
  ]

  All-without :
      (token a : ℕ) (f : Store queue) (l : List ℕ)
      → All (λ k. (without token a f k).index ≡ (f k).index) l
  All-without token a f [] = tt
  All-without token a f (x ∷ l) = (without_index token a f x, All-without token a f l)

  -- An object that is not in the list stays as it is.
  gone_outside :
      (token a : ℕ) (l : List ℕ) (f : Store queue) → absent a l ≡ true → (gone token l f).1 a ≡ f a
  unfolding absent scan remove_token
  gone_outside token a [] f h = refl
  gone_outside token a (x ∷ l) f h =
      gone_outside token a l (without token x f) (ground (arith, h)) ∙ ground (arith, h)

  removed_times :
      (token : ℕ) (a : ℕ) (f : Store queue)
      → (remove_token queue removal token a f).1 ≡ not (times token (entries (f a).tokens) == 0)
  unfolding remove_token
  removed_times token a f =
      removal.remove-entries (f a).tokens token ∙ found_times token (entries (f a).tokens)

  kept_times :
      (token t a : ℕ) (f : Store queue)
      → times token (entries (f a).tokens) ≡ 0
      → times t (entries (without token a f a).tokens) ≡ times t (entries (f a).tokens)
  unfolding remove_token
  kept_times token t a f none_there =
      let e = removal.entries-remove (f a).tokens token in
      let here : entries (without token a f a).tokens
          ≡ drop_entry (λ x. x == token) (entries (f a).tokens) =
        ground (arith, e) in
      ap (times t) here
      ∙ times-drop_entry token t (entries (f a).tokens)
      ∙ swap (Bool-cases (t == token))
    where
      swap :
          (t == token) ≡ true ⊎ (t == token) ≡ false
          → (if t == token
              then times t (entries (f a).tokens) - 1
              else times t (entries (f a).tokens))
            ≡ times t (entries (f a).tokens)
      swap (inl e) =
          let same : token ≡ t = ground (arith, e) in
          let zero_t : times t (entries (f a).tokens) ≡ 0 =
            subst (λ k. times k (entries (f a).tokens) ≡ 0) same none_there in
          ground (arith, e, zero_t)
      swap (inr e) = ground (arith, e)

  no_index_times :
      (f : Store queue) (l : List ℕ) (i t : ℕ)
      → has_index queue f l i ≡ false
      → times_at queue f l i t ≡ 0
  unfolding has_index times_at
  no_index_times f [] i t h = refl
  no_index_times f (x ∷ l) i t h = ground (arith, h, no_index_times f l i t (ground (arith, h)))

  gone_keeps :
      (token : ℕ) (l : List ℕ) (f : Store queue) (k : ℕ)
      → ((gone token l f).1 k).index ≡ (f k).index
  unfolding scan
  gone_keeps token [] f k = refl
  gone_keeps token (x ∷ l) f k =
      gone_keeps token l (without token x f) k ∙ without_index token x f k

  gone_index :
      (token : ℕ) (l : List ℕ) (f : Store queue) (i : ℕ)
      → has_index queue f l i ≡ false
      → has_index queue (gone token l f).1 (gone token l f).0 i ≡ false
  unfolding has_index scan
  gone_index token [] f i h = refl
  gone_index token (x ∷ l) f i h =
      let f' = without token x f in
      let rest : has_index queue f' l i ≡ false =
        has_index_same queue f f' l i (All-without token x f l) ∙ ground (arith, h) in
      let later = gone_index token l f' i rest in
      let keeps = gone_keeps token (x ∷ l) f x in ground (arith, h, later, keeps)

  times_without :
      (token x : ℕ) (f : Store queue) (l : List ℕ) (i t : ℕ)
      → absent x l ≡ true
      → times_at queue (without token x f) l i t ≡ times_at queue f l i t
  unfolding remove_token
  times_without token x f l i t h = times_at-update queue f x _ l i t h

  tokens_kept :
      (token t x : ℕ) (l : List ℕ) (f : Store queue)
      → absent x l ≡ true
      → times token (entries (f x).tokens) ≡ 0
      → times t (entries ((gone token (x ∷ l) f).1 x).tokens) ≡ times t (entries (f x).tokens)
  unfolding scan
  tokens_kept token t x l f out zero_there =
      ap (λ v. times t (entries v.tokens)) (gone_outside token x l (without token x f) out)
      ∙ kept_times token t x f zero_there

  -- An object that had the token goes, with all its tokens, and every other keeps its tokens.
  pub times_gone :
      (token : ℕ) (l : List ℕ) (f : Store queue) (i t : ℕ)
      → Apart queue f l
      → times_at queue (gone token l f).1 (gone token l f).0 i t
        ≡ (if times_at queue f l i token == 0 then times_at queue f l i t else 0)
  unfolding times_at scan Apart
  times_gone token [] f i t apart = refl
  times_gone token (x ∷ l) f i t apart =
      let f' = without token x f in
      let out = absent_apart queue f x l apart.0 in
      let later =
        times_gone token l f' i t (Apart-same queue f f' l (All-without token x f l) apart.1) in
      let same_t = times_without token x f l i t out in
      let same_token = times_without token x f l i token out in
      let removed = removed_times token x f in
      let keeps = gone_keeps token (x ∷ l) f x in
      elim (Bool-cases ((f x).index == i)) [
        | inl e ↦
            let here : (f x).index ≡ i = ground (arith, e) in
            let alone =
              no_index_times f l i t (subst (λ k. has_index queue f l k ≡ false) here apart.0) in
            (elim (Bool-cases (times token (entries (f x).tokens) == 0)) [
              | inl z ↦
                  let kept = tokens_kept token t x l f out (ground (arith, z)) in
                  ground (arith, e, z, kept, removed, keeps)
              | inr z ↦ ground (arith, e, z, alone, later, same_t, removed)
            ])
        | inr e ↦ ground (arith, e, later, same_t, same_token, keeps)
      ]

  Apart-unless :
      (b : Bool) (g : Store queue) (x : ℕ) (l : List ℕ)
      → has_index queue g l (g x).index ≡ false
      → Apart queue g l
      → Apart queue g (if b then l else x ∷ l)
  unfolding Apart
  Apart-unless true g x l head rest = rest
  Apart-unless false g x l head rest = (head, rest)

  pub Apart-gone :
      (token : ℕ) (l : List ℕ) (f : Store queue)
      → Apart queue f l
      → Apart queue (gone token l f).1 (gone token l f).0
  unfolding Apart scan
  Apart-gone token [] f apart = tt
  Apart-gone token (x ∷ l) f apart =
      let f' = without token x f in
      let same = All-without token x f l in
      let g = gone token l f' in
      let rest = Apart-gone token l f' (Apart-same queue f f' l same apart.1) in
      let head = gone_index token l f' (g.1 x).index (
        has_index_same queue f f' l (g.1 x).index same
        ∙ ap (has_index queue f l) (gone_keeps token (x ∷ l) f x)
        ∙ apart.0) in
      Apart-unless (remove_token queue removal token x f).1 g.1 x g.0 head rest

  All-unless :
      (P : ℕ → Type 0) (b : Bool) (x : ℕ) (l : List ℕ)
      → P x
      → All P l
      → All P (if b then l else x ∷ l)
  All-unless P true x l h all = all
  All-unless P false x l h all = (h, all)

  pub All-gone :
      (P : ℕ → Type 0) (token : ℕ) (l : List ℕ) (f : Store queue)
      → All P l
      → All P (gone token l f).0
  unfolding scan
  All-gone P token [] f all = tt
  All-gone P token (x ∷ l) f all =
      let rest = All-gone P token l (without token x f) all.1 in
      All-unless P (remove_token queue removal token x f).1 x (gone token l (without token x f)).0
        all.0 rest
