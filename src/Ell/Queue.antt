-- ===== src/Ell/Queue.antt =====
-- `struct l_queue`, seen through the list of its entries, the head first.
use mptcpd.Common.{
  ◌≡◌, List, [], ◌∷◌, ◌++◌, Bool, true, false, refl, Option, none, some, Ordering, if◌then◌else◌,
  All, arith, subst, Bool-cases, inl, inr,
}

module _ {A : Type 0} where
  abbrev pub is_empty : List A → Bool
  is_empty [] = true
  is_empty (x ∷ xs) = false

  -- Where `l_queue_insert` puts an entry: before the first one that it compares less than.
  unfoldable pub insert_entry : (A → A → Ordering) → A → List A → List A
  insert_entry compare a [] = a ∷ []
  insert_entry compare a (x ∷ xs) = elim (compare a x) [
    | Ordering.lt ↦ a ∷ x ∷ xs
    | _ ↦ x ∷ insert_entry compare a xs
  ]

  -- The first entry that matches.
  unfoldable pub find_entry : (A → Bool) → List A → Option A
  find_entry match [] = none
  find_entry match (x ∷ xs) = if match x then some x else find_entry match xs

  -- Without the first entry that matches.
  unfoldable pub drop_entry : (A → Bool) → List A → List A
  drop_entry match [] = []
  drop_entry match (x ∷ xs) = if match x then xs else x ∷ drop_entry match xs

  unfoldable pub reversed : List A → List A
  reversed [] = []
  reversed (x ∷ xs) = reversed xs ++ x ∷ []

pub record Queue (A : Type 0) : Type 1 where
  pub Q : Type 0
  pub new : Q
  pub entries : Q → List A
  pub insert : Q → A → (A → A → Ordering) → Q × Bool
  pub find : Q → (A → Bool) → Option A
  pub remove_if : Q → (A → Bool) → Q × Option A
  pub push_tail : Q → A → Q × Bool
  pub isempty : Q → Bool
  pub reverse : Q → Q
  pub entries-new : entries new ≡ []
  pub entries-insert :
      (q : Q) (a : A) (compare : A → A → Ordering)
      → entries (insert q a compare).0
        ≡ (if (insert q a compare).1 then insert_entry compare a (entries q) else entries q)
  pub find-entries : (q : Q) (match : A → Bool) → find q match ≡ find_entry match (entries q)
  pub entries-remove_if :
      (q : Q) (match : A → Bool) → entries (remove_if q match).0 ≡ drop_entry match (entries q)
  pub remove_if-entries :
      (q : Q) (match : A → Bool) → (remove_if q match).1 ≡ find_entry match (entries q)
  pub entries-push_tail :
      (q : Q) (a : A)
      → entries (push_tail q a).0 ≡ (if (push_tail q a).1 then entries q ++ a ∷ [] else entries q)
  pub isempty-entries : (q : Q) → isempty q ≡ is_empty (entries q)
  pub entries-reverse : (q : Q) → entries (reverse q) ≡ reversed (entries q)

-- A list with its head first is a queue that takes every entry.
abbrev pub list_queue : (A : Type 0) → Queue A
list_queue A = record {
  Q = List A;
  new = [];
  entries = λ q. q;
  insert = λ q a compare. (insert_entry compare a q, true);
  find = λ q match. find_entry match q;
  remove_if = λ q match. (drop_entry match q, find_entry match q);
  push_tail = λ q a. (q ++ a ∷ [], true);
  isempty = λ q. is_empty q;
  reverse = λ q. reversed q;
  entries-new = refl;
  entries-insert = λ q a compare. refl;
  find-entries = λ q match. refl;
  entries-remove_if = λ q match. refl;
  remove_if-entries = λ q match. refl;
  entries-push_tail = λ q a. refl;
  isempty-entries = λ q. refl;
  entries-reverse = λ q. refl;
}

-- What holds of every entry and of the new one holds after an insertion, and after a removal.
module _ {A : Type 0} (P : A → Type 0) where
  pub All-insert_entry :
      (compare : A → A → Ordering) (a : A) (l : List A)
      → P a
      → All P l
      → All P (insert_entry compare a l)
  unfolding insert_entry
  All-insert_entry compare a [] h all = (h, tt)
  All-insert_entry compare a (x ∷ l) h all = go (compare a x) (All-insert_entry compare a l h all.1)
    where
      go :
          (o : Ordering)
          → All P (insert_entry compare a l)
          → All P (elim o [ Ordering.lt ↦ a ∷ x ∷ l | _ ↦ x ∷ insert_entry compare a l ])
      go Ordering.lt rest = (h, all)
      go Ordering.eq rest = (all.0, rest)
      go Ordering.gt rest = (all.0, rest)

  pub All-drop_entry : (match : A → Bool) (l : List A) → All P l → All P (drop_entry match l)
  unfolding drop_entry
  All-drop_entry match [] all = tt
  All-drop_entry match (x ∷ l) all = ground (arith, all, All-drop_entry match l all.1)

  pub All-find_entry :
      (match : A → Bool) (l : List A) (a : A) → All P l → find_entry match l ≡ some a → P a
  unfolding find_entry
  All-find_entry match [] a all h = cc h
  All-find_entry match (x ∷ l) a all h = elim (Bool-cases (match x)) [
    | inl e ↦ let here : x ≡ a = ground (arith, h, e) in subst P here all.0
    | inr e ↦ All-find_entry match l a all.1 (ground (arith, h, e))
  ]
