-- ===== src/NetworkMonitor/LinkList.antt =====
-- Lists of links in the order of their indices, as the queue of interfaces keeps them.
use mptcpd.Common.{
  ℕ, ◌<◌, Option, none, some, List, [], ◌∷◌, ◌==◌, ltb, if◌then◌else◌, Ordering, All, ◌≡◌, refl,
  arith, Bool-cases, inl, inr,
}
use mptcpd.Ell.Queue.{insert_entry}
use mptcpd.NetworkMonitor.{Link}

unfoldable pub compare_link : Link → Link → Ordering
compare_link a b = if ltb b.index a.index then Ordering.gt else Ordering.lt

-- The link of an index.
unfoldable pub find_link : ℕ → List Link → Option Link
find_link i [] = none
find_link i (l ∷ ls) = if l.index == i then some l else find_link i ls

-- The list without the first link of an index.
unfoldable pub drop_link : ℕ → List Link → List Link
drop_link i [] = []
drop_link i (l ∷ ls) = if l.index == i then ls else l ∷ drop_link i ls

abbrev pub with_flags : Link → ℕ → Link
with_flags l flags = record l { flags = flags }

-- The list with new flags for the links of an index.
unfoldable pub set_flags : ℕ → ℕ → List Link → List Link
set_flags i flags [] = []
set_flags i flags (l ∷ ls) = (if l.index == i then with_flags l flags else l) ∷ set_flags i flags ls

-- The indices grow along the list, so that none is there twice.
unfoldable pub Increasing : List Link → Type 0
Increasing [] = Unit
Increasing (l ∷ ls) = All (λ k. l.index < k.index) ls × Increasing ls

find_link_below :
    (i : ℕ) (ls : List Link) (low : ℕ)
    → i < low
    → All (λ k. low < k.index) ls
    → find_link i ls ≡ none
unfolding find_link
find_link_below i [] low h all = refl
find_link_below i (l ∷ ls) low h all = ground (arith, find_link_below i ls low h all.1)

pub find_link_above : (i : ℕ) (ls : List Link) → All (λ k. i < k.index) ls → find_link i ls ≡ none
unfolding find_link
find_link_above i [] all = refl
find_link_above i (l ∷ ls) all = ground (arith, find_link_above i ls all.1)

pub find_link-insert_entry :
    (j : ℕ) (a : Link) (ls : List Link)
    → find_link a.index ls ≡ none
    → find_link j (insert_entry compare_link a ls)
      ≡ (if a.index == j then some a else find_link j ls)
unfolding find_link insert_entry compare_link
find_link-insert_entry j a [] h = refl
find_link-insert_entry j a (l ∷ ls) h = ground (arith, find_link-insert_entry j a ls)

All-insert_entry :
    (low : ℕ) (a : Link) (ls : List Link)
    → low < a.index
    → All (λ k. low < k.index) ls
    → All (λ k. low < k.index) (insert_entry compare_link a ls)
unfolding insert_entry compare_link
All-insert_entry low a [] h all = (h, tt)
All-insert_entry low a (l ∷ ls) h all = ground (arith, All-insert_entry low a ls h all.1)

All-trans :
    (low high : ℕ) (ls : List Link)
    → low < high
    → All (λ k. high < k.index) ls
    → All (λ k. low < k.index) ls
All-trans low high [] h all = tt
All-trans low high (l ∷ ls) h all = (omega arith, All-trans low high ls h all.1)

pub Increasing-insert_entry :
    (a : Link) (ls : List Link)
    → find_link a.index ls ≡ none
    → Increasing ls
    → Increasing (insert_entry compare_link a ls)
unfolding find_link insert_entry compare_link Increasing
Increasing-insert_entry a [] h s = (tt, tt)
Increasing-insert_entry a (l ∷ ls) h s = ground (
  arith,
  h,
  s,
  All-trans a.index l.index ls,
  All-insert_entry l.index a ls,
  Increasing-insert_entry a ls,
)

All-drop_link :
    (low i : ℕ) (ls : List Link)
    → All (λ k. low < k.index) ls
    → All (λ k. low < k.index) (drop_link i ls)
unfolding drop_link
All-drop_link low i [] all = tt
All-drop_link low i (l ∷ ls) all = ground (arith, all, All-drop_link low i ls all.1)

pub Increasing-drop_link : (i : ℕ) (ls : List Link) → Increasing ls → Increasing (drop_link i ls)
unfolding drop_link Increasing
Increasing-drop_link i [] s = tt
Increasing-drop_link i (l ∷ ls) s =
    ground (arith, s, All-drop_link l.index i ls s.0, Increasing-drop_link i ls s.1)

pub find_link-drop_link :
    (i j : ℕ) (ls : List Link)
    → Increasing ls
    → find_link j (drop_link i ls) ≡ (if i == j then none else find_link j ls)
unfolding find_link drop_link Increasing
find_link-drop_link i j [] s = ground arith
find_link-drop_link i j (l ∷ ls) s =
    ground (arith, s, find_link_above l.index ls s.0, find_link-drop_link i j ls s.1)

All-set_flags :
    (low i flags : ℕ) (ls : List Link)
    → All (λ k. low < k.index) ls
    → All (λ k. low < k.index) (set_flags i flags ls)
unfolding set_flags
All-set_flags low i flags [] all = tt
All-set_flags low i flags (l ∷ ls) all = (ground (arith, all.0), All-set_flags low i flags ls all.1)

pub Increasing-set_flags :
    (i flags : ℕ) (ls : List Link) → Increasing ls → Increasing (set_flags i flags ls)
unfolding set_flags Increasing
Increasing-set_flags i flags [] s = tt
Increasing-set_flags i flags (l ∷ ls) s =
    let all = All-set_flags l.index i flags ls s.0 in
    let rest = Increasing-set_flags i flags ls s.1 in
    elim (Bool-cases (l.index == i)) [ inl e ↦ rw e (all, rest) | inr e ↦ rw e (all, rest) ]

pub find_link-set_flags :
    (i j flags : ℕ) (ls : List Link)
    → find_link j (set_flags i flags ls) ≡ (
        if i == j
        then (elim (find_link j ls) [ none ↦ none | some l ↦ some (with_flags l flags) ])
        else find_link j ls)
unfolding find_link set_flags
find_link-set_flags i j flags [] = ground arith
find_link-set_flags i j flags (l ∷ ls) = ground (arith, find_link-set_flags i j flags ls)
