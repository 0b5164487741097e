-- ===== src/Ell/Numbers.antt =====
-- A set of numbers as a list, which shows that what `Uintset` asks for can be had.
use mptcpd.Common.{
  ℕ, ◌+◌, ◌-◌, ◌≤◌, ◌<◌, zero, suc, ◌≡◌, refl, Bool, true, false, ◌||◌, ◌&&◌, List, [], ◌∷◌, leb,
  ◌==◌, if◌then◌else◌, arith,
}
use mptcpd.Ell.Uintset.{Uintset}

module _ (lo hi : ℕ) where
  -- A number of the range that is in the list.
  unfoldable pub member : List ℕ → ℕ → Bool
  member [] n = false
  member (x ∷ xs) n = (leb lo n && leb n hi && n == x) || member xs n

  unfoldable pub discard : List ℕ → ℕ → List ℕ
  discard [] n = []
  discard (x ∷ xs) n = if x == n then discard xs n else x ∷ discard xs n

  -- A number of the range is taken whether or not it is in the set, as `l_uintset_put` does.
  unfoldable pub put : List ℕ → ℕ → List ℕ × Bool
  put s n = if leb lo n && leb n hi then (if member s n then s else n ∷ s, true) else (s, false)

  -- The first number from `n` on that is not in the list, `fuel` numbers at most.
  unfoldable pub scan : ℕ → List ℕ → ℕ → ℕ
  scan zero s n = n
  scan (suc fuel) s n = elim (member s n) [ true ↦ scan fuel s (n + 1) | false ↦ n ]

  pub member_range : (s : List ℕ) (n : ℕ) → member s n ≡ true → (lo ≤ n) × (n ≤ hi)
  unfolding member
  member_range [] n h = cc
  member_range (x ∷ xs) n h = ground (arith, member_range xs n)

  pub member-nil : (n : ℕ) → member [] n ≡ false
  unfolding member
  member-nil n = refl

  pub put_unused : (s : List ℕ) (n : ℕ) → lo ≤ n → n ≤ hi → member s n ≡ false → (put s n).1 ≡ true
  unfolding put
  put_unused s n l h u = ground arith

  pub put_range : (s : List ℕ) (n : ℕ) → (put s n).1 ≡ true → (lo ≤ n) × (n ≤ hi)
  unfolding put
  put_range s n h = ground arith

  pub member-put :
      (s : List ℕ) (n k : ℕ)
      → member (put s n).0 k ≡ (if (put s n).1 then k == n || member s k else member s k)
  unfolding put member
  member-put s n k = ground arith

  pub member-discard :
      (s : List ℕ) (n k : ℕ) → member (discard s n) k ≡ (if k == n then false else member s k)
  unfolding discard member
  member-discard [] n k = ground arith
  member-discard (x ∷ xs) n k = ground (arith, member-discard xs n k)

  scan_range : (fuel : ℕ) (s : List ℕ) (n : ℕ) → (n ≤ scan fuel s n) × (scan fuel s n ≤ n + fuel)
  unfolding scan
  scan_range zero s n = omega arith
  scan_range (suc fuel) s n = ground (arith, scan_range fuel s (n + 1))

  scan_unused :
      (fuel : ℕ) (s : List ℕ) (n : ℕ) → scan fuel s n < n + fuel → member s (scan fuel s n) ≡ false
  unfolding scan
  scan_unused zero s n h = absurd (omega arith)
  scan_unused (suc fuel) s n h = ground (arith, scan_unused fuel s (n + 1))

  scan_below : (fuel : ℕ) (s : List ℕ) (n k : ℕ) → n ≤ k → k < scan fuel s n → member s k ≡ true
  unfolding scan
  scan_below zero s n k l h = absurd (omega arith)
  scan_below (suc fuel) s n k l h = ground (arith, scan_below fuel s (n + 1) k)

  unfoldable pub find_unused_min : List ℕ → ℕ
  unfolding scan
  find_unused_min s = scan (hi + 1 - lo) s lo

  module _ (some_range : lo ≤ hi + 1) where
    pub find_range : (s : List ℕ) → (lo ≤ find_unused_min s) × (find_unused_min s ≤ hi + 1)
    unfolding find_unused_min
    find_range s = omega (arith, scan_range (hi + 1 - lo) s lo)

    pub find_unused : (s : List ℕ) → find_unused_min s ≤ hi → member s (find_unused_min s) ≡ false
    unfolding find_unused_min
    find_unused s h = scan_unused (hi + 1 - lo) s lo (omega arith)

    pub find_below : (s : List ℕ) (k : ℕ) → lo ≤ k → k < find_unused_min s → member s k ≡ true
    unfolding find_unused_min
    find_below s k l h = scan_below (hi + 1 - lo) s lo k l h

    abbrev pub number_set : Uintset lo hi
    number_set = record {
      Set = List ℕ;
      new_from_range = [];
      contains = member;
      put = put;
      take = λ s n. (discard s n, member s n);
      find_unused_min = find_unused_min;
      contains-new = member-nil;
      contains_range = member_range;
      put_unused = put_unused;
      put_range = put_range;
      contains-put = member-put;
      take_used = λ s n h. h;
      contains-take = member-discard;
      find_range = find_range;
      find_unused = find_unused;
      find_below = find_below;
    }
