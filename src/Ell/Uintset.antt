-- ===== src/Ell/Uintset.antt =====
-- `struct l_uintset`, made by `l_uintset_new_from_range (lo, hi)`.
use mptcpd.Common.{ℕ, ◌+◌, ◌≤◌, ◌<◌, ◌≡◌, Bool, true, false, ◌||◌, ◌==◌, if◌then◌else◌}

-- Whether `put` accepts a number that is in the set already, and what `take` returns for one that
-- is not, is left open.
pub record Uintset (lo hi : ℕ) : Type 1 where
  pub Set : Type 0
  pub new_from_range : Set
  pub contains : Set → ℕ → Bool
  pub put : Set → ℕ → Set × Bool
  pub take : Set → ℕ → Set × Bool
  pub find_unused_min : Set → ℕ
  pub contains-new : (n : ℕ) → contains new_from_range n ≡ false
  pub contains_range : (s : Set) (n : ℕ) → contains s n ≡ true → (lo ≤ n) × (n ≤ hi)
  pub put_unused : (s : Set) (n : ℕ) → lo ≤ n → n ≤ hi → contains s n ≡ false → (put s n).1 ≡ true
  pub put_range : (s : Set) (n : ℕ) → (put s n).1 ≡ true → (lo ≤ n) × (n ≤ hi)
  pub contains-put :
      (s : Set) (n k : ℕ)
      → contains (put s n).0 k ≡ (if (put s n).1 then k == n || contains s k else contains s k)
  pub take_used : (s : Set) (n : ℕ) → contains s n ≡ true → (take s n).1 ≡ true
  pub contains-take :
      (s : Set) (n k : ℕ) → contains (take s n).0 k ≡ (if k == n then false else contains s k)
  -- The smallest number of the range that is not in the set, or `hi + 1`.
  pub find_range : (s : Set) → (lo ≤ find_unused_min s) × (find_unused_min s ≤ hi + 1)
  pub find_unused : (s : Set) → find_unused_min s ≤ hi → contains s (find_unused_min s) ≡ false
  pub find_below : (s : Set) (k : ℕ) → lo ≤ k → k < find_unused_min s → contains s k ≡ true
