-- ===== src/Ell/Removal.antt =====
-- Two more operations of `struct l_queue`, for entries that are pointers or numbers.
use mptcpd.Common.{ℕ, Bool, ◌≡◌, refl, ◌==◌, List, [], ◌∷◌, is_some, if◌then◌else◌}
use mptcpd.Ell.Queue.{Queue, find_entry, drop_entry, list_queue}

-- A function is called with one entry after the other, and may change memory. The entries for which
-- it returns true are left out.
unfoldable pub scan : {S : Type 0} → (ℕ → S → S × Bool) → List ℕ → S → List ℕ × S
scan f [] s = ([], s)
scan f (a ∷ l) s =
    let now = f a s in let rest = scan f l now.0 in (if now.1 then rest.0 else a ∷ rest.0, rest.1)

-- `l_queue_remove`, and `l_queue_foreach_remove` without the number that it returns.
pub record Removal (queue : Queue ℕ) : Type 1 where
  pub remove : queue.Q → ℕ → queue.Q × Bool
  pub foreach_remove : {S : Type 0} → queue.Q → (ℕ → S → S × Bool) → S → queue.Q × S
  pub entries-remove :
      (q : queue.Q) (a : ℕ)
      → queue.entries (remove q a).0 ≡ drop_entry (λ x. x == a) (queue.entries q)
  pub remove-entries :
      (q : queue.Q) (a : ℕ) → (remove q a).1 ≡ is_some (find_entry (λ x. x == a) (queue.entries q))
  pub entries-foreach_remove :
      {S : Type 0} (q : queue.Q) (f : ℕ → S → S × Bool) (s : S)
      → queue.entries (foreach_remove q f s).0 ≡ (scan f (queue.entries q) s).0
  pub foreach_remove-entries :
      {S : Type 0} (q : queue.Q) (f : ℕ → S → S × Bool) (s : S)
      → (foreach_remove q f s).1 ≡ (scan f (queue.entries q) s).1

abbrev pub list_removal : Removal (list_queue ℕ)
list_removal = record {
  remove = λ q a. (drop_entry (λ x. x == a) q, is_some (find_entry (λ x. x == a) q));
  foreach_remove = λ q f s. scan f q s;
  entries-remove = λ q a. refl;
  remove-entries = λ q a. refl;
  entries-foreach_remove = λ q f s. refl;
  foreach_remove-entries = λ q f s. refl;
}
