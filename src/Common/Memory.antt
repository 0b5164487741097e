-- ===== src/Common/Memory.antt =====
-- Memory as a function on addresses.
use Prim.Native.Nat.{ℕ}
use mptcpd.Common.Tests.{◌==◌, if◌then◌else◌}

-- The value of a function on numbers, changed at one of them.
abbrev pub update : {A : Type 0} → (ℕ → A) → ℕ → A → ℕ → A
update f n a k = if k == n then a else f k
