-- ===== src/Base/Integers.antt =====
-- The integers over native numbers, for JavaScript's subtraction where it can be negative.
use Prim.Native.Nat.{ℕ, suc, ◌+◌, ◌-◌}
use collab_ide.Base.Tests.{leb, if◌then◌else◌}

pub data ℤ : Type 0 where
  pos : ℕ → ℤ
  negsuc : ℕ → ℤ

infixl 60 ◌⊖◌
abbrev pub ◌⊖◌ : ℕ → ℕ → ℤ
m ⊖ n = if leb n m then pos (m - n) else negsuc (n - suc m)

-- `n + z` for a number that is not negative.
infixl 60 ◌+ℤ◌
abbrev pub ◌+ℤ◌ : ℕ → ℤ → ℤ
n +ℤ pos m = pos (n + m)
n +ℤ negsuc m = n ⊖ suc m
