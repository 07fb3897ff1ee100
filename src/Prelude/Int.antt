-- ===== src/Prelude/Int.antt =====
-- The integers, as far as limits and quotas need them; `negsuc n` is -(n + 1).
use Prim.Native.Nat.{ℕ}
use mathlib.Core.Bool.{Bool, true}
use django_boilerplate.Prelude.Tests.{leb}

pub data ℤ : Type 0 where
  pos : ℕ → ℤ
  negsuc : ℕ → ℤ

-- `z <= n`, for a length `n`.
abbrev pub le_length : ℤ → ℕ → Bool
le_length (pos m) n = leb m n
le_length (negsuc m) n = true
