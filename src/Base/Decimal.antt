-- ===== src/Base/Decimal.antt =====
-- `std::ostream << int` for a number that is not negative, and for one that is.
use Prim.Native.Nat.{ℕ, zero, suc, ◌+◌, ◌-◌, ◌*◌, ◌/◌, ◌%◌, ◌<◌, ◌≤◌}
use mathlib.Core.Path.{◌≡◌}
use mathlib.Core.List.{[], ◌∷◌}
use mathlib.Core.Logic.{inl, inr}
use native.Mathlib.Omega.{arith}
use ob_dump.Base.Tests.{Bool-cases, ◌==◌, if◌then◌else◌}
use ob_dump.Base.Text.{Bytes}
use ob_dump.Base.Lists.{All}
use ob_dump.Base.Int.{ℤ, pos, negsuc}

-- The digits of `n` in front of `out`; a number has fewer digits than its successor counts.
pub emit_digits : ℕ → ℕ → Bytes → Bytes
emit_digits zero n out = out
emit_digits (suc fuel) n out =
    let out' = (b'0' + n % 10) ∷ out in
    let more = emit_digits fuel (n / 10) out' in if n / 10 == 0 then out' else more

unfoldable pub decimal : ℕ → Bytes
unfolding emit_digits
decimal n = emit_digits (suc n) n []

unfoldable pub decimal_ℤ : ℤ → Bytes
unfolding decimal
decimal_ℤ (pos n) = decimal n
decimal_ℤ (negsuc n) = b'-' ∷ decimal (suc n)

abbrev pub IsDigit : ℕ → Type 0
IsDigit c = (b'0' ≤ c) × (c ≤ b'9')

emit_digits-IsDigit :
    (fuel n : ℕ) (out : Bytes) → All IsDigit out → All IsDigit (emit_digits fuel n out)
unfolding emit_digits
emit_digits-IsDigit zero n out h = h
emit_digits-IsDigit (suc fuel) n out h =
    ground (arith, emit_digits-IsDigit fuel (n / 10) ((b'0' + n % 10) ∷ out))

pub decimal-IsDigit : (n : ℕ) → All IsDigit (decimal n)
unfolding decimal
decimal-IsDigit n = emit_digits-IsDigit (suc n) n [] tt

-- The number that digits spell behind `n`.
abbrev pub value : ℕ → Bytes → ℕ
value n [] = n
value n (c ∷ s) = value (n * 10 + (c - b'0')) s

value-emit_digits :
    (fuel n : ℕ) (out : Bytes) → n < fuel → value 0 (emit_digits fuel n out) ≡ value n out
unfolding emit_digits
value-emit_digits zero n out h = absurd (omega arith)
value-emit_digits (suc fuel) n out h =
    ground (arith, value-emit_digits fuel (n / 10) ((b'0' + n % 10) ∷ out))

pub value-decimal : (n : ℕ) → value 0 (decimal n) ≡ n
unfolding decimal
value-decimal n = value-emit_digits (suc n) n [] (omega arith)

emit_digits-cons :
    (fuel n : ℕ) (out : Bytes) → n < fuel → (c : ℕ) × (s : Bytes) × (emit_digits fuel n out ≡ c ∷ s)
unfolding emit_digits
emit_digits-cons zero n out h = absurd (omega arith)
emit_digits-cons (suc fuel) n out h = elim (Bool-cases (n / 10 == 0)) [
  | inl done ↦ (b'0' + n % 10, out, rw done)
  | inr more ↦ rw more (emit_digits-cons fuel (n / 10) ((b'0' + n % 10) ∷ out) (ground arith))
]

-- A printed number has a first character.
pub decimal-cons : (n : ℕ) → (c : ℕ) × (s : Bytes) × (decimal n ≡ c ∷ s)
unfolding decimal
decimal-cons n = emit_digits-cons (suc n) n [] (omega arith)
