-- ===== src/Base/Int.antt =====
-- Go's `int`, which the code compares and prints, and `strconv.Itoa`.
use Prim.Native.Nat.{ℕ, zero, suc, ◌+◌, ◌/◌, ◌%◌}
use mathlib.Core.Path.{◌≡◌, refl}
use mathlib.Core.Logic.{◌↔◌}
use mathlib.Core.Bool.{Bool, true, false}
use mathlib.Core.List.{[], ◌∷◌}
use native.Mathlib.Omega.{arith}
use ucl_tools.Base.Tests.{ltb, ◌==◌, if◌then◌else◌}
use ucl_tools.Base.Texts.{Text, no_blank}

-- `negsuc n` is -(n + 1).
pub data ℤ : Type 0 where
  pos : ℕ → ℤ
  negsuc : ℕ → ℤ

-- `==` of two integers.
abbrev pub int_eq : ℤ → ℤ → Bool
int_eq (pos a) (pos b) = a == b
int_eq (negsuc a) (negsuc b) = a == b
int_eq _ _ = false

pub int_eq_iff : (a b : ℤ) → (int_eq a b ≡ true) ↔ (a ≡ b)
int_eq_iff (pos a) (pos b) = ground arith
int_eq_iff _ _ = ground arith

pub int_eq_refl : (a : ℤ) → int_eq a a ≡ true
int_eq_refl a = (int_eq_iff a a).1 refl

-- `0 < z`.
abbrev pub is_positive : ℤ → Bool
is_positive (pos n) = ltb 0 n
is_positive (negsuc n) = false

-- The decimal digits of a number in front of `out`; a number below `suc fuel` needs no more fuel.
digits : ℕ → ℕ → Text → Text
digits zero n out = (b'0' + n % 10) ∷ out
digits (suc fuel) n out =
    let more = digits fuel (n / 10) ((b'0' + n % 10) ∷ out) in
    if ltb n 10 then (b'0' + n) ∷ out else more

-- `strconv.Itoa`.
unfoldable pub itoa : ℤ → Text
unfolding digits
itoa (pos n) = digits n n []
itoa (negsuc n) = b'-' ∷ digits (suc n) (suc n) []

digits-no_blank :
    (fuel n : ℕ) (out : Text) → no_blank out ≡ true → no_blank (digits fuel n out) ≡ true
unfolding digits
digits-no_blank zero n out h = ground arith
digits-no_blank (suc fuel) n out h =
    ground (arith, digits-no_blank fuel (n / 10) ((b'0' + n % 10) ∷ out))

pub itoa-no_blank : (z : ℤ) → no_blank (itoa z) ≡ true
unfolding itoa
itoa-no_blank (pos n) = digits-no_blank n n [] refl
itoa-no_blank (negsuc n) = digits-no_blank (suc n) (suc n) [] refl
