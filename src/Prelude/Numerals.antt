-- ===== src/Prelude/Numerals.antt =====
-- Python's `int(s)` on ASCII texts: white space around, a sign, and digits that single underscores
-- may part. The limit on the number of digits (4300) is left out.
use Prim.Native.Nat.{ℕ, zero, suc, ◌+◌, ◌-◌, ◌*◌, ◌/◌, ◌%◌, ◌<◌}
use mathlib.Core.Path.{◌≡◌, refl, ap, ◌∙◌}
use mathlib.Core.Logic.{inl, inr}
use mathlib.Core.Bool.{Bool, true, false, ◌&&◌}
use mathlib.Core.Option.{Option, none, some}
use mathlib.Core.List.{[], ◌∷◌}
use native.Mathlib.Omega.{arith}
use docsifer.Prelude.Tests.{ltb, leb, nat_beq, if◌then◌else◌, Bool-cases}
use docsifer.Prelude.Equality.{Str}
use docsifer.Prelude.Lists.{All}
use docsifer.Prelude.Text.{strip, lstrip, rstrip, decimal, digits}

-- `negsuc n` is the number `-(n + 1)`.
pub data ℤ : Type 0 where
  pos negsuc : ℕ → ℤ

abbrev negated : ℕ → ℤ
negated n = if nat_beq n 0 then pos 0 else negsuc (n - 1)

abbrev pub is_digit : ℕ → Bool
is_digit c = leb 48 c && leb c 57

-- The flag says that a digit has just been read.
unfoldable pub read_digits : ℕ → Bool → Str → Option ℕ
read_digits acc after_digit [] = if after_digit then some acc else none
read_digits acc after_digit (c ∷ s) =
    let longer = read_digits (acc * 10 + (c - 48)) true s in
    let parted = read_digits acc false s in
    if is_digit c then longer else if nat_beq c 95 && after_digit then parted else none

abbrev pub signed : (ℕ → ℤ) → Option ℕ → Option ℤ
signed f none = none
signed f (some n) = some (f n)

abbrev pub read_sign : Str → Option ℤ
read_sign [] = none
read_sign (c ∷ s) =
    if nat_beq c 45
    then signed negated (read_digits 0 false s)
    else if nat_beq c 43
    then signed pos (read_digits 0 false s)
    else signed pos (read_digits 0 false (c ∷ s))

unfoldable pub parse_int : Str → Option ℤ
unfolding read_digits
parse_int s = read_sign (strip s)

abbrev Digits : Str → Type 0
Digits s = All (λ c. is_digit c ≡ true) s

digits-Digits : (fuel n : ℕ) (out : Str) → Digits out → Digits (digits fuel n out)
unfolding digits
digits-Digits zero n out h = h
digits-Digits (suc fuel) n out h =
    ground (arith, digits-Digits fuel (n / 10) ((48 + n % 10) ∷ out) (ground arith, h))

read_digits-step :
    (acc : ℕ) (b : Bool) (c : ℕ) (s : Str)
    → is_digit c ≡ true
    → read_digits acc b (c ∷ s) ≡ read_digits (acc * 10 + (c - 48)) true s
unfolding read_digits
read_digits-step acc b c s h = rw h refl

read-digits :
    (fuel n : ℕ) (out : Str) (b : Bool)
    → n < fuel
    → read_digits 0 b (digits fuel n out) ≡ read_digits n true out
unfolding digits read_digits
read-digits zero n out b h = absurd (omega arith)
read-digits (suc fuel) n out b h = elim (Bool-cases (ltb n 10)) [
  | inl e ↦ rw e (
      read_digits-step 0 b (48 + n) out (ground arith)
      ∙ ap (λ k. read_digits k true out) (omega arith))
  | inr e ↦ rw e (
      read-digits fuel (n / 10) ((48 + n % 10) ∷ out) b (ground arith)
      ∙ read_digits-step (n / 10) true (48 + n % 10) out (ground arith)
      ∙ ap (λ k. read_digits k true out) (omega arith))
]

rstrip-Digits : (s : Str) → Digits s → rstrip s ≡ s
unfolding rstrip
rstrip-Digits [] h = refl
rstrip-Digits (c ∷ s) h = ground (arith, rstrip-Digits s h.1, h.0)

strip-Digits : (s : Str) → Digits s → strip s ≡ s
unfolding strip lstrip
strip-Digits [] h = unfold rstrip in refl
strip-Digits (c ∷ s) h = ground (arith, rstrip-Digits (c ∷ s) h, h.0)

-- A text that starts with a digit has no sign.
read_sign-Digits : (s : Str) → Digits s → read_sign s ≡ signed pos (read_digits 0 false s)
unfolding read_digits
read_sign-Digits [] h = refl
read_sign-Digits (c ∷ s) h = ground (arith, h.0)

-- `int(str(n))` is `n`.
pub parse_int-decimal : (n : ℕ) → parse_int (decimal n) ≡ some (pos n)
unfolding parse_int decimal
parse_int-decimal n =
    let d = digits-Digits (suc n) n [] tt in
    rw (strip-Digits (decimal n) d) (
      read_sign-Digits (decimal n) d
      ∙ ap (signed pos)
          (read-digits (suc n) n [] false (omega arith) ∙ (unfold read_digits in refl)))
