-- ===== src/Prelude/Equality.antt =====
-- Equality tests as an interface, with the instances for numbers and texts (lists of code points).
use Prim.Native.Nat.{ℕ}
use mathlib.Core.Path.{◌≡◌, refl}
use mathlib.Core.Logic.{◌↔◌}
use mathlib.Core.Bool.{Bool, true, false, ◌&&◌}
use mathlib.Core.List.{List, [], ◌∷◌}
use native.Mathlib.Omega.{arith}
use docsifer.Prelude.Tests.{nat_beq, nat_beq_iff}

-- Python's `==` on the values of a type decides whether they are one.
pub record HasSame {ℓ} (A : Type ℓ) : Type ℓ where
  pub same : A → A → Bool
  pub same_iff : (x y : A) → (same x y ≡ true) ↔ (x ≡ y)

infix 50 ◌==◌
abbrev pub ◌==◌ {ℓ} : {A : Type ℓ} ⦃cmp : HasSame A⦄ (x y : A) → Bool
◌==◌ ⦃cmp⦄ x y = cmp.same x y

module _ {ℓ} {A : Type ℓ} ⦃cmp : HasSame A⦄ where
  pub ==_iff : (x y : A) → ((x == y) ≡ true) ↔ (x ≡ y)
  ==_iff x y = cmp.same_iff x y

  pub ==_refl : (x : A) → (x == x) ≡ true
  ==_refl x = (cmp.same_iff x x).1 refl

instance abbrev pub nat_eq : HasSame ℕ
nat_eq = record { same = nat_beq; same_iff = nat_beq_iff }

-- A text is the list of its code points.
abbrev pub Str : Type 0
Str = List ℕ

abbrev pub str_beq : Str → Str → Bool
str_beq [] [] = true
str_beq [] (d ∷ t) = false
str_beq (c ∷ s) [] = false
str_beq (c ∷ s) (d ∷ t) = nat_beq c d && str_beq s t

pub str_beq_iff : (s t : Str) → (str_beq s t ≡ true) ↔ (s ≡ t)
str_beq_iff [] [] = ground arith
str_beq_iff [] (d ∷ t) = ground arith
str_beq_iff (c ∷ s) [] = ground arith
str_beq_iff (c ∷ s) (d ∷ t) = ground (arith, str_beq_iff s t)

instance abbrev pub str_eq : HasSame Str
str_eq = record { same = str_beq; same_iff = str_beq_iff }
