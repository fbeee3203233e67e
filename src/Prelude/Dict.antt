-- ===== src/Prelude/Dict.antt =====
-- Python's `dict` as an association list in insertion order. The keys of a dict are distinct: the
-- operations keep that (`IsDict`).
use mathlib.Core.Path.{◌≡◌, refl}
use mathlib.Core.Bool.{Bool, true, false, not, ◌&&◌}
use mathlib.Core.Option.{Option, none, some}
use mathlib.Core.List.{List, [], ◌∷◌}
use native.Mathlib.Omega.{arith}
use docsifer.Prelude.Tests.{if◌then◌else◌}
use docsifer.Prelude.Equality.{HasSame, ◌==◌, ==_iff}

abbrev pub Dict {ℓ κ} : Type ℓ → Type κ → Type (ℓ ⊔ κ)
Dict K V = List (K × V)

module _ {ℓ κ} {K : Type ℓ} {V : Type κ} ⦃e : HasSame K⦄ where
  -- d.get(k)
  unfoldable pub get : K → Dict K V → Option V
  get k [] = none
  get k ((j, v) ∷ d) = if j == k then some v else get k d

  -- d[k] = v
  unfoldable pub put : K → V → Dict K V → Dict K V
  put k v [] = (k, v) ∷ []
  put k v ((j, w) ∷ d) = if j == k then (j, v) ∷ d else (j, w) ∷ put k v d

  -- d.pop(k, None)
  unfoldable pub pop : K → Dict K V → Dict K V
  pop k [] = []
  pop k ((j, w) ∷ d) = if j == k then d else (j, w) ∷ pop k d

  unfoldable pub has : K → Dict K V → Bool
  has k [] = false
  has k ((j, w) ∷ d) = if j == k then true else has k d

  -- The keys are distinct.
  unfoldable pub distinct : Dict K V → Bool
  unfolding has
  distinct [] = true
  distinct ((j, w) ∷ d) = not (has j d) && distinct d

  abbrev pub IsDict : Dict K V → Type 0
  IsDict d = distinct d ≡ true

  pub get-put :
      (k j : K) (v : V) (d : Dict K V) → get j (put k v d) ≡ (if k == j then some v else get j d)
  unfolding get put
  get-put k j v [] = refl
  get-put k j v ((i, w) ∷ d) = ground (arith, ==_iff k j, ==_iff i k, ==_iff i j, get-put k j v d)

  pub has-put :
      (k j : K) (v : V) (d : Dict K V) → has j (put k v d) ≡ (if k == j then true else has j d)
  unfolding has put
  has-put k j v [] = refl
  has-put k j v ((i, w) ∷ d) = ground (arith, ==_iff k j, ==_iff i k, ==_iff i j, has-put k j v d)

  pub put-IsDict : (k : K) (v : V) (d : Dict K V) → IsDict d → IsDict (put k v d)
  unfolding put distinct
  put-IsDict k v [] h = refl
  put-IsDict k v ((i, w) ∷ d) h =
      ground (arith, has-put k i v d, ==_iff i k, ==_iff k i, put-IsDict k v d)

  pub has-pop : (k j : K) (d : Dict K V) → has j (pop k d) ≡ true → has j d ≡ true
  unfolding has pop
  has-pop k j [] h = h
  has-pop k j ((i, w) ∷ d) h = ground (arith, has-pop k j d)

  pub pop-IsDict : (k : K) (d : Dict K V) → IsDict d → IsDict (pop k d)
  unfolding pop distinct
  pop-IsDict k [] h = refl
  pop-IsDict k ((i, w) ∷ d) h = ground (arith, has-pop k i d, pop-IsDict k d)

  pub get_of_not-has : (k : K) (d : Dict K V) → has k d ≡ false → get k d ≡ none
  unfolding get has
  get_of_not-has k [] h = refl
  get_of_not-has k ((i, w) ∷ d) h = ground (arith, get_of_not-has k d)

  pub get-pop :
      (k j : K) (d : Dict K V) → IsDict d → get j (pop k d) ≡ (if k == j then none else get j d)
  unfolding get pop distinct
  get-pop k j [] h = ground arith
  get-pop k j ((i, w) ∷ d) h =
      ground (arith, ==_iff k j, ==_iff i k, ==_iff i j, get-pop k j d, get_of_not-has i d)
