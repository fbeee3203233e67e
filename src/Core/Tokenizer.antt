-- ===== src/Core/Tokenizer.antt =====
-- docsifer/core/tokenizer.py. The encoders of tiktoken are a parameter, and so is what encoding
-- a text gives: `none` is an exception.
use docsifer.Prelude.{ℕ, ◌<◌, ◌≡◌, ◌↔◌, refl, Option, none, some, true, false, [], ◌∷◌, Str, arith}
use docsifer.Prelude.Text.{count_words, words, lstrip}

abbrev or_words : Str → Option ℕ → ℕ
or_words text none = count_words text
or_words text (some n) = n

module _ {Encoding : Type 0} where
  -- `encoding_for_model` and `get_encoding("cl100k_base")`, each with nothing if it raises.
  abbrev pub load_encoder : Option Encoding → Option Encoding → Option Encoding
  load_encoder none base = base
  load_encoder (some e) base = some e

  abbrev encoded : (Encoding → Str → Option ℕ) → Option Encoding → Str → ℕ
  encoded encode none text = count_words text
  encoded encode (some e) text = or_words text (encode e text)

  unfoldable pub count : (Encoding → Str → Option ℕ) → Option Encoding → Str → ℕ
  count encode encoder [] = 0
  count encode encoder (c ∷ text) = encoded encode encoder (c ∷ text)

words-pos : (s : Str) → 0 < words true s
unfolding words
words-pos [] = omega arith
words-pos (c ∷ s) = ground (arith, words-pos s)

words-blank : (s : Str) → (words false s ≡ 0) ↔ (lstrip s ≡ [])
unfolding words lstrip
words-blank [] = (λ h. refl, λ h. refl)
words-blank (c ∷ s) = ground (arith, words-blank s, words-pos s)

-- Whatever the encoders do, a text is counted; and by the heuristic, which takes over when both
-- encoders are missing or encoding fails, exactly the texts of white space alone count 0.
pub count-blank :
    {Encoding : Type 0} (encode : Encoding → Str → Option ℕ) (encoder : Option Encoding)
    (text : Str)
    → ((e : Encoding) → encode e text ≡ none)
    → (count encode encoder text ≡ 0) ↔ (lstrip text ≡ [])
unfolding count count_words
count-blank encode none [] h = (λ e. unfold lstrip in refl, λ e. refl)
count-blank encode (some x) [] h = (λ e. unfold lstrip in refl, λ e. refl)
count-blank encode none (c ∷ text) h = words-blank (c ∷ text)
count-blank encode (some x) (c ∷ text) h = rw (h x) (words-blank (c ∷ text))
