-- ===== src/Core/HtmlCleaner/Patterns.antt =====
-- The regular expressions of docsifer/core/html_cleaner.py, one at a time.
use docsifer.Prelude.{
  ℕ, zero, suc, ◌+◌, ◌≡◌, refl, ap, sym, Bool, true, false, not, ◌&&◌, none, some, [], ◌∷◌, ◌++◌,
  Str, length, length-append, nat_beq, arith,
}
use native.Mathlib.Nat.{zero-add, suc-add}
use docsifer.Prelude.Text.{contains_char, lower_char}
use docsifer.Core.HtmlCleaner.{fold_char, behind, behind_mark, behind_first, boundary, element, sub}

-- A word that folding the case leaves alone.
abbrev lower_case : Str → Bool
lower_case [] = true
lower_case (c ∷ s) = nat_beq (fold_char c) c && lower_case s

behind-append : (w s : Str) → lower_case w ≡ true → behind w (w ++ s) ≡ some s
unfolding behind
behind-append [] s h = refl
behind-append (c ∷ w) s h = ground (arith, behind-append w s)

behind_mark-append :
    (s t : Str) → contains_char b'>' s ≡ false → behind_mark (s ++ b'>' ∷ t) ≡ some t
unfolding behind_mark contains_char
behind_mark-append [] t h = refl
behind_mark-append (c ∷ s) t h = ground (arith, behind_mark-append s t)

-- Only `<` starts a tag.
not_behind : (c : ℕ) (w s : Str) → nat_beq c b'<' ≡ false → behind (b'<' ∷ w) (c ∷ s) ≡ none
unfolding behind fold_char lower_char
not_behind c w s h = ground arith

behind_first-append :
    (w s t : Str)
    → contains_char b'<' s ≡ false
    → lower_case w ≡ true
    → behind_first (b'<' ∷ w) (s ++ (b'<' ∷ (w ++ t))) ≡ some t
unfolding behind_first contains_char
behind_first-append w [] t h k =
    rw (behind-append (b'<' ∷ w) t (unfold fold_char lower_char in k)) refl
behind_first-append w (c ∷ s) t h k =
    rw (not_behind c w (s ++ (b'<' ∷ (w ++ t))) (ground arith), behind_first)
      (behind_first-append w s t (ground arith) k)

mark-append : (w s : Str) → (w ++ b'>' ∷ []) ++ s ≡ w ++ (b'>' ∷ s)
mark-append [] s = refl
mark-append (c ∷ w) s = rw (mark-append w s) refl

mark-lower_case : (w : Str) → lower_case w ≡ true → lower_case (b'/' ∷ (w ++ b'>' ∷ [])) ≡ true
unfolding fold_char lower_char
mark-lower_case [] h = refl
mark-lower_case (c ∷ w) h = ground (arith, mark-lower_case w)

module _ (is_word : ℕ → Bool) where
  not_element :
      (tag : Str) (c : ℕ) (s : Str)
      → behind (b'<' ∷ tag) (c ∷ s) ≡ none
      → element is_word tag (c ∷ s) ≡ none
  unfolding element
  not_element tag c s h = rw h refl

  sub-step :
      (n : ℕ) (tag : Str) (c : ℕ) (s : Str)
      → behind (b'<' ∷ tag) (c ∷ s) ≡ none
      → sub is_word (suc n) tag (c ∷ s) ≡ c ∷ sub is_word n tag s
  unfolding sub
  sub-step n tag c s h = rw (not_element tag c s h, sub) refl

  sub-append :
      (n : ℕ) (tag a s : Str)
      → contains_char b'<' a ≡ false
      → sub is_word (length a + n) tag (a ++ s) ≡ a ++ sub is_word n tag s
  unfolding contains_char
  sub-append n tag [] s h = rw (zero-add n) refl
  sub-append n tag (c ∷ a) s h =
      rw
        (
          suc-add (length a) n,
          sub-step (length a + n) tag c (a ++ s) (not_behind c tag (a ++ s) (ground arith)),
          sub-append n tag a s (ground arith),
        )
        refl

  -- A text that a pattern leaves alone, on whatever fuel.
  abbrev pub Kept : Str → Str → Type 0
  Kept tag s = (n : ℕ) → sub is_word n tag s ≡ s

  step-Kept :
      (tag : Str) (c : ℕ) (s : Str)
      → behind (b'<' ∷ tag) (c ∷ s) ≡ none
      → Kept tag s
      → Kept tag (c ∷ s)
  step-Kept tag c s h k zero = unfold sub in refl
  step-Kept tag c s h k (suc n) = rw (sub-step n tag c s h, k n) refl

  pub append-Kept : (tag a s : Str) → contains_char b'<' a ≡ false → Kept tag s → Kept tag (a ++ s)
  unfolding contains_char
  append-Kept tag [] s h k = k
  append-Kept tag (c ∷ a) s h k =
      step-Kept tag c (a ++ s) (not_behind c tag (a ++ s) (ground arith))
        (append-Kept tag a s (ground arith) k)

  nil-Kept : (tag : Str) → Kept tag []
  unfolding sub
  nil-Kept tag zero = refl
  nil-Kept tag (suc n) = refl

  pub plain-Kept : (tag s : Str) → contains_char b'<' s ≡ false → Kept tag s
  plain-Kept tag [] h = nil-Kept tag
  plain-Kept tag (c ∷ s) h =
      step-Kept tag c s (not_behind c tag s (unfold contains_char in ground arith))
        (plain-Kept tag s (unfold contains_char in ground arith))

  -- An element with its attributes and its body.
  abbrev pub element_text : Str → Str → Str → Str → Str
  element_text tag attrs body rest =
      (b'<' ∷ (tag ++ (attrs ++ (b'>' ∷ (body ++ (b'<' ∷ b'/' ∷ (tag ++ (b'>' ∷ rest))))))))

  -- What follows the name of a tag: nothing, or no letter of a word first.
  abbrev pub parts_word : Str → Bool
  parts_word [] = true
  parts_word (c ∷ s) = not (is_word c)

  -- The parts of an element that holds no other.
  pub record IsElement (tag attrs body : Str) : Type 0 where
    pub low : lower_case tag ≡ true
    pub parts : parts_word attrs ≡ true
    pub attrs_free : (contains_char b'>' attrs ≡ false) × (contains_char b'<' attrs ≡ false)
    pub body_free : contains_char b'<' body ≡ false

  boundary-append :
      (attrs rest : Str)
      → parts_word attrs ≡ true
      → is_word b'>' ≡ false
      → boundary is_word (attrs ++ b'>' ∷ rest) ≡ some (attrs ++ b'>' ∷ rest)
  boundary-append [] rest h k = rw k refl
  boundary-append (c ∷ s) rest h k = ground arith

  element-append :
      (tag attrs body rest : Str)
      → IsElement tag attrs body
      → is_word b'>' ≡ false
      → element is_word tag (element_text tag attrs body rest) ≡ some rest
  unfolding element
  element-append tag attrs body rest e k =
      let last = b'<' ∷ b'/' ∷ (tag ++ (b'>' ∷ rest)) in
      rw
        (
          behind-append tag (attrs ++ (b'>' ∷ (body ++ last))) e.low,
          boundary-append attrs (body ++ last) e.parts k,
          behind_mark-append attrs (body ++ last) e.attrs_free.0,
        )
        (rw (sym (mark-append tag rest)) (
          behind_first-append (b'/' ∷ (tag ++ b'>' ∷ [])) body rest e.body_free
            (mark-lower_case tag e.low)))

  -- A pattern removes the only element of its tag.
  pub sub-element :
      (tag a attrs body b : Str)
      → IsElement tag attrs body
      → is_word b'>' ≡ false
      → contains_char b'<' a ≡ false
      → contains_char b'<' b ≡ false
      → let s = a ++ element_text tag attrs body b in sub is_word (length s) tag s ≡ a ++ b
  unfolding sub
  sub-element tag a attrs body b e k ha hb =
      let t = element_text tag attrs body b in
      rw (length-append a t, sub-append (length t) tag a t ha)
        (ap (λ x. a ++ x) (rw (element-append tag attrs body b e k) (plain-Kept tag b hb _)))

  -- A pattern for another tag leaves it.
  pub element-Kept :
      (other tag attrs body b : Str)
      → IsElement tag attrs body
      → contains_char b'<' tag ≡ false
      → ((s : Str) → behind (b'<' ∷ other) (b'<' ∷ (tag ++ s)) ≡ none)
      → ((s : Str) → behind (b'<' ∷ other) (b'<' ∷ b'/' ∷ s) ≡ none)
      → contains_char b'<' b ≡ false
      → Kept other (element_text tag attrs body b)
  element-Kept other tag attrs body b e f g h k =
      let closing = step-Kept other b'<' _ (h _) (
        step-Kept other b'/' _ (not_behind b'/' other _ refl) (
          append-Kept other tag _ f
            (step-Kept other b'>' _ (not_behind b'>' other _ refl) (plain-Kept other b k)))) in
      let opening = append-Kept other attrs _ e.attrs_free.1 (
        step-Kept other b'>' _ (not_behind b'>' other _ refl)
          (append-Kept other body _ e.body_free closing)) in
      step-Kept other b'<' _ (g _) (append-Kept other tag _ f opening)
