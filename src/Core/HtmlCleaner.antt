-- ===== src/Core/HtmlCleaner.antt =====
-- docsifer/core/html_cleaner.py. selectolax is a parameter, and so are the letters of `\w` and the
-- two directions of an encoding.
pub mod Patterns
pub mod Fallback
use docsifer.Prelude.{
  ℕ, zero, suc, Bool, true, false, not, ◌||◌, ◌&&◌, Option, none, some, List, [], ◌∷◌, ◌++◌, Str,
  if◌then◌else◌, length, nat_beq,
}
use docsifer.Prelude.Text.{codes, lower_char, is_empty}

-- A parser that may raise, in `parse` and while it removes the nodes of a selector.
pub record HtmlParser : Type 1 where
  pub Tree : Type 0
  pub parse : Str → Option Tree
  pub decompose_all : Str → Tree → Option Tree
  pub html : Tree → Str

abbrev pub remove_selectors : List Str
remove_selectors =
    codes "style"
    ∷ codes "script"
    ∷ codes "noscript"
    ∷ codes "[hidden]"
    ∷ codes "[style*=\"display:none\"]"
    ∷ codes "[style*=\"display: none\"]"
    ∷ codes "[style*=\"visibility:hidden\"]"
    ∷ codes "[style*=\"visibility: hidden\"]"
    ∷ codes "[aria-hidden=\"true\"]"
    ∷ []

-- Under IGNORECASE the letters i and s have more than two forms.
unfoldable pub fold_char : ℕ → ℕ
unfolding lower_char
fold_char c =
    if nat_beq c 383 then b's' else if nat_beq c 304 || nat_beq c 305 then b'i' else lower_char c

-- What is behind a word in lower case at the start of the text.
unfoldable pub behind : Str → Str → Option Str
unfolding fold_char
behind [] s = some s
behind (w ∷ word) [] = none
behind (w ∷ word) (c ∷ s) =
    let rest = behind word s in if nat_beq w (fold_char c) then rest else none

-- [^>]*>
unfoldable pub behind_mark : Str → Option Str
behind_mark [] = none
behind_mark (c ∷ s) = let rest = behind_mark s in if nat_beq c b'>' then some s else rest

-- .*?word
unfoldable pub behind_first : Str → Str → Option Str
unfolding behind
behind_first word [] = behind word []
behind_first word (c ∷ s) =
    let rest = behind_first word s in elim (behind word (c ∷ s)) [ some t ↦ some t | none ↦ rest ]

abbrev pub and_then : Option Str → (Str → Option Str) → Option Str
and_then none f = none
and_then (some s) f = f s

abbrev clear : (p : HtmlParser) → List Str → p.Tree → Option Str
clear p [] tree = some (p.html tree)
clear p (q ∷ selectors) tree = elim (p.decompose_all q tree) [
  | none ↦ none
  | some t ↦ clear p selectors t
]

-- Nothing where selectolax is missing or raises.
unfoldable pub parsed : Option HtmlParser → Str → Option Str
parsed none html = none
parsed (some p) html = elim (p.parse html) [
  | none ↦ none
  | some tree ↦ clear p remove_selectors tree
]

module _ (is_word : ℕ → Bool) where
  -- \b behind a letter
  abbrev pub boundary : Str → Option Str
  boundary [] = some []
  boundary (c ∷ s) = if is_word c then none else some (c ∷ s)

  -- <tag\b[^>]*>.*?</tag>
  unfoldable pub element : Str → Str → Option Str
  unfolding behind behind_mark behind_first
  element tag s = and_then (behind (b'<' ∷ tag) s) λ a.
      and_then (boundary a)
        λ b. and_then (behind_mark b) (behind_first (b'<' ∷ b'/' ∷ tag ++ b'>' ∷ []))

  -- pattern.sub("", text), on fuel for the characters.
  unfoldable pub sub : ℕ → Str → Str → Str
  unfolding element
  sub zero tag s = s
  sub (suc fuel) tag [] = []
  sub (suc fuel) tag (c ∷ s) = elim (element tag (c ∷ s)) [
    | none ↦ c ∷ sub fuel tag s
    | some rest ↦ sub fuel tag rest
  ]

  unfoldable pub fallback : Str → Str
  unfolding sub
  fallback html =
      let a = sub (length html) (codes "style") html in
      let b = sub (length a) (codes "script") a in sub (length b) (codes "noscript") b

  module _ (parser : Option HtmlParser) where
    unfoldable pub clean_html : Str → Str
    unfolding parsed fallback
    clean_html [] = []
    clean_html (c ∷ html) = elim (parsed parser (c ∷ html)) [
      | some cleaned ↦ cleaned
      | none ↦ fallback (c ∷ html)
    ]

    -- A codec that passes over what it cannot read or write.
    unfoldable pub clean_html_bytes : (decode encode : Str → Str) → Str → Str
    unfolding clean_html
    clean_html_bytes decode encode bytes = encode (clean_html (decode bytes))
