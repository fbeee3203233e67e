-- ===== src/Prelude/Text.antt =====
-- Python's `str` methods on lists of code points. White space is that of `str.isspace`; the case
-- mapping is that of ASCII, and leaves other letters alone.
use Prim.Native.Nat.{ℕ, zero, suc, ◌+◌, ◌/◌, ◌%◌}
use Prim.Native.Char.{code}
use Prim.Native.String.{String}
use mathlib.Core.Path.{◌≡◌, refl}
use mathlib.Core.Logic.{inl, inr}
use mathlib.Core.Bool.{Bool, true, false, not, ◌&&◌, ◌||◌}
use mathlib.Core.List.{List, [], ◌∷◌, ◌++◌}
use native.Mathlib.Omega.{arith}
use docsifer.Prelude.Tests.{Bool-cases, ltb, leb, nat_beq, if◌then◌else◌}
use docsifer.Prelude.Equality.{Str}

abbrev pub codes : String → Str
codes String.[] = []
codes (String.◌∷◌ c s) = code c ∷ codes s

abbrev pub is_space : ℕ → Bool
is_space c =
    (leb 9 c && leb c 13)
    || (leb 28 c && leb c 32)
    || nat_beq c 133
    || nat_beq c 160
    || nat_beq c 5760
    || (leb 8192 c && leb c 8202)
    || nat_beq c 8232
    || nat_beq c 8233
    || nat_beq c 8239
    || nat_beq c 8287
    || nat_beq c 12288

-- s.lstrip(), s.rstrip(), s.strip()
unfoldable pub lstrip : Str → Str
lstrip [] = []
lstrip (c ∷ s) = if is_space c then lstrip s else c ∷ s

abbrev pub cons_unless : Bool → ℕ → Str → Str
cons_unless drop c [] = if drop then [] else c ∷ []
cons_unless drop c (d ∷ s) = c ∷ d ∷ s

unfoldable pub rstrip : Str → Str
rstrip [] = []
rstrip (c ∷ s) = cons_unless (is_space c) c (rstrip s)

unfoldable pub strip : Str → Str
unfolding lstrip rstrip
strip s = rstrip (lstrip s)

-- s.rstrip(sep) for a single character
unfoldable pub rstrip_char : ℕ → Str → Str
rstrip_char sep [] = []
rstrip_char sep (c ∷ s) = cons_unless (nat_beq c sep) c (rstrip_char sep s)

unfoldable pub lower_char : ℕ → ℕ
lower_char c = if leb 65 c && leb c 90 then c + 32 else c

unfoldable pub lower : Str → Str
unfolding lower_char
lower [] = []
lower (c ∷ s) = lower_char c ∷ lower s

unfoldable pub starts_with : Str → Str → Bool
starts_with [] s = true
starts_with (p ∷ ps) [] = false
starts_with (p ∷ ps) (c ∷ s) = nat_beq p c && starts_with ps s

unfoldable pub contains_char : ℕ → Str → Bool
contains_char x [] = false
contains_char x (c ∷ s) = nat_beq c x || contains_char x s

abbrev pub is_empty : Str → Bool
is_empty [] = true
is_empty (c ∷ s) = false

abbrev pub onto_first : ℕ → List Str → List Str
onto_first c [] = (c ∷ []) ∷ []
onto_first c (w ∷ ws) = (c ∷ w) ∷ ws

-- s.split(sep) for a single character: never empty.
unfoldable pub split : ℕ → Str → List Str
split sep [] = [] ∷ []
split sep (c ∷ s) = let rest = split sep s in if nat_beq c sep then [] ∷ rest else onto_first c rest

-- The text behind the last `sep`, or the whole text: s.rsplit(sep, 1)[-1]
unfoldable pub after_last : ℕ → Str → Str
unfolding contains_char
after_last sep [] = []
after_last sep (c ∷ s) =
    let rest = after_last sep s in
    if contains_char sep s then rest else if nat_beq c sep then s else c ∷ s

-- len(s.split()): the number of words; the flag says that a word has begun.
unfoldable pub words : Bool → Str → ℕ
words inside [] = if inside then 1 else 0
words inside (c ∷ s) =
    let more = words (not (is_space c)) s in
    if is_space c then (if inside then more + 1 else more) else more

unfoldable pub count_words : Str → ℕ
unfolding words
count_words s = words false s

-- str(n), the digits behind one another; `n + 1` rounds are more than enough.
unfoldable pub digits : ℕ → ℕ → Str → Str
digits zero n out = out
digits (suc fuel) n out =
    let rest = digits fuel (n / 10) ((48 + n % 10) ∷ out) in
    if ltb n 10 then (48 + n) ∷ out else rest

unfoldable pub decimal : ℕ → Str
unfolding digits
decimal n = digits (suc n) n []

pub lower_char_idem : (c : ℕ) → lower_char (lower_char c) ≡ lower_char c
unfolding lower_char
lower_char_idem c = ground arith

pub lower-append : (s t : Str) → lower (s ++ t) ≡ lower s ++ lower t
unfolding lower
lower-append [] t = refl
lower-append (c ∷ s) t = ground (arith, lower-append s t)

pub lower_idem : (s : Str) → lower (lower s) ≡ lower s
unfolding lower
lower_idem [] = refl
lower_idem (c ∷ s) = ground (arith, lower_char_idem c, lower_idem s)

-- The text behind the last separator has no separator.
pub after_last-free : (sep : ℕ) (s : Str) → contains_char sep (after_last sep s) ≡ false
unfolding after_last contains_char
after_last-free sep [] = refl
after_last-free sep (c ∷ s) = ground (arith, after_last-free sep s)

pub contains_char-append :
    (x : ℕ) (s t : Str) → contains_char x (s ++ t) ≡ (contains_char x s || contains_char x t)
unfolding contains_char
contains_char-append x [] t = refl
contains_char-append x (c ∷ s) t = ground (arith, contains_char-append x s t)

cons_unless-append :
    (b : Bool) (c : ℕ) (s : Str) (d : ℕ) (t : Str) → cons_unless b c (s ++ d ∷ t) ≡ c ∷ s ++ d ∷ t
cons_unless-append b c [] d t = refl
cons_unless-append b c (e ∷ s) d t = refl

rstrip-mark :
    (s : Str) (mark space : ℕ)
    → is_space mark ≡ false
    → is_space space ≡ true
    → rstrip (s ++ mark ∷ space ∷ []) ≡ s ++ mark ∷ []
unfolding rstrip
rstrip-mark [] mark space k e = rw e (rw k)
rstrip-mark (c ∷ s) mark space k e =
    rw (rstrip-mark s mark space k e) (cons_unless-append (is_space c) c s mark [])

-- White space behind a mark that is none is stripped, the mark and what is before it stay.
pub strip-mark :
    (c : ℕ) (s : Str) (mark space : ℕ)
    → is_space c ≡ false
    → is_space mark ≡ false
    → is_space space ≡ true
    → strip ((c ∷ s) ++ mark ∷ space ∷ []) ≡ (c ∷ s) ++ mark ∷ []
unfolding strip
strip-mark c s mark space h k e = rw h (rstrip-mark (c ∷ s) mark space k e)

cons_unless-rstrip :
    (b : Bool) (c : ℕ) (s : Str)
    → b ≡ is_space c
    → rstrip s ≡ s
    → rstrip (cons_unless b c s) ≡ cons_unless b c s
unfolding rstrip
cons_unless-rstrip true c [] h e = refl
cons_unless-rstrip false c [] h e = rw (← h) refl
cons_unless-rstrip b c (d ∷ s) h e = rw e refl

rstrip_idem : (s : Str) → rstrip (rstrip s) ≡ rstrip s
unfolding rstrip
rstrip_idem [] = refl
rstrip_idem (c ∷ s) = cons_unless-rstrip (is_space c) c (rstrip s) refl (rstrip_idem s)

cons_unless-lstrip :
    (c : ℕ) (s : Str) → is_space c ≡ false → lstrip (cons_unless false c s) ≡ cons_unless false c s
unfolding lstrip
cons_unless-lstrip c [] h = rw h refl
cons_unless-lstrip c (d ∷ s) h = rw h refl

lstrip-rstrip : (s : Str) → lstrip (rstrip (lstrip s)) ≡ rstrip (lstrip s)
unfolding lstrip rstrip
lstrip-rstrip [] = refl
lstrip-rstrip (c ∷ s) = elim (Bool-cases (is_space c)) [
  | inl e ↦ rw e (lstrip-rstrip s)
  | inr e ↦ rw (e, rstrip) (rw e (cons_unless-lstrip c (rstrip s) e))
]

pub strip_idem : (s : Str) → strip (strip s) ≡ strip s
unfolding strip
strip_idem s = rw (lstrip-rstrip s) (rstrip_idem (lstrip s))

text_tests :
    (strip (codes "  a b ") ≡ codes "a b")
    × (split b',' (codes "a,,b") ≡ codes "a" ∷ [] ∷ codes "b" ∷ [])
    × (after_last b'/' (codes "a/b/c.txt") ≡ codes "c.txt")
    × (decimal 1024 ≡ codes "1024")
    × (count_words (codes " two  words ") ≡ 2)
    × (lower (codes "PDF") ≡ codes "pdf")
unfolding strip split after_last decimal count_words lower
text_tests = (refl, refl, refl, refl, refl, refl)
