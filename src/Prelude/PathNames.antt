-- ===== src/Prelude/PathNames.antt =====
-- `pathlib.PurePosixPath` of Python 3.10 to 3.13, as the program uses it: the name and the suffix
-- of a path given as a text.
use Prim.Native.Nat.{ℕ}
use mathlib.Core.Path.{◌≡◌, refl}
use mathlib.Core.Logic.{◌⊎◌, inl, inr}
use mathlib.Core.Bool.{Bool, true, false, not, ◌&&◌, ◌||◌}
use mathlib.Core.List.{List, [], ◌∷◌, ◌++◌}
use native.Mathlib.Omega.{arith}
use docsifer.Prelude.Tests.{nat_beq, Bool-cases, if◌then◌else◌}
use docsifer.Prelude.Equality.{Str, str_beq}
use docsifer.Prelude.Text.{
  codes, split, contains_char, after_last, is_empty, onto_first, starts_with,
}

abbrev pub is_part : Str → Bool
is_part s = not (is_empty s || str_beq s (b'.' ∷ []))

-- The last part that is neither empty nor a single dot; `..` is a part.
last_part : List Str → Str → Str
last_part [] found = found
last_part (s ∷ ss) found = last_part ss (if is_part s then s else found)

-- Path(s).name
unfoldable pub name : Str → Str
unfolding last_part
name s = last_part (split b'/' s) []

abbrev kept_parts : List Str → List Str
kept_parts [] = []
kept_parts (s ∷ ss) = if is_part s then s ∷ kept_parts ss else kept_parts ss

abbrev join_parts : List Str → Str
join_parts [] = []
join_parts (s ∷ []) = s
join_parts (s ∷ t ∷ ss) = s ++ b'/' ∷ join_parts (t ∷ ss)

-- Two slashes at the start are a root of their own, any other number of them is one.
abbrev root : Str → Str
root s =
    if starts_with (codes "///") s
    then codes "/"
    else if starts_with (codes "//") s
    then codes "//"
    else if starts_with (codes "/") s
    then codes "/"
    else []

abbrev or_dot : Str → Str
or_dot [] = codes "."
or_dot (c ∷ s) = c ∷ s

-- str(Path(s))
unfoldable pub normal : Str → Str
normal s = or_dot (root s ++ join_parts (kept_parts (split b'/' s)))

-- The last dot is neither at the start nor at the end.
abbrev suffix_of : Str → Str
suffix_of [] = []
suffix_of (c ∷ s) =
    let ext = after_last b'.' s in
    if contains_char b'.' s && not (is_empty ext) then b'.' ∷ ext else []

-- Path(s).suffix
unfoldable pub suffix : Str → Str
suffix s = suffix_of (name s)

-- No part of a split has the separator.
abbrev Free : ℕ → List Str → Type 0
Free sep [] = Unit
Free sep (s ∷ ss) = (contains_char sep s ≡ false) × Free sep ss

onto-Free :
    (sep c : ℕ) (ws : List Str) → nat_beq c sep ≡ false → Free sep ws → Free sep (onto_first c ws)
unfolding contains_char
onto-Free sep c [] e f = (ground arith, tt)
onto-Free sep c (w ∷ ws) e f = (ground arith, f.1)

split-Free : (sep : ℕ) (s : Str) → Free sep (split sep s)
unfolding split contains_char
split-Free sep [] = (refl, tt)
split-Free sep (c ∷ s) = elim (Bool-cases (nat_beq c sep)) [
  | inl e ↦ rw e (refl, split-Free sep s)
  | inr e ↦ rw e (onto-Free sep c (split sep s) e (split-Free sep s))
]

last_part-Free :
    (sep : ℕ) (ss : List Str) (found : Str)
    → Free sep ss
    → contains_char sep found ≡ false
    → contains_char sep (last_part ss found) ≡ false
unfolding last_part
last_part-Free sep [] found f h = h
last_part-Free sep (s ∷ ss) found f h = last_part-Free sep ss _ f.1 (ground arith)

-- A name is empty, or it is neither empty nor a single dot.
abbrev Named : Str → Type 0
Named s = (s ≡ []) ⊎ (is_part s ≡ true)

last_part-Named : (ss : List Str) (found : Str) → Named found → Named (last_part ss found)
unfolding last_part
last_part-Named [] found h = h
last_part-Named (s ∷ ss) found h = last_part-Named ss _ (ground arith)

pub name-Named : (s : Str) → (name s ≡ []) ⊎ (is_part (name s) ≡ true)
unfolding name
name-Named s = last_part-Named (split b'/' s) [] (inl refl)

-- A name has no slash.
pub name-free : (s : Str) → contains_char b'/' (name s) ≡ false
unfolding name
name-free s =
    last_part-Free b'/' (split b'/' s) [] (split-Free b'/' s) (unfold contains_char in refl)

pub split_free : (sep : ℕ) (s : Str) → contains_char sep s ≡ false → split sep s ≡ s ∷ []
unfolding split contains_char
split_free sep [] h = refl
split_free sep (c ∷ s) h = ground (arith, split_free sep s)

pub split-append :
    (sep : ℕ) (s t : Str) → contains_char sep s ≡ false → split sep (s ++ sep ∷ t) ≡ s ∷ split sep t
unfolding split contains_char
split-append sep [] t h = ground arith
split-append sep (c ∷ s) t h = ground (arith, split-append sep s t)

-- A single part is its own name, also with a slash behind it.
pub name-part :
    (s : Str)
    → contains_char b'/' s ≡ false
    → is_part s ≡ true
    → (name s ≡ s) × (name (s ++ b'/' ∷ []) ≡ s)
unfolding name last_part
name-part s h p =
    (rw (split_free b'/' s h) (rw p), rw (split-append b'/' s [] h) (unfold split in rw p))

pub name-name : (s : Str) → name (name s) ≡ name s
name-name s = elim (name-Named s) [
  | inl e ↦ rw e (unfold name split in refl)
  | inr p ↦ (name-part (name s) (name-free s) p).0
]

pub suffix-name : (s : Str) → suffix (name s) ≡ suffix s
unfolding suffix
suffix-name s = rw (name-name s)

-- What stands behind the last slash is the name, if it is a part.
pub name-append :
    (s t : Str)
    → contains_char b'/' s ≡ false
    → contains_char b'/' t ≡ false
    → is_part t ≡ true
    → name (s ++ b'/' ∷ t) ≡ t
unfolding name last_part
name-append s t h k p = rw (split-append b'/' s t h, split_free b'/' t k) (rw p)

path_tests :
    (name (codes "a/b/../c.txt/.") ≡ codes "c.txt")
    × (name (codes "..") ≡ codes "..")
    × (name (codes "/") ≡ [])
    × (normal (codes "a//b/./c/") ≡ codes "a/b/c")
    × (normal (codes "///x") ≡ codes "/x")
    × (suffix (codes "dir/x.tar.GZ") ≡ codes ".GZ")
    × (suffix (codes ".pdf") ≡ [])
    × (suffix (codes "x.") ≡ [])
unfolding name suffix split contains_char after_last normal starts_with
path_tests = (refl, refl, refl, refl, refl, refl, refl, refl)
