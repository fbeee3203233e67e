-- ===== src/Api/Upload/Names.antt =====
-- Where an upload of docsifer/api/v1/convert.py is written, and which extension it can have there.
use docsifer.Prelude.{
  ℕ, ◌≡◌, refl, ◌⊎◌, ◌∙◌, true, false, Option, some, List, [], ◌∷◌, ◌++◌, Str, str_eq, arith,
}
use docsifer.Prelude.Text.{
  codes, split, strip, lower, is_empty, contains_char, is_space, strip-mark, contains_char-append,
}
use docsifer.Prelude.PathNames.{
  name, suffix, name-free, name-Named, is_part, name-part, name-append, suffix-name,
}
use docsifer.Exceptions.{ok}
use docsifer.Api.Upload.{or_empty, safe_filename, listed, check_extension}

-- A text that can be the last step of a path: no slash, not empty, not a single dot.
pub record IsFileName (s : Str) : Type 0 where
  pub no_slash : contains_char b'/' s ≡ false
  pub part : is_part s ≡ true

generated :
    (token : Str)
    → contains_char b'/' token ≡ false
    → IsFileName (codes "upload-" ++ (token ++ codes ".bin"))
generated token h = record {
  no_slash =
      contains_char-append b'/' (codes "upload-") (token ++ codes ".bin")
      ∙ (unfold contains_char in contains_char-append b'/' token (codes ".bin") ∙ rw h);
  part = refl;
}

-- Whatever file name a client sends, the upload's name has no slash and is neither empty nor a
-- single dot, if the random token has no slash.
pub safe_filename-IsFileName :
    (token : Str) (raw : Option Str)
    → contains_char b'/' token ≡ false
    → IsFileName (safe_filename token raw)
unfolding safe_filename
safe_filename-IsFileName token raw h =
    let s = strip (or_empty raw) in ground (arith, generated token h, name-free s, name-Named s)

-- But two dots come through: the upload would be written to the parent directory itself.
pub safe_filename-dots :
    (token : Str) (raw : Str)
    → name (strip raw) ≡ codes ".."
    → safe_filename token (some raw) ≡ codes ".."
unfolding safe_filename name split
safe_filename-dots token raw h = ground arith

empty_name : (s : Str) → is_empty s ≡ true → is_empty (name s) ≡ true
unfolding name split
empty_name [] h = refl
empty_name (c ∷ s) h = cc

named :
    (token raw : Str)
    → strip raw ≡ raw
    → is_empty (name raw) ≡ false
    → safe_filename token (some raw) ≡ name raw
unfolding safe_filename
named token raw e n = ground (arith, empty_name raw)

empty_text : (s : Str) → is_empty (lower s) ≡ true → s ≡ []
unfolding lower
empty_text [] h = refl
empty_text (c ∷ s) h = cc

-- A name with no white space around it that passes the check is saved with an allowed extension
-- or with none.
pub safe_filename-extension :
    (token raw : Str) (allowed : List Str)
    → strip raw ≡ raw
    → is_empty (name raw) ≡ false
    → check_extension raw allowed ≡ ok tt
    → (suffix (safe_filename token (some raw)) ≡ [])
      ⊎ (listed (lower (suffix (safe_filename token (some raw)))) allowed ≡ true)
unfolding check_extension
safe_filename-extension token raw allowed e n h =
    let saved : safe_filename token (some raw) ≡ name raw = named token raw e n in
    ground (arith, saved, suffix-name raw, empty_text (suffix raw))

-- White space behind a slash defeats the check: for every file name, `name/ ` passes whatever is
-- allowed, and the upload is saved under that name.
pub check_extension-bypassed :
    (token : Str) (c : ℕ) (s : Str) (allowed : List Str)
    → is_space c ≡ false
    → IsFileName (c ∷ s)
    → (check_extension ((c ∷ s) ++ codes "/ ") allowed ≡ ok tt)
      × (safe_filename token (some ((c ∷ s) ++ codes "/ ")) ≡ c ∷ s)
unfolding safe_filename check_extension contains_char lower suffix
check_extension-bypassed token c s allowed h f = (
  rw (name-append (c ∷ s) (codes " ") f.no_slash refl refl) refl,
  rw (strip-mark c s b'/' b' ' h refl refl) (rw (name-part (c ∷ s) f.no_slash f.part).1),
)
