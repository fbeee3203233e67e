-- ===== src/Core/Service/UrlNames.antt =====
-- The file name that docsifer/core/service.py makes up for a URL.
use docsifer.Prelude.{
  ◌≡◌, refl, true, false, ◌∙◌, ◌↔◌, is_some, Option, none, some, [], ◌∷◌, ◌++◌, Str, if◌then◌else◌,
  arith, inl, inr, Bool-cases,
}
use docsifer.Prelude.Text.{
  codes, after_last, after_last-free, contains_char, contains_char-append, is_empty,
}
use docsifer.Exceptions.{ok}
use docsifer.Core.Service.{derive_url_filename, file_name, or_index, or_slash}

-- What is checked of the name: neither empty nor a path of several steps, and with an extension.
pub record HasExtension (s : Str) : Type 0 where
  pub nonempty : is_empty s ≡ false
  pub no_slash : contains_char b'/' s ≡ false
  pub has_dot : contains_char b'.' s ≡ true

append-nonempty : (s t : Str) → is_empty t ≡ false → is_empty (s ++ t) ≡ false
append-nonempty [] t h = h
append-nonempty (c ∷ s) t h = refl

with_extension :
    (s : Str)
    → is_empty s ≡ false
    → contains_char b'/' s ≡ false
    → HasExtension (if contains_char b'.' s then s else s ++ codes ".html")
with_extension s e h = elim (Bool-cases (contains_char b'.' s)) [
  | inl k ↦ rw k (record { nonempty = e; no_slash = h; has_dot = k })
  | inr k ↦ rw k (record {
    nonempty = append-nonempty s (codes ".html") refl;
    no_slash = contains_char-append b'/' s (codes ".html") ∙ rw h (unfold contains_char in refl);
    has_dot = contains_char-append b'.' s (codes ".html") ∙ rw k (unfold contains_char in refl);
  })
]

or_index-nonempty : (s : Str) → is_empty (or_index s) ≡ false
or_index-nonempty [] = refl
or_index-nonempty (c ∷ s) = refl

or_index-free : (s : Str) → contains_char b'/' s ≡ false → contains_char b'/' (or_index s) ≡ false
or_index-free [] h = unfold contains_char in refl
or_index-free (c ∷ s) h = h

-- Whatever a URL is, the file name made up for it is not empty, has no slash, and has a dot; there
-- is one exactly if the URL can be taken apart.
pub derive_url_filename-HasExtension :
    (url_path : Option Str)
    → (is_some url_path ≡ true)
      ↔ ((s : Str) × (derive_url_filename url_path ≡ ok s) × HasExtension s)
unfolding derive_url_filename
derive_url_filename-HasExtension none =
    (λ h. absurd (ground arith), λ x. absurd (ground (arith, x.1)))
derive_url_filename-HasExtension (some p) =
    let last = or_index (after_last b'/' (or_slash p)) in
    (
      λ _. (
        file_name p,
        refl,
        with_extension last (or_index-nonempty _)
            (or_index-free _ (after_last-free b'/' (or_slash p))),
      ),
      λ _. refl,
    )
