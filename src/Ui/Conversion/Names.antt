-- ===== src/Ui/Conversion/Names.antt =====
-- The files that docsifer/ui/gradio_app.py leaves in `tmp_dir`, and what
-- docsifer/safety/disk_cleanup.py makes of them.
use docsifer.Prelude.{
  ℕ, ◌+◌, ◌≡◌, refl, ◌∙◌, Bool, true, false, some, [], ◌∷◌, ◌++◌, Str, ltb, arith, nat_beq,
  nat_beq_iff, ap, Bool-cases, inl, inr,
}
use docsifer.Prelude.Text.{codes, contains_char, contains_char-append, starts_with}
use docsifer.Safety.DiskCleanup.{unlinks, matches, is_stale_file}
use docsifer.Ui.Forms.{markdown_name, keep, or_document}

keep-free :
    (is_alnum : ℕ → Bool) (s : Str)
    → is_alnum b'/' ≡ false
    → contains_char b'/' (keep is_alnum s) ≡ false
unfolding contains_char
keep-free is_alnum [] h = refl
keep-free is_alnum (c ∷ s) h = elim (Bool-cases (nat_beq c b'/')) [
  | inl e ↦
      let slash = (nat_beq_iff c b'/').0 e in
      let no_letter : is_alnum c ≡ false = ap is_alnum slash ∙ h in
      ground (arith, no_letter, slash, keep-free is_alnum s h)
  | inr e ↦ ground (arith, e, keep-free is_alnum s h)
]

append-free :
    (s t : Str)
    → contains_char b'/' s ≡ false
    → contains_char b'/' t ≡ false
    → contains_char b'/' (s ++ t) ≡ false
append-free s t h k = contains_char-append b'/' s t ∙ ground (arith, h, k)

or_document-free :
    (s : Str) → contains_char b'/' s ≡ false → contains_char b'/' (or_document s) ≡ false
or_document-free [] h = unfold contains_char in refl
or_document-free (c ∷ s) h = h

-- Whatever the uploaded file is called, the result is written to a file directly in `tmp_dir`, if
-- no slash is a letter and the random token has none; and the cleanup removes that file, where it
-- can be removed, exactly if it is older than its limit.
pub markdown_name-swept :
    (is_alnum : ℕ → Bool) (token stem : Str) (now ttl_sec mtime : ℕ)
    → is_alnum b'/' ≡ false
    → contains_char b'/' token ≡ false
    → let name = markdown_name is_alnum token stem in
      (contains_char b'/' name ≡ false)
      × (unlinks now ttl_sec
            (record { name = name; mtime = some mtime; is_file = true; removable = true })
          ≡ ltb (mtime + ttl_sec) now)
unfolding markdown_name
markdown_name-swept is_alnum token stem now ttl_sec mtime h k = (
  append-free (codes "docsifer-") _ (unfold contains_char in refl) (
      append-free (or_document (keep is_alnum stem)) _
        (or_document-free (keep is_alnum stem) (keep-free is_alnum stem h))
        (append-free (codes "-") _ (unfold contains_char in refl)
          (append-free token (codes ".md") k (unfold contains_char in refl)))),
  unfold unlinks matches is_stale_file starts_with in ground arith,
)
