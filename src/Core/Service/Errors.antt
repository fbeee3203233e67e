-- ===== src/Core/Service/Errors.antt =====
-- What docsifer/core/service.py raises.
use docsifer.Prelude.{
  ◌≡◌, refl, inl, inr, Bool, true, false, ◌||◌, ◌&&◌, Option, none, some, List, [], ◌∷◌, ◌++◌, Str,
  str_eq, ◌==◌, Option-cases, Bool-cases,
}
use docsifer.Prelude.Dict
use docsifer.Prelude.Dict.{Dict}
use docsifer.Prelude.Text.{codes, lower, is_empty}
use docsifer.Prelude.PathNames.{name, suffix, normal}
use docsifer.Exceptions.{Result, ok, err, domain, http_exception, request_validation, unexpected}
use docsifer.Core.UrlGuard.{one_of}
use docsifer.Core.Mime.{
  Disk, Sniffer, rename, move_to, with_suffix, normalize_extension, read_bytes, detect_mime,
  guess_extension, ext_or,
}
use docsifer.Core.Service.{
  Tools, Converter, Outcome, raises, returns, failed, finish, derive_url_filename, Source, path,
  link, is_url, convert_url_text,
}
use docsifer.Core.Service.Local.{
  convert_cleaned, convert_html_streaming, convert_normalized, convert_path,
}
use docsifer.Core.Service.Dispatch.{convert_sync}

-- A result, or an exception of one of four classes of Python's own.
abbrev pub Plain {ℓ} : {A : Type ℓ} → Result A → Type 0
Plain (ok a) = Unit
Plain (err (unexpected n t)) =
    one_of n
      (codes "RuntimeError" ∷ codes "FileNotFoundError" ∷ codes "OSError" ∷ codes "ValueError" ∷ [])
    ≡ true
Plain (err (domain e)) = true ≡ false
Plain (err (http_exception s d)) = true ≡ false
Plain (err (request_validation t)) = true ≡ false

derive_url_filename-Plain : (p : Option Str) → Plain (derive_url_filename p)
unfolding derive_url_filename one_of
derive_url_filename-Plain none = refl
derive_url_filename-Plain (some p) = tt

finish-Plain :
    (tools : Tools) (fail : Str) (r : Result Str) (o : Outcome)
    → Plain r
    → Plain (finish tools fail r o)
unfolding finish one_of
finish-Plain tools fail r (raises e) h = refl
finish-Plain tools fail (ok f) (returns c) h = tt
finish-Plain tools fail (err (unexpected n t)) (returns c) h = h
finish-Plain tools fail (err (domain e)) (returns c) h = h
finish-Plain tools fail (err (http_exception e d)) (returns c) h = h
finish-Plain tools fail (err (request_validation t)) (returns c) h = h

move_to-Plain : (p : Str) (q : Option Str) (d : Disk) → Plain (move_to p q d).1
unfolding move_to one_of
move_to-Plain p none d = refl
move_to-Plain p (some q) d = elim (Option-cases (rename p q d)) [
  | inl e ↦ rw (e, move_to) tt
  | inr (t, e) ↦ rw (e, move_to) tt
]

normalize_extension-Plain :
    (s : Sniffer) (known : List Str) (p : Str) (d : Disk)
    → Plain (normalize_extension s known p d).1
unfolding normalize_extension
normalize_extension-Plain s known p d =
    let old = lower (suffix p) in
    let ext = ext_or (guess_extension s (detect_mime s p d)) in
    elim (Bool-cases (one_of old known)) [
      | inl e ↦ rw (e, normalize_extension) tt
      | inr e ↦ elim (Bool-cases (is_empty ext || lower ext == old)) [
        | inl k ↦ rw (e, k, normalize_extension) tt
        | inr k ↦ rw (e, k, normalize_extension) (move_to-Plain p (with_suffix p ext) d)
      ]
    ]

module _ (tools : Tools) (md : Converter) where
  named-Plain : (q : Str) (o : Outcome) → Plain (finish tools (failed (name q)) (ok (name q)) o)
  named-Plain q o = finish-Plain tools (failed (name q)) (ok (name q)) o tt

  html-Plain : (q ext : Str) (disk : Disk) → Plain (convert_html_streaming tools q md ext disk).2
  unfolding convert_html_streaming convert_cleaned one_of
  html-Plain q ext disk = elim (Option-cases (read_bytes q disk)) [
    | inl e ↦ rw (e, convert_html_streaming) refl
    | inr (b, e) ↦ elim (Option-cases md.convert_stream) [
      | inl k ↦ rw (e, k, convert_html_streaming, convert_cleaned) (named-Plain q _)
      | inr (f, k) ↦ rw (e, k, convert_html_streaming, convert_cleaned) (named-Plain q _)
    ]
  ]

  convert_normalized-Plain :
      (r : Result Str) (cleanup : Bool) (disk : Disk)
      → Plain r
      → Plain (convert_normalized tools r md cleanup disk).2
  unfolding convert_normalized
  convert_normalized-Plain (err (unexpected n t)) cleanup disk h = h
  convert_normalized-Plain (err (domain e)) cleanup disk h = h
  convert_normalized-Plain (err (http_exception e d)) cleanup disk h = h
  convert_normalized-Plain (err (request_validation t)) cleanup disk h = h
  convert_normalized-Plain (ok q) cleanup disk h =
      let ext = lower (suffix q) in
      elim (Bool-cases (cleanup && (ext == codes ".html" || ext == codes ".htm"))) [
        | inl e ↦ rw (e, convert_normalized) (html-Plain q ext disk)
        | inr e ↦ rw (e, convert_normalized) (named-Plain q _)
      ]

  convert_path-Plain :
      (p : Str) (cleanup : Bool) (disk : Disk) → Plain (convert_path tools p md cleanup disk).2
  unfolding convert_path one_of
  convert_path-Plain p cleanup disk = elim (Option-cases (Dict.get p disk.files)) [
    | inl e ↦ rw (e, convert_path) refl
    | inr (b, e) ↦
        rw (e, convert_path)
          (convert_normalized-Plain
            (normalize_extension tools.sniffer tools.known_extensions p disk).1 cleanup _
            (normalize_extension-Plain tools.sniffer tools.known_extensions p disk))
  ]

  -- Whatever the source, the disk and the answers of markitdown are, `_convert_sync` gives a result
  -- or raises one of `RuntimeError`, `FileNotFoundError`, `OSError` and `ValueError`: none of the
  -- application's own error classes.
  pub convert_sync-Plain :
      (source : Source) (http_config : Option (Dict Str (Dict Str Str))) (cleanup : Bool)
      (disk : Disk)
      → Plain (convert_sync tools source md http_config cleanup disk).2
  unfolding convert_sync convert_url_text
  convert_sync-Plain (path p) http_config cleanup disk = convert_path-Plain p cleanup disk
  convert_sync-Plain (link s) http_config cleanup disk = elim (Bool-cases (is_url (link s))) [
    | inl e ↦
        rw (e, convert_sync)
          (finish-Plain tools (codes "Conversion failed for URL '" ++ (s ++ codes "': "))
            (derive_url_filename (tools.url_path s)) _
            (derive_url_filename-Plain (tools.url_path s)))
    | inr e ↦ rw (e, convert_sync) (convert_path-Plain (normal s) cleanup disk)
  ]
