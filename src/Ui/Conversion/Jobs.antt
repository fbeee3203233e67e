-- ===== src/Ui/Conversion/Jobs.antt =====
-- The directory of a conversion of docsifer/ui/gradio_app.py, and what is converted in it.
use docsifer.Prelude.{
  ◌≡◌, refl, inl, inr, true, false, some, List, [], ◌∷◌, ◌++◌, Str, All, Bool-cases, Option-cases,
}
use docsifer.Prelude.Text.{codes, strip}
use docsifer.Prelude.PathNames.{name}
use docsifer.Exceptions.{Result, ok, err}
use docsifer.Core.Service.{ConvertResult, Source, path, link}
use docsifer.Api.Convert.{Job}
use docsifer.Ui.Forms.{markdown_name, or_empty, parse_cookies, Cookies, cookies, refused}
use docsifer.Ui.Conversion.{
  Form, Awaited, finished, timed_out, failed, World, Effect, make_dir, remove_dir, copy_file,
  convert_file, record_access, write_file, Run, publish, outcome, attempt, stem, convert_staged,
  within_dir, job_of, managed, is_blank, is_given, run_conversion,
}

-- What a job converts: the copy of the file that was sent, in the directory, or the text of the
-- URL as it was typed, where no file was sent.
pub data Sourced (dir : Str) (f : Form) : Source → Type 0 where
  staged :
      is_given f.file_path ≡ true → Sourced dir f (path (dir ++ b'/' ∷ name (or_empty f.file_path)))
  typed : is_given f.file_path ≡ false → Sourced dir f (link (strip (or_empty f.url_str)))

-- What is done between the making of the directory and its removal.
abbrev pub IsInner : Str → Form → Effect → Type 0
IsInner dir f (make_dir d) = true ≡ false
IsInner dir f (remove_dir d) = true ≡ false
IsInner dir f (copy_file a b) = b ≡ dir ++ b'/' ∷ name (or_empty f.file_path)
IsInner dir f (convert_file job) = Sourced dir f job.source
IsInner dir f (record_access n) = Unit
IsInner dir f (write_file p t) = Unit

-- Nothing is done, or a directory is made first and removed last.
pub data IsManaged (w : World) (f : Form) : List Effect → Type 0 where
  nothing : IsManaged w f []
  in_dir :
      (d : Str) (es : List Effect)
      → w.mkdtemp ≡ ok d
      → All (IsInner d f) es
      → IsManaged w f (make_dir d ∷ (es ++ remove_dir d ∷ []))

module _ (w : World) (f : Form) (dir : Str) where
  publish-IsInner :
      (stem : Str) (result : ConvertResult) → All (IsInner dir f) (publish w stem result).0
  unfolding publish
  publish-IsInner stem result =
      elim (Option-cases
        (w.write_text (w.tmp_dir ++ b'/' ∷ markdown_name w.is_alnum w.token stem))) [
          | inl e ↦ rw (e, publish) (tt, (tt, tt))
          | inr (x, e) ↦ rw (e, publish) (tt, tt)
        ]

  outcome-IsInner : (stem : Str) (a : Awaited) → All (IsInner dir f) (outcome w stem a).0
  unfolding outcome
  outcome-IsInner stem (finished result) = publish-IsInner stem result
  outcome-IsInner stem timed_out = tt
  outcome-IsInner stem (failed e) = tt

  attempt-IsInner :
      (stem : Str) (job : Job)
      → Sourced dir f job.source
      → All (IsInner dir f) (attempt w stem job).0
  unfolding attempt
  attempt-IsInner stem job h = (h, outcome-IsInner stem (w.convert job))

  module _ (job : Source → Job) (keeps_source : (s : Source) → (job s).source ≡ s) where
    convert_staged-IsInner :
        is_given f.file_path ≡ true
        → All (IsInner dir f) (convert_staged w dir (or_empty f.file_path) job).0
    unfolding convert_staged
    convert_staged-IsInner h =
        let src = or_empty f.file_path in
        let target = dir ++ b'/' ∷ name src in
        elim (Option-cases (w.copyfile src target)) [
          | inl e ↦
              rw (e, convert_staged)
                (
                  refl,
                  attempt-IsInner (stem src) (job (path target))
                      (rw (keeps_source (path target)) (staged h)),
                )
          | inr (x, e) ↦ rw (e, convert_staged) (refl, tt)
        ]

    within_dir-IsInner : All (IsInner dir f) (within_dir w dir f job).0
    unfolding within_dir
    within_dir-IsInner = elim (Bool-cases (is_given f.file_path)) [
      | inl h ↦ rw (h, within_dir) (convert_staged-IsInner h)
      | inr h ↦
          let typed_url = link (strip (or_empty f.url_str)) in
          rw (h, within_dir)
            (attempt-IsInner (codes "url") (job typed_url) (rw (keeps_source typed_url) (typed h)))
    ]

managed-IsManaged :
    (w : World) (f : Form) (r : Result Str) (body : Str → Run)
    → w.mkdtemp ≡ r
    → ((d : Str) → All (IsInner d f) (body d).0)
    → IsManaged w f (managed r body).0
managed-IsManaged w f (err e) body h k = nothing
managed-IsManaged w f (ok d) body h k = in_dir d (body d).0 h (k d)

read-IsManaged :
    (w : World) (f : Form) (c : Cookies)
    → parse_cookies w.loads (some f.http_cookies) ≡ c
    → is_blank f ≡ false
    → IsManaged w f (run_conversion w f).0
unfolding run_conversion
read-IsManaged w f (refused e) h b = rw (b, h, run_conversion) nothing
read-IsManaged w f (cookies c) h b =
    rw (b, h, run_conversion)
      (managed-IsManaged w f w.mkdtemp (λ dir. within_dir w dir f (job_of f c)) refl
        λ d. within_dir-IsInner w f d (job_of f c) (λ s. refl))

-- However a conversion of the UI ends, it does nothing, or it makes one directory first and removes
-- it last; in between a file is copied only into that directory under its own name, and what is
-- converted is that copy, or the URL as it was typed, where no file was sent.
pub run_conversion-IsManaged : (w : World) (f : Form) → IsManaged w f (run_conversion w f).0
unfolding run_conversion
run_conversion-IsManaged w f = elim (Bool-cases (is_blank f)) [
  | inl b ↦ rw (b, run_conversion) nothing
  | inr b ↦ read-IsManaged w f (parse_cookies w.loads (some f.http_cookies)) refl b
]
