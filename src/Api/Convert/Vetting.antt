-- ===== src/Api/Convert/Vetting.antt =====
-- What docsifer/api/v1/convert.py checks before it converts.
use docsifer.Prelude.{
  ◌≤◌, ◌≡◌, refl, false, str_eq, ◌==◌, sym, subst, not, Option, none, some, List, [], ◌∷◌, ◌++◌,
  Str, Bool-cases, Option-cases, inl, inr, length,
}
use docsifer.Prelude.Text.{codes}
use docsifer.Exceptions.{Result, ok, err}
use docsifer.Api.Upload.{or_empty, stream_to_disk, check_extension, safe_filename}
use docsifer.Api.Schemas.{default_openai, default_http, default_settings}
use docsifer.Safety.ResourceGuard.{check}
use docsifer.Core.UrlGuard.{validate_url}
use docsifer.Api.Convert.Saving.{save-whole}
use docsifer.Config.{Settings}
use docsifer.Api.Convert.{
  World, Request, Upload, Job, Source, path, link, Effect, convert_file, write_file, make_dir, Run,
  ConvertResult, Turn, admitted, turned_away, gone, leave_ip, leave_gate, close_upload, remove_dir,
  then_do, sequence, open_upload, write_upload, save, run_job, convert_upload, convert_url,
  convert_either, convert_source, within_gate, within_limits, convert_document, missing, job_of,
  respond_with, parse_json_form,
}

module _ (settings : Settings) (w : World) where
  -- The path of an upload in the directory made for it.
  abbrev pub upload_path : Str → Upload → Str
  upload_path d file = d ++ b'/' ∷ safe_filename w.token file.filename

  -- Why a job may run after what was done before it, the latest first: it is of the URL of the
  -- request, as it was validated, or of its file, whose extension passed, whose whole body was just
  -- written to its path in the directory just made, and whose size the host can take.
  pub data Vetted (r : Request) (past : List Effect) (j : Job) : Type 0 where
    fetched :
        (u : Str)
        → r.file ≡ none
        → validate_url w.net
            (or_empty r.url)
            (some settings.url_allowed_schemes)
            settings.url_allow_private_networks
          ≡ ok u
        → j.source ≡ link u
        → Vetted r past j
    saved :
        (file : Upload) (d : Str) (before : List Effect)
        → r.file ≡ some file
        → check_extension (or_empty file.filename) settings.allowed_extensions ≡ ok tt
        → w.mkdtemp ≡ ok d
        → past ≡ close_upload ∷ write_file (upload_path d file) file.body ∷ make_dir d ∷ before
        → (safe_filename w.token file.filename == codes "..") ≡ false
        → length file.body ≤ settings.max_upload_bytes
        → check w.guard (length file.body) w.after ≡ ok tt
        → j.source ≡ path (upload_path d file)
        → Vetted r past j

  abbrev pub IsVetted : Request → List Effect → Effect → Type 0
  IsVetted r past (convert_file j) = Vetted r past j
  IsVetted r past _ = Unit

  -- Each effect in turn, with those before it.
  abbrev pub VettedFrom : Request → List Effect → List Effect → Type 0
  VettedFrom r past [] = Unit
  VettedFrom r past (e ∷ es) = IsVetted r past e × VettedFrom r (e ∷ past) es

  abbrev pub AllVetted : {A : Type 0} → Request → Run A → Type 0
  AllVetted r run = VettedFrom r [] run.0

  VettedFrom-append :
      (r : Request) (past xs ys : List Effect)
      → VettedFrom r past xs
      → ((p : List Effect) → VettedFrom r p ys)
      → VettedFrom r past (xs ++ ys)
  VettedFrom-append r past [] ys h k = k past
  VettedFrom-append r past (x ∷ xs) ys h k = (h.0, VettedFrom-append r (x ∷ past) xs ys h.1 k)

  then_do-VettedFrom :
      {A B : Type 0} (r : Request) (past : List Effect) (q : Result A) (f : A → Run B)
      → ((a : A) → q ≡ ok a → VettedFrom r past (f a).0)
      → VettedFrom r past (then_do q f).0
  then_do-VettedFrom r past (ok a) f k = k a refl
  then_do-VettedFrom r past (err e) f k = tt

  -- What is done if the first run succeeds is vetted after what that run is known to have done.
  sequence-VettedFrom :
      {A B : Type 0} (r : Request) (past es : List Effect) (q : Run A) (f : A → Run B)
      → VettedFrom r past q.0
      → ((a : A) → q.1 ≡ ok a → (q.0 ≡ es) × VettedFrom r past (es ++ (f a).0))
      → VettedFrom r past (sequence settings w q f).0
  sequence-VettedFrom r past es (done, ok a) f h k =
      subst (λ l. VettedFrom r past (l ++ (f a).0)) (sym (k a refl).0) (k a refl).1
  sequence-VettedFrom r past es (done, err e) f h k = VettedFrom-append r past done [] h (λ p. tt)

  write_upload-VettedFrom :
      (r : Request) (past : List Effect) (d name body : Str)
      → VettedFrom r past (write_upload settings w d name body).0
  unfolding write_upload
  write_upload-VettedFrom r past d name body = elim (Option-cases (open_upload w.open_error name)) [
    | inr (e, h) ↦ rw (h, write_upload) tt
    | inl h ↦ elim (Option-cases (stream_to_disk settings.max_upload_bytes body)) [
      | inl g ↦ rw (h, g, write_upload) tt
      | inr ((result, written), g) ↦ rw (h, g, write_upload) (tt, tt)
    ]
  ]

  save-VettedFrom :
      (r : Request) (past : List Effect) (d name body : Str)
      → VettedFrom r past (save settings w d name body).0
  unfolding save
  save-VettedFrom r past d name body =
      VettedFrom-append r past (write_upload settings w d name body).0 (close_upload ∷ [])
        (write_upload-VettedFrom r past d name body) (λ p. (tt, tt))

  module _ (r : Request) (job : Source → Job)
      (keeps_source : (s : Source) → (job s).source ≡ s) where
    convert_upload-VettedFrom :
        (past : List Effect) (file : Upload)
        → r.file ≡ some file
        → VettedFrom r past (convert_upload settings w file job).0
    unfolding convert_upload run_job
    convert_upload-VettedFrom past file given =
        let name = safe_filename w.token file.filename in
        then_do-VettedFrom {A = Unit {0}} r past (check w.guard 0 w.before) _ λ _ _.
          then_do-VettedFrom {A = Unit {0}} r past
            (check_extension (or_empty file.filename) settings.allowed_extensions) _
            λ _ extension. then_do-VettedFrom r past w.mkdtemp _ λ d made. (
              tt,
              VettedFrom-append r (make_dir d ∷ past) _ (remove_dir d ∷ [])
                  (sequence-VettedFrom r (make_dir d ∷ past)
                    (write_file (upload_path d file) file.body ∷ close_upload ∷ [])
                    (save settings w d name file.body) _
                    (save-VettedFrom r (make_dir d ∷ past) d name file.body)
                    λ size done.
                      let (effects, length, small, named) =
                        save-whole settings w d name file.body size done in
                      (
                        effects,
                        (
                          tt,
                          (
                            tt,
                            then_do-VettedFrom {A = Unit {0}} r _ (check w.guard size w.after) _
                                λ _ fits. (
                                  saved file d past given extension made refl named
                                      (subst (λ n. n ≤ settings.max_upload_bytes) length small)
                                      (subst (λ n. check w.guard n w.after ≡ ok tt) length fits)
                                      (keeps_source _),
                                  tt,
                                ),
                          ),
                        ),
                      ))
                  (λ p. (tt, tt)),
            )

    convert_url-VettedFrom :
        (past : List Effect)
        → r.file ≡ none
        → VettedFrom r past (convert_url settings w (or_empty r.url) job).0
    unfolding convert_url run_job
    convert_url-VettedFrom past given =
        then_do-VettedFrom r past
          (validate_url w.net (or_empty r.url) (some settings.url_allowed_schemes)
            settings.url_allow_private_networks)
          _
          λ u valid.
            then_do-VettedFrom {A = Unit {0}} r past (check w.guard 0 w.before) _
              λ _ _. (fetched u given valid (keeps_source (link u)), tt)

    convert_either-VettedFrom :
        (past : List Effect) (file : Option Upload)
        → r.file ≡ file
        → VettedFrom r past (convert_either settings w file (or_empty r.url) job).0
    convert_either-VettedFrom past (some file) given = convert_upload-VettedFrom past file given
    convert_either-VettedFrom past none given = convert_url-VettedFrom past given

  within_gate-VettedFrom :
      (r : Request) (past : List Effect) (turn : Turn) (body : Run ConvertResult)
      → ((p : List Effect) → VettedFrom r p body.0)
      → VettedFrom r past (within_gate settings w turn body).0
  within_gate-VettedFrom r past turned_away body k = tt
  within_gate-VettedFrom r past gone body k = tt
  within_gate-VettedFrom r past admitted body k =
      (tt, VettedFrom-append r _ body.0 (leave_gate ∷ []) (k _) (λ p. (tt, tt)))

  within_limits-VettedFrom :
      (r : Request) (ip : Str) (body : Run ConvertResult)
      → ((p : List Effect) → VettedFrom r p body.0)
      → VettedFrom r [] (within_limits settings w ip body).0
  unfolding within_limits
  within_limits-VettedFrom r ip body k = elim (Bool-cases (not w.ip_admits)) [
    | inl e ↦ rw (e, within_limits) tt
    | inr e ↦
        rw (e, within_limits)
          (
            tt,
            VettedFrom-append r _ (within_gate settings w w.turn body).0 (leave_ip ip ∷ [])
                (within_gate-VettedFrom r _ w.turn body k) (λ p. (tt, tt)),
          )
  ]

  -- Whatever a request sends and whatever the world answers, nothing is converted unchecked: each
  -- conversion is of the validated URL, where no file was sent, or of the file that was sent, after
  -- its extension passed and its whole body, of at most `max_upload_bytes`, was written under its
  -- safe name, which is not `..`, in the directory just made, with nothing done in between but closing the upload, and
  -- the host could take its size.
  pub convert_document-AllVetted : (r : Request) → AllVetted r (convert_document settings w r)
  unfolding convert_document convert_source
  convert_document-AllVetted r = elim (Bool-cases (missing settings w r)) [
    | inl e ↦ rw (e, convert_document) tt
    | inr e ↦
        rw (e, convert_document)
          (then_do-VettedFrom r []
            (parse_json_form (codes "openai") r.openai default_openai w.parse_openai) _
            λ openai _.
              then_do-VettedFrom r []
                (parse_json_form (codes "http") r.http default_http w.parse_http) _
                λ http _.
                  then_do-VettedFrom r []
                    (parse_json_form (codes "settings") r.settings_form default_settings
                      w.parse_settings)
                    _
                    λ convert _.
                      let job = job_of settings w openai http convert in
                      VettedFrom-append r [] _ _
                        (within_limits-VettedFrom r r.client_ip _
                          (λ p. convert_either-VettedFrom r job (λ s. refl) p r.file refl))
                        (λ p. then_do-VettedFrom r p _ (respond_with settings w) λ a _. (tt, tt)))
  ]
