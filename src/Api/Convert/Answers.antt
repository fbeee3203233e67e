-- ===== src/Api/Convert/Answers.antt =====
-- Where the answer of a request comes from, and what is counted: docsifer/api/v1/convert.py.
use docsifer.Prelude.{
  ℕ, ◌≡◌, refl, not, Option, none, some, List, [], ◌∷◌, ◌++◌, Str, Bool-cases, Option-cases, inl,
  inr,
}
use docsifer.Prelude.Text.{codes}
use docsifer.Exceptions.{Result, ok, err}
use docsifer.Config.{Settings}
use docsifer.Core.UrlGuard.{validate_url}
use docsifer.Safety.ResourceGuard.{check}
use docsifer.Api.Upload.{or_empty, check_extension, safe_filename, stream_to_disk}
use docsifer.Api.Schemas.{default_openai, default_http, default_settings}
use docsifer.Api.Convert.{
  World, Request, Upload, Job, Source, path, link, Effect, enter_ip, leave_ip, enter_gate,
  leave_gate, close_upload, make_dir, remove_dir, record_access, Run, finally, then_do, sequence,
  open_upload, write_upload, save, run_job, convert_upload, convert_url, convert_either,
  convert_source, within_gate, within_limits, convert_document, ConvertResult, admitted,
  turned_away, gone, Turn, missing, job_of, respond_with, parse_json_form,
}
use docsifer.Api.Convert.Single.{
  conversions, counted, conversions-append, counted-append, IsSingle, Quiet, before-IsSingle,
  finally-IsSingle, then_do-IsSingle, job-IsSingle,
}

module _ (settings : Settings) (w : World) where
  run_job-IsSingle : (job : Job) → IsSingle w (run_job settings w job).0 (run_job settings w job).1
  unfolding run_job
  run_job-IsSingle job = job-IsSingle w job (w.convert job) refl

  write_upload-Quiet : (d name body : Str) → Quiet (write_upload settings w d name body).0
  unfolding write_upload
  write_upload-Quiet d name body = elim (Option-cases (open_upload w.open_error name)) [
    | inr (e, h) ↦ rw (h, write_upload) (record { converts = refl; records = refl })
    | inl h ↦ elim (Option-cases (stream_to_disk settings.max_upload_bytes body)) [
      | inl g ↦ rw (h, g, write_upload) (record { converts = refl; records = refl })
      | inr ((result, written), g) ↦
          rw (h, g, write_upload) (record { converts = refl; records = refl })
    ]
  ]

  save-Quiet : (d name body : Str) → Quiet (save settings w d name body).0
  unfolding save
  save-Quiet d name body =
      let q = write_upload-Quiet d name body in
      let es = (write_upload settings w d name body).0 in
      record {
        converts = rw (conversions-append es (close_upload ∷ []), q.converts) refl;
        records = rw (counted-append es (close_upload ∷ []), q.records) refl;
      }

  convert_upload-IsSingle :
      (file : Upload) (job : Source → Job)
      → IsSingle w (convert_upload settings w file job).0 (convert_upload settings w file job).1
  unfolding convert_upload
  convert_upload-IsSingle file job =
      let name = safe_filename w.token file.filename in
      let quiet = λ (e : Effect) (a : conversions (e ∷ []) ≡ []) (b : counted (e ∷ []) ≡ []).
        let q : Quiet (e ∷ []) = record { converts = a; records = b } in q in
      then_do-IsSingle w {A = Unit {0}} (check w.guard 0 w.before) _ λ _.
        then_do-IsSingle w {A = Unit {0}}
          (check_extension (or_empty file.filename) settings.allowed_extensions) _
          λ _. then_do-IsSingle w w.mkdtemp _ λ d.
            let saved = save settings w d name file.body in
            let rest : ℕ → Run ConvertResult = λ size.
              then_do {A = Unit {0}} (check w.guard size w.after)
                (λ _. run_job settings w (job (path (d ++ b'/' ∷ name)))) in
            let both : Run ConvertResult = sequence settings w saved rest in
            before-IsSingle w (make_dir d ∷ []) (finally both (remove_dir d ∷ []))
              (quiet (make_dir d) refl refl)
              (finally-IsSingle w both (remove_dir d ∷ []) (quiet (remove_dir d) refl refl) (
                before-IsSingle w saved.0 (then_do saved.1 rest) (save-Quiet d name file.body) (
                  then_do-IsSingle w saved.1 rest λ size.
                    then_do-IsSingle w {A = Unit {0}} (check w.guard size w.after) _
                      λ _. run_job-IsSingle (job (path (d ++ b'/' ∷ name))))))

  convert_url-IsSingle :
      (url : Str) (job : Source → Job)
      → IsSingle w (convert_url settings w url job).0 (convert_url settings w url job).1
  unfolding convert_url
  convert_url-IsSingle url job =
      then_do-IsSingle w
        (validate_url w.net url (some settings.url_allowed_schemes)
          settings.url_allow_private_networks)
        _
        λ u.
          then_do-IsSingle w {A = Unit {0}} (check w.guard 0 w.before) _
            λ _. run_job-IsSingle (job (link u))

  convert_source-IsSingle :
      (r : Request) (job : Source → Job)
      → IsSingle w (convert_source settings w r job).0 (convert_source settings w r job).1
  unfolding convert_source
  convert_source-IsSingle r job = of_either r.file
    where
      of_either :
          (file : Option Upload)
          → IsSingle w
              (convert_either settings w file (or_empty r.url) job).0
              (convert_either settings w file (or_empty r.url) job).1
      of_either (some file) = convert_upload-IsSingle file job
      of_either none = convert_url-IsSingle (or_empty r.url) job

  within_gate-IsSingle :
      (turn : Turn) (body : Run ConvertResult)
      → IsSingle w body.0 body.1
      → IsSingle w (within_gate settings w turn body).0 (within_gate settings w turn body).1
  within_gate-IsSingle turned_away body k = refl
  within_gate-IsSingle gone body k = refl
  within_gate-IsSingle admitted body k =
      before-IsSingle w (enter_gate ∷ []) (finally body (leave_gate ∷ []))
        (record { converts = refl; records = refl })
        (finally-IsSingle w body (leave_gate ∷ []) (record { converts = refl; records = refl }) k)

  within_limits-IsSingle :
      (ip : Str) (body : Run ConvertResult)
      → IsSingle w body.0 body.1
      → IsSingle w (within_limits settings w ip body).0 (within_limits settings w ip body).1
  unfolding within_limits
  within_limits-IsSingle ip body k = elim (Bool-cases (not w.ip_admits)) [
    | inl e ↦ rw (e, within_limits) refl
    | inr e ↦
        rw (e, within_limits)
          (before-IsSingle w (enter_ip ip ∷ [])
            (finally (within_gate settings w w.turn body) (leave_ip ip ∷ []))
            (record { converts = refl; records = refl })
            (finally-IsSingle w (within_gate settings w w.turn body) (leave_ip ip ∷ [])
              (record { converts = refl; records = refl }) (within_gate-IsSingle w.turn body k)))
  ]

-- What an answer shows of the effects before it.
abbrev pub IsAnswered : World → List Effect → Result (Str × Str) → Type 0
IsAnswered w es (ok (filename, markdown)) =
    (c : ConvertResult) × (job : Job) × (conversions es ≡ job ∷ [])
    × (w.convert job ≡ ok c)
    × (counted es ≡ c.token_count ∷ [])
    × (filename ≡ c.filename)
    × (markdown ≡ c.markdown)
IsAnswered w es (err e) = counted es ≡ []

module _ (settings : Settings) (w : World) where
  respond-IsAnswered :
      (r : Run ConvertResult)
      → IsSingle w r.0 r.1
      → let q = sequence settings w r (respond_with settings w) in IsAnswered w q.0 q.1
  respond-IsAnswered (es, ok c) (n, one) = (
    c,
    one.job,
    rw (conversions-append es (record_access c.token_count ∷ []), one.only) refl,
    one.gave,
    rw (counted-append es (record_access c.token_count ∷ []), n) refl,
    refl,
    refl,
  )
  respond-IsAnswered (es, err e) n = rw (counted-append es [], n) refl

  then_do-IsAnswered :
      {A : Type 0} (r : Result A) (f : A → Run (Str × Str))
      → ((a : A) → IsAnswered w (f a).0 (f a).1)
      → IsAnswered w (then_do r f).0 (then_do r f).1
  then_do-IsAnswered (ok a) f k = k a
  then_do-IsAnswered (err e) f k = refl

  -- Whatever a request sends and the world answers, a request that is answered with a result has
  -- run exactly one conversion, whose result it is, and its tokens are recorded exactly once; a
  -- request that raises records nothing.
  pub convert_document-IsAnswered :
      (r : Request)
      → IsAnswered w (convert_document settings w r).0 (convert_document settings w r).1
  unfolding convert_document
  convert_document-IsAnswered r = elim (Bool-cases (missing settings w r)) [
    | inl e ↦ rw (e, convert_document) refl
    | inr e ↦
        rw (e, convert_document)
          (then_do-IsAnswered
            (parse_json_form (codes "openai") r.openai default_openai w.parse_openai) _
            λ openai.
              then_do-IsAnswered (parse_json_form (codes "http") r.http default_http w.parse_http) _
                λ http.
                  then_do-IsAnswered
                    (parse_json_form (codes "settings") r.settings_form default_settings
                      w.parse_settings)
                    _
                    λ convert.
                      respond-IsAnswered
                        (within_limits settings w r.client_ip
                          (convert_source settings w r (job_of settings w openai http convert)))
                        (within_limits-IsSingle settings w r.client_ip
                          (convert_source settings w r (job_of settings w openai http convert))
                          (convert_source-IsSingle settings w r
                            (job_of settings w openai http convert))))
  ]
