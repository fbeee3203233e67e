-- ===== src/Api/Convert/Protocol.antt =====
-- The order of what one request of docsifer/api/v1/convert.py does, on every path.
use docsifer.Prelude.{
  refl, ◌∙◌, not, Option, none, some, List, [], ◌∷◌, ◌++◌, Str, str_eq, ==_refl, Bool-cases,
  Option-cases, inl, inr,
}
use docsifer.Prelude.Text.{codes}
use docsifer.Api.Upload.{or_empty, stream_to_disk, check_extension, safe_filename}
use docsifer.Api.Schemas.{default_openai, default_http, default_settings}
use docsifer.Safety.ResourceGuard.{check}
use docsifer.Core.UrlGuard.{validate_url}
use docsifer.Config.{Settings}
use docsifer.Api.Convert.{
  World, Request, Upload, Job, Source, path, link, enter_ip, leave_ip, enter_gate, leave_gate,
  close_upload, make_dir, remove_dir, Run, open_upload, write_upload, save, run_job, convert_upload,
  convert_url, convert_either, convert_source, within_gate, within_limits, convert_document,
  ConvertResult, admitted, turned_away, gone, Turn, missing, job_of, respond_with, parse_json_form,
}
use docsifer.Api.Convert.Brackets.{
  Held, ip_slot, gate_slot, temp_dir, allow_all, allow_all-append, Keeps, Keeps-pure, Keeps-then_do,
  Keeps-bracket, Keeps-sequence,
}

module _ (settings : Settings) (w : World) where
  -- In the request's own directory.
  abbrev in_dir : Str → Str → List Held
  in_dir d ip = temp_dir d ∷ gate_slot ∷ ip_slot ip ∷ []

  abbrev in_gate : Str → List Held
  in_gate ip = gate_slot ∷ ip_slot ip ∷ []

  write_upload-Keeps :
      (d ip name body : Str) → Keeps (in_dir d ip) (write_upload settings w d name body)
  unfolding write_upload allow_all
  write_upload-Keeps d ip name body = elim (Option-cases (open_upload w.open_error name)) [
    | inr (e, h) ↦ rw (h, write_upload) (record { back = refl })
    | inl h ↦ elim (Option-cases (stream_to_disk settings.max_upload_bytes body)) [
      | inl g ↦ rw (h, g, write_upload) (record { back = refl })
      | inr ((result, written), g) ↦ rw (h, g, write_upload) (record { back = refl })
    ]
  ]

  save-Keeps : (d ip name body : Str) → Keeps (in_dir d ip) (save settings w d name body)
  unfolding save allow_all
  save-Keeps d ip name body = record {
    back =
        allow_all-append (write_upload settings w d name body).0 (close_upload ∷ []) (in_dir d ip)
        ∙ rw (write_upload-Keeps d ip name body).back refl;
  }

  run_job-Keeps : (d ip : Str) (job : Job) → Keeps (in_dir d ip) (run_job settings w job)
  unfolding run_job allow_all
  run_job-Keeps d ip job = record { back = refl }

  run_job-Keeps_gate : (ip : Str) (job : Job) → Keeps (in_gate ip) (run_job settings w job)
  unfolding run_job allow_all
  run_job-Keeps_gate ip job = record { back = refl }

  convert_upload-Keeps :
      (ip : Str) (file : Upload) (job : Source → Job)
      → Keeps (in_gate ip) (convert_upload settings w file job)
  unfolding convert_upload
  convert_upload-Keeps ip file job =
      let name = safe_filename w.token file.filename in
      Keeps-then_do {A = Unit {0}} (in_gate ip) (check w.guard 0 w.before) _ λ _ _.
        Keeps-then_do {A = Unit {0}} (in_gate ip)
          (check_extension (or_empty file.filename) settings.allowed_extensions) _
          λ _ _. Keeps-then_do (in_gate ip) w.mkdtemp _ λ d _.
            Keeps-bracket (in_gate ip) (in_dir d ip) (make_dir d) (remove_dir d) _ refl
              (rw (==_refl d) refl)
              (Keeps-sequence (in_dir d ip) (save settings w d name file.body) _
                (save-Keeps d ip name file.body)
                λ size.
                  Keeps-then_do {A = Unit {0}} (in_dir d ip) (check w.guard size w.after) _
                    λ _ _. run_job-Keeps d ip (job (path (d ++ b'/' ∷ name))))

  convert_url-Keeps :
      (ip url : Str) (job : Source → Job) → Keeps (in_gate ip) (convert_url settings w url job)
  unfolding convert_url
  convert_url-Keeps ip url job =
      Keeps-then_do (in_gate ip)
        (validate_url w.net url (some settings.url_allowed_schemes)
          settings.url_allow_private_networks)
        _
        λ u _.
          Keeps-then_do {A = Unit {0}} (in_gate ip) (check w.guard 0 w.before) _
            λ _ _. run_job-Keeps_gate ip (job (link u))

  convert_either-Keeps :
      (ip : Str) (file : Option Upload) (url : Str) (job : Source → Job)
      → Keeps (in_gate ip) (convert_either settings w file url job)
  convert_either-Keeps ip (some file) url job = convert_upload-Keeps ip file job
  convert_either-Keeps ip none url job = convert_url-Keeps ip url job

  convert_source-Keeps :
      (ip : Str) (r : Request) (job : Source → Job)
      → Keeps (in_gate ip) (convert_source settings w r job)
  unfolding convert_source
  convert_source-Keeps ip r job = convert_either-Keeps ip r.file (or_empty r.url) job

  within_gate-Keeps :
      (ip : Str) (turn : Turn) (body : Run ConvertResult)
      → Keeps (in_gate ip) body
      → Keeps (ip_slot ip ∷ []) (within_gate settings w turn body)
  within_gate-Keeps ip turned_away body k = Keeps-pure _ _
  within_gate-Keeps ip gone body k = Keeps-pure _ _
  within_gate-Keeps ip admitted body k =
      Keeps-bracket (ip_slot ip ∷ []) (in_gate ip) enter_gate leave_gate body refl refl k

  within_limits-Keeps :
      (ip : Str) (body : Run ConvertResult)
      → Keeps (in_gate ip) body
      → Keeps [] (within_limits settings w ip body)
  unfolding within_limits
  within_limits-Keeps ip body k = elim (Bool-cases (not w.ip_admits)) [
    | inl e ↦ rw (e, within_limits) (Keeps-pure [] _)
    | inr e ↦
        rw (e, within_limits)
          (Keeps-bracket [] (ip_slot ip ∷ []) (enter_ip ip) (leave_ip ip) _ refl
            (rw (==_refl ip) refl) (within_gate-Keeps ip w.turn body k))
  ]

  respond_with-Keeps : (c : ConvertResult) → Keeps [] (respond_with settings w c)
  unfolding allow_all
  respond_with-Keeps c = record { back = refl }

  -- What a request does follows the protocol on every path, whatever the world answers: the
  -- gate is entered only with a slot of the client, a directory is made, written and converted
  -- from only with a slot of the gate, the access is counted with nothing held, everything
  -- taken is given back in the opposite order, and nothing is held when the request ends.
  pub convert_document-Keeps : (r : Request) → Keeps [] (convert_document settings w r)
  unfolding convert_document
  convert_document-Keeps r = elim (Bool-cases (missing settings w r)) [
    | inl e ↦ rw (e, convert_document) (Keeps-pure [] _)
    | inr e ↦
        rw (e, convert_document)
          (Keeps-then_do []
            (parse_json_form (codes "openai") r.openai default_openai w.parse_openai) _
            λ openai _.
              Keeps-then_do [] (parse_json_form (codes "http") r.http default_http w.parse_http) _
                λ http _.
                  Keeps-then_do []
                    (parse_json_form (codes "settings") r.settings_form default_settings
                      w.parse_settings)
                    _
                    λ convert _.
                      Keeps-sequence [] _ (respond_with settings w)
                        (within_limits-Keeps r.client_ip _ (
                          convert_source-Keeps r.client_ip r
                            (job_of settings w openai http convert)))
                        (respond_with-Keeps))
  ]
