-- ===== src/Api/Convert.antt =====
-- `convert_document` of docsifer/api/v1/convert.py: one request, as the list of what it does to the
-- world in order. What the world answers (the two limits, the host, the upload, the converter) is a
-- parameter, and so are pydantic's JSON models.
pub mod Brackets
pub mod Protocol
pub mod Saving
pub mod Vetting
pub mod Fetches
pub mod Single
pub mod Answers
use docsifer.Prelude.{
  ℕ, max, Bool, true, false, not, ◌&&◌, Option, none, some, List, [], ◌∷◌, ◌++◌, Str, str_eq, ◌==◌,
  if◌then◌else◌,
}
use docsifer.Prelude.Dict.{Dict}
use docsifer.Prelude.Text.{codes, strip, is_empty}
use docsifer.Exceptions.{
  Result, ok, err, Raised, throw, unexpected, domain, raising, invalid_input, validation,
  queue_full, too_many_requests, text, number,
}
use docsifer.Config.{Settings}
use docsifer.Core.UrlGuard.{Net, validate_url}
pub use docsifer.Core.Service.{ConvertResult, Source, path, link}
use docsifer.Safety.ResourceGuard.{ResourceGuard, Readings, check}
use docsifer.Api.Upload.{or_empty, safe_filename, check_extension, stream_to_disk}
use docsifer.Api.Schemas.{
  OpenAiConfig, HttpConfig, ConvertSettings, default_openai, default_http, default_settings,
  openai_dict, http_dict,
}

-- `model_validate_json`: a value, or the text of its exception.
pub data Parsed (A : Type 0) : Type 0 where
  valid : A → Parsed A
  invalid : Str → Parsed A

unfoldable pub parse_json_form : {A : Type 0} → Str → Option Str → A → (Str → Parsed A) → Result A
parse_json_form name raw default model =
    if is_empty (strip (or_empty raw)) then ok default else elim (model (or_empty raw)) [
      | valid a ↦ ok a
      | invalid e ↦
          throw validation (codes "Invalid JSON in '" ++ (name ++ codes "'"))
            ((codes "field", text name) ∷ (codes "error", text e) ∷ [])
    ]

pub record Upload : Type 0 where
  pub filename : Option Str
  pub body : Str

pub record Request : Type 0 where
  pub file : Option Upload
  pub url : Option Str
  pub openai : Option Str
  pub http : Option Str
  pub settings_form : Option Str
  pub client_ip : Str

-- What `convert_file` is called with.
pub record Job : Type 0 where
  pub source : Source
  pub openai_config : Option (Dict Str Str)
  pub http_config : Option (Dict Str (Dict Str Str))
  pub cleanup_html : Bool

-- How the wait for the gate ends.
pub data Turn : Type 0 where
  admitted turned_away gone : Turn

pub record World : Type 0 where
  pub parse_openai : Str → Parsed OpenAiConfig
  pub parse_http : Str → Parsed HttpConfig
  pub parse_settings : Str → Parsed ConvertSettings
  pub ip_admits : Bool
  pub turn : Turn
  pub net : Net
  pub guard : ResourceGuard
  pub before : Option Readings
  pub after : Option Readings
  pub token : Str
  pub mkdtemp : Result Str
  pub open_error : Str → Option Raised
  pub convert : Job → Result ConvertResult

-- `convert_file` is awaited under `wait_for`: its timeout is one of the ways in which it raises.
pub data Effect : Type 0 where
  enter_ip leave_ip : Str → Effect
  enter_gate leave_gate close_upload : Effect
  make_dir remove_dir : Str → Effect
  write_file : Str → Str → Effect
  convert_file : Job → Effect
  record_access : ℕ → Effect

-- The effects so far, in order, and how the code ended.
abbrev pub Run : Type 0 → Type 0
Run A = List Effect × Result A

abbrev pub after_effects : {A : Type 0} → List Effect → Run A → Run A
after_effects es r = (es ++ r.0, r.1)

-- try: body finally: es
abbrev pub finally : {A : Type 0} → Run A → List Effect → Run A
finally r es = (r.0 ++ es, r.1)

abbrev pub then_do : {A B : Type 0} → Result A → (A → Run B) → Run B
then_do (ok a) f = f a
then_do (err e) f = ([], err e)

-- Two dots name a directory, which cannot be opened for writing.
abbrev pub open_upload : (Str → Option Raised) → Str → Option Raised
open_upload open_error name =
    if name == codes ".."
    then some (unexpected (codes "IsADirectoryError") name)
    else open_error name

module _ (settings : Settings) (w : World) where
  -- The copy to `tmp_root / name`, with its `open`. Fuel never runs out (`stream_to_disk-Copied`).
  unfoldable pub write_upload : Str → Str → Str → Run ℕ
  write_upload tmp_root name body = elim (open_upload w.open_error name) [
    | some e ↦ ([], err e)
    | none ↦ elim (stream_to_disk settings.max_upload_bytes body) [
      | none ↦ ([], err (unexpected [] []))
      | some (result, written) ↦ (write_file (tmp_root ++ b'/' ∷ name) written ∷ [], result)
    ]
  ]

  unfoldable pub save : Str → Str → Str → Run ℕ
  save tmp_root name body = finally (write_upload tmp_root name body) (close_upload ∷ [])

  unfoldable pub run_job : Job → Run ConvertResult
  run_job job = (convert_file job ∷ [], w.convert job)

  abbrev pub sequence : {A B : Type 0} → Run A → (A → Run B) → Run B
  sequence r f = after_effects r.0 (then_do r.1 f)

  unfoldable pub convert_upload : Upload → (Source → Job) → Run ConvertResult
  convert_upload file job = then_do (check w.guard 0 w.before) λ _.
      then_do (check_extension (or_empty file.filename) settings.allowed_extensions) λ _.
        then_do w.mkdtemp λ tmp_root.
          let name = safe_filename w.token file.filename in
          after_effects (make_dir tmp_root ∷ []) (
            finally
              (sequence (save tmp_root name file.body) λ size.
                then_do (check w.guard size w.after)
                  λ _. run_job (job (path (tmp_root ++ b'/' ∷ name))))
              (remove_dir tmp_root ∷ []))

  unfoldable pub convert_url : Str → (Source → Job) → Run ConvertResult
  convert_url url job =
      then_do
        (validate_url w.net url (some settings.url_allowed_schemes)
          settings.url_allow_private_networks)
        λ safe_url. then_do (check w.guard 0 w.before) λ _. run_job (job (link safe_url))

  abbrev pub job_of : OpenAiConfig → HttpConfig → ConvertSettings → Source → Job
  job_of openai http convert source = record {
    source = source;
    openai_config = openai_dict openai;
    http_config = http_dict http;
    cleanup_html = convert.cleanup;
  }

  -- The body of the `async with`.
  abbrev pub convert_either : Option Upload → Str → (Source → Job) → Run ConvertResult
  convert_either (some file) url job = convert_upload file job
  convert_either none url job = convert_url url job

  unfoldable pub convert_source : Request → (Source → Job) → Run ConvertResult
  convert_source r job = convert_either r.file (or_empty r.url) job

  abbrev pub within_gate : Turn → Run ConvertResult → Run ConvertResult
  within_gate turned_away body = (
    [],
    throw queue_full (codes "Conversion queue full")
        ((codes "max_queue", number settings.max_queue_depth) ∷ []),
  )
  within_gate gone body = ([], err (unexpected (codes "CancelledError") []))
  within_gate admitted body = after_effects (enter_gate ∷ []) (finally body (leave_gate ∷ []))

  -- `async with per_ip.acquire(client_ip), gate.acquire():`
  unfoldable pub within_limits : Str → Run ConvertResult → Run ConvertResult
  within_limits ip body =
      if not w.ip_admits
      then (
        [],
        throw too_many_requests (codes "Too many concurrent requests for this client")
            ((codes "max_per_ip", number (max 1 settings.max_per_ip_concurrent)) ∷ []),
      )
      else after_effects (enter_ip ip ∷ []) (finally (within_gate w.turn body) (leave_ip ip ∷ []))

  abbrev pub missing : Request → Bool
  missing r = elim r.file [ some _ ↦ false | none ↦ is_empty (strip (or_empty r.url)) ]

  abbrev pub respond_with : ConvertResult → Run (Str × Str)
  respond_with result =
      (record_access result.token_count ∷ [], ok (result.filename, result.markdown))

  unfoldable pub convert_document : Request → Run (Str × Str)
  convert_document r =
      if missing r
      then ([], throw invalid_input (codes "Provide either 'file' or 'url'.") [])
      else then_do (parse_json_form (codes "openai") r.openai default_openai w.parse_openai)
          λ openai.
            then_do (parse_json_form (codes "http") r.http default_http w.parse_http) λ http.
              then_do
                (parse_json_form (codes "settings") r.settings_form default_settings
                  w.parse_settings)
                λ convert.
                  sequence
                    (within_limits r.client_ip (convert_source r (job_of openai http convert)))
                    respond_with
