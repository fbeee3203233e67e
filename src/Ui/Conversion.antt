-- ===== src/Ui/Conversion.antt =====
-- `_run_conversion` of docsifer/ui/gradio_app.py: what it does to the world in order, and what the
-- form shows, or the exception that is left. The converter is a parameter, as are the directory
-- that `mkdtemp` makes, the copy, the write of the result, and the summary of a result.
pub mod Jobs
pub mod Names
pub mod Unchecked
use docsifer.Prelude.{
  ℕ, Bool, true, false, not, ◌&&◌, Option, none, some, List, [], ◌∷◌, ◌++◌, Str, if◌then◌else◌,
  length, ◌-◌,
}
use docsifer.Prelude.Dict.{Dict}
use docsifer.Prelude.Text.{codes, strip, is_empty, decimal}
use docsifer.Prelude.PathNames.{name, suffix}
use docsifer.Exceptions.{Result, ok, err, Raised}
use docsifer.Core.Mime.{take}
use docsifer.Core.Service.{ConvertResult, Source, path, link}
use docsifer.Api.Convert.{Job}
use docsifer.Ui.Forms.{
  or_empty, build_openai_dict, parse_cookies, Cookies, cookies, refused, markdown_name, status,
  warn, error, done,
}

pub record Form : Type 0 where
  pub file_path : Option Str
  pub url_str : Option Str
  pub base_url : Str
  pub api_key : Str
  pub model_id : Str
  pub cleanup : Bool
  pub http_cookies : Str

-- How the wait for `convert_file` ends: an exception is given by its text.
pub data Awaited : Type 0 where
  finished : ConvertResult → Awaited
  timed_out : Awaited
  failed : Str → Awaited

pub record World : Type 0 where
  pub loads : Str → Cookies
  pub mkdtemp : Result Str
  pub copyfile : Str → Str → Option Raised
  pub convert : Job → Awaited
  pub write_text : Str → Option Raised
  pub is_alnum : ℕ → Bool
  pub token : Str
  pub tmp_dir : Str
  pub timeout : ℕ
  pub summary : ConvertResult → Str

pub data Effect : Type 0 where
  make_dir remove_dir : Str → Effect
  copy_file : Str → Str → Effect
  convert_file : Job → Effect
  record_access : ℕ → Effect
  write_file : Str → Str → Effect

-- The Markdown, the path of its file, and the status.
pub record Shown : Type 0 where
  pub markdown : Str
  pub file : Option Str
  pub message : Str

abbrev pub Run : Type 0
Run = List Effect × Result Shown

abbrev pub after : List Effect → Run → Run
after es r = (es ++ r.0, r.1)

abbrev only : Str → Run
only message = ([], ok (record { markdown = []; file = none; message = message }))

-- Path(s).stem
unfoldable pub stem : Str → Str
stem s = take (length (name s) - length (suffix s)) (name s)

unfoldable pub http_config : Option (Dict Str Str) → Option (Dict Str (Dict Str Str))
http_config none = none
http_config (some []) = none
http_config (some (c ∷ d)) = some ((codes "cookies", c ∷ d) ∷ [])

abbrev pub is_given : Option Str → Bool
is_given none = false
is_given (some s) = not (is_empty s)

abbrev pub job_of : Form → Option (Dict Str Str) → Source → Job
job_of f c source = record {
  source = source;
  openai_config = build_openai_dict (some f.base_url) (some f.api_key) (some f.model_id);
  http_config = http_config c;
  cleanup_html = f.cleanup;
}

-- try: ... finally: shutil.rmtree(managed_dir)
abbrev pub managed : Result Str → (Str → Run) → Run
managed (err e) body = ([], err e)
managed (ok dir) body = (make_dir dir ∷ ((body dir).0 ++ remove_dir dir ∷ []), (body dir).1)

abbrev pub is_blank : Form → Bool
is_blank f = not (is_given f.file_path) && is_empty (strip (or_empty f.url_str))

module _ (w : World) where
  -- What follows a result.
  unfoldable pub publish : Str → ConvertResult → Run
  unfolding markdown_name status
  publish stem result =
      let file = w.tmp_dir ++ b'/' ∷ markdown_name w.is_alnum w.token stem in
      after (record_access result.token_count ∷ []) (elim (w.write_text file) [
        | some e ↦ ([], err e)
        | none ↦ (
          write_file file result.markdown ∷ [],
          ok (record {
            markdown = result.markdown;
            file = some file;
            message = status (w.summary result) done;
          }),
        )
      ])

  -- What the wait for the result ended with.
  unfoldable pub outcome : Str → Awaited → Run
  unfolding publish status
  outcome stem (finished result) = publish stem result
  outcome stem timed_out = only (
      status
        (codes "Conversion timed out after "
          ++ (decimal w.timeout ++ codes "s. Try a smaller file."))
        error)
  outcome stem (failed e) = only (status (codes "Conversion failed: " ++ e) error)

  unfoldable pub attempt : Str → Job → Run
  unfolding outcome
  attempt stem job = after (convert_file job ∷ []) (outcome stem (w.convert job))

  -- The upload, copied into the directory.
  unfoldable pub convert_staged : Str → Str → (Source → Job) → Run
  unfolding attempt stem
  convert_staged managed_dir src job =
      let staged = managed_dir ++ b'/' ∷ name src in
      after (copy_file src staged ∷ []) (elim (w.copyfile src staged) [
        | some e ↦ ([], err e)
        | none ↦ attempt (stem src) (job (path staged))
      ])

  unfoldable pub within_dir : Str → Form → (Source → Job) → Run
  unfolding convert_staged attempt
  within_dir managed_dir f job =
      if is_given f.file_path
      then convert_staged managed_dir (or_empty f.file_path) job
      else attempt (codes "url") (job (link (strip (or_empty f.url_str))))

  unfoldable pub run_conversion : Form → Run
  unfolding within_dir parse_cookies build_openai_dict http_config status
  run_conversion f =
      if is_blank f
      then only (status (codes "Please provide a file or a URL.") warn)
      else elim (parse_cookies w.loads (some f.http_cookies)) [
        | refused e ↦ only (status e error)
        | cookies c ↦ managed w.mkdtemp λ dir. within_dir dir f (job_of f c)
      ]
