-- ===== src/Ui/Conversion/Unchecked.antt =====
-- A URL of the form of docsifer/ui/gradio_app.py that is none, in docsifer/core/service.py.
use docsifer.Prelude.{◌≡◌, refl, true, false, Option, some, List, [], ◌∷◌, Str, arith, str_eq}
use docsifer.Prelude.Dict
use docsifer.Prelude.Text.{codes, strip, lower, is_empty}
use docsifer.Prelude.PathNames.{suffix, normal}
use docsifer.Exceptions.{Result, ok}
use docsifer.Core.UrlGuard.{one_of}
use docsifer.Core.Mime.{Disk, take, normalize_extension}
use docsifer.Core.Service.{Tools, Converter, convert, Source, link, is_url}
use docsifer.Core.Service.Local.{convert_path, convert_normalized}
use docsifer.Core.Service.Dispatch.{convert_sync}
use docsifer.Api.Convert.{Job}
use docsifer.Ui.Forms.{or_empty, parse_cookies, cookies}
use docsifer.Ui.Conversion.{
  Form, World, make_dir, convert_file, within_dir, attempt, outcome, Run, Effect, managed, job_of,
  is_given, is_blank, run_conversion,
}

convert_path-whole :
    (tools : Tools) (md : Converter) (p bytes : Str) (disk : Disk)
    → Dict.get p disk.files ≡ some bytes
    → one_of (lower (suffix p)) tools.known_extensions ≡ true
    → (convert_path tools p md false disk).0 ≡ convert p ∷ []
unfolding convert_path normalize_extension convert_normalized
convert_path-whole tools md p bytes disk h k =
    rw (h, k, convert_path, normalize_extension, convert_normalized) refl

first_effects :
    (r : Result Str) (body : Str → Run) (d : Str) (e : Effect) (es : List Effect)
    → r ≡ ok d
    → (body d).0 ≡ e ∷ es
    → take 2 (managed r body).0 ≡ make_dir d ∷ e ∷ []
first_effects r body d e es h k = rw h (rw k refl)

within_dir-typed :
    (w : World) (f : Form) (d : Str) (job : Source → Job)
    → is_given f.file_path ≡ false
    → (within_dir w d f job).0
      ≡ convert_file (job (link (strip (or_empty f.url_str))))
        ∷ (outcome w (codes "url") (w.convert (job (link (strip (or_empty f.url_str)))))).0
unfolding within_dir attempt
within_dir-typed w f d job h = rw (h, within_dir) refl

run_conversion-managed :
    (w : World) (f : Form) (c : Option (Dict.Dict Str Str))
    → is_blank f ≡ false
    → parse_cookies w.loads (some f.http_cookies) ≡ cookies c
    → run_conversion w f ≡ managed w.mkdtemp (λ dir. within_dir w dir f (job_of f c))
unfolding run_conversion
run_conversion-managed w f c b h = rw (b, h, run_conversion) refl

-- The text that is typed as a URL is not checked: where it starts with neither http:// nor https://
-- and is the path of a file of the server with a known extension, that file is converted, if no
-- file was sent, the cookies can be read, the directory is made and the cleanup is off.
pub run_conversion-reads_file :
    (w : World) (f : Form) (d bytes : Str) (c : Option (Dict.Dict Str Str)) (tools : Tools)
    (md : Converter) (disk : Disk)
    → is_given f.file_path ≡ false
    → is_empty (strip (or_empty f.url_str)) ≡ false
    → parse_cookies w.loads (some f.http_cookies) ≡ cookies c
    → w.mkdtemp ≡ ok d
    → f.cleanup ≡ false
    → is_url (link (strip (or_empty f.url_str))) ≡ false
    → Dict.get (normal (strip (or_empty f.url_str))) disk.files ≡ some bytes
    → one_of (lower (suffix (normal (strip (or_empty f.url_str))))) tools.known_extensions ≡ true
    → (job : Job) × (take 2 (run_conversion w f).0 ≡ make_dir d ∷ convert_file job ∷ [])
      × ((convert_sync tools job.source md job.http_config job.cleanup_html disk).0
          ≡ convert (normal (strip (or_empty f.url_str))) ∷ [])
unfolding convert_sync
run_conversion-reads_file w f d bytes c tools md disk g n p m off u h k =
    let s = strip (or_empty f.url_str) in
    (
      job_of f c (link s),
      rw (run_conversion-managed w f c (ground (arith, g, n)) p)
          (first_effects w.mkdtemp _ d _ _ m (within_dir-typed w f d (job_of f c) g)),
      rw (off, u, convert_sync) (convert_path-whole tools md (normal s) bytes disk h k),
    )
