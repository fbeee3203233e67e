-- ===== src/Api/Convert/Fetches.antt =====
-- The endpoint of docsifer/api/v1/convert.py on top of docsifer/core/service.py.
use docsifer.Prelude.{
  ◌≡◌, false, none, some, str_eq, ◌==◌, List, [], ◌∷◌, ◌++◌, Str, sym, subst, All,
}
use docsifer.Exceptions.{ok}
use docsifer.Config.{Settings}
use docsifer.Core.Mime.{Disk}
use docsifer.Core.Service.{Tools, Converter, Done, Source, path, link}
use docsifer.Core.Service.Dispatch.{convert_sync}
use docsifer.Core.Service.Fetches.{Fetched, IsGeturl, AllWeb, validate_url-Fetched}
use docsifer.Prelude.Text.{codes, contains_char}
use docsifer.Api.Upload.{or_empty, safe_filename}
use docsifer.Api.Upload.Names.{IsFileName, safe_filename-IsFileName}
use docsifer.Api.Convert.{
  World, Request, Upload, Job, Effect, convert_file, enter_ip, leave_ip, enter_gate, leave_gate,
  close_upload, make_dir, remove_dir, write_file, record_access, convert_document,
}
use docsifer.Api.Convert.Vetting.{
  Vetted, fetched, saved, IsVetted, VettedFrom, convert_document-AllVetted,
}

-- What the service does with a source: it fetches a link, and a path is that of the upload, one step
-- below the directory made for the request.
pub data Handled (w : World) (r : Request) (disk : Disk) (d : Done) : Source → Type 0 where
  by_fetch : (u : Str) → r.file ≡ none → Fetched u disk d → Handled w r disk d (link u)
  by_file :
      (file : Upload) (dir : Str)
      → r.file ≡ some file
      → w.mkdtemp ≡ ok dir
      → IsFileName (safe_filename w.token file.filename)
      → (safe_filename w.token file.filename == codes "..") ≡ false
      → Handled w r disk d (path (dir ++ b'/' ∷ safe_filename w.token file.filename))

module _ (settings : Settings) (w : World) (tools : Tools) (md : Converter) (disk : Disk) where
  abbrev pub IsHandled : Request → Effect → Type 0
  IsHandled r (convert_file j) =
      Handled w r disk (convert_sync tools j.source md j.http_config j.cleanup_html disk) j.source
  IsHandled r _ = Unit

  handle :
      (r : Request) (past : List Effect) (j : Job)
      → IsGeturl w.net
      → AllWeb settings.url_allowed_schemes
      → contains_char b'/' w.token ≡ false
      → Vetted settings w r past j
      → IsHandled r (convert_file j)
  handle r past j g a n (fetched u none_sent valid source) =
      subst (λ s. Handled w r disk (convert_sync tools s md j.http_config j.cleanup_html disk) s)
        (sym source)
        (by_fetch u none_sent (
          validate_url-Fetched w.net (or_empty r.url) u settings.url_allowed_schemes
            settings.url_allow_private_networks tools md j.http_config j.cleanup_html disk g a
            valid))
  handle r past j g a n (saved file d before given extension made done named small fits source) =
      subst (λ s. Handled w r disk (convert_sync tools s md j.http_config j.cleanup_html disk) s)
        (sym source)
        (by_file file d given made (safe_filename-IsFileName w.token file.filename n) named)

  handle_effect :
      (r : Request) (past : List Effect) (e : Effect)
      → IsGeturl w.net
      → AllWeb settings.url_allowed_schemes
      → contains_char b'/' w.token ≡ false
      → IsVetted settings w r past e
      → IsHandled r e
  handle_effect r past (convert_file j) g a t v = handle r past j g a t v
  handle_effect r past (enter_ip ip) g a t v = tt
  handle_effect r past (leave_ip ip) g a t v = tt
  handle_effect r past enter_gate g a t v = tt
  handle_effect r past leave_gate g a t v = tt
  handle_effect r past close_upload g a t v = tt
  handle_effect r past (make_dir d) g a t v = tt
  handle_effect r past (remove_dir d) g a t v = tt
  handle_effect r past (write_file p b) g a t v = tt
  handle_effect r past (record_access n) g a t v = tt

  handle_all :
      (r : Request) (past es : List Effect)
      → IsGeturl w.net
      → AllWeb settings.url_allowed_schemes
      → contains_char b'/' w.token ≡ false
      → VettedFrom settings w r past es
      → All (IsHandled r) es
  handle_all r past [] g a t v = tt
  handle_all r past (e ∷ es) g a t v =
      (handle_effect r past e g a t v.0, handle_all r (e ∷ past) es g a t v.1)

  -- Where every allowed scheme is http or https and the random token has no slash, each conversion of
  -- a request is either one fetch of a link, which touches no file and needs that none was sent, or
  -- that of the path of the file that was sent: it is one step below the directory made for the
  -- request, whatever name the client gave, as that step has no slash and is neither empty nor a dot
  -- nor two.
  pub convert_document-Handled :
      (r : Request)
      → IsGeturl w.net
      → AllWeb settings.url_allowed_schemes
      → contains_char b'/' w.token ≡ false
      → All (IsHandled r) (convert_document settings w r).0
  convert_document-Handled r g a t =
      handle_all r [] (convert_document settings w r).0 g a t
        (convert_document-AllVetted settings w r)
