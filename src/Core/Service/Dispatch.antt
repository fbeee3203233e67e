-- ===== src/Core/Service/Dispatch.antt =====
-- `_convert_sync` of docsifer/core/service.py.
use docsifer.Prelude.{Bool, Option, Str, if◌then◌else◌}
use docsifer.Prelude.Dict.{Dict}
use docsifer.Prelude.PathNames.{normal}
use docsifer.Core.Mime.{Disk}
use docsifer.Core.Service.{
  Tools, Converter, Done, Source, path, link, is_url, session_of, convert_url_text,
}
use docsifer.Core.Service.Local.{convert_path}

module _ (tools : Tools) where
  -- `md` is what `_select_converter` gave. A path is in normal form.
  unfoldable pub convert_sync :
      Source → Converter → Option (Dict Str (Dict Str Str)) → Bool → Disk → Done
  unfolding is_url session_of convert_url_text convert_path
  convert_sync (path p) md http_config cleanup_html disk = convert_path tools p md cleanup_html disk
  convert_sync (link s) md http_config cleanup_html disk =
      if is_url (link s)
      then convert_url_text tools s md (session_of http_config) disk
      else convert_path tools (normal s) md cleanup_html disk
