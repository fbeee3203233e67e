-- ===== src/Core/Service/Local.antt =====
-- The files of `DocsiferService` in docsifer/core/service.py: `_convert_path` and
-- `_convert_html_streaming`.
use docsifer.Prelude.{Bool, ◌&&◌, ◌||◌, none, some, [], ◌∷◌, ◌++◌, Str, str_eq, ◌==◌, if◌then◌else◌}
use docsifer.Prelude.Dict
use docsifer.Prelude.Text.{codes, lower}
use docsifer.Prelude.PathNames.{name, suffix}
use docsifer.Exceptions.{Result, ok, err, unexpected}
use docsifer.Core.Mime.{Disk, read_bytes, normalize_extension}
use docsifer.Core.Service.{Tools, Converter, Done, convert, convert_stream, finish, failed}

module _ (tools : Tools) where
  -- path.write_bytes(cleaned), whose exceptions are suppressed.
  abbrev pub write_bytes : Str → Str → Disk → Disk
  write_bytes file bytes disk =
      if tools.writable file then record disk { files = Dict.put file bytes disk.files } else disk

  unfoldable pub convert_cleaned : Str → Converter → Str → Str → Disk → Done
  unfolding finish
  convert_cleaned file md ext cleaned disk = elim md.convert_stream [
    | some f ↦ (
      convert_stream cleaned ext ∷ [],
      disk,
      finish tools (failed (name file)) (ok (name file)) (f cleaned ext),
    )
    | none ↦
        let written = write_bytes file cleaned disk in
        (
          convert file ∷ [],
          written,
          finish tools (failed (name file)) (ok (name file)) (md.convert written file),
        )
  ]

  -- A file that cannot be read is read a second time, outside of the `try`.
  unfoldable pub convert_html_streaming : Str → Converter → Str → Disk → Done
  unfolding convert_cleaned read_bytes
  convert_html_streaming file md ext disk = elim (read_bytes file disk) [
    | none ↦ ([], disk, err (unexpected (codes "OSError") file))
    | some bytes ↦ convert_cleaned file md ext (tools.clean_html_bytes bytes) disk
  ]

  -- What follows the normalised path.
  unfoldable pub convert_normalized : Result Str → Converter → Bool → Disk → Done
  unfolding finish convert_html_streaming
  convert_normalized (err e) md cleanup_html disk = ([], disk, err e)
  convert_normalized (ok normalized) md cleanup_html disk =
      let ext = lower (suffix normalized) in
      if cleanup_html && (ext == codes ".html" || ext == codes ".htm")
      then convert_html_streaming normalized md ext disk
      else (
        convert normalized ∷ [],
        disk,
        finish tools (failed (name normalized)) (ok (name normalized)) (md.convert disk normalized),
      )

  unfoldable pub convert_path : Str → Converter → Bool → Disk → Done
  unfolding convert_normalized normalize_extension
  convert_path file md cleanup_html disk = elim (Dict.get file disk.files) [
    | none ↦
        ([], disk, err (unexpected (codes "FileNotFoundError") (codes "File not found: " ++ file)))
    | some _ ↦
        let (moved, normalized) =
          normalize_extension tools.sniffer tools.known_extensions file disk in
        convert_normalized normalized md cleanup_html moved
  ]
