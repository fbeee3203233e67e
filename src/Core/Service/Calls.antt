-- ===== src/Core/Service/Calls.antt =====
-- Which calls of markitdown docsifer/core/service.py makes for a local file, and on what bytes.
use docsifer.Prelude.{
  ◌≡◌, ◌≤◌, refl, ◌∙◌, Bool, ◌&&◌, ◌||◌, some, [], ◌∷◌, Str, str_eq, ◌==◌, arith, inl, inr,
  Bool-cases, length, All,
}
use docsifer.Prelude.Dict
use docsifer.Prelude.Text.{codes, lower}
use docsifer.Prelude.PathNames.{suffix}
use docsifer.Exceptions.{Result, ok, err}
use docsifer.Core.Mime.{normalize_extension, Disk, read_bytes}
use docsifer.Core.Mime.Contents.{Moved-same, normalize_extension-Moved}
use docsifer.Core.Service.{
  Tools, Converter, Done, Call, Outcome, convert, convert_stream, ConvertResult,
}
use docsifer.Core.Service.Local.{
  convert_cleaned, convert_html_streaming, convert_normalized, convert_path,
}

module _ (tools : Tools) where
  -- A call on a local file of these bytes: the path has them when it is called, or the stream has
  -- them cleaned.
  pub data OnBytes (bytes : Str) (disk : Disk) : Call → Type 0 where
    whole : (p : Str) → Dict.get p disk.files ≡ some bytes → OnBytes bytes disk (convert p)
    cleaned : (ext : Str) → OnBytes bytes disk (convert_stream (tools.clean_html_bytes bytes) ext)

  -- At most one call, and that one on these bytes.
  pub record OneCall (bytes : Str) (d : Done) : Type 0 where
    pub most : length d.0 ≤ 1
    pub calls : All (OnBytes bytes d.1) d.0

  none_called : (bytes : Str) (disk : Disk) (r : Result ConvertResult) → OneCall bytes ([], disk, r)
  none_called bytes disk r = record { most = omega arith; calls = tt }

  one_called :
      (bytes : Str) (disk : Disk) (c : Call) (r : Result ConvertResult)
      → OnBytes bytes disk c
      → OneCall bytes (c ∷ [], disk, r)
  one_called bytes disk c r h = record { most = omega arith; calls = (h, tt) }

  module _ (md : Converter) (f : Str → Str → Outcome) (streams : md.convert_stream ≡ some f) where
    convert_html_streaming-OneCall :
        (q ext bytes : Str) (disk : Disk)
        → Dict.get q disk.files ≡ some bytes
        → OneCall bytes (convert_html_streaming tools q md ext disk)
    unfolding convert_html_streaming convert_cleaned read_bytes
    convert_html_streaming-OneCall q ext bytes disk h = elim (Bool-cases (disk.readable q)) [
      | inl e ↦
          rw (e, h, streams, convert_html_streaming, read_bytes, convert_cleaned)
            (one_called bytes disk _ _ (cleaned ext))
      | inr e ↦ rw (e, convert_html_streaming, read_bytes) (none_called bytes disk _)
    ]

    convert_normalized-OneCall :
        (r : Result Str) (cleanup : Bool) (bytes : Str) (disk : Disk)
        → ((q : Str) → r ≡ ok q → Dict.get q disk.files ≡ some bytes)
        → OneCall bytes (convert_normalized tools r md cleanup disk)
    unfolding convert_normalized
    convert_normalized-OneCall (err e) cleanup bytes disk h = none_called bytes disk _
    convert_normalized-OneCall (ok q) cleanup bytes disk h =
        let ext = lower (suffix q) in
        elim (Bool-cases (cleanup && (ext == codes ".html" || ext == codes ".htm"))) [
          | inl e ↦ rw e (convert_html_streaming-OneCall q ext bytes disk (h q refl))
          | inr e ↦ rw e (one_called bytes disk _ _ (whole q (h q refl)))
        ]

    -- Where markitdown takes streams, a local file is converted in at most one call, and that call
    -- sees the bytes that the file had before it was renamed, whole at the path or cleaned in a
    -- stream.
    pub convert_path-OneCall :
        (p : Str) (cleanup : Bool) (bytes : Str) (disk : Disk)
        → Dict.IsDict disk.files
        → Dict.get p disk.files ≡ some bytes
        → OneCall bytes (convert_path tools p md cleanup disk)
    unfolding convert_path
    convert_path-OneCall p cleanup bytes disk v h =
        rw (h, convert_path)
          (convert_normalized-OneCall _ cleanup bytes _ λ q e.
            Moved-same p q disk (normalize_extension tools.sniffer tools.known_extensions p disk).0
              (normalize_extension-Moved tools.sniffer tools.known_extensions p q disk v e)
            ∙ h)
