-- ===== src/Api/Upload.antt =====
-- The file half of docsifer/api/v1/convert.py: the name, the extension and the copy of an upload.
pub mod Names
pub mod Copy
use docsifer.Prelude.{
  ℕ, zero, suc, ◌+◌, ◌*◌, Bool, true, false, not, ◌||◌, Option, none, some, List, [], ◌∷◌, ◌++◌,
  Str, str_eq, ◌==◌, length, ltb, if◌then◌else◌,
}
use docsifer.Prelude.Text.{codes, strip, lower, is_empty, decimal}
use docsifer.Prelude.PathNames.{name, suffix}
use docsifer.Exceptions.{Result, ok, throw, unsupported_format, payload_too_large, texts, number}

abbrev pub or_empty : Option Str → Str
or_empty none = []
or_empty (some s) = s

-- `token` is `secrets.token_hex(4)`.
unfoldable pub safe_filename : Str → Option Str → Str
safe_filename token raw =
    let stripped = strip (or_empty raw) in
    let safe = if is_empty stripped then [] else name stripped in
    if is_empty safe then codes "upload-" ++ (token ++ codes ".bin") else safe

unfoldable pub listed : Str → List Str → Bool
listed s [] = false
listed s (t ∷ ts) = t == s || listed s ts

-- `sorted(allowed)` is left as the list: only the error's details show it.
unfoldable pub check_extension : Str → List Str → Result (Unit {0})
unfolding listed
check_extension filename allowed =
    let ext = lower (suffix filename) in
    if is_empty ext
    then ok tt
    else if listed ext allowed
    then ok tt
    else throw unsupported_format (codes "Extension '" ++ (ext ++ codes "' is not allowed"))
        ((codes "allowed", texts allowed) ∷ [])

abbrev pub chunk_size : ℕ
chunk_size = 1024 * 1024

-- `upload.file.read(n)`: the chunk, and what is left.
unfoldable pub read : ℕ → Str → Str × Str
read zero body = ([], body)
read (suc n) [] = ([], [])
read (suc n) (c ∷ body) = let (chunk, rest) = read n body in (c ∷ chunk, rest)

-- The loop of `_copy`: the bytes written so far are its last argument. `none` means that the fuel
-- ran out.
unfoldable pub copy_loop : ℕ → ℕ → ℕ → ℕ → Str → Str → Option (Result ℕ × Str)
copy_loop zero chunk max_bytes total body written = none
copy_loop (suc fuel) chunk max_bytes total body written =
    let (head, rest) = read chunk body in
    let next = copy_loop fuel chunk max_bytes (total + length head) rest (written ++ head) in
    if is_empty head
    then some (ok total, written)
    else if ltb max_bytes (total + length head)
    then some (
      throw payload_too_large (codes "Body exceeds " ++ (decimal max_bytes ++ codes " bytes"))
          ((codes "max_bytes", number max_bytes) ∷ []),
      written,
    )
    else next

-- A round for each byte is more than enough.
unfoldable pub stream_to_disk : ℕ → Str → Option (Result ℕ × Str)
stream_to_disk max_bytes body = copy_loop (suc (length body)) chunk_size max_bytes 0 body []
