-- ===== src/Core/Mime.antt =====
-- docsifer/core/mime.py on a disk of regular files. libmagic and `mimetypes` are a parameter.
pub mod Contents
use docsifer.Prelude.{
  ℕ, zero, suc, ◌-◌, Bool, true, false, not, ◌||◌, ◌&&◌, Option, none, some, List, [], ◌∷◌, ◌++◌,
  Str, str_eq, ◌==◌, if◌then◌else◌, length, nat_beq,
}
use docsifer.Prelude.Dict
use docsifer.Prelude.Dict.{Dict}
use docsifer.Prelude.Text.{codes, lower, is_empty, contains_char}
use docsifer.Prelude.PathNames.{name, suffix}
use docsifer.Exceptions.{Result, ok, err, unexpected}
use docsifer.Core.UrlGuard.{one_of}

-- The bytes of the files by path, which of them can be read, and which paths can be renamed to
-- which.
pub record Disk : Type 0 where
  pub files : Dict Str Str
  pub readable : Str → Bool
  pub movable : Str → Str → Bool

-- `from_buffer` gives nothing where it raises.
pub record Sniffer : Type 0 where
  pub has_magic : Bool
  pub from_buffer : Str → Option Str
  pub guess_type : Str → Option Str
  pub guess_extension : Str → Option Str

abbrev pub take : {A : Type 0} → ℕ → List A → List A
take zero xs = []
take (suc n) [] = []
take (suc n) (x ∷ xs) = x ∷ take n xs

-- path.read_bytes(), or nothing where it raises.
unfoldable pub read_bytes : Str → Disk → Option Str
read_bytes path disk = if disk.readable path then Dict.get path disk.files else none

abbrev sniff : Sniffer → Option Str → Option Str
sniff s none = none
sniff s (some head) = s.from_buffer head

abbrev head_of : Option Str → Option Str
head_of none = none
head_of (some bytes) = some (take 4096 bytes)

-- `s or None`
abbrev nonempty : Str → Option Str
nonempty [] = none
nonempty (c ∷ s) = some (c ∷ s)

unfoldable pub detect_mime : Sniffer → Str → Disk → Option Str
unfolding read_bytes
detect_mime s path disk =
    if s.has_magic
    then elim (sniff s (head_of (read_bytes path disk))) [
      | none ↦ s.guess_type path
      | some mime ↦ nonempty mime
    ]
    else s.guess_type path

unfoldable pub guess_extension : Sniffer → Option Str → Option Str
guess_extension s none = none
guess_extension s (some []) = none
guess_extension s (some (c ∷ mime)) = s.guess_extension (c ∷ mime)

abbrev is_suffix : Str → Bool
is_suffix [] = false
is_suffix (c ∷ s) = nat_beq c b'.' && not (is_empty s || contains_char b'/' s)

-- Path(s).with_suffix(ext) of a path in normal form; nothing where it raises `ValueError`.
unfoldable pub with_suffix : Str → Str → Option Str
with_suffix path ext =
    if is_empty (name path) || not (is_suffix ext)
    then none
    else some (take (length path - length (suffix path)) path ++ ext)

-- path.rename(new_path): a file under the new name is replaced.
unfoldable pub rename : Str → Str → Disk → Option Disk
rename path new_path disk =
    if disk.movable path new_path
    then elim (Dict.get path disk.files) [
      | none ↦ none
      | some bytes ↦
          if path == new_path
          then some disk
          else some (record disk { files = Dict.put new_path bytes (Dict.pop path disk.files) })
    ]
    else none

-- What follows a known extension that is another one than the path's.
unfoldable pub move_to : Str → Option Str → Disk → Disk × Result Str
unfolding rename
move_to path none disk =
    (disk, err (unexpected (codes "ValueError") (codes "Invalid suffix or empty name")))
move_to path (some new_path) disk = elim (rename path new_path disk) [
  | none ↦ (disk, ok path)
  | some moved ↦ (moved, ok new_path)
]

abbrev pub ext_or : Option Str → Str
ext_or none = []
ext_or (some ext) = ext

unfoldable pub normalize_extension : Sniffer → List Str → Str → Disk → Disk × Result Str
unfolding move_to one_of detect_mime guess_extension with_suffix
normalize_extension s known path disk =
    let old = lower (suffix path) in
    let ext = ext_or (guess_extension s (detect_mime s path disk)) in
    if one_of old known
    then (disk, ok path)
    else if is_empty ext || lower ext == old
    then (disk, ok path)
    else move_to path (with_suffix path ext) disk
