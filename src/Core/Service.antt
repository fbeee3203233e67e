-- ===== src/Core/Service.antt =====
-- `DocsiferService` of docsifer/core/service.py: one call of `_convert_sync`, as the calls of
-- markitdown in order, the disk after them, and how it ended. markitdown is a parameter, and so
-- are the path of a URL, the registry's answers and what html_cleaner.py makes of some bytes.
pub mod Local
pub mod Dispatch
pub mod Clients
pub mod Workers
pub mod UrlNames
pub mod Calls
pub mod Fetches
pub mod Errors
use docsifer.Prelude.{
  ℕ, Bool, true, false, ◌&&◌, ◌||◌, Option, none, some, List, [], ◌∷◌, ◌++◌, Str, str_eq, ◌==◌,
  if◌then◌else◌,
}
use docsifer.Prelude.Dict
use docsifer.Prelude.Dict.{Dict}
use docsifer.Prelude.Text.{codes, lower, starts_with, after_last, contains_char, is_empty}
use docsifer.Prelude.PathNames.{name, suffix, normal}
use docsifer.Exceptions.{Result, ok, err, unexpected}
use docsifer.Core.LlmRegistry
use docsifer.Core.LlmRegistry.{LlmConfig, TtlCache, from_dict}
use docsifer.Core.Mime.{Disk, Sniffer, read_bytes, normalize_extension}

pub record ConvertResult : Type 0 where
  pub filename : Str
  pub markdown : Str
  pub token_count : ℕ

-- The first argument of `convert_file`: a `Path`, or a text.
pub data Source : Type 0 where
  path : Str → Source
  link : Str → Source

-- What a `requests.Session` is given beyond its defaults.
pub record Session : Type 0 where
  pub cookies : Dict Str Str
  pub headers : Dict Str Str

-- markitdown raises with a text, or returns an object with or without a `text_content`.
pub data Outcome : Type 0 where
  raises : Str → Outcome
  returns : Option Str → Outcome

-- A method that `hasattr` may not find is an option.
pub record Converter : Type 0 where
  pub convert : Disk → Str → Outcome
  pub convert_url : Option (Str → Session → Outcome)
  pub convert_stream : Option (Str → Str → Outcome)

pub data Call : Type 0 where
  convert : Str → Call
  convert_url : Str → Session → Call
  convert_stream : Str → Str → Call

-- `url_path` is `urlparse(url).path`, nothing where `urlparse` raises `ValueError`.
pub record Tools : Type 0 where
  pub sniffer : Sniffer
  pub known_extensions : List Str
  pub url_path : Str → Option Str
  pub clean_html_bytes : Str → Str
  pub count : Str → ℕ
  pub writable : Str → Bool

abbrev pub Done : Type 0
Done = List Call × Disk × Result ConvertResult

unfoldable pub is_url : Source → Bool
is_url (path p) = false
is_url (link s) =
    starts_with (codes "http://") (lower s) || starts_with (codes "https://") (lower s)

abbrev or_nothing : Option (Dict Str Str) → Dict Str Str
or_nothing none = []
or_nothing (some d) = d

unfoldable pub build_session : Dict Str (Dict Str Str) → Session
build_session http_config = record {
  cookies = or_nothing (Dict.get (codes "cookies") http_config);
  headers = or_nothing (Dict.get (codes "headers") http_config);
}

-- An absent dict and an empty one both give no session.
unfoldable pub session_of : Option (Dict Str (Dict Str Str)) → Option Session
unfolding build_session
session_of none = none
session_of (some []) = none
session_of (some (c ∷ http_config)) = some (build_session (c ∷ http_config))

abbrev text_or : Option Str → Str
text_or none = []
text_or (some s) = s

abbrev or_index : Str → Str
or_index [] = codes "index.html"
or_index (c ∷ s) = c ∷ s

abbrev or_slash : Str → Str
or_slash [] = b'/' ∷ []
or_slash (c ∷ s) = c ∷ s

abbrev pub file_name : Str → Str
file_name url_path =
    let last = or_index (after_last b'/' (or_slash url_path)) in
    if contains_char b'.' last then last else last ++ codes ".html"

unfoldable pub derive_url_filename : Option Str → Result Str
derive_url_filename none = err (unexpected (codes "ValueError") (codes "Invalid URL"))
derive_url_filename (some url_path) = ok (file_name url_path)

module _ {V : Type 0} (cache : TtlCache V) (digest : Str → Str) (build : LlmConfig → V)
    (raising : LlmConfig → Bool) where
  -- `raising` says for which configurations the client cannot be built. The second component is
  -- nothing for the basic converter.
  unfoldable pub select_converter :
      Dict Str Str → Str → Str → cache.Entries → cache.Entries × Option V
  unfolding from_dict LlmRegistry.get
  select_converter openai_config default_base_url default_model s =
      elim (from_dict openai_config default_base_url default_model) [
        | none ↦ (s, none)
        | some cfg ↦
            let (t, v, is_new) = LlmRegistry.get cache digest build cfg s in
            if is_new && raising cfg then (s, none) else (t, some v)
      ]

abbrev pub failed : Str → Str
failed shown = codes "Conversion failed for " ++ (b'\'' ∷ (shown ++ codes "': "))

abbrev pub convert_link : Str → Converter → Option Session → Disk → Call × Outcome
convert_link url md none disk = (convert url, md.convert disk url)
convert_link url md (some session) disk = elim md.convert_url [
  | none ↦ (convert url, md.convert disk url)
  | some f ↦ (convert_url url session, f url session)
]

module _ (tools : Tools) where
  -- What follows a call of markitdown: `fail` is the text before the exception's.
  unfoldable pub finish : Str → Result Str → Outcome → Result ConvertResult
  finish fail filename (raises e) = err (unexpected (codes "RuntimeError") (fail ++ e))
  finish fail (err e) (returns content) = err e
  finish fail (ok filename) (returns content) =
      let text = text_or content in
      ok (record { filename = filename; markdown = text; token_count = tools.count text })

  unfoldable pub convert_url_text : Str → Converter → Option Session → Disk → Done
  unfolding finish derive_url_filename
  convert_url_text url md session disk =
      let (call, outcome) = convert_link url md session disk in
      (
        call ∷ [],
        disk,
        finish (codes "Conversion failed for URL '" ++ (url ++ codes "': "))
            (derive_url_filename (tools.url_path url)) outcome,
      )
