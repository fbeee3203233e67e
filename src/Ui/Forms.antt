-- ===== src/Ui/Forms.antt =====
-- The helpers of docsifer/ui/gradio_app.py that read the fields of the form and name its files.
-- `json.loads`, `str.isalnum` and the random token are parameters.
pub mod Agreement
use docsifer.Prelude.{
  ℕ, Bool, ◌||◌, Option, none, some, [], ◌∷◌, ◌++◌, Str, str_eq, if◌then◌else◌, nat_beq,
}
use docsifer.Prelude.Dict
use docsifer.Prelude.Dict.{Dict}
use docsifer.Prelude.Text.{codes, strip, is_empty}

abbrev pub or_empty : Option Str → Str
or_empty none = []
or_empty (some s) = s

-- cfg[key] = value.strip() where that is not blank
abbrev pub set_field : Str → Str → Dict Str Str → Dict Str Str
set_field key s cfg = if is_empty (strip s) then cfg else Dict.put key (strip s) cfg

unfoldable pub build_openai_dict : (base_url api_key model : Option Str) → Option (Dict Str Str)
build_openai_dict base_url api_key model =
    let key = strip (or_empty api_key) in
    if is_empty key
    then none
    else some (
        set_field (codes "model") (or_empty model)
          (set_field (codes "base_url") (or_empty base_url) ((codes "api_key", key) ∷ [])))

-- The cookies, or the text of a `ValueError`. `loads` gives a dict of texts, or the text of a
-- `JSONDecodeError`.
pub data Cookies : Type 0 where
  cookies : Option (Dict Str Str) → Cookies
  refused : Str → Cookies

unfoldable pub parse_cookies : (Str → Cookies) → Option Str → Cookies
parse_cookies loads raw =
    let s = strip (or_empty raw) in
    if is_empty s then cookies none else elim (loads s) [
      | cookies c ↦ cookies c
      | refused e ↦ refused (codes "Invalid JSON for HTTP cookies: " ++ e)
    ]

abbrev pub keep : (ℕ → Bool) → Str → Str
keep is_alnum [] = []
keep is_alnum (c ∷ s) =
    if is_alnum c || (nat_beq c b'-' || nat_beq c b'_')
    then c ∷ keep is_alnum s
    else keep is_alnum s

abbrev pub or_document : Str → Str
or_document [] = codes "document"
or_document (c ∷ s) = c ∷ s

-- The name of the file of `_write_markdown_file`; `token` is `token_hex(4)`.
unfoldable pub markdown_name : (ℕ → Bool) → Str → Str → Str
markdown_name is_alnum token stem =
    codes "docsifer-" ++ (or_document (keep is_alnum stem) ++ (b'-' ∷ (token ++ codes ".md")))

pub data Level : Type 0 where
  info done warn error : Level

abbrev color : Level → Str
color info = codes "#6366f1"
color done = codes "#16a34a"
color warn = codes "#d97706"
color error = codes "#dc2626"

-- `_status`: the text is put into the markup as it is.
unfoldable pub status : Str → Level → Str
status text level =
    codes "<div style=\"padding:10px 14px;border-radius:10px;background:"
    ++ (color level
        ++ (codes "14;color:"
            ++ (color level
                ++ (codes ";font-size:0.9rem;border:1px solid "
                    ++ (color level ++ (codes "30;\">" ++ (text ++ codes "</div>")))))))
