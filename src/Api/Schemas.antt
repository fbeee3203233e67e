-- ===== src/Api/Schemas.antt =====
-- docsifer/api/schemas.py: the request models. Parsing JSON is pydantic's, and a parameter where it
-- is used.
use docsifer.Prelude.{
  Bool, true, not, Option, none, some, [], ◌∷◌, ◌++◌, Str, str_eq, if◌then◌else◌,
}
use docsifer.Prelude.Dict.{Dict}
use docsifer.Prelude.Text.{codes, strip, is_empty}

pub record OpenAiConfig : Type 0 where
  pub api_key : Option Str
  pub base_url : Option Str
  pub model : Option Str

pub record HttpConfig : Type 0 where
  pub cookies : Option (Dict Str Str)
  pub headers : Option (Dict Str Str)

pub record ConvertSettings : Type 0 where
  pub cleanup : Bool

abbrev pub default_openai : OpenAiConfig
default_openai = record { api_key = none; base_url = none; model = none }

abbrev pub default_http : HttpConfig
default_http = record { cookies = none; headers = none }

abbrev pub default_settings : ConvertSettings
default_settings = record { cleanup = true }

abbrev pub text_of : Option Str → Str
text_of none = []
text_of (some s) = s

unfoldable pub is_enabled : OpenAiConfig → Bool
is_enabled c = not (is_empty (strip (text_of c.api_key)))

abbrev entry : Str → Str → Dict Str Str
entry k [] = []
entry k (c ∷ s) = (k, c ∷ s) ∷ []

-- `OpenAIConfig.to_dict`: an empty field is left out.
unfoldable pub openai_dict : OpenAiConfig → Option (Dict Str Str)
unfolding is_enabled
openai_dict c =
    if is_enabled c
    then some (
        (codes "api_key", text_of c.api_key)
        ∷ (entry (codes "base_url") (text_of c.base_url)
            ++ entry (codes "model") (text_of c.model)))
    else none

abbrev pub dict_of : Option (Dict Str Str) → Dict Str Str
dict_of none = []
dict_of (some d) = d

abbrev entries : Str → Dict Str Str → Dict Str (Dict Str Str)
entries k [] = []
entries k (e ∷ d) = (k, e ∷ d) ∷ []

abbrev none_if_empty : Dict Str (Dict Str Str) → Option (Dict Str (Dict Str Str))
none_if_empty [] = none
none_if_empty (e ∷ d) = some (e ∷ d)

-- `HTTPConfig.to_dict`
unfoldable pub http_dict : HttpConfig → Option (Dict Str (Dict Str Str))
http_dict c =
    none_if_empty (
      entries (codes "cookies") (dict_of c.cookies)
      ++ entries (codes "headers") (dict_of c.headers))
