-- ===== src/Tests/Settings.antt =====
-- Runs of docsifer/config.py, docsifer/api/middleware.py, docsifer/api/deps.py and
-- docsifer/core/tokenizer.py.
use docsifer.Prelude.{
  ◌⊎◌, if◌then◌else◌, false, ℕ, ◌≡◌, ◌↔◌, refl, Bool, true, false, Option, none, some, is_some,
  List, [], ◌∷◌, ◌++◌, Str, str_eq, ◌==◌, ==_iff, ltb, arith, if◌then◌else◌,
}
use docsifer.Prelude.Text.{
  codes, lower, lower_char, lower_idem, split, strip, contains_char, decimal, lstrip, count_words,
}
use docsifer.Prelude.Numerals.{parse_int}
use docsifer.Prelude.Dict
use docsifer.Prelude.Dict.{Dict, get-put}
use docsifer.Exceptions.{Result, ok, err, unexpected}
use docsifer.Api.Middleware.{HeaderMap, Reply, request_id, body_limit, too_large, security}
use docsifer.Config.{Settings, default_settings}
use docsifer.Api.Middleware.{set_defaults, security_headers}
use docsifer.Main.Layers.{Web, app, json}
use docsifer.Main.Layers.Replies.{inside, Answered, app-Answered}
use docsifer.Api.ErrorHandlers.{fallback_handler}
use docsifer.Config.{csv, normalize_exts}

normalize_run : normalize_exts (csv (codes " PDF, .Docx,")) ≡ codes ".pdf" ∷ codes ".docx" ∷ []
unfolding normalize_exts split strip docsifer.Prelude.Text.starts_with lower
normalize_run = refl

-- Headers as a dict of lower-case names.
abbrev dict_default : Str → Str → Dict Str Str → Dict Str Str
dict_default k v h = elim (Dict.get k h) [ some w ↦ h | none ↦ Dict.put k v h ]

get-dict_default :
    (k j v : Str) (h : Dict Str Str)
    → Dict.get j (dict_default k v h)
      ≡ (if k == j then (if is_some (Dict.get j h) then Dict.get j h else some v) else Dict.get j h)
get-dict_default k j v h = ground (arith, ==_iff k j, get-put k j v h)

abbrev dict_headers : HeaderMap
dict_headers = record {
  Headers = Dict Str Str;
  empty = [];
  get = λ k h. Dict.get (lower k) h;
  put = λ k v h. Dict.put (lower k) v h;
  setdefault = λ k v h. dict_default (lower k) v h;
  get-put = λ k j v h. get-put (lower k) (lower j) v h;
  get-setdefault = λ k j v h. get-dict_default (lower k) (lower j) v h;
}

abbrev reply : Reply dict_headers
reply = record {
  status = 200;
  headers = (codes "referrer-policy", codes "origin") ∷ [];
  body = record { error = []; message = []; request_id = none; details = none };
}

lenient_length : body_limit dict_headers 10 (some (codes "-11")) none (ok reply) ≡ ok reply
unfolding body_limit parse_int strip
lenient_length = refl

abbrev tagged : Reply dict_headers
tagged = record reply {
  headers = (codes "referrer-policy", codes "origin") ∷ (codes "x-request-id", codes "abc") ∷ [];
}

request_id-tagged : request_id dict_headers none (codes "abc") (λ rid. ok reply) ≡ ok tagged
unfolding request_id lower Dict.put
request_id-tagged = refl

abbrev secured : Reply dict_headers
secured = record reply {
  headers =
      (codes "referrer-policy", codes "origin")
      ∷ (codes "x-content-type-options", codes "nosniff")
      ∷ (
        codes "content-security-policy",
        codes
            "frame-ancestors 'self' https://huggingface.co https://*.huggingface.co https://*.hf.space",
      )
      ∷ (codes "x-xss-protection", codes "0")
      ∷ [];
}

security-secured : security dict_headers (ok reply) ≡ ok secured
unfolding security lower Dict.get Dict.put
security-secured = refl

-- Starlette's own middlewares pass everything on.
abbrev web : Web dict_headers
web = record {
  sent_id = none;
  token = codes "0a1b";
  content_length = some (decimal 20);
  cors = λ credentials origins answer. answer;
  gzip = λ size answer. answer;
}

abbrev settings : Settings
settings = default_settings (codes "/tmp")

abbrev raises : Option Str → Result (Reply dict_headers)
raises rid = err (unexpected (codes "KeyError") (codes "x"))

refused_run :
    app dict_headers (record web { content_length = some (decimal 20000000) }) settings raises
    ≡ ok (record (too_large dict_headers 10485760 none) {
      headers = set_defaults dict_headers security_headers [];
    })
unfolding app docsifer.Main.Layers.dispatch docsifer.Main.Layers.wrap_all docsifer.Main.Layers.wrap
    docsifer.Main.Layers.create_app docsifer.Main.Layers.register_middleware security body_limit
    parse_int strip decimal docsifer.Main.Layers.server_errors
refused_run = refl

raising_run : app dict_headers web settings raises ≡ ok (json dict_headers (fallback_handler none))
unfolding app docsifer.Main.Layers.dispatch docsifer.Main.Layers.wrap_all docsifer.Main.Layers.wrap
    docsifer.Main.Layers.create_app docsifer.Main.Layers.register_middleware security body_limit
    request_id parse_int strip decimal docsifer.Main.Layers.exception_handlers
    docsifer.Main.Layers.server_errors
raising_run = refl

app-Answered_example :
    Answered dict_headers web settings
      (inside dict_headers web settings raises)
      (app dict_headers web settings raises)
unfolding Dict.get
app-Answered_example = app-Answered dict_headers web settings raises refl
