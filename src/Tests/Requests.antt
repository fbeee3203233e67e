-- ===== src/Tests/Requests.antt =====
-- Runs of docsifer/api/v1/convert.py, docsifer/api/error_handlers.py and
-- docsifer/core/url_guard.py.
use docsifer.Prelude.{◌≡◌, refl, ◌↔◌, ◌⊎◌, true, false, none, some, [], ◌∷◌, Str, str_eq}
use docsifer.Prelude.Text.{codes, strip, lower, contains_char, split, after_last}
use docsifer.Prelude.PathNames.{name, suffix}
use docsifer.Exceptions.{ok}
use docsifer.Core.UrlGuard.{Net, Address, resolved, validate_url, host_of}
use docsifer.Core.UrlGuard.Safety.{Allowed, Public, validate_url_iff}
use docsifer.Api.Upload.{safe_filename, check_extension, stream_to_disk, copy_loop, read}
use docsifer.Api.Upload.Copy.{Copied, stream_to_disk-Copied}
use docsifer.Api.Upload.Names.{IsFileName, safe_filename-IsFileName, check_extension-bypassed}
use docsifer.Config.{Settings, default_settings}
use docsifer.Api.Convert.{
  World, Request, admitted, invalid, convert_document, parse_json_form, within_limits,
  convert_source, convert_upload, save, write_upload, run_job,
}
use docsifer.Api.Convert.Vetting.{AllVetted, convert_document-AllVetted}
use docsifer.Api.Convert.Brackets.{Keeps}
use docsifer.Api.Convert.Answers.{IsAnswered, convert_document-IsAnswered}
use docsifer.Api.Convert.Protocol.{convert_document-Keeps}
use docsifer.Safety.ResourceGuard.{default_guard, check}

-- A host that resolves to one loopback address.
abbrev loopback : Address
loopback = record {
  is_loopback = true;
  is_link_local = false;
  is_multicast = false;
  is_reserved = false;
  is_private = true;
  is_unspecified = false;
}

abbrev local_net : Net
local_net = record {
  urlparse =
      λ s. some (record { scheme = codes "HTTP"; hostname = some (codes "localhost"); geturl = s });
  getaddrinfo = λ h. resolved (codes "127.0.0.1" ∷ []);
  ip_address = λ a. some loopback;
}

abbrev local_url : Str
local_url = codes "http://localhost"

validate_url_iff_example : (validate_url local_net local_url none false ≡ ok local_url) ↔ (
    (a : Allowed local_net local_url none local_url) × ((false ≡ true)
      ⊎ Public local_net (host_of a.parsed.hostname)))
validate_url_iff_example = validate_url_iff local_net local_url none false local_url

url_run : validate_url local_net (codes " u ") none true ≡ ok (codes "u")
unfolding validate_url strip lower
url_run = refl

stream_to_disk-Copied_example : Copied 2 0 (codes "abc") [] (stream_to_disk 2 (codes "abc"))
stream_to_disk-Copied_example = stream_to_disk-Copied 2 (codes "abc")

abbrev traversal : Str
traversal = codes "../../etc/passwd"

safe_filename-IsFileName_example : IsFileName (safe_filename (codes "00") (some traversal))
unfolding contains_char
safe_filename-IsFileName_example = safe_filename-IsFileName (codes "00") (some traversal) refl

check_extension-bypassed_example :
    (check_extension (codes "evil.exe/ ") (codes ".pdf" ∷ []) ≡ ok tt)
    × (safe_filename (codes "00") (some (codes "evil.exe/ ")) ≡ codes "evil.exe")
unfolding contains_char
check_extension-bypassed_example =
    check_extension-bypassed (codes "00") b'e' (codes "vil.exe") (codes ".pdf" ∷ []) refl
      (record { no_slash = refl; part = refl })

-- A world that admits the request and converts what it is given.
abbrev settings : Settings
settings = record (default_settings (codes "/tmp")) { max_upload_bytes = 10 }

abbrev world : World
world = record {
  parse_openai = λ s. invalid (codes "bad");
  parse_http = λ s. invalid (codes "bad");
  parse_settings = λ s. invalid (codes "bad");
  ip_admits = true;
  turn = admitted;
  net = local_net;
  guard = default_guard 512 512;
  before = none;
  after = none;
  token = codes "00";
  mkdtemp = ok (codes "/tmp/docsifer-x");
  open_error = λ n. none;
  convert = λ job. ok (record { filename = codes "a.md"; markdown = codes "A"; token_count = 1 });
}

abbrev request : Request
request = record {
  file = some (record { filename = some (codes "../a.txt"); body = codes "hello" });
  url = none;
  openai = none;
  http = none;
  settings_form = none;
  client_ip = codes "1.2.3.4";
}

request_run : (convert_document settings world request).1 ≡ ok (codes "a.md", codes "A")
unfolding convert_document parse_json_form strip within_limits convert_source convert_upload check
    check_extension lower suffix name split contains_char after_last save write_upload safe_filename
    stream_to_disk copy_loop read run_job
request_run = refl

convert_document-Keeps_example : Keeps [] (convert_document settings world request)
convert_document-Keeps_example = convert_document-Keeps settings world request

convert_document-AllVetted_example :
    AllVetted settings world request (convert_document settings world request)
convert_document-AllVetted_example = convert_document-AllVetted settings world request

convert_document-IsAnswered_example :
    let q = convert_document settings world request in IsAnswered world q.0 q.1
convert_document-IsAnswered_example = convert_document-IsAnswered settings world request
