-- ===== src/Tests/Endpoint.antt =====
-- A request to docsifer/api/v1/convert.py whose converter is docsifer/core/service.py.
use docsifer.Prelude.{◌≡◌, refl, true, none, some, [], ◌∷◌, All}
use docsifer.Prelude.Text.{codes}
use docsifer.Exceptions.{ok}
use docsifer.Config.{Settings, default_settings}
use docsifer.Core.Service.Dispatch.{convert_sync}
use docsifer.Safety.ResourceGuard.{default_guard}
use docsifer.Api.Convert.{World, Request, invalid, admitted, convert_document}
use docsifer.Api.Convert.Fetches.{IsHandled, convert_document-Handled}
use docsifer.Tests.Conversions.{disk, tools, markitdown, net, net-IsGeturl}

abbrev pub settings : Settings
settings = default_settings (codes "/tmp")

abbrev pub world : World
world = record {
  parse_openai = λ s. invalid (codes "bad");
  parse_http = λ s. invalid (codes "bad");
  parse_settings = λ s. invalid (codes "bad");
  ip_admits = true;
  turn = admitted;
  net = net;
  guard = default_guard 512 512;
  before = none;
  after = none;
  token = codes "00";
  mkdtemp = ok (codes "/tmp/docsifer-x");
  open_error = λ n. none;
  convert =
      λ job. (convert_sync tools job.source markitdown job.http_config job.cleanup_html disk).2;
}

abbrev pub request : Request
request = record {
  file = none;
  url = some (codes " https://x.org ");
  openai = none;
  http = none;
  settings_form = none;
  client_ip = codes "1.2.3.4";
}

-- The link has no resolved address that is blocked; the converter gives it back as its Markdown.
request_run :
    (convert_document settings world request).1 ≡ ok (codes "docs.html", codes "https://x.org")
unfolding convert_document docsifer.Prelude.Text.strip docsifer.Api.Convert.parse_json_form
    docsifer.Api.Convert.within_limits docsifer.Api.Convert.convert_source
    docsifer.Api.Convert.convert_url docsifer.Core.UrlGuard.validate_url docsifer.Prelude.Text.lower
    docsifer.Core.UrlGuard.any_blocked docsifer.Safety.ResourceGuard.check
    docsifer.Api.Convert.run_job convert_sync docsifer.Prelude.Text.starts_with
    docsifer.Api.Schemas.http_dict docsifer.Prelude.Text.contains_char
    docsifer.Prelude.Text.after_last
request_run = refl

convert_document-Handled_example :
    All
      (IsHandled settings world tools markitdown disk request)
      (convert_document settings world request).0
unfolding docsifer.Prelude.Text.lower docsifer.Core.UrlGuard.one_of
convert_document-Handled_example =
    convert_document-Handled settings world tools markitdown disk request net-IsGeturl
      (refl, (refl, tt)) (unfold docsifer.Prelude.Text.contains_char in refl)
