-- ===== src/Tests/Conversions.antt =====
-- Runs of docsifer/core and of docsifer/ui/gradio_app.py.
use docsifer.Prelude.{
  ℕ, ◌≡◌, refl, Bool, true, false, ◌&&◌, ◌||◌, Option, none, some, List, [], ◌∷◌, map, ◌++◌, Str,
  str_eq, ◌==◌, leb, if◌then◌else◌, All, arith,
}
use docsifer.Prelude.Dict
use docsifer.Prelude.Text.{codes}
use docsifer.Prelude.PathNames.{normal}
use docsifer.Exceptions.{ok}
use docsifer.Core.UrlGuard.{Url, Net, resolved, validate_url}
use docsifer.Core.HtmlCleaner.{clean_html}
use docsifer.Core.HtmlCleaner.Patterns.{IsElement, element_text}
use docsifer.Core.HtmlCleaner.Fallback.{script, clean_html-element}
use docsifer.Core.Mime.{Disk, Sniffer, normalize_extension, take}
use docsifer.Core.Mime.Contents.{Moved, normalize_extension-Moved}
use docsifer.Core.Service.{
  Tools, Converter, Outcome, returns, ConvertResult, Source, path, link, convert,
}
use docsifer.Core.Service.Local.{convert_path}
use docsifer.Core.Service.Dispatch.{convert_sync}
use docsifer.Core.Service.Calls.{OneCall, convert_path-OneCall}
use docsifer.Core.Service.Fetches.{IsGeturl}
use docsifer.Core.Service.Errors.{Plain, convert_sync-Plain}
use docsifer.Api.Convert.{Job}
use docsifer.Analytics.Counter.{Buckets}
use docsifer.Ui.Tables.{fetch_stats}
use docsifer.Ui.Tables.Periods.{Visit, visited, OnlyTotals, fetch_stats-OnlyTotals}
use docsifer.Core.LlmRegistry.{from_dict}
use docsifer.Api.Schemas.{openai_dict, dict_of}
use docsifer.Ui.Forms.{cookies, build_openai_dict}
use docsifer.Ui.Forms.Agreement.{build_openai_dict-openai_dict}
use docsifer.Ui.Conversion.{Form, World, make_dir, convert_file, finished, run_conversion}
use docsifer.Ui.Conversion.Jobs.{IsManaged, run_conversion-IsManaged}
use docsifer.Ui.Conversion.Unchecked.{run_conversion-reads_file}

abbrev sniffer : Sniffer
sniffer = record {
  has_magic = false;
  from_buffer = λ head. none;
  guess_type = λ p. some (codes "text/html");
  guess_extension = λ mime. some (codes ".html");
}

-- A page without an extension, and a text of the server.
abbrev pub disk : Disk
disk = record {
  files = (codes "d/page", codes "<p>") ∷ (codes "/etc/motd.txt", codes "hello") ∷ [];
  readable = λ p. true;
  movable = λ p q. true;
}

disk-IsDict : Dict.IsDict disk.files
unfolding Dict.distinct Dict.has
disk-IsDict = refl

normalize_extension-Moved_example :
    Moved
      (codes "d/page")
      (codes "d/page.html")
      disk
      (normalize_extension sniffer (codes ".txt" ∷ []) (codes "d/page") disk).0
unfolding normalize_extension docsifer.Prelude.Text.lower docsifer.Prelude.PathNames.suffix
    docsifer.Prelude.PathNames.name docsifer.Prelude.Text.split docsifer.Prelude.Text.contains_char
    Dict.get
normalize_extension-Moved_example =
    normalize_extension-Moved sniffer (codes ".txt" ∷ []) (codes "d/page") (codes "d/page.html")
      disk disk-IsDict refl

abbrev is_word : ℕ → Bool
is_word c = leb 97 c && leb c 122

one_script : IsElement is_word (codes "script") [] (codes "run")
unfolding docsifer.Prelude.Text.contains_char docsifer.Core.HtmlCleaner.fold_char
one_script = record { low = refl; parts = refl; attrs_free = (refl, refl); body_free = refl }

clean_html-element_example :
    clean_html is_word none
      (codes "a" ++ element_text is_word (codes "script") [] (codes "run") (codes "b"))
    ≡ codes "a" ++ codes "b"
unfolding docsifer.Prelude.Text.contains_char docsifer.Core.HtmlCleaner.parsed
clean_html-element_example =
    clean_html-element is_word none (codes "script") (codes "a") [] (codes "run") (codes "b") script
      refl one_script refl refl refl

abbrev pub tools : Tools
tools = record {
  sniffer = sniffer;
  known_extensions = codes ".txt" ∷ codes ".html" ∷ [];
  url_path = λ u. some (codes "/docs");
  clean_html_bytes = λ bytes. bytes;
  count = λ s. 1;
  writable = λ p. false;
}

abbrev pub markitdown : Converter
markitdown = record {
  convert = λ d p. returns (some p);
  convert_url = none;
  convert_stream = some (λ bytes ext. returns (some bytes));
}

convert_path-OneCall_example :
    OneCall tools (codes "<p>") (convert_path tools (codes "d/page") markitdown true disk)
unfolding Dict.get
convert_path-OneCall_example =
    convert_path-OneCall tools markitdown (λ bytes ext. returns (some bytes)) refl (codes "d/page")
      true (codes "<p>") disk disk-IsDict refl

convert_run :
    (convert_sync tools (path (codes "/etc/motd.txt")) markitdown none true disk).0
    ≡ convert (codes "/etc/motd.txt") ∷ []
unfolding convert_sync Dict.get docsifer.Prelude.Text.lower docsifer.Prelude.PathNames.suffix
    docsifer.Prelude.PathNames.name docsifer.Prelude.Text.split docsifer.Prelude.Text.contains_char
    docsifer.Prelude.Text.after_last
convert_run = refl

convert_sync-Plain_example :
    Plain (convert_sync tools (link (codes "https://x.org")) markitdown none true disk).2
convert_sync-Plain_example =
    convert_sync-Plain tools markitdown (link (codes "https://x.org")) none true disk

abbrev one_url : Url
one_url = record {
  scheme = codes "https";
  hostname = some (codes "x.org");
  geturl = codes "https://x.org";
}

-- A net in which every URL is the same one.
abbrev pub net : Net
net = record {
  urlparse = λ s. some one_url;
  getaddrinfo = λ h. resolved [];
  ip_address = λ s. none;
}

pub net-IsGeturl : IsGeturl net
net-IsGeturl = record {
  shape = λ s p e n h. let same : one_url ≡ p = ground arith in (codes "x.org", rw (← same) refl);
}

build_openai_dict-openai_dict_example :
    from_dict
      (dict_of (build_openai_dict (some []) (some (codes " k ")) (some (codes " gpt-4o"))))
      (codes "https://u")
      (codes "m")
    ≡ from_dict
        (dict_of (
          openai_dict (record {
            api_key = some (codes " k ");
            base_url = some [];
            model = some (codes " gpt-4o");
          })))
        (codes "https://u")
        (codes "m")
unfolding docsifer.Prelude.Text.strip
build_openai_dict-openai_dict_example =
    build_openai_dict-openai_dict (codes " k ") [] (codes " gpt-4o") (codes "https://u") (codes "m")
      refl refl

abbrev buckets : Buckets
buckets = (codes "total", (codes "b", 2) ∷ (codes "a", 1) ∷ []) ∷ []

abbrev one_visit : List Visit
one_visit =
    record { date = record { year = 2024; month = 5; day = 1 }; tokens = 7; label = none } ∷ []

fetch_stats-OnlyTotals_example :
    All OnlyTotals (fetch_stats (visited (codes "docsifer") one_visit)).0
    × All OnlyTotals (fetch_stats (visited (codes "docsifer") one_visit)).1
fetch_stats-OnlyTotals_example = fetch_stats-OnlyTotals (codes "docsifer") one_visit

abbrev world : World
world = record {
  loads = λ s. cookies none;
  mkdtemp = ok (codes "/tmp/docsifer-ui-1");
  copyfile = λ a b. none;
  convert = λ job. finished (record { filename = []; markdown = []; token_count = 0 });
  write_text = λ p. none;
  is_alnum = is_word;
  token = codes "0a1b";
  tmp_dir = codes "/tmp";
  timeout = 55;
  summary = λ r. codes "Done";
}

-- A path of the server in place of a URL.
abbrev form : Form
form = record {
  file_path = none;
  url_str = some (codes "/etc/motd.txt");
  base_url = [];
  api_key = [];
  model_id = [];
  cleanup = false;
  http_cookies = [];
}

run_conversion-IsManaged_example : IsManaged world form (run_conversion world form).0
run_conversion-IsManaged_example = run_conversion-IsManaged world form

run_conversion-reads_file_example :
    (job : Job) × (take 2 (run_conversion world form).0
      ≡ make_dir (codes "/tmp/docsifer-ui-1") ∷ convert_file job ∷ [])
    × ((convert_sync tools job.source markitdown job.http_config job.cleanup_html disk).0
        ≡ convert (codes "/etc/motd.txt") ∷ [])
unfolding normal docsifer.Prelude.Text.strip docsifer.Ui.Forms.parse_cookies
    docsifer.Core.Service.is_url docsifer.Prelude.Text.starts_with docsifer.Prelude.Text.lower
    Dict.get docsifer.Prelude.Text.split docsifer.Core.UrlGuard.one_of
    docsifer.Prelude.PathNames.suffix docsifer.Prelude.PathNames.name
    docsifer.Prelude.Text.contains_char docsifer.Prelude.Text.after_last
run_conversion-reads_file_example =
    run_conversion-reads_file world form (codes "/tmp/docsifer-ui-1") (codes "hello") none tools
      markitdown disk refl refl refl refl refl refl refl refl
