-- ===== src/Config.antt =====
-- docsifer/config.py: the settings with their defaults, the validators and the properties. Reading
-- the environment is the work of pydantic-settings. A validator gets a text or a list of texts; any
-- other value is out of the model. Percentages and seconds are whole numbers.
pub mod Extensions
use docsifer.Prelude.{
  ℕ, ◌*◌, Bool, true, false, not, ◌&&◌, List, [], ◌∷◌, Option, none, some, map, Str, str_eq, ◌==◌,
  if◌then◌else◌,
}
use docsifer.Prelude.Text.{codes, split, strip, lower, starts_with, is_empty}

pub record Settings : Type 0 where
  pub app_name : Str
  pub app_version : Str
  pub environment : Str
  pub log_level : Str
  pub log_json : Bool
  pub cors_origins : List Str
  pub cors_allow_credentials : Bool
  pub request_timeout_sec : ℕ
  pub max_upload_bytes : ℕ
  pub gzip_min_size : ℕ
  pub enable_security_headers : Bool
  pub max_concurrent_conversions : ℕ
  pub max_queue_depth : ℕ
  pub max_per_ip_concurrent : ℕ
  pub worker_pool_size : ℕ
  pub min_free_memory_mb : ℕ
  pub min_free_disk_mb : ℕ
  pub memory_watchdog_pct : ℕ
  pub memory_watchdog_interval_sec : ℕ
  pub enable_memory_watchdog : Bool
  pub disk_cleanup_interval_sec : ℕ
  pub disk_cleanup_ttl_sec : ℕ
  pub token_model : Str
  pub default_openai_base_url : Str
  pub default_openai_model : Str
  pub openai_request_timeout_sec : ℕ
  pub openai_connect_timeout_sec : ℕ
  pub openai_max_retries : ℕ
  pub llm_cache_max_size : ℕ
  pub llm_cache_ttl_sec : ℕ
  pub allowed_extensions : List Str
  pub url_allow_private_networks : Bool
  pub url_allowed_schemes : List Str
  pub redis_url : Str
  pub redis_token : Option Str
  pub analytics_enabled : Bool
  pub analytics_sync_interval_sec : ℕ
  pub analytics_max_retries : ℕ
  pub analytics_label : Str
  pub quota_enabled : Bool
  pub quota_anon_rph : ℕ
  pub quota_anon_rpd : ℕ
  pub quota_byok_rph : ℕ
  pub quota_byok_rpd : ℕ
  pub quota_auth_keys : List Str
  pub enable_prometheus : Bool
  pub sentry_dsn : Option Str
  pub tmp_dir : Str

abbrev pub default_extensions : List Str
default_extensions =
    codes ".html"
    ∷ codes ".htm"
    ∷ codes ".zip"
    ∷ codes ".jpg"
    ∷ codes ".jpeg"
    ∷ codes ".png"
    ∷ codes ".gif"
    ∷ codes ".webp"
    ∷ codes ".csv"
    ∷ codes ".tsv"
    ∷ codes ".ipynb"
    ∷ codes ".msg"
    ∷ codes ".xml"
    ∷ codes ".docx"
    ∷ codes ".doc"
    ∷ codes ".json"
    ∷ codes ".pptx"
    ∷ codes ".ppt"
    ∷ codes ".xls"
    ∷ codes ".xlsx"
    ∷ codes ".pdf"
    ∷ codes ".mp3"
    ∷ codes ".wav"
    ∷ codes ".m4a"
    ∷ codes ".txt"
    ∷ codes ".md"
    ∷ codes ".rtf"
    ∷ []

-- The argument is `tempfile.gettempdir()`.
abbrev pub default_settings : Str → Settings
default_settings tmp_dir = record {
  app_name = codes "Docsifer";
  app_version = codes "1.1.0";
  environment = codes "production";
  log_level = codes "INFO";
  log_json = true;
  cors_origins = codes "*" ∷ [];
  cors_allow_credentials = false;
  request_timeout_sec = 55;
  max_upload_bytes = 10 * 1024 * 1024;
  gzip_min_size = 1024;
  enable_security_headers = true;
  max_concurrent_conversions = 2;
  max_queue_depth = 10;
  max_per_ip_concurrent = 1;
  worker_pool_size = 4;
  min_free_memory_mb = 512;
  min_free_disk_mb = 256;
  memory_watchdog_pct = 90;
  memory_watchdog_interval_sec = 30;
  enable_memory_watchdog = false;
  disk_cleanup_interval_sec = 600;
  disk_cleanup_ttl_sec = 3600;
  token_model = codes "gpt-4o";
  default_openai_base_url = codes "https://api.openai.com/v1";
  default_openai_model = codes "gpt-4o-mini";
  openai_request_timeout_sec = 60;
  openai_connect_timeout_sec = 10;
  openai_max_retries = 2;
  llm_cache_max_size = 16;
  llm_cache_ttl_sec = 600;
  allowed_extensions = default_extensions;
  url_allow_private_networks = false;
  url_allowed_schemes = codes "http" ∷ codes "https" ∷ [];
  redis_url = [];
  redis_token = none;
  analytics_enabled = true;
  analytics_sync_interval_sec = 1800;
  analytics_max_retries = 5;
  analytics_label = codes "docsifer";
  quota_enabled = false;
  quota_anon_rph = 10;
  quota_anon_rpd = 50;
  quota_byok_rph = 60;
  quota_byok_rpd = 500;
  quota_auth_keys = [];
  enable_prometheus = false;
  sentry_dsn = none;
  tmp_dir = tmp_dir;
}

-- The value that a validator gets.
pub data Raw : Type 0 where
  csv : Str → Raw
  items : List Str → Raw

-- [item.strip() for item in v if item.strip()]
unfoldable pub strip_items : List Str → List Str
strip_items [] = []
strip_items (s ∷ ss) =
    let rest = strip_items ss in if is_empty (strip s) then rest else strip s ∷ rest

unfoldable pub split_csv : Raw → List Str
unfolding strip_items
split_csv (csv s) = strip_items (split b',' s)
split_csv (items v) = v

unfoldable pub normalize_ext : Str → Str
normalize_ext e = if starts_with (codes ".") e then lower e else b'.' ∷ lower e

unfoldable pub normalize_exts : Raw → List Str
unfolding split_csv normalize_ext
normalize_exts v = map normalize_ext (split_csv v)

unfoldable pub analytics_persistent : Settings → Bool
analytics_persistent s = s.analytics_enabled && not (is_empty (strip s.redis_url))

abbrev pub member : Str → List Str → Bool
member s [] = false
member s (t ∷ ts) = if t == s then true else member s ts

unfoldable pub cors_allow_credentials_safe : Settings → Bool
cors_allow_credentials_safe s =
    if member (codes "*") s.cors_origins then false else s.cors_allow_credentials

unfoldable pub is_production : Settings → Bool
is_production s = s.environment == codes "production"
