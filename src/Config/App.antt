-- ===== src/Config/App.antt =====
-- `AppConfig` and `EnvSecrets` of src/config.rs. Paths are texts; durations are whole milliseconds
-- (the worker's interval) or seconds. `usize` has 64 bits.
use sage_wiki_bridge_wxo.Base.{ℕ, ◌*◌, ◌%◌, ◌^◌, Bool, true, false, Option, List, [], ◌∷◌}
use sage_wiki_bridge_wxo.Text.{Text, lit, non_empty}
use sage_wiki_bridge_wxo.Error.{BridgeError, Result, ok, ◌>>=◌, ok_or}
use sage_wiki_bridge_wxo.Config.Values.{
  Lookup, get_string, get_optional_string, get_bool, get_uint, get_optional_uint, first_lookup,
  get_optional_from_lookup, parse_list_env,
}

pub record AppConfig : Type 0 where
  pub bind_addr : Text
  pub database_url : Text
  pub database_max_connections : ℕ
  pub database_min_connections : ℕ
  pub raw_archive_dir : Text
  pub raw_archive_full : Bool
  pub processed_artifact_dir : Text
  pub source_dir : Text
  pub source_log_dir : Text
  pub callback_path : Text
  pub encrypted_callback_enabled : Bool
  pub honeypot_reply_enabled : Bool
  pub honeypot_reply_text : Text
  pub worker_enabled : Bool
  pub worker_id : Text
  pub bridge_version : Text
  pub worker_interval : ℕ
  pub worker_processing_timeout : ℕ
  pub ai_source_thread_window : ℕ
  pub worker_retry_base : ℕ
  pub worker_retry_max : ℕ
  pub http_timeout : ℕ
  pub request_body_limit_bytes : ℕ
  pub healthz_path : Text
  pub readyz_path : Text
  pub wechat_api_base : Text
  pub max_media_bytes : ℕ
  pub wechat_token_refresh_skew : ℕ
  pub whitelist_join_command : Option Text
  pub gemini_endpoint_base : Text
  pub gemini_model : Text
  pub gemini_max_inline_bytes : ℕ
  pub llm_image_system_prompt : Text
  pub llm_voice_system_prompt : Text
  pub llm_video_system_prompt : Text
  pub tencent_lbs_endpoint : Text
  pub tencent_lbs_get_poi : Bool
  pub tencent_lbs_radius_meters : Option ℕ
  pub jina_reader_endpoint : Text
  pub log_filter : Text
  pub admin_base_path : Text
  pub admin_default_per_page : ℕ
  pub admin_max_per_page : ℕ

-- `env!("CARGO_PKG_VERSION")`
abbrev pub cargo_pkg_version : Text
cargo_pkg_version = lit "0.6.0"

-- `AppConfig::from_lookup`. The multiplication of the minutes wraps in a release build.
unfoldable pub app_config : Lookup → Result AppConfig
unfolding get_string get_optional_string get_bool get_uint get_optional_uint
app_config lookup = do
  database_max_connections ← get_uint 32 lookup (lit "DATABASE_MAX_CONNECTIONS") 4
  database_min_connections ← get_uint 32 lookup (lit "DATABASE_MIN_CONNECTIONS") 1
  raw_archive_full ← get_bool lookup (lit "RAW_ARCHIVE_FULL") true
  encrypted_callback_enabled ← get_bool lookup (lit "WECHAT_ENCRYPTED_CALLBACK_ENABLED") false
  honeypot_reply_enabled ← get_bool lookup (lit "HONEYPOT_REPLY_ENABLED") false
  worker_enabled ← get_bool lookup (lit "WORKER_ENABLED") true
  worker_interval ← get_uint 64 lookup (lit "WORKER_INTERVAL_MS") 1000
  worker_processing_timeout ← get_uint 64 lookup (lit "WORKER_PROCESSING_TIMEOUT_SECONDS") (15 * 60)
  ai_source_thread_window ← get_uint 64 lookup (lit "AI_SOURCE_THREAD_WINDOW_MINUTES") 30
  worker_retry_base ← get_uint 64 lookup (lit "WORKER_RETRY_BASE_SECONDS") 10
  worker_retry_max ← get_uint 64 lookup (lit "WORKER_RETRY_MAX_SECONDS") 300
  http_timeout ← get_uint 64 lookup (lit "HTTP_TIMEOUT_SECONDS") 30
  request_body_limit_bytes ← get_uint 64 lookup (lit "REQUEST_BODY_LIMIT_BYTES") (2 * 1024 * 1024)
  max_media_bytes ← get_uint 64 lookup (lit "MAX_MEDIA_BYTES") (20 * 1024 * 1024)
  wechat_token_refresh_skew ← get_uint 64 lookup (lit "WECHAT_TOKEN_REFRESH_SKEW_SECONDS") 300
  gemini_max_inline_bytes ← get_uint 64 lookup (lit "GEMINI_MAX_INLINE_BYTES") (18 * 1024 * 1024)
  tencent_lbs_get_poi ← get_bool lookup (lit "TENCENT_LBS_GET_POI") true
  tencent_lbs_radius_meters ← get_optional_uint 32 lookup (lit "TENCENT_LBS_RADIUS_METERS")
  admin_default_per_page ← get_uint 32 lookup (lit "ADMIN_DEFAULT_PER_PAGE") 20
  admin_max_per_page ← get_uint 32 lookup (lit "ADMIN_MAX_PER_PAGE") 100
  ok (record {
    bind_addr = get_string lookup (lit "APP_BIND_ADDR") (lit "127.0.0.1:8080");
    database_url = get_string lookup (lit "DATABASE_URL") (lit "sqlite://data/bridge.sqlite3");
    database_max_connections = database_max_connections;
    database_min_connections = database_min_connections;
    raw_archive_dir = get_string lookup (lit "RAW_ARCHIVE_DIR") (lit "data/raw");
    raw_archive_full = raw_archive_full;
    processed_artifact_dir =
        get_string lookup (lit "PROCESSED_ARTIFACT_DIR") (lit "data/processed");
    source_dir = get_string lookup (lit "SAGE_WIKI_SOURCE_DIR") (lit "source");
    source_log_dir = get_string lookup (lit "SAGE_WIKI_SOURCE_LOG_DIR") (lit "data/source-log");
    callback_path = get_string lookup (lit "WECHAT_CALLBACK_PATH") (lit "/wechat/callback");
    encrypted_callback_enabled = encrypted_callback_enabled;
    honeypot_reply_enabled = honeypot_reply_enabled;
    honeypot_reply_text = get_string lookup (lit "HONEYPOT_REPLY_TEXT") (lit "Message received.");
    worker_enabled = worker_enabled;
    worker_id = get_string lookup (lit "WORKER_ID") (lit "worker-main");
    bridge_version = get_string lookup (lit "BRIDGE_VERSION") cargo_pkg_version;
    worker_interval = worker_interval;
    worker_processing_timeout = worker_processing_timeout;
    ai_source_thread_window = ai_source_thread_window * 60 % 2 ^ 64;
    worker_retry_base = worker_retry_base;
    worker_retry_max = worker_retry_max;
    http_timeout = http_timeout;
    request_body_limit_bytes = request_body_limit_bytes;
    healthz_path = get_string lookup (lit "HEALTHZ_PATH") (lit "/healthz");
    readyz_path = get_string lookup (lit "READYZ_PATH") (lit "/readyz");
    wechat_api_base = get_string lookup (lit "WECHAT_API_BASE") (lit "https://api.weixin.qq.com");
    max_media_bytes = max_media_bytes;
    wechat_token_refresh_skew = wechat_token_refresh_skew;
    whitelist_join_command = get_optional_string lookup (lit "WHITELIST_JOIN_COMMAND");
    gemini_endpoint_base =
        get_string lookup (lit "GEMINI_ENDPOINT_BASE")
          (lit "https://generativelanguage.googleapis.com");
    gemini_model = get_string lookup (lit "GEMINI_MODEL") (lit "gemini-2.5-flash");
    gemini_max_inline_bytes = gemini_max_inline_bytes;
    llm_image_system_prompt =
        get_string lookup (lit "LLM_IMAGE_SYSTEM_PROMPT")
          (lit "Describe this image for a personal knowledge base.");
    llm_voice_system_prompt =
        get_string lookup (lit "LLM_VOICE_SYSTEM_PROMPT")
          (lit "Transcribe and summarize this voice message.");
    llm_video_system_prompt =
        get_string lookup (lit "LLM_VIDEO_SYSTEM_PROMPT")
          (lit "Summarize this video for a personal knowledge base.");
    tencent_lbs_endpoint =
        get_string lookup (lit "TENCENT_LBS_ENDPOINT")
          (lit "https://apis.map.qq.com/ws/geocoder/v1/");
    tencent_lbs_get_poi = tencent_lbs_get_poi;
    tencent_lbs_radius_meters = tencent_lbs_radius_meters;
    jina_reader_endpoint = get_string lookup (lit "JINA_READER_ENDPOINT") (lit "https://r.jina.ai");
    log_filter = get_string lookup (lit "RUST_LOG") (lit "info,sage_wiki_bridge=debug");
    admin_base_path = get_string lookup (lit "ADMIN_BASE_PATH") (lit "/admin");
    admin_default_per_page = admin_default_per_page;
    admin_max_per_page = admin_max_per_page;
  })

pub record EnvSecrets : Type 0 where
  pub wechat_app_id : Option Text
  pub wechat_app_secret : Option Text
  pub wechat_token : Option Text
  pub wechat_encoding_aes_key : Option Text
  pub admin_view_key : Option Text
  pub gemini_api_key : Option Text
  pub openai_api_key : Option Text
  pub anthropic_api_key : Option Text
  pub tencent_lbs_key : Option Text
  pub jina_api_key : Option Text
  pub admin_openids : List Text

-- `EnvSecrets::from_lookup`
unfoldable pub env_secrets : Lookup → EnvSecrets
unfolding first_lookup get_optional_from_lookup parse_list_env
env_secrets lookup = record {
  wechat_app_id = first_lookup lookup (lit "WECHAT_APP_ID" ∷ lit "WECHAT_APPID" ∷ []);
  wechat_app_secret = first_lookup lookup (lit "WECHAT_APP_SECRET" ∷ lit "WECHAT_APPSECRET" ∷ []);
  wechat_token = get_optional_from_lookup lookup (lit "WECHAT_TOKEN");
  wechat_encoding_aes_key = get_optional_from_lookup lookup (lit "WECHAT_ENCODING_AES_KEY");
  admin_view_key = get_optional_from_lookup lookup (lit "ADMIN_VIEW_KEY");
  gemini_api_key = get_optional_from_lookup lookup (lit "GEMINI_API_KEY");
  openai_api_key = get_optional_from_lookup lookup (lit "OPENAI_API_KEY");
  anthropic_api_key = get_optional_from_lookup lookup (lit "ANTHROPIC_API_KEY");
  tencent_lbs_key = get_optional_from_lookup lookup (lit "TENCENT_LBS_KEY");
  jina_api_key = get_optional_from_lookup lookup (lit "JINA_API_KEY");
  admin_openids = parse_list_env (get_optional_from_lookup lookup (lit "WECHAT_ADMIN_OPENIDS"));
}

unfoldable pub require_wechat_token : EnvSecrets → Result Text
unfolding non_empty
require_wechat_token secrets =
    ok_or (non_empty secrets.wechat_token) (BridgeError.config (lit "WECHAT_TOKEN is required"))
