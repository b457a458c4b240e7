-- ===== src/Config/Report.antt =====
-- `config_report_entries` of src/config.rs: every value with its source, and the secrets as lengths.
use sage_wiki_bridge_wxo.Base.{
  ℕ, ◌/◌, Bool, true, false, Option, none, some, List, [], ◌∷◌, ◌++◌, length, unwrap_or,
}
use sage_wiki_bridge_wxo.Text.{Text, lit, show_nat}
use sage_wiki_bridge_wxo.Text.Utf8.{utf8}
use sage_wiki_bridge_wxo.Config.App.{AppConfig, EnvSecrets}
use sage_wiki_bridge_wxo.Config.Resolve.{ResolvedValues, source}

pub record ConfigReportEntry : Type 0 where
  pub key : Text
  pub flag : Text
  pub value : Text
  pub source : Text
  pub secret : Bool

unfoldable pub entry : ResolvedValues → Text → Text → Text → Bool → ConfigReportEntry
entry resolved key flag value secret = record {
  key = key;
  flag = flag;
  value = value;
  source = source resolved key;
  secret = secret;
}

unfoldable pub show_bool : Bool → Text
show_bool true = lit "true"
show_bool false = lit "false"

unfoldable pub opt_nat : Option ℕ → Text
opt_nat none = []
opt_nat (some n) = show_nat n

unfoldable pub redacted : ℕ → Text
redacted n = lit "<redacted:" ++ (show_nat n ++ lit ">")

-- The length of a value that is not empty.
unfoldable pub hidden : Option Text → Text
unfolding redacted
hidden none = []
hidden (some []) = []
hidden (some (c ∷ t)) = redacted (length (utf8 (c ∷ t)))

unfoldable pub secret_entry : ResolvedValues → Text → Text → Option Text → ConfigReportEntry
unfolding entry hidden
secret_entry resolved key flag value = entry resolved key flag (hidden value) true

unfoldable pub config_report_entries :
    AppConfig → EnvSecrets → ResolvedValues → List ConfigReportEntry
unfolding entry secret_entry show_bool opt_nat
config_report_entries app secrets resolved =
    entry resolved (lit "APP_BIND_ADDR") (lit "--bind-addr") app.bind_addr false
    ∷ entry resolved (lit "DATABASE_URL") (lit "--database-url") app.database_url false
    ∷ entry resolved (lit "DATABASE_MAX_CONNECTIONS") (lit "--database-max-connections")
        (show_nat app.database_max_connections) false
    ∷ entry resolved (lit "DATABASE_MIN_CONNECTIONS") (lit "--database-min-connections")
        (show_nat app.database_min_connections) false
    ∷ entry resolved (lit "RAW_ARCHIVE_DIR") (lit "--raw-archive-dir") app.raw_archive_dir false
    ∷ entry resolved (lit "RAW_ARCHIVE_FULL") (lit "--raw-archive-full")
        (show_bool app.raw_archive_full) false
    ∷ entry resolved (lit "PROCESSED_ARTIFACT_DIR") (lit "--processed-artifact-dir")
        app.processed_artifact_dir false
    ∷ entry resolved (lit "SAGE_WIKI_SOURCE_DIR") (lit "--sage-wiki-source-dir") app.source_dir
        false
    ∷ entry resolved (lit "SAGE_WIKI_SOURCE_LOG_DIR") (lit "--sage-wiki-source-log-dir")
        app.source_log_dir false
    ∷ entry resolved (lit "WECHAT_CALLBACK_PATH") (lit "--wechat-callback-path") app.callback_path
        false
    ∷ entry resolved (lit "WECHAT_ENCRYPTED_CALLBACK_ENABLED")
        (lit "--wechat-encrypted-callback-enabled") (show_bool app.encrypted_callback_enabled) false
    ∷ entry resolved (lit "HONEYPOT_REPLY_ENABLED") (lit "--honeypot-reply-enabled")
        (show_bool app.honeypot_reply_enabled) false
    ∷ entry resolved (lit "HONEYPOT_REPLY_TEXT") (lit "--honeypot-reply-text")
        app.honeypot_reply_text false
    ∷ entry resolved (lit "WORKER_ENABLED") (lit "--worker-enabled") (show_bool app.worker_enabled)
        false
    ∷ entry resolved (lit "WORKER_ID") (lit "--worker-id") app.worker_id false
    ∷ entry resolved (lit "BRIDGE_VERSION") (lit "--bridge-version") app.bridge_version false
    ∷ entry resolved (lit "WORKER_INTERVAL_MS") (lit "--worker-interval-ms")
        (show_nat app.worker_interval) false
    ∷ entry resolved (lit "WORKER_PROCESSING_TIMEOUT_SECONDS")
        (lit "--worker-processing-timeout-seconds") (show_nat app.worker_processing_timeout) false
    ∷ entry resolved (lit "AI_SOURCE_THREAD_WINDOW_MINUTES")
        (lit "--ai-source-thread-window-minutes") (show_nat (app.ai_source_thread_window / 60))
        false
    ∷ entry resolved (lit "WORKER_RETRY_BASE_SECONDS") (lit "--worker-retry-base-seconds")
        (show_nat app.worker_retry_base) false
    ∷ entry resolved (lit "WORKER_RETRY_MAX_SECONDS") (lit "--worker-retry-max-seconds")
        (show_nat app.worker_retry_max) false
    ∷ entry resolved (lit "HTTP_TIMEOUT_SECONDS") (lit "--http-timeout-seconds")
        (show_nat app.http_timeout) false
    ∷ entry resolved (lit "REQUEST_BODY_LIMIT_BYTES") (lit "--request-body-limit-bytes")
        (show_nat app.request_body_limit_bytes) false
    ∷ entry resolved (lit "HEALTHZ_PATH") (lit "--healthz-path") app.healthz_path false
    ∷ entry resolved (lit "READYZ_PATH") (lit "--readyz-path") app.readyz_path false
    ∷ entry resolved (lit "WECHAT_API_BASE") (lit "--wechat-api-base") app.wechat_api_base false
    ∷ entry resolved (lit "MAX_MEDIA_BYTES") (lit "--max-media-bytes")
        (show_nat app.max_media_bytes) false
    ∷ entry resolved (lit "WECHAT_TOKEN_REFRESH_SKEW_SECONDS")
        (lit "--wechat-token-refresh-skew-seconds") (show_nat app.wechat_token_refresh_skew) false
    ∷ entry resolved (lit "WHITELIST_JOIN_COMMAND") (lit "--whitelist-join-command")
        (unwrap_or [] app.whitelist_join_command) false
    ∷ entry resolved (lit "GEMINI_ENDPOINT_BASE") (lit "--gemini-endpoint-base")
        app.gemini_endpoint_base false
    ∷ entry resolved (lit "GEMINI_MODEL") (lit "--gemini-model") app.gemini_model false
    ∷ entry resolved (lit "GEMINI_MAX_INLINE_BYTES") (lit "--gemini-max-inline-bytes")
        (show_nat app.gemini_max_inline_bytes) false
    ∷ entry resolved (lit "LLM_IMAGE_SYSTEM_PROMPT") (lit "--llm-image-system-prompt")
        app.llm_image_system_prompt false
    ∷ entry resolved (lit "LLM_VOICE_SYSTEM_PROMPT") (lit "--llm-voice-system-prompt")
        app.llm_voice_system_prompt false
    ∷ entry resolved (lit "LLM_VIDEO_SYSTEM_PROMPT") (lit "--llm-video-system-prompt")
        app.llm_video_system_prompt false
    ∷ entry resolved (lit "TENCENT_LBS_ENDPOINT") (lit "--tencent-lbs-endpoint")
        app.tencent_lbs_endpoint false
    ∷ entry resolved (lit "TENCENT_LBS_GET_POI") (lit "--tencent-lbs-get-poi")
        (show_bool app.tencent_lbs_get_poi) false
    ∷ entry resolved (lit "TENCENT_LBS_RADIUS_METERS") (lit "--tencent-lbs-radius-meters")
        (opt_nat app.tencent_lbs_radius_meters) false
    ∷ entry resolved (lit "JINA_READER_ENDPOINT") (lit "--jina-reader-endpoint")
        app.jina_reader_endpoint false
    ∷ entry resolved (lit "RUST_LOG") (lit "--rust-log") app.log_filter false
    ∷ entry resolved (lit "ADMIN_BASE_PATH") (lit "--admin-base-path") app.admin_base_path false
    ∷ entry resolved (lit "ADMIN_DEFAULT_PER_PAGE") (lit "--admin-default-per-page")
        (show_nat app.admin_default_per_page) false
    ∷ entry resolved (lit "ADMIN_MAX_PER_PAGE") (lit "--admin-max-per-page")
        (show_nat app.admin_max_per_page) false
    ∷ secret_entry resolved (lit "WECHAT_TOKEN") (lit "--wechat-token") secrets.wechat_token
    ∷ secret_entry resolved (lit "WECHAT_APP_ID") (lit "--wechat-app-id") secrets.wechat_app_id
    ∷ secret_entry resolved (lit "WECHAT_APP_SECRET") (lit "--wechat-app-secret")
        secrets.wechat_app_secret
    ∷ secret_entry resolved (lit "WECHAT_ENCODING_AES_KEY") (lit "--wechat-encoding-aes-key")
        secrets.wechat_encoding_aes_key
    ∷ secret_entry resolved (lit "ADMIN_VIEW_KEY") (lit "--admin-view-key") secrets.admin_view_key
    ∷ secret_entry resolved (lit "GEMINI_API_KEY") (lit "--gemini-api-key") secrets.gemini_api_key
    ∷ secret_entry resolved (lit "OPENAI_API_KEY") (lit "--openai-api-key") secrets.openai_api_key
    ∷ secret_entry resolved (lit "ANTHROPIC_API_KEY") (lit "--anthropic-api-key")
        secrets.anthropic_api_key
    ∷ secret_entry resolved (lit "TENCENT_LBS_KEY") (lit "--tencent-lbs-key")
        secrets.tencent_lbs_key
    ∷ secret_entry resolved (lit "JINA_API_KEY") (lit "--jina-api-key") secrets.jina_api_key
    ∷ entry resolved (lit "WECHAT_ADMIN_OPENIDS") (lit "--wechat-admin-openids")
        (redacted (length secrets.admin_openids)) true
    ∷ []
