-- ===== src/Config/Keys.antt =====
-- The tables of src/config.rs: the options of the command line with their keys, and other names of
-- the keys in the environment.
use sage_wiki_bridge_wxo.Base.{List, [], ◌∷◌}
use sage_wiki_bridge_wxo.Text.{Text, lit}

-- `FLAG_SPECS`
unfoldable pub flag_specs : List (Text × Text)
unfolding lit
flag_specs =
    (lit "--bind-addr", lit "APP_BIND_ADDR")
    ∷ (lit "--database-url", lit "DATABASE_URL")
    ∷ (lit "--database-max-connections", lit "DATABASE_MAX_CONNECTIONS")
    ∷ (lit "--database-min-connections", lit "DATABASE_MIN_CONNECTIONS")
    ∷ (lit "--raw-archive-dir", lit "RAW_ARCHIVE_DIR")
    ∷ (lit "--raw-archive-full", lit "RAW_ARCHIVE_FULL")
    ∷ (lit "--processed-artifact-dir", lit "PROCESSED_ARTIFACT_DIR")
    ∷ (lit "--sage-wiki-source-dir", lit "SAGE_WIKI_SOURCE_DIR")
    ∷ (lit "--sage-wiki-source-log-dir", lit "SAGE_WIKI_SOURCE_LOG_DIR")
    ∷ (lit "--wechat-callback-path", lit "WECHAT_CALLBACK_PATH")
    ∷ (lit "--wechat-encrypted-callback-enabled", lit "WECHAT_ENCRYPTED_CALLBACK_ENABLED")
    ∷ (lit "--honeypot-reply-enabled", lit "HONEYPOT_REPLY_ENABLED")
    ∷ (lit "--honeypot-reply-text", lit "HONEYPOT_REPLY_TEXT")
    ∷ (lit "--worker-enabled", lit "WORKER_ENABLED")
    ∷ (lit "--worker-id", lit "WORKER_ID")
    ∷ (lit "--bridge-version", lit "BRIDGE_VERSION")
    ∷ (lit "--worker-interval-ms", lit "WORKER_INTERVAL_MS")
    ∷ (lit "--worker-processing-timeout-seconds", lit "WORKER_PROCESSING_TIMEOUT_SECONDS")
    ∷ (lit "--ai-source-thread-window-minutes", lit "AI_SOURCE_THREAD_WINDOW_MINUTES")
    ∷ (lit "--worker-retry-base-seconds", lit "WORKER_RETRY_BASE_SECONDS")
    ∷ (lit "--worker-retry-max-seconds", lit "WORKER_RETRY_MAX_SECONDS")
    ∷ (lit "--http-timeout-seconds", lit "HTTP_TIMEOUT_SECONDS")
    ∷ (lit "--request-body-limit-bytes", lit "REQUEST_BODY_LIMIT_BYTES")
    ∷ (lit "--healthz-path", lit "HEALTHZ_PATH")
    ∷ (lit "--readyz-path", lit "READYZ_PATH")
    ∷ (lit "--wechat-api-base", lit "WECHAT_API_BASE")
    ∷ (lit "--max-media-bytes", lit "MAX_MEDIA_BYTES")
    ∷ (lit "--wechat-token-refresh-skew-seconds", lit "WECHAT_TOKEN_REFRESH_SKEW_SECONDS")
    ∷ (lit "--whitelist-join-command", lit "WHITELIST_JOIN_COMMAND")
    ∷ (lit "--gemini-endpoint-base", lit "GEMINI_ENDPOINT_BASE")
    ∷ (lit "--gemini-model", lit "GEMINI_MODEL")
    ∷ (lit "--gemini-max-inline-bytes", lit "GEMINI_MAX_INLINE_BYTES")
    ∷ (lit "--llm-image-system-prompt", lit "LLM_IMAGE_SYSTEM_PROMPT")
    ∷ (lit "--llm-voice-system-prompt", lit "LLM_VOICE_SYSTEM_PROMPT")
    ∷ (lit "--llm-video-system-prompt", lit "LLM_VIDEO_SYSTEM_PROMPT")
    ∷ (lit "--tencent-lbs-endpoint", lit "TENCENT_LBS_ENDPOINT")
    ∷ (lit "--tencent-lbs-get-poi", lit "TENCENT_LBS_GET_POI")
    ∷ (lit "--tencent-lbs-radius-meters", lit "TENCENT_LBS_RADIUS_METERS")
    ∷ (lit "--jina-reader-endpoint", lit "JINA_READER_ENDPOINT")
    ∷ (lit "--wechat-app-id", lit "WECHAT_APP_ID")
    ∷ (lit "--wechat-appid", lit "WECHAT_APP_ID")
    ∷ (lit "--wechat-app-secret", lit "WECHAT_APP_SECRET")
    ∷ (lit "--wechat-appsecret", lit "WECHAT_APP_SECRET")
    ∷ (lit "--wechat-token", lit "WECHAT_TOKEN")
    ∷ (lit "--wechat-encoding-aes-key", lit "WECHAT_ENCODING_AES_KEY")
    ∷ (lit "--admin-view-key", lit "ADMIN_VIEW_KEY")
    ∷ (lit "--admin-base-path", lit "ADMIN_BASE_PATH")
    ∷ (lit "--gemini-api-key", lit "GEMINI_API_KEY")
    ∷ (lit "--openai-api-key", lit "OPENAI_API_KEY")
    ∷ (lit "--anthropic-api-key", lit "ANTHROPIC_API_KEY")
    ∷ (lit "--tencent-lbs-key", lit "TENCENT_LBS_KEY")
    ∷ (lit "--jina-api-key", lit "JINA_API_KEY")
    ∷ (lit "--wechat-admin-openids", lit "WECHAT_ADMIN_OPENIDS")
    ∷ (lit "--rust-log", lit "RUST_LOG")
    ∷ (lit "--admin-default-per-page", lit "ADMIN_DEFAULT_PER_PAGE")
    ∷ (lit "--admin-max-per-page", lit "ADMIN_MAX_PER_PAGE")
    ∷ []

-- `ENV_ALIAS_SPECS`
unfoldable pub env_alias_specs : List (Text × Text)
unfolding lit
env_alias_specs =
    (lit "BRIDGE_BIND_ADDR", lit "APP_BIND_ADDR")
    ∷ (lit "BRIDGE_DATABASE_URL", lit "DATABASE_URL")
    ∷ (lit "BRIDGE_DATABASE_MAX_CONNECTIONS", lit "DATABASE_MAX_CONNECTIONS")
    ∷ (lit "BRIDGE_DATABASE_MIN_CONNECTIONS", lit "DATABASE_MIN_CONNECTIONS")
    ∷ (lit "BRIDGE_RAW_ARCHIVE_DIR", lit "RAW_ARCHIVE_DIR")
    ∷ (lit "BRIDGE_RAW_ARCHIVE_FULL", lit "RAW_ARCHIVE_FULL")
    ∷ (lit "BRIDGE_PROCESSED_ARTIFACT_DIR", lit "PROCESSED_ARTIFACT_DIR")
    ∷ (lit "BRIDGE_SAGE_WIKI_SOURCE_DIR", lit "SAGE_WIKI_SOURCE_DIR")
    ∷ (lit "BRIDGE_SAGE_WIKI_SOURCE_LOG_DIR", lit "SAGE_WIKI_SOURCE_LOG_DIR")
    ∷ (lit "BRIDGE_WECHAT_CALLBACK_PATH", lit "WECHAT_CALLBACK_PATH")
    ∷ (lit "BRIDGE_WECHAT_ENCRYPTED_CALLBACK_ENABLED", lit "WECHAT_ENCRYPTED_CALLBACK_ENABLED")
    ∷ (lit "BRIDGE_HONEYPOT_REPLY_ENABLED", lit "HONEYPOT_REPLY_ENABLED")
    ∷ (lit "BRIDGE_HONEYPOT_REPLY_TEXT", lit "HONEYPOT_REPLY_TEXT")
    ∷ (lit "BRIDGE_WORKER_ENABLED", lit "WORKER_ENABLED")
    ∷ (lit "BRIDGE_WORKER_ID", lit "WORKER_ID")
    ∷ (lit "BRIDGE_APP_VERSION", lit "BRIDGE_VERSION")
    ∷ (lit "BRIDGE_BRIDGE_VERSION", lit "BRIDGE_VERSION")
    ∷ (lit "BRIDGE_WORKER_INTERVAL_MS", lit "WORKER_INTERVAL_MS")
    ∷ (lit "BRIDGE_WORKER_PROCESSING_TIMEOUT_SECONDS", lit "WORKER_PROCESSING_TIMEOUT_SECONDS")
    ∷ (lit "BRIDGE_AI_SOURCE_THREAD_WINDOW_MINUTES", lit "AI_SOURCE_THREAD_WINDOW_MINUTES")
    ∷ (lit "BRIDGE_WORKER_RETRY_BASE_SECONDS", lit "WORKER_RETRY_BASE_SECONDS")
    ∷ (lit "BRIDGE_WORKER_RETRY_MAX_SECONDS", lit "WORKER_RETRY_MAX_SECONDS")
    ∷ (lit "BRIDGE_HTTP_TIMEOUT_SECONDS", lit "HTTP_TIMEOUT_SECONDS")
    ∷ (lit "BRIDGE_REQUEST_BODY_LIMIT_BYTES", lit "REQUEST_BODY_LIMIT_BYTES")
    ∷ (lit "BRIDGE_HEALTHZ_PATH", lit "HEALTHZ_PATH")
    ∷ (lit "BRIDGE_READYZ_PATH", lit "READYZ_PATH")
    ∷ (lit "BRIDGE_WECHAT_API_BASE", lit "WECHAT_API_BASE")
    ∷ (lit "BRIDGE_MAX_MEDIA_BYTES", lit "MAX_MEDIA_BYTES")
    ∷ (lit "BRIDGE_WECHAT_TOKEN_REFRESH_SKEW_SECONDS", lit "WECHAT_TOKEN_REFRESH_SKEW_SECONDS")
    ∷ (lit "BRIDGE_WHITELIST_JOIN_COMMAND", lit "WHITELIST_JOIN_COMMAND")
    ∷ (lit "BRIDGE_GEMINI_ENDPOINT_BASE", lit "GEMINI_ENDPOINT_BASE")
    ∷ (lit "BRIDGE_GEMINI_MODEL", lit "GEMINI_MODEL")
    ∷ (lit "BRIDGE_GEMINI_MAX_INLINE_BYTES", lit "GEMINI_MAX_INLINE_BYTES")
    ∷ (lit "BRIDGE_LLM_IMAGE_SYSTEM_PROMPT", lit "LLM_IMAGE_SYSTEM_PROMPT")
    ∷ (lit "BRIDGE_LLM_VOICE_SYSTEM_PROMPT", lit "LLM_VOICE_SYSTEM_PROMPT")
    ∷ (lit "BRIDGE_LLM_VIDEO_SYSTEM_PROMPT", lit "LLM_VIDEO_SYSTEM_PROMPT")
    ∷ (lit "BRIDGE_TENCENT_LBS_ENDPOINT", lit "TENCENT_LBS_ENDPOINT")
    ∷ (lit "BRIDGE_TENCENT_LBS_GET_POI", lit "TENCENT_LBS_GET_POI")
    ∷ (lit "BRIDGE_TENCENT_LBS_RADIUS_METERS", lit "TENCENT_LBS_RADIUS_METERS")
    ∷ (lit "BRIDGE_JINA_READER_ENDPOINT", lit "JINA_READER_ENDPOINT")
    ∷ (lit "BRIDGE_RUST_LOG", lit "RUST_LOG")
    ∷ (lit "BRIDGE_ADMIN_BASE_PATH", lit "ADMIN_BASE_PATH")
    ∷ (lit "BRIDGE_ADMIN_DEFAULT_PER_PAGE", lit "ADMIN_DEFAULT_PER_PAGE")
    ∷ (lit "BRIDGE_ADMIN_MAX_PER_PAGE", lit "ADMIN_MAX_PER_PAGE")
    ∷ (lit "BRIDGE_WECHAT_APP_ID", lit "WECHAT_APP_ID")
    ∷ (lit "BRIDGE_WECHAT_APPID", lit "WECHAT_APP_ID")
    ∷ (lit "BRIDGE_WECHAT_APP_SECRET", lit "WECHAT_APP_SECRET")
    ∷ (lit "BRIDGE_WECHAT_APPSECRET", lit "WECHAT_APP_SECRET")
    ∷ (lit "BRIDGE_WECHAT_TOKEN", lit "WECHAT_TOKEN")
    ∷ (lit "BRIDGE_WECHAT_ENCODING_AES_KEY", lit "WECHAT_ENCODING_AES_KEY")
    ∷ (lit "BRIDGE_ADMIN_VIEW_KEY", lit "ADMIN_VIEW_KEY")
    ∷ (lit "BRIDGE_GEMINI_API_KEY", lit "GEMINI_API_KEY")
    ∷ (lit "BRIDGE_OPENAI_API_KEY", lit "OPENAI_API_KEY")
    ∷ (lit "BRIDGE_ANTHROPIC_API_KEY", lit "ANTHROPIC_API_KEY")
    ∷ (lit "BRIDGE_TENCENT_LBS_KEY", lit "TENCENT_LBS_KEY")
    ∷ (lit "BRIDGE_JINA_API_KEY", lit "JINA_API_KEY")
    ∷ (lit "BRIDGE_WECHAT_ADMIN_OPENIDS", lit "WECHAT_ADMIN_OPENIDS")
    ∷ []
