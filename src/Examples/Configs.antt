-- ===== src/Examples/Configs.antt =====
-- The theorems on the configuration at concrete inputs.
use sage_wiki_bridge_wxo.Base.{◌≡◌, ◌⊎◌, refl, inr, true, Option, none, some, List, [], ◌∷◌, ◌++◌}
use sage_wiki_bridge_wxo.Text.{Text, lit, trim, is_whitespace, starts_with, text_eq}
use sage_wiki_bridge_wxo.Text.Utf8.{utf8}
use sage_wiki_bridge_wxo.Table.{first_where}
use sage_wiki_bridge_wxo.Error.{ok}
use sage_wiki_bridge_wxo.Dict.{Dict, insert}
use sage_wiki_bridge_wxo.Config.Keys.{flag_specs}
use sage_wiki_bridge_wxo.Config.App.{AppConfig, EnvSecrets}
use sage_wiki_bridge_wxo.Config.Cli.{CliConfig, no_options, split_once, find_key, parse}
use sage_wiki_bridge_wxo.Config.Cli.RoundTrip.{
  Given, joined, separate, arguments, collected, parse-arguments,
}
use sage_wiki_bridge_wxo.Config.Resolve.{
  ResolvedValues, no_values, resolve_values, from_process_env, insert_inputs, insert_cli,
}
use sage_wiki_bridge_wxo.Config.EnvFile.{
  load_env_file, read_lines, raw_lines, add_to_line, read_line, is_key, is_key_char,
  unquote_env_value, without_cr,
}
use sage_wiki_bridge_wxo.Config.Report.{config_report_entries}
use sage_wiki_bridge_wxo.Config.Redacts.{AreAsLong, config_report_entries-redacted}
use sage_wiki_bridge_wxo.Config.Sources.{
  found, over, last_option, of_file, of_process, found-resolve_values,
}

abbrev key : Text
key = lit "APP_BIND_ADDR"

-- An option of the command line over a file over a variable of the process.
abbrev cli : CliConfig
cli = record no_options {
  env_file = some (lit "f");
  use_process_env = true;
  values = (key, lit "1") ∷ [];
}

abbrev vars : List (Text × Text)
vars = (key, lit "2") ∷ []

abbrev read : Text → Text ⊎ Text
read path = inr (key ++ lit "=3")

abbrev order : Dict → List (Text × Text)
order entries = entries

abbrev resolved : ResolvedValues
resolved = insert_cli cli.values (
    insert_inputs (lit "env-file:" ++ lit "f") ((key, lit "3") ∷ [])
      (from_process_env cli vars no_values))

found-resolve_values_example :
    found key resolved
    ≡ over (last_option key cli.values) (
        over
          (of_file vars read order cli key)
          (over (of_process vars read order cli key) (none, none)))
unfolding resolve_values load_env_file read_lines raw_lines add_to_line read_line is_key is_key_char
    unquote_env_value without_cr split_once starts_with lit trim insert text_eq is_whitespace
found-resolve_values_example = found-resolve_values vars read order cli resolved key refl

abbrev options : List Given
options = joined (lit "--bind-addr") key (lit "1") ∷ separate (lit "--bind-addr") key (lit "2") ∷ []

parse-arguments_example :
    parse (lit "bridge" ∷ arguments options)
    ≡ ok (record no_options { values = collected [] options })
unfolding find_key first_where flag_specs text_eq starts_with lit
parse-arguments_example = parse-arguments (lit "bridge") options (refl, ((refl, refl), tt))

abbrev app : AppConfig
app = record {
  bind_addr = lit "x";
  database_url = lit "x";
  database_max_connections = 1;
  database_min_connections = 1;
  raw_archive_dir = lit "x";
  raw_archive_full = true;
  processed_artifact_dir = lit "x";
  source_dir = lit "x";
  source_log_dir = lit "x";
  callback_path = lit "x";
  encrypted_callback_enabled = true;
  honeypot_reply_enabled = true;
  honeypot_reply_text = lit "x";
  worker_enabled = true;
  worker_id = lit "x";
  bridge_version = lit "x";
  worker_interval = 1;
  worker_processing_timeout = 1;
  ai_source_thread_window = 1;
  worker_retry_base = 1;
  worker_retry_max = 1;
  http_timeout = 1;
  request_body_limit_bytes = 1;
  healthz_path = lit "x";
  readyz_path = lit "x";
  wechat_api_base = lit "x";
  max_media_bytes = 1;
  wechat_token_refresh_skew = 1;
  whitelist_join_command = none;
  gemini_endpoint_base = lit "x";
  gemini_model = lit "x";
  gemini_max_inline_bytes = 1;
  llm_image_system_prompt = lit "x";
  llm_voice_system_prompt = lit "x";
  llm_video_system_prompt = lit "x";
  tencent_lbs_endpoint = lit "x";
  tencent_lbs_get_poi = true;
  tencent_lbs_radius_meters = none;
  jina_reader_endpoint = lit "x";
  log_filter = lit "x";
  admin_base_path = lit "x";
  admin_default_per_page = 1;
  admin_max_per_page = 1;
}

abbrev secrets : Option Text → EnvSecrets
secrets key = record {
  wechat_app_id = key;
  wechat_app_secret = key;
  wechat_token = key;
  wechat_encoding_aes_key = key;
  admin_view_key = key;
  gemini_api_key = key;
  openai_api_key = key;
  anthropic_api_key = key;
  tencent_lbs_key = key;
  jina_api_key = key;
  admin_openids = [];
}

same_lengths : AreAsLong (secrets (some (lit "secret"))) (secrets (some (lit "hidden")))
unfolding lit utf8
same_lengths = record {
  wechat_app_id = refl;
  wechat_app_secret = refl;
  wechat_token = refl;
  wechat_encoding_aes_key = refl;
  admin_view_key = refl;
  gemini_api_key = refl;
  openai_api_key = refl;
  anthropic_api_key = refl;
  tencent_lbs_key = refl;
  jina_api_key = refl;
  admin_openids = refl;
}

config_report_entries-redacted_example :
    config_report_entries app (secrets (some (lit "secret"))) no_values
    ≡ config_report_entries app (secrets (some (lit "hidden"))) no_values
config_report_entries-redacted_example =
    config_report_entries-redacted app (secrets (some (lit "secret")))
      (secrets (some (lit "hidden"))) no_values same_lengths
