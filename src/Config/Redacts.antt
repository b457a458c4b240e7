-- ===== src/Config/Redacts.antt =====
-- The report of the configuration tells nothing of a secret but its length.
use sage_wiki_bridge_wxo.Base.{
  ℕ, ◌≤◌, ◌≡◌, refl, ap, Option, none, some, [], ◌∷◌, length, arith, length-append,
}
use sage_wiki_bridge_wxo.Text.{Text}
use sage_wiki_bridge_wxo.Text.Utf8.{utf8, utf8_char}
use sage_wiki_bridge_wxo.Config.App.{AppConfig, EnvSecrets}
use sage_wiki_bridge_wxo.Config.Resolve.{ResolvedValues}
use sage_wiki_bridge_wxo.Config.Report.{redacted, hidden, secret_entry, config_report_entries}

-- Both are missing, or both are there and have as many bytes.
abbrev pub IsAsLong : Option Text → Option Text → Type 0
IsAsLong none none = Unit
IsAsLong none (some t) = ⊥
IsAsLong (some s) none = ⊥
IsAsLong (some s) (some t) = length (utf8 s) ≡ length (utf8 t)

length-utf8_char : (c : ℕ) → 1 ≤ length (utf8_char c)
unfolding utf8_char
length-utf8_char c = ground arith

length-utf8_cons : (c : ℕ) (t : Text) → 1 ≤ length (utf8 (c ∷ t))
unfolding utf8
length-utf8_cons c t = omega (arith, length-utf8_char c, length-append {0} (utf8_char c) (utf8 t))

hidden-IsAsLong : (a b : Option Text) → IsAsLong a b → hidden a ≡ hidden b
hidden-IsAsLong none none h = refl
hidden-IsAsLong none (some t) h = elim h [ ]
hidden-IsAsLong (some s) none h = elim h [ ]
hidden-IsAsLong (some []) (some []) h = refl
hidden-IsAsLong (some []) (some (c ∷ t)) h =
    absurd (
      let k : 0 ≡ length (utf8 (c ∷ t)) = unfold utf8 in h in
      omega (arith, k, length-utf8_cons c t))
hidden-IsAsLong (some (c ∷ s)) (some []) h =
    absurd (
      let k : length (utf8 (c ∷ s)) ≡ 0 = unfold utf8 in h in
      omega (arith, k, length-utf8_cons c s))
hidden-IsAsLong (some (c ∷ s)) (some (d ∷ t)) h = unfold hidden in ap redacted h

-- Secrets of the same lengths.
pub record AreAsLong (a b : EnvSecrets) : Type 0 where
  pub wechat_token : IsAsLong a.wechat_token b.wechat_token
  pub wechat_app_id : IsAsLong a.wechat_app_id b.wechat_app_id
  pub wechat_app_secret : IsAsLong a.wechat_app_secret b.wechat_app_secret
  pub wechat_encoding_aes_key : IsAsLong a.wechat_encoding_aes_key b.wechat_encoding_aes_key
  pub admin_view_key : IsAsLong a.admin_view_key b.admin_view_key
  pub gemini_api_key : IsAsLong a.gemini_api_key b.gemini_api_key
  pub openai_api_key : IsAsLong a.openai_api_key b.openai_api_key
  pub anthropic_api_key : IsAsLong a.anthropic_api_key b.anthropic_api_key
  pub tencent_lbs_key : IsAsLong a.tencent_lbs_key b.tencent_lbs_key
  pub jina_api_key : IsAsLong a.jina_api_key b.jina_api_key
  pub admin_openids : length a.admin_openids ≡ length b.admin_openids

-- Configurations that differ in their secrets only, which have the same lengths, have one report.
pub config_report_entries-redacted :
    (app : AppConfig) (a b : EnvSecrets) (resolved : ResolvedValues)
    → AreAsLong a b
    → config_report_entries app a resolved ≡ config_report_entries app b resolved
unfolding config_report_entries secret_entry
config_report_entries-redacted app a b resolved same = rw (
  hidden-IsAsLong a.wechat_token b.wechat_token same.wechat_token,
  hidden-IsAsLong a.wechat_app_id b.wechat_app_id same.wechat_app_id,
  hidden-IsAsLong a.wechat_app_secret b.wechat_app_secret same.wechat_app_secret,
  hidden-IsAsLong a.wechat_encoding_aes_key b.wechat_encoding_aes_key same.wechat_encoding_aes_key,
  hidden-IsAsLong a.admin_view_key b.admin_view_key same.admin_view_key,
  hidden-IsAsLong a.gemini_api_key b.gemini_api_key same.gemini_api_key,
  hidden-IsAsLong a.openai_api_key b.openai_api_key same.openai_api_key,
  hidden-IsAsLong a.anthropic_api_key b.anthropic_api_key same.anthropic_api_key,
  hidden-IsAsLong a.tencent_lbs_key b.tencent_lbs_key same.tencent_lbs_key,
  hidden-IsAsLong a.jina_api_key b.jina_api_key same.jina_api_key,
  same.admin_openids,
)
