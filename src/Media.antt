-- ===== src/Media.antt =====
-- src/media/mod.rs: the access tokens of WeChat's media API and their cache, and the download of a
-- file. The answers of the API are parameters.
pub mod Tokens
pub mod Downloads
pub mod Bytes
use sage_wiki_bridge_wxo.Base.{
  ℕ, ◌+◌, ◌-◌, ◌*◌, ◌^◌, ◌⊎◌, inl, inr, Bool, Option, none, some, List, [], ◌∷◌, ◌++◌, ltb,
  if◌then◌else◌, length,
}
use sage_wiki_bridge_wxo.Text.{Text, lit, show_nat, trim_end_matches}
use sage_wiki_bridge_wxo.Error.{
  BridgeError, io, external_request, external_payload_invalid, Result, ok, err, map_err,
}
use sage_wiki_bridge_wxo.Exec.{Exec}
use sage_wiki_bridge_wxo.Files.{
  FilePath, FileSystem, Fault, no_fault, at_directory, at_create, at_write, at_sync, at_rename,
  put_file, write_via, with_extension,
}
use sage_wiki_bridge_wxo.Wechat.Primitives.{Primitives}

pub record WechatApiConfig : Type 0 where
  pub api_base : Text
  pub app_id : Text
  pub app_secret : Text

pub record AccessToken : Type 0 where
  pub token : Text
  pub expires_in : ℕ

pub record DownloadedMedia : Type 0 where
  pub path : FilePath
  pub content_type : Option Text
  pub size_bytes : ℕ
  pub sha256 : Text

pub record WechatMediaClient : Type 0 where
  pub config : WechatApiConfig
  pub max_media_bytes : ℕ

-- An instant is the nanoseconds since some start.
pub record CachedAccessToken : Type 0 where
  pub token : Text
  pub expires_at : ℕ

-- The answer to a request for a token; the left result of `json` is the error's text.
pub record TokenResponse : Type 0 where
  pub is_success : Bool
  pub status : Text
  pub json : Text ⊎ AccessToken

-- What a round of the loop over the chunks meets: a chunk that is written, a chunk of which only a
-- part is written, or the end of the connection.
pub data Round : Type 0 where
  received : List ℕ → Round
  unwritten : List ℕ → List ℕ → Text → Round
  lost : Text → Round

pub record MediaResponse : Type 0 where
  pub is_success : Bool
  pub status : Text
  pub content_type : Option Text
  pub rounds : List Round

-- The answers to a request, by its address and its query.
pub record MediaApi : Type 0 where
  pub answer_token : Text → List (Text × Text) → Text ⊎ TokenResponse
  pub answer_media : Text → List (Text × Text) → Text ⊎ MediaResponse

-- `valid_cached_token`
unfoldable pub valid_cached_token : ℕ → Option CachedAccessToken → Option Text
valid_cached_token now none = none
valid_cached_token now (some cached) = if ltb now cached.expires_at then some cached.token else none

-- `Duration::from_secs(expires_in).saturating_sub(refresh_skew)`
unfoldable pub time_to_live : ℕ → AccessToken → ℕ
time_to_live refresh_skew fetched = fetched.expires_in * 10 ^ 9 - refresh_skew

unfoldable pub cached_from : ℕ → ℕ → AccessToken → CachedAccessToken
unfolding time_to_live
cached_from refresh_skew now fetched = record {
  token = fetched.token;
  expires_at = now + time_to_live refresh_skew fetched;
}

-- The cache is looked at at `now`, and what `fetch_access_token` gives is put into it at `later`.
unfoldable pub get_token : ℕ → Result AccessToken → ℕ → ℕ → Exec (Option CachedAccessToken) Text
unfolding valid_cached_token cached_from
get_token refresh_skew fetched now later cached = elim (valid_cached_token now cached) [
  | some token ↦ (ok token, cached)
  | none ↦ elim fetched [
    | err e ↦ (err e, cached)
    | ok answer ↦ (ok answer.token, some (cached_from refresh_skew later answer))
  ]
]

unfoldable pub fetch_access_token : MediaApi → WechatMediaClient → Result AccessToken
unfolding map_err
fetch_access_token api client =
    elim (map_err external_request (
      api.answer_token (trim_end_matches b'/' client.config.api_base ++ lit "/cgi-bin/token") (
        (lit "grant_type", lit "client_credential")
        ∷ (lit "appid", client.config.app_id)
        ∷ (lit "secret", client.config.app_secret)
        ∷ []))) [
          | err e ↦ err e
          | ok response ↦
              if response.is_success
              then map_err external_payload_invalid response.json
              else err (external_request (lit "WeChat token API returned " ++ response.status))
        ]

-- The loop: the size of what came, or why it stopped, and what is written.
unfoldable pub read_chunks : ℕ → List Round → ℕ → List ℕ → Result ℕ × List ℕ
read_chunks max_media_bytes [] size_bytes written = (ok size_bytes, written)
read_chunks max_media_bytes (lost e ∷ rounds) size_bytes written =
    (err (external_request e), written)
read_chunks max_media_bytes (received chunk ∷ rounds) size_bytes written =
    let rest = read_chunks max_media_bytes rounds (size_bytes + length chunk) (written ++ chunk) in
    if ltb max_media_bytes (size_bytes + length chunk)
    then (
      err (external_payload_invalid (lit "media exceeds max size " ++ show_nat max_media_bytes)),
      written,
    )
    else rest
read_chunks max_media_bytes (unwritten chunk part e ∷ rounds) size_bytes written =
    if ltb max_media_bytes (size_bytes + length chunk)
    then (
      err (external_payload_invalid (lit "media exceeds max size " ++ show_nat max_media_bytes)),
      written,
    )
    else (err (io e), written ++ part)

-- The loop stopped: the temporary file stays.
unfoldable pub break_off :
    {A : Type 0} → Fault → BridgeError → FilePath → List ℕ → Exec FileSystem A
unfolding put_file
break_off (at_directory e') e tmp_path written files = (err (io e'), files)
break_off (at_create e') e tmp_path written files = (err (io e'), files)
break_off no_fault e tmp_path written files = (err e, put_file tmp_path written files)
break_off (at_sync e') e tmp_path written files = (err e, put_file tmp_path written files)
break_off (at_rename e') e tmp_path written files = (err e, put_file tmp_path written files)
break_off (at_write e' part) e tmp_path written files = (err e, put_file tmp_path written files)

module _ (p : Primitives) (fault : Fault) (max_media_bytes : ℕ) (target_path : FilePath) where
  unfoldable pub save_chunks : Option Text → Result ℕ × List ℕ → Exec FileSystem DownloadedMedia
  unfolding break_off write_via with_extension
  save_chunks content_type (err e, written) files =
      break_off fault e (with_extension (lit "download.tmp") target_path) written files
  save_chunks content_type (ok size_bytes, written) files =
      let r =
        write_via fault (with_extension (lit "download.tmp") target_path) target_path written
          files in
      elim r.0 [
        | err e ↦ (err e, r.1)
        | ok u ↦ (
          ok (record {
            path = target_path;
            content_type = content_type;
            size_bytes = size_bytes;
            sha256 = p.sha256_hex written;
          }),
          r.1,
        )
      ]

  unfoldable pub save_response : Text ⊎ MediaResponse → Exec FileSystem DownloadedMedia
  unfolding save_chunks read_chunks
  save_response (inl e) files = (err (external_request e), files)
  save_response (inr response) files =
      if response.is_success
      then save_chunks response.content_type (read_chunks max_media_bytes response.rounds 0 [])
          files
      else (err (external_request (lit "WeChat media API returned " ++ response.status)), files)

unfoldable pub download_media :
    Primitives
    → Fault
    → MediaApi
    → WechatMediaClient
    → Text
    → Text
    → FilePath
    → Exec FileSystem DownloadedMedia
unfolding save_response
download_media p fault api client access_token media_id target_path =
    save_response p fault client.max_media_bytes target_path (
      api.answer_media (trim_end_matches b'/' client.config.api_base ++ lit "/cgi-bin/media/get")
        ((lit "access_token", access_token) ∷ (lit "media_id", media_id) ∷ []))
