-- ===== src/Worker/MediaProcessor.antt =====
-- src/worker/media_processor.rs: the file of a message is downloaded and given to a model.
pub mod Paths
pub mod Processed
use sage_wiki_bridge_wxo.Base.{
  ℕ, Bool, true, false, Option, none, some, List, [], ◌∷◌, ◌++◌, ◌==◌, ◌||◌, if◌then◌else◌,
}
use sage_wiki_bridge_wxo.Text.{Text, lit, text_eq, is_empty}
use sage_wiki_bridge_wxo.Error.{
  BridgeError, external_payload_invalid, message_unsupported, Result, ok, err, ok_or,
}
use sage_wiki_bridge_wxo.Exec.{Exec, ◌>>=◌, lift, pure}
use sage_wiki_bridge_wxo.Files.{FilePath, FileSystem, Fault}
use sage_wiki_bridge_wxo.Wechat.Primitives.{Primitives}
use sage_wiki_bridge_wxo.Store.Schema.{MessageRow}
use sage_wiki_bridge_wxo.Preprocess.{
  ProcessedArtifact, ProcessedArtifactKind, ModelPreprocessOutput, process_model_output,
}
use sage_wiki_bridge_wxo.Llm.{MediaKind, LlmMediaRequest, LlmOutput}
use sage_wiki_bridge_wxo.Media.{
  AccessToken, CachedAccessToken, DownloadedMedia, WechatMediaClient, MediaApi, get_token,
  fetch_access_token, download_media,
}
use sage_wiki_bridge_wxo.Worker.Artifacts.{message_key}

pub record GeminiMediaJobProcessor : Type 0 where
  pub media_client : WechatMediaClient
  pub refresh_skew : ℕ
  pub raw_root : FilePath
  pub image_prompt : Text
  pub voice_prompt : Text
  pub video_prompt : Text

-- The files, and the token of the cache.
pub record MediaState : Type 0 where
  pub files : FileSystem
  pub cached : Option CachedAccessToken

-- What a message meets outside the program: the API, the model, the clock, and a fault.
pub record MediaSurroundings : Type 0 where
  pub api : MediaApi
  pub process_media : FileSystem → LlmMediaRequest → Result LlmOutput
  pub now : ℕ
  pub later : ℕ
  pub fault : Fault

unfoldable pub media_kind : Text → Result MediaKind
media_kind message_type =
    if text_eq message_type (lit "image")
    then ok MediaKind.image
    else if text_eq message_type (lit "voice")
    then ok MediaKind.voice
    else if text_eq message_type (lit "video")
    then ok MediaKind.video
    else if text_eq message_type (lit "shortvideo")
    then ok MediaKind.short_video
    else err (message_unsupported message_type)

unfoldable pub artifact_kind : Text → Result ProcessedArtifactKind
artifact_kind message_type =
    if text_eq message_type (lit "image")
    then ok ProcessedArtifactKind.image
    else if text_eq message_type (lit "voice")
    then ok ProcessedArtifactKind.voice
    else if text_eq message_type (lit "video")
    then ok ProcessedArtifactKind.video
    else if text_eq message_type (lit "shortvideo")
    then ok ProcessedArtifactKind.short_video
    else err (message_unsupported message_type)

-- `match voice_format`
unfoldable pub voice_mime_type : Option Text → Text
voice_mime_type none = lit "audio/amr"
voice_mime_type (some format) =
    if text_eq format (lit "mp3")
    then lit "audio/mpeg"
    else if text_eq format (lit "wav")
    then lit "audio/wav"
    else lit "audio/amr"

unfoldable pub mime_type : Text → Option Text → Text
unfolding voice_mime_type
mime_type message_type voice_format =
    if text_eq message_type (lit "image")
    then lit "image/jpeg"
    else if text_eq message_type (lit "voice")
    then voice_mime_type voice_format
    else if text_eq message_type (lit "video") || text_eq message_type (lit "shortvideo")
    then lit "video/mp4"
    else lit "application/octet-stream"

unfoldable pub prompt : Text → GeminiMediaJobProcessor → Text
prompt message_type processor =
    if text_eq message_type (lit "image")
    then processor.image_prompt
    else if text_eq message_type (lit "voice")
    then processor.voice_prompt
    else if text_eq message_type (lit "video") || text_eq message_type (lit "shortvideo")
    then processor.video_prompt
    else []

unfoldable pub extension_for_mime : Text → Text
extension_for_mime mime =
    if text_eq mime (lit "image/jpeg")
    then lit ".jpg"
    else if text_eq mime (lit "audio/mpeg")
    then lit ".mp3"
    else if text_eq mime (lit "audio/wav")
    then lit ".wav"
    else if text_eq mime (lit "audio/amr")
    then lit ".amr"
    else if text_eq mime (lit "video/mp4")
    then lit ".mp4"
    else lit ".bin"

-- The components of a text that is read as a relative path.
unfoldable pub add_to_component : ℕ → List Text → List Text
add_to_component c [] = (c ∷ []) ∷ []
add_to_component c (name ∷ names) = (c ∷ name) ∷ names

unfoldable pub split_path : Text → List Text
unfolding add_to_component
split_path [] = [] ∷ []
split_path (c ∷ t) =
    let rest = split_path t in if c == b'/' then [] ∷ rest else add_to_component c rest

unfoldable pub keep_components : List Text → List Text
keep_components [] = []
keep_components (name ∷ names) =
    if is_empty name || text_eq name (lit ".")
    then keep_components names
    else name ∷ keep_components names

unfoldable pub components : Text → List Text
unfolding split_path keep_components
components t = keep_components (split_path t)

-- `root.join(text)`: an absolute path replaces the root.
unfoldable pub join_path : FilePath → Text → FilePath
unfolding components
join_path root [] = root
join_path root (c ∷ t) = if c == b'/' then [] ∷ components t else root ++ components (c ∷ t)

-- The message id is not sanitized, so its components may be `..`, which stay in the path.
unfoldable pub target_path : GeminiMediaJobProcessor → MessageRow → Text → FilePath
unfolding message_key join_path extension_for_mime
target_path processor message mime =
    join_path processor.raw_root (message_key message)
    ++ (lit "media.original" ++ extension_for_mime mime) ∷ []

module _ (p : Primitives) (processor : GeminiMediaJobProcessor) (out : MediaSurroundings) where
  -- `self.token_cache.get_token()`
  unfoldable pub cached_token : Exec MediaState Text
  unfolding get_token fetch_access_token
  cached_token s =
      let r =
        get_token processor.refresh_skew (fetch_access_token out.api processor.media_client) out.now
          out.later s.cached in
      (r.0, record s { cached = r.1 })

  -- `self.media_client.download_media(…)`
  unfoldable pub download : Text → Text → FilePath → Exec MediaState DownloadedMedia
  unfolding download_media
  download access_token media_id path s =
      let r =
        download_media p out.fault out.api processor.media_client access_token media_id path
          s.files in
      (r.0, record s { files = r.1 })

  -- `self.llm_provider.process_media(…)`
  unfoldable pub ask_model : LlmMediaRequest → Exec MediaState LlmOutput
  ask_model request s = (out.process_media s.files request, s)

  unfoldable pub process_media_message : MessageRow → Exec MediaState ProcessedArtifact
  unfolding media_kind artifact_kind mime_type prompt target_path cached_token download ask_model
      message_key process_model_output
  process_media_message message = do
    media_id ← lift (ok_or message.media_id (external_payload_invalid (lit "media_id missing")))
    kind ← lift (media_kind message.message_type)
    artifact_kind' ← lift (artifact_kind message.message_type)
    let mime = mime_type message.message_type message.voice_format
    access_token ← cached_token
    downloaded ← download access_token media_id (target_path processor message mime)
    output ← ask_model (record {
      kind = kind;
      path = downloaded.path;
      mime_type = mime;
      system_prompt = prompt message.message_type processor;
    })
    pure (
        process_model_output (record {
          message_key = message_key message;
          kind = artifact_kind';
          markdown_body = output.text;
          provider = output.provider;
          model = output.model;
          raw_payload_paths = downloaded.path ∷ [];
          processed_payload_paths = [];
        }))
