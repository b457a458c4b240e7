-- ===== src/Worker/MediaProcessor/Processed.antt =====
-- What a processed file of a message is.
use sage_wiki_bridge_wxo.Base.{
  ℕ, ◌≤◌, ◌≡◌, ◌≢◌, ap, sym, ◌∙◌, inr, true, false, some, List, [], ◌∷◌, ◌++◌, length,
}
use sage_wiki_bridge_wxo.Text.{Text, lit, trim_end_matches}
use sage_wiki_bridge_wxo.Error.{Result, ok, ok_or-eq-ok}
use sage_wiki_bridge_wxo.Exec.{bind-eq-ok, lift-eq-ok, pure-eq-ok}
use sage_wiki_bridge_wxo.Files.{FilePath, FileSystem, with_extension, is_refused}
use sage_wiki_bridge_wxo.Wechat.Primitives.{Primitives}
use sage_wiki_bridge_wxo.Store.Schema.{MessageRow}
use sage_wiki_bridge_wxo.Preprocess.{ProcessedArtifact, process_model_output, new_artifact}
use sage_wiki_bridge_wxo.Llm.{MediaKind, LlmMediaRequest, LlmOutput}
use sage_wiki_bridge_wxo.Media.{DownloadedMedia, MediaResponse, download_media}
use sage_wiki_bridge_wxo.Media.Bytes.{chunks, download_media-bytes}
use sage_wiki_bridge_wxo.Media.Downloads.{IsDownload, download_media-IsDownload}
use sage_wiki_bridge_wxo.Worker.Artifacts.{message_key}
use sage_wiki_bridge_wxo.Worker.MediaProcessor.{
  GeminiMediaJobProcessor, MediaState, MediaSurroundings, media_kind, artifact_kind, mime_type,
  prompt, extension_for_mime, target_path, cached_token, download, ask_model, process_media_message,
}
use sage_wiki_bridge_wxo.Worker.MediaProcessor.Paths.{target_path-ne, target_path-name}

some_injective : {a b : List ℕ} → some a ≡ some b → a ≡ b
some_injective e = cc e

module _ (p : Primitives) (processor : GeminiMediaJobProcessor) (out : MediaSurroundings)
    (message : MessageRow) where
  abbrev pub mime : Text
  mime = mime_type message.message_type message.voice_format

  abbrev pub target : FilePath
  target = target_path processor message mime

  abbrev pub request : MediaKind → LlmMediaRequest
  request kind = record {
    kind = kind;
    path = target;
    mime_type = mime;
    system_prompt = prompt message.message_type processor;
  }

  -- The bytes of the message's medium are there, below the root and within the limit, and the model
  -- was asked about them.
  pub record IsMediaArtifact (s s' : MediaState) (artifact : ProcessedArtifact) : Type 0 where
    pub kind : MediaKind
    pub output : LlmOutput
    pub media_id : Text
    pub access_token : Text
    pub tokened : MediaState
    pub response : MediaResponse
    pub is_media_id : message.media_id ≡ some media_id
    pub is_token : cached_token p processor out s ≡ (ok access_token, tokened)
    pub is_response :
        out.api.answer_media
          (trim_end_matches b'/' processor.media_client.config.api_base ++ lit "/cgi-bin/media/get")
          ((lit "access_token", access_token) ∷ (lit "media_id", media_id) ∷ [])
        ≡ inr response
    pub is_success : response.is_success ≡ true
    pub is_place :
        target
        ≡ processor.raw_root
          ++ message_key message ∷ (lit "media.original" ++ extension_for_mime mime) ∷ []
    pub is_kind : media_kind message.message_type ≡ ok kind
    pub is_artifact_kind : artifact_kind message.message_type ≡ ok artifact.kind
    pub is_key : artifact.message_key ≡ message_key message
    pub is_path : artifact.raw_payload_paths ≡ target ∷ []
    pub holds : s'.files target ≡ some (chunks response.rounds)
    pub is_small : length (chunks response.rounds) ≤ processor.media_client.max_media_bytes
    pub asked : out.process_media s'.files (request kind) ≡ ok output
    pub is_text : artifact.markdown_body ≡ output.text
    pub others :
        (q : FilePath)
        → q ≢ target
        → q ≢ with_extension (lit "download.tmp") target
        → s'.files q ≡ s.files q

  cached_token-files :
      (s t : MediaState) (token : Text)
      → cached_token p processor out s ≡ (ok token, t)
      → t.files ≡ s.files
  unfolding cached_token
  cached_token-files s t token h = ap (λ r. r.1.files) (sym h)

  download_sound :
      (s t : MediaState) (token media_id : Text) (media : DownloadedMedia)
      → download p processor out token media_id target s ≡ (ok media, t)
      → (r : Result DownloadedMedia × FileSystem) × IsDownload p out.fault
          processor.media_client.max_media_bytes target
          (target_path-ne processor message mime)
          s.files
          r
        × (r.0 ≡ ok media)
        × (t.files ≡ r.1)
        × ((response : MediaResponse) × (out.api.answer_media
                (trim_end_matches b'/' processor.media_client.config.api_base
                  ++ lit "/cgi-bin/media/get")
                ((lit "access_token", token) ∷ (lit "media_id", media_id) ∷ [])
              ≡ inr response)
            × (response.is_success ≡ true)
            × (t.files target ≡ some (chunks response.rounds)))
  unfolding download
  download_sound s t token media_id media h = (
    download_media p out.fault out.api processor.media_client token media_id target s.files,
    download_media-IsDownload p out.fault out.api processor.media_client token media_id target
        s.files (target_path-ne processor message mime),
    ap (λ r. r.0) h,
    ap (λ r. r.1.files) (sym h),
    download_media-bytes p out.fault out.api processor.media_client token media_id target s.files
        t.files media (target_path-ne processor message mime) (ap (λ r. (r.0, r.1.files)) h),
  )

  -- Where a message whose id is one name is processed, the file in the directory of this name below
  -- the root has the bytes that a successful answer sent for the medium of the message, with the
  -- token of the cache and within the limit of the client, and the text of the artifact is what the
  -- model answered about that file; no other file changes but a temporary one.
  pub process_media_message-IsMediaArtifact :
      (s s' : MediaState) (artifact : ProcessedArtifact)
      → is_refused (message_key message) ≡ false
      → process_media_message p processor out message s ≡ (ok artifact, s')
      → IsMediaArtifact s s' artifact
  unfolding process_media_message
  process_media_message-IsMediaArtifact s s' artifact named h =
      let (media_id, t₁, e₁, h₁) = bind-eq-ok _ s' _ s h in
      let (kind, t₂, e₂, h₂) = bind-eq-ok _ s' _ t₁ h₁ in
      let (artifact_kind', t₃, e₃, h₃) = bind-eq-ok _ s' _ t₂ h₂ in
      let (token, t₄, e₄, h₄) = bind-eq-ok _ s' _ t₃ h₃ in
      let (media, t₅, e₅, h₅) = bind-eq-ok _ s' _ t₄ h₄ in
      let (output, t₆, e₆, h₆) = bind-eq-ok _ s' _ t₅ h₅ in
      let start : s ≡ t₃ =
        (lift-eq-ok _ s t₁ e₁).1 ∙ (lift-eq-ok _ t₁ t₂ e₂).1 ∙ (lift-eq-ok _ t₂ t₃ e₃).1 in
      let before : t₄.files ≡ s.files =
        cached_token-files t₃ t₄ token e₄ ∙ ap (λ t. t.files) (sym start) in
      let (r, downloaded, saved, after, (response, answered_media, succeeded, got)) =
        download_sound t₄ t₅ token media_id media e₅ in
      let (bytes, holds, is_path, _, small, _) = downloaded.written saved in
      let has_chunks : bytes ≡ chunks response.rounds =
        some_injective (sym holds ∙ ap (λ f. f target) (sym after) ∙ got) in
      let answered : out.process_media t₅.files (record (request kind) { path = media.path })
          ≡ ok output =
        unfold ask_model in ap (λ r. r.0) e₆ in
      let same : t₅ ≡ s' =
        (unfold ask_model in ap (λ r. r.1) e₆) ∙ (pure-eq-ok _ artifact t₆ s' h₆).1 in
      let made : process_model_output (record {
        message_key = message_key message;
        kind = artifact_kind';
        markdown_body = output.text;
        provider = output.provider;
        model = output.model;
        raw_payload_paths = media.path ∷ [];
        processed_payload_paths = [];
      })
          ≡ artifact =
        (pure-eq-ok _ artifact t₆ s' h₆).0 in
      let files : s'.files ≡ r.1 = ap (λ t. t.files) (sym same) ∙ after in
      record {
        kind = kind;
        output = output;
        media_id = media_id;
        access_token = token;
        tokened = t₄;
        response = response;
        is_media_id = ok_or-eq-ok message.media_id _ (lift-eq-ok _ s t₁ e₁).0;
        is_token = ap (cached_token p processor out) start ∙ e₄;
        is_response = answered_media;
        is_success = succeeded;
        is_place = target_path-name processor message mime named;
        is_kind = (lift-eq-ok _ t₁ t₂ e₂).0;
        is_artifact_kind =
            (lift-eq-ok _ t₂ t₃ e₃).0
            ∙ (unfold process_model_output new_artifact in ap (λ a. ok a.kind) made);
        is_key = unfold process_model_output new_artifact in ap (λ a. a.message_key) (sym made);
        is_path =
            (unfold process_model_output new_artifact in ap (λ a. a.raw_payload_paths) (sym made))
            ∙ ap (λ q. q ∷ []) is_path;
        holds = ap (λ f. f target) files ∙ holds ∙ ap some has_chunks;
        is_small = rw (← has_chunks) small;
        asked =
            ap (λ q. out.process_media s'.files (record (request kind) { path = q })) (sym is_path)
            ∙ ap (λ t. out.process_media t.files (record (request kind) { path = media.path }))
                (sym same)
            ∙ answered;
        is_text = unfold process_model_output new_artifact in ap (λ a. a.markdown_body) (sym made);
        others = λ q a b. ap (λ f. f q) files ∙ downloaded.others q a b ∙ ap (λ f. f q) before;
      }
