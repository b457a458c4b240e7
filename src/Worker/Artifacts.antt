-- ===== src/Worker/Artifacts.antt =====
-- How src/worker/mod.rs turns a stored message into an artifact, and saves what it read.
use sage_wiki_bridge_wxo.Base.{
  ℕ, suc, Bool, Option, none, some, List, [], ◌∷◌, ◌++◌, ◌⊎◌, ◌||◌, unwrap_or, if◌then◌else◌,
}
use sage_wiki_bridge_wxo.Text.{Text, lit, text_eq, trim, show_nat}
use sage_wiki_bridge_wxo.Text.Utf8.{utf8}
use sage_wiki_bridge_wxo.Url.{UrlParser}
use sage_wiki_bridge_wxo.Error.{external_payload_invalid, message_unsupported, Result, ok_or}
use sage_wiki_bridge_wxo.Exec.{Exec, ◌>>=◌, pure, raise, lift}
use sage_wiki_bridge_wxo.Files.{FilePath, FileSystem, Fault}
use sage_wiki_bridge_wxo.Archive.{save_artifact}
use sage_wiki_bridge_wxo.Wechat.Message.{CommonFields, LocationMessage, LinkMessage}
use sage_wiki_bridge_wxo.Wechat.Primitives.{Primitives}
use sage_wiki_bridge_wxo.Store.Schema.{MessageRow}
use sage_wiki_bridge_wxo.Enrich.{TencentLbsResult, extract_location_summary}
use sage_wiki_bridge_wxo.Preprocess.{
  ProcessedArtifactKind, ProcessedArtifact, new_artifact, process_link, process_location, path_list,
}
use sage_wiki_bridge_wxo.Source.Writer.{SourceWriter}
use sage_wiki_bridge_wxo.Receiver.Process.{World, on_files}
use sage_wiki_bridge_wxo.Worker.{RetryPolicy}
use sage_wiki_bridge_wxo.Worker.Links.{extract_http_urls}

pub record Worker : Type 0 where
  pub source_writer : SourceWriter
  pub log_source_writer : Option SourceWriter
  pub processed_artifact_root : Option FilePath
  pub worker_id : Text
  pub bridge_version : Text
  pub retry_policy : RetryPolicy
  pub ai_source_thread_window : ℕ

-- What a job meets outside the program: the answers of the services during the job, the media
-- processor, other crates, the faults of the file system, and SQLite's clock.
pub record JobSurroundings : Type 0 where
  pub reverse_geocode : ℕ → ℕ → Result Text
  pub read_link : Text → Result Text
  pub process_media_message : MessageRow → Exec FileSystem ProcessedArtifact
  pub parse_url : UrlParser
  pub read_lbs : Text → Text ⊎ Option TencentLbsResult
  pub show_f64 : ℕ → Text
  pub payload_fault : ℕ → Fault
  pub artifact_fault : Fault
  pub log_read_fault : Option Text
  pub log_fault : Fault
  pub source_read_fault : Option Text
  pub source_fault : Fault
  pub current_timestamp : Text

-- `message_key` of src/worker/mod.rs
unfoldable pub message_key : MessageRow → Text
message_key message = unwrap_or (lit "message_" ++ show_nat message.id) message.wechat_msg_id

unfoldable pub common_from_stored_message : MessageRow → CommonFields
common_from_stored_message message = record {
  to_user_name = [];
  from_user_name = lit "stored";
  create_time = unwrap_or 0 message.create_time;
  msg_id = message.wechat_msg_id;
}

unfoldable pub is_media : Text → Bool
is_media message_type =
    text_eq message_type (lit "image")
    || text_eq message_type (lit "voice")
    || text_eq message_type (lit "video")
    || text_eq message_type (lit "shortvideo")

module _ (p : Primitives) (worker : Worker) (out : JobSurroundings) where
  -- `index` numbers the payloads of the job.
  unfoldable pub save_named_processed_payload :
      ℕ → MessageRow → Text → List ℕ → Exec World (Option FilePath)
  unfolding message_key
  save_named_processed_payload index message filename bytes = elim worker.processed_artifact_root [
    | none ↦ pure none
    | some root ↦ do
      saved ←
          on_files
            (save_artifact p (out.payload_fault index) root (message_key message) filename bytes)
      pure saved.path
  ]

  unfoldable pub save_processed_artifact : ProcessedArtifact → Exec World (Unit {0})
  save_processed_artifact artifact = elim worker.processed_artifact_root [
    | none ↦ pure tt
    | some root ↦ do
      saved ← on_files (
          save_artifact p out.artifact_fault root artifact.message_key (lit "processed.md")
            (utf8 artifact.markdown_body))
      pure tt
  ]

  unfoldable pub location_artifact : MessageRow → Exec World ProcessedArtifact
  unfolding save_named_processed_payload common_from_stored_message
  location_artifact message = do
    latitude ←
        lift (ok_or message.location_lat (external_payload_invalid (lit "location_lat missing")))
    longitude ←
        lift (ok_or message.location_lng (external_payload_invalid (lit "location_lng missing")))
    json ← lift (out.reverse_geocode latitude longitude)
    summary ← lift (extract_location_summary out.read_lbs json)
    raw_json_path ← save_named_processed_payload 0 message (lit "tencent-lbs.json") (utf8 json)
    let location : LocationMessage = record {
      common = common_from_stored_message message;
      latitude = latitude;
      longitude = longitude;
      scale = message.location_scale;
      label = message.location_label;
    }
    pure (process_location out.show_f64 location summary raw_json_path)

  unfoldable pub link_artifact : MessageRow → Exec World ProcessedArtifact
  unfolding common_from_stored_message
  link_artifact message = do
    url ← lift (ok_or message.link_url (external_payload_invalid (lit "link_url missing")))
    markdown ← lift (out.read_link url)
    let link : LinkMessage = record {
      common = common_from_stored_message message;
      title = message.link_title;
      description = message.link_description;
      url = url;
    }
    pure (process_link link markdown none)

  -- The loop over the links: the text of the body from the first link on, and the payloads' paths.
  unfoldable pub read_links : MessageRow → ℕ → List Text → Exec World (Text × List FilePath)
  unfolding save_named_processed_payload
  read_links message index [] = pure ([], [])
  read_links message index (url ∷ urls) = do
    markdown ← lift (out.read_link url)
    path ←
        save_named_processed_payload index message
          (lit "text-link-" ++ (show_nat (suc index) ++ lit ".jina-reader.md")) (utf8 markdown)
    rest ← read_links message (suc index) urls
    pure (
      lit "### " ++ (url ++ (lit "\n\n" ++ (trim markdown ++ (lit "\n\n" ++ rest.0)))),
      path_list path ++ rest.1,
    )

  unfoldable pub text_with_links : MessageRow → Text → List Text → Exec World ProcessedArtifact
  unfolding read_links message_key
  text_with_links message content urls = do
    read ← read_links message 0 urls
    let body =
        lit "## Original Text\n\n" ++ (trim content ++ (lit "\n\n## Reader Content\n\n" ++ read.0))
    pure (record (new_artifact (message_key message) ProcessedArtifactKind.text body) {
      external_service = some (lit "jina_reader");
      processed_payload_paths = read.1;
    })

  unfoldable pub text_artifact_from_stored_message : MessageRow → Exec World ProcessedArtifact
  unfolding text_with_links message_key
  text_artifact_from_stored_message message =
      let content = unwrap_or [] message.content_text in
      elim (extract_http_urls out.parse_url content) [
        | [] ↦ pure (new_artifact (message_key message) ProcessedArtifactKind.text content)
        | url ∷ urls ↦ text_with_links message content (url ∷ urls)
      ]

  unfoldable pub artifact_from_stored_message : MessageRow → Exec World ProcessedArtifact
  unfolding text_artifact_from_stored_message location_artifact link_artifact is_media
  artifact_from_stored_message message =
      if text_eq message.message_type (lit "text")
      then text_artifact_from_stored_message message
      else if text_eq message.message_type (lit "location")
      then location_artifact message
      else if text_eq message.message_type (lit "link")
      then link_artifact message
      else if is_media message.message_type
      then on_files (out.process_media_message message)
      else raise (
          message_unsupported
            (lit "worker does not process " ++ (message.message_type ++ lit " yet")))
