-- ===== src/Worker/Keeps.antt =====
-- What a job keeps of the database: until its message is marked, all of it.
use sage_wiki_bridge_wxo.Base.{ℕ, suc, List, [], ◌∷◌}
use sage_wiki_bridge_wxo.Text.{Text, lit, text_eq}
use sage_wiki_bridge_wxo.Error.{BridgeError}
use sage_wiki_bridge_wxo.Exec.{Exec, ◌>>◌, raise}
use sage_wiki_bridge_wxo.Wechat.Primitives.{Primitives}
use sage_wiki_bridge_wxo.Store.Schema.{MessageRow, Db}
use sage_wiki_bridge_wxo.Store.Messages.{mark_message_source_written}
use sage_wiki_bridge_wxo.Preprocess.{ProcessedArtifact}
use sage_wiki_bridge_wxo.Source.Render.{SourceMetadata}
use sage_wiki_bridge_wxo.Receiver.Process.{World}
use sage_wiki_bridge_wxo.Receiver.Keeps.{
  Keeps, bind-Keeps, pure-Keeps, lift-Keeps, gets-Keeps, on_files-Keeps, on_db-Keeps, if-Keeps,
  Option-Keeps,
}
use sage_wiki_bridge_wxo.Worker.Links.{extract_http_urls}
use sage_wiki_bridge_wxo.Worker.Artifacts.{
  Worker, JobSurroundings, save_named_processed_payload, save_processed_artifact, location_artifact,
  link_artifact, read_links, text_with_links, text_artifact_from_stored_message,
  artifact_from_stored_message, is_media,
}
use sage_wiki_bridge_wxo.Worker.Jobs.{Clock, write_log, write_sources, process_claimed_job}

module _ (P : Db → Type 0) where
  pub raise-Keeps : {A : Type 0} (e : BridgeError) → Keeps P (raise {A = A} e)
  unfolding raise
  raise-Keeps e = record { keeps = λ w h. h }

  List-Keeps :
      {A B : Type 0} (l : List B) (m : Exec World A) (f : B → List B → Exec World A)
      → Keeps P m
      → ((b : B) (bs : List B) → Keeps P (f b bs))
      → Keeps P (elim l [ [] ↦ m | b ∷ bs ↦ f b bs ])
  List-Keeps [] m f h k = h
  List-Keeps (b ∷ bs) m f h k = k b bs

module _ (P : Db → Type 0) (p : Primitives) (worker : Worker) (out : JobSurroundings) where
  save_named_processed_payload-Keeps :
      (index : ℕ) (message : MessageRow) (filename : Text) (bytes : List ℕ)
      → Keeps P (save_named_processed_payload p worker out index message filename bytes)
  unfolding save_named_processed_payload
  save_named_processed_payload-Keeps index message filename bytes =
      Option-Keeps P worker.processed_artifact_root _ _
        (λ root. bind-Keeps P _ _ (on_files-Keeps P _) (λ saved. pure-Keeps P _)) (pure-Keeps P _)

  save_processed_artifact-Keeps :
      (artifact : ProcessedArtifact) → Keeps P (save_processed_artifact p worker out artifact)
  unfolding save_processed_artifact
  save_processed_artifact-Keeps artifact =
      Option-Keeps P worker.processed_artifact_root _ _
        (λ root. bind-Keeps P _ _ (on_files-Keeps P _) (λ saved. pure-Keeps P _)) (pure-Keeps P _)

  location_artifact-Keeps :
      (message : MessageRow) → Keeps P (location_artifact p worker out message)
  unfolding location_artifact
  location_artifact-Keeps message = bind-Keeps P _ _ (lift-Keeps P _) (λ latitude.
      bind-Keeps P _ _ (lift-Keeps P _) (λ longitude. bind-Keeps P _ _ (lift-Keeps P _) (λ json.
        bind-Keeps P _ _ (lift-Keeps P _) (λ summary.
          bind-Keeps P _ _ (save_named_processed_payload-Keeps _ message _ _)
            (λ path. pure-Keeps P _)))))

  link_artifact-Keeps : (message : MessageRow) → Keeps P (link_artifact p worker out message)
  unfolding link_artifact
  link_artifact-Keeps message =
      bind-Keeps P _ _ (lift-Keeps P _)
        (λ url. bind-Keeps P _ _ (lift-Keeps P _) (λ markdown. pure-Keeps P _))

  read_links-Keeps :
      (message : MessageRow) (index : ℕ) (urls : List Text)
      → Keeps P (read_links p worker out message index urls)
  unfolding read_links
  read_links-Keeps message index [] = pure-Keeps P _
  read_links-Keeps message index (url ∷ urls) = bind-Keeps P _ _ (lift-Keeps P _) (λ markdown.
      bind-Keeps P _ _ (save_named_processed_payload-Keeps _ message _ _) (λ path.
        bind-Keeps P _ _ (read_links-Keeps message (suc index) urls) (λ rest. pure-Keeps P _)))

  text_artifact-Keeps :
      (message : MessageRow) → Keeps P (text_artifact_from_stored_message p worker out message)
  unfolding text_artifact_from_stored_message text_with_links
  text_artifact-Keeps message =
      List-Keeps P (extract_http_urls out.parse_url _) _ _ (pure-Keeps P _) (λ url urls.
        bind-Keeps P _ _ (read_links-Keeps message 0 (url ∷ urls)) (λ read. pure-Keeps P _))

  pub artifact_from_stored_message-Keeps :
      (message : MessageRow) → Keeps P (artifact_from_stored_message p worker out message)
  unfolding artifact_from_stored_message
  artifact_from_stored_message-Keeps message =
      if-Keeps P (text_eq message.message_type (lit "text")) _ _ (text_artifact-Keeps message) (
        if-Keeps P (text_eq message.message_type (lit "location")) _ _
          (location_artifact-Keeps message)
          (if-Keeps P (text_eq message.message_type (lit "link")) _ _ (link_artifact-Keeps message)
            (if-Keeps P (is_media message.message_type) _ _ (on_files-Keeps P _)
              (raise-Keeps P _))))

  module _ (clock : Clock) where
    write_log-Keeps :
        (artifact : ProcessedArtifact) (metadata : SourceMetadata)
        → Keeps P (write_log p clock worker out artifact metadata)
    unfolding write_log
    write_log-Keeps artifact metadata =
        Option-Keeps P worker.log_source_writer _ _
          (λ writer. bind-Keeps P _ _ (on_files-Keeps P _) (λ written. pure-Keeps P _))
          (pure-Keeps P _)

    pub write_sources-Keeps :
        (message : MessageRow) → Keeps P (write_sources p clock worker out message)
    unfolding write_sources ◌>>◌
    write_sources-Keeps message =
        bind-Keeps P _ _ (artifact_from_stored_message-Keeps message) (λ artifact.
          bind-Keeps P _ _ (save_processed_artifact-Keeps artifact) (λ u.
            bind-Keeps P _ _ (gets-Keeps P _) (λ thread_id.
              bind-Keeps P _ _ (write_log-Keeps artifact _)
                (λ v. bind-Keeps P _ _ (on_files-Keeps P _) (λ result. pure-Keeps P _)))))

    pub process_claimed_job-Keeps :
        ((now : Text) (message_id : ℕ) (path text : Text) (db : Db)
          → P db
          → P (mark_message_source_written now message_id path text db).1)
        → (message_id : ℕ) → Keeps P (process_claimed_job p clock worker out message_id)
    unfolding process_claimed_job ◌>>◌
    process_claimed_job-Keeps marked message_id = bind-Keeps P _ _ (gets-Keeps P _) (λ read.
        bind-Keeps P _ _ (lift-Keeps P _) (λ message.
          bind-Keeps P _ _ (write_sources-Keeps message) (λ written.
            bind-Keeps P _ _ (on_db-Keeps P _ (marked _ message_id _ _)) (λ u. pure-Keeps P _))))
