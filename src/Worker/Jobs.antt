-- ===== src/Worker/Jobs.antt =====
-- `Worker` of src/worker/mod.rs: a job is claimed, its message turned into an artifact, the artifact
-- into sources, and the job is done, to be tried again or failed.
use sage_wiki_bridge_wxo.Base.{ℕ, min, Option, none, some, unwrap_or}
use mathlib.Core.Option
use sage_wiki_bridge_wxo.Text.{Text}
use sage_wiki_bridge_wxo.Error.{to_text, Result, ok, err}
use sage_wiki_bridge_wxo.Exec.{Exec, ◌>>=◌, ◌>>◌, pure, raise, lift, gets}
use sage_wiki_bridge_wxo.Files.{FilePath, display}
use sage_wiki_bridge_wxo.Wechat.Primitives.{Primitives}
use sage_wiki_bridge_wxo.Store.Schema.{MessageRow, Db, Job}
use sage_wiki_bridge_wxo.Store.Messages.{
  get_message, find_ai_thread_anchor, mark_message_source_written,
}
use sage_wiki_bridge_wxo.Store.Jobs.{
  claim_next_job, requeue_stale_processing_jobs, mark_job_done, mark_job_retry_or_failed,
}
use sage_wiki_bridge_wxo.Preprocess.{ProcessedArtifact}
use sage_wiki_bridge_wxo.Source.Render.{SourceMetadata}
use sage_wiki_bridge_wxo.Source.Writer.{SourceWriteResult, write_source}
use sage_wiki_bridge_wxo.Receiver.Process.{World, on_db, on_files}
use sage_wiki_bridge_wxo.Worker.{i64_max, retry_delay_seconds}
use sage_wiki_bridge_wxo.Worker.Artifacts.{
  Worker, JobSurroundings, message_key, save_processed_artifact, artifact_from_stored_message,
}

-- The crate time: `OffsetDateTime` with RFC 3339, and the clock. Sums stay in the range of the type.
pub record Clock : Type 1 where
  pub Time : Type 0
  pub parse : Text → Option Time
  pub format : Time → Option Text
  pub now_utc : Time
  pub add_seconds : Time → ℕ → Time
  pub sub_seconds : Time → ℕ → Time

pub data WorkOutcome : Type 0 where
  no_job : WorkOutcome
  done : ℕ → FilePath → WorkOutcome

unfoldable pub metadata_from_stored_message : MessageRow → Text → SourceMetadata
metadata_from_stored_message message bridge_version = record {
  wechat_msg_id = message.wechat_msg_id;
  thread_id = none;
  message_type = message.message_type;
  received_at = message.received_at;
  wechat_create_time = message.create_time;
  openid_hash = message.from_openid_hash;
  raw_dir = some message.raw_dir;
  provider = none;
  model = none;
  external_service = none;
  bridge_version = bridge_version;
}

-- `if artifact.provider.is_some() { metadata.provider = artifact.provider }`
unfoldable pub or_else : Option Text → Option Text → Option Text
or_else none before = before
or_else (some value) before = some value

unfoldable pub with_artifact : ProcessedArtifact → Text → SourceMetadata → SourceMetadata
unfolding or_else
with_artifact artifact thread_id metadata = record metadata {
  thread_id = some thread_id;
  provider = or_else artifact.provider metadata.provider;
  model = or_else artifact.model metadata.model;
  external_service = or_else artifact.external_service metadata.external_service;
}

module _ (p : Primitives) (clock : Clock) (worker : Worker) (out : JobSurroundings) where
  open clock use {parse, format, now_utc, add_seconds, sub_seconds}

  unfoldable pub thread_id_for_message : MessageRow → Db → Text
  unfolding message_key
  thread_id_for_message message db = elim (parse message.received_at) [
    | none ↦ message_key message
    | some received_at ↦
        let threshold =
          unwrap_or message.received_at
            (format (sub_seconds received_at (min worker.ai_source_thread_window i64_max))) in
        unwrap_or (message_key message) (
          Option.map (λ anchor. anchor.message_key)
            (find_ai_thread_anchor message.id message.from_openid_hash threshold db))
  ]

  -- `if let Some(log_source_writer) = &self.log_source_writer`
  unfoldable pub write_log : ProcessedArtifact → SourceMetadata → Exec World (Unit {0})
  write_log artifact metadata = elim worker.log_source_writer [
    | none ↦ pure tt
    | some log_source_writer ↦ do
      written ←
          on_files
            (write_source out.log_read_fault out.log_fault log_source_writer artifact metadata)
      pure tt
  ]

  -- Everything before the message is marked.
  unfoldable pub write_sources : MessageRow → Exec World (ProcessedArtifact × SourceWriteResult)
  unfolding artifact_from_stored_message save_processed_artifact thread_id_for_message write_log
      metadata_from_stored_message with_artifact
  write_sources message = do
    artifact ← artifact_from_stored_message p worker out message
    save_processed_artifact p worker out artifact
    thread_id ← gets (λ w. thread_id_for_message message w.db)
    let metadata =
        with_artifact artifact thread_id
          (metadata_from_stored_message message worker.bridge_version)
    write_log artifact metadata
    result ←
        on_files (
          write_source out.source_read_fault out.source_fault worker.source_writer artifact
            metadata)
    pure (artifact, result)

  unfoldable pub process_claimed_job : ℕ → Exec World FilePath
  unfolding write_sources
  process_claimed_job message_id = do
    read ← gets (λ w. get_message message_id w.db)
    message ← lift read
    written ← write_sources message
    on_db (
        mark_message_source_written out.current_timestamp message_id (display written.1.path)
          written.0.markdown_body)
    pure written.1.path

  unfoldable pub next_retry_at : Text → ℕ → Text
  next_retry_at now attempts = unwrap_or now (
      format (
        add_seconds (unwrap_or now_utc (parse now))
          (retry_delay_seconds attempts worker.retry_policy)))

  -- `match result`
  unfoldable pub settle : Text → Job → Result FilePath → Exec World WorkOutcome
  unfolding next_retry_at
  settle now job (ok source_path) = do on_db (mark_job_done job.id); pure (done job.id source_path)
  settle now job (err e) = do
    on_db (mark_job_retry_or_failed job.id (to_text e) (next_retry_at now job.attempts))
    raise e

  unfoldable pub run_job : Text → Job → Exec World WorkOutcome
  unfolding settle process_claimed_job
  run_job now job w =
      settle now job (process_claimed_job job.message_id w).0
        (process_claimed_job job.message_id w).1

  unfoldable pub process_next : Text → Exec World WorkOutcome
  unfolding run_job
  process_next now = do
    claimed ← on_db (claim_next_job worker.worker_id now)
    elim claimed [ none ↦ pure no_job | some job ↦ run_job now job ]

  -- `Worker::requeue_stale_processing_jobs`
  unfoldable pub requeue_stale : Text → ℕ → Exec World ℕ
  requeue_stale now processing_timeout = on_db (
      requeue_stale_processing_jobs
        (unwrap_or now
          (format (sub_seconds (unwrap_or now_utc (parse now)) (min processing_timeout i64_max))))
        now)
