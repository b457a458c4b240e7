-- ===== src/Examples/Workers.antt =====
-- The theorems on the worker at a concrete database.
use sage_wiki_bridge_wxo.Base.{◌≡◌, refl, ◌⊎◌, inl, inr, false, none, some, [], ◌∷◌, All}
use sage_wiki_bridge_wxo.Text.{Text, lit}
use sage_wiki_bridge_wxo.Error.{ok, err, BridgeError}
use sage_wiki_bridge_wxo.Files.{Fault, FilePath}
use sage_wiki_bridge_wxo.Exec.{raise}
use sage_wiki_bridge_wxo.Table.{first_where, update_where, select_where}
use sage_wiki_bridge_wxo.Text.{text_eq, text_le, find?, starts_with}
use sage_wiki_bridge_wxo.Exec.{◌>>=◌, ◌>>◌, proceed, pure, lift, gets}
use sage_wiki_bridge_wxo.Receiver.Process.{on_db, on_files}
use sage_wiki_bridge_wxo.Store.Jobs.{
  next_due, earlier, runs_before, has_job_id, returned, mark_job_done, finish,
}
use sage_wiki_bridge_wxo.Store.Messages.{
  has_id, find_ai_thread_anchor, latest, is_candidate, mark_message_source_written,
}
use sage_wiki_bridge_wxo.Worker.Artifacts.{
  artifact_from_stored_message, text_artifact_from_stored_message, message_key,
  save_processed_artifact,
}
use sage_wiki_bridge_wxo.Worker.Links.{
  extract_http_urls, scan_urls, find_next_url_start, earlier_of,
}
use sage_wiki_bridge_wxo.Worker.Jobs.{
  run_job, process_claimed_job, write_sources, write_log, settle,
}
use sage_wiki_bridge_wxo.Source.Writer.{
  write_source, capture_date_from_received_at, get_prefix, is_date_from, is_ascii_digit,
  read_document, render_markdown, new_document, write_file_atomically,
}
use sage_wiki_bridge_wxo.Source.{upsert_ai_thread_item}
use sage_wiki_bridge_wxo.Preprocess.{new_artifact}
use sage_wiki_bridge_wxo.Files.{
  path_eq, starts_with_path, ensure_under_root, write_via, sanitize_segment, is_refused, safe_char,
  is_safe,
}
use sage_wiki_bridge_wxo.Text.Utf8.{utf8_char}
use sage_wiki_bridge_wxo.Wechat.Primitives.{plain}
use sage_wiki_bridge_wxo.Store.Schema.{MessageRow, Job, Db, empty_db}
use sage_wiki_bridge_wxo.Store.Messages.{get_message, new_row}
use sage_wiki_bridge_wxo.Store.Jobs.{new_job, is_due, claim, claim_next_job}
use sage_wiki_bridge_wxo.Receiver.Process.{World}
use sage_wiki_bridge_wxo.Source.Writer.{SourceFormat}
use sage_wiki_bridge_wxo.Worker.Artifacts.{Worker, JobSurroundings}
use sage_wiki_bridge_wxo.Worker.Jobs.{Clock, WorkOutcome, process_next, thread_id_for_message}
use sage_wiki_bridge_wxo.Worker.Runs.{JobRun, process_next-JobRun}
use sage_wiki_bridge_wxo.Worker.Settles.{IsSettled, process_next-IsSettled}
use sage_wiki_bridge_wxo.Worker.Written.{IsProcessed}
use sage_wiki_bridge_wxo.Worker.Done.{process_next-IsProcessed}
use sage_wiki_bridge_wxo.Examples.{hello}

abbrev noon : Text
noon = lit "2026-01-01T12:00:00Z"

-- A clock on which times are their texts.
abbrev clock : Clock
clock = record {
  Time = Text;
  parse = λ t. some t;
  format = λ t. some t;
  now_utc = noon;
  add_seconds = λ t n. t;
  sub_seconds = λ t n. t;
}

abbrev worker : Worker
worker = record {
  source_writer = record { root = lit "" ∷ lit "wiki" ∷ []; format = SourceFormat.ai };
  log_source_writer = none;
  processed_artifact_root = none;
  worker_id = lit "w1";
  bridge_version = lit "1";
  retry_policy = record { base_delay = 60; max_delay = 3600 };
  ai_source_thread_window = 600;
}

-- Services that never answer, and a file system without faults.
abbrev surroundings : JobSurroundings
surroundings = record {
  reverse_geocode = λ latitude longitude. err (BridgeError.external_request (lit "no answer"));
  read_link = λ url. err (BridgeError.external_request (lit "no answer"));
  process_media_message = λ message. raise (BridgeError.external_request (lit "no answer"));
  parse_url = λ t. inl (lit "no URL");
  read_lbs = λ t. inr none;
  show_f64 = λ bits. lit "0";
  payload_fault = λ index. Fault.no_fault;
  artifact_fault = Fault.no_fault;
  log_read_fault = none;
  log_fault = Fault.no_fault;
  source_read_fault = none;
  source_fault = Fault.no_fault;
  current_timestamp = noon;
}

-- A message with a job that is due.
abbrev queue : Db
queue = record empty_db {
  messages = new_row 1 hello ∷ [];
  jobs = new_job 1 1 (lit "process_message") noon ∷ [];
}

abbrev before : World
before = record { db = queue; files = λ path. none }

process_next-IsSettled_example :
    ((process_next plain clock worker surroundings noon before ≡ (ok WorkOutcome.no_job, before))
      × All (λ row. is_due noon row ≡ false) before.db.jobs)
    ⊎ ((job : Job) × (db' : Db) × (claim_next_job (lit "w1") noon before.db ≡ (ok (some job), db'))
        × IsSettled plain clock worker surroundings noon job
            (process_next plain clock worker surroundings noon before))
process_next-IsSettled_example = process_next-IsSettled plain clock worker surroundings noon before

process_next-JobRun_example :
    JobRun plain clock worker surroundings noon before.db
      (process_next plain clock worker surroundings noon before).0
      (process_next plain clock worker surroundings noon before).1.db
process_next-JobRun_example = process_next-JobRun plain clock worker surroundings noon before

abbrev day : FilePath
day = lit "" ∷ lit "wiki" ∷ lit "2026-01-01.md" ∷ []

abbrev after : World
after = (process_next plain clock worker surroundings noon before).1

reports_done :
    process_next plain clock worker surroundings noon before ≡ (ok (WorkOutcome.done 1 day), after)
unfolding process_next ◌>>=◌ ◌>>◌ proceed pure raise lift gets on_db on_files claim_next_job
    next_due is_due earlier runs_before update_where has_job_id claim returned new_job new_row
    text_le text_eq lit get_message first_where has_id run_job process_claimed_job write_sources
    artifact_from_stored_message text_artifact_from_stored_message extract_http_urls scan_urls
    find_next_url_start earlier_of find? starts_with new_artifact message_key
    save_processed_artifact thread_id_for_message find_ai_thread_anchor latest select_where
    is_candidate write_log write_source sanitize_segment is_refused safe_char is_safe
    capture_date_from_received_at get_prefix is_date_from is_ascii_digit utf8_char ensure_under_root
    starts_with_path read_document render_markdown new_document upsert_ai_thread_item
    write_file_atomically write_via settle mark_job_done mark_message_source_written finish path_eq
reports_done = refl

process_next-IsProcessed_example :
    (job : Job) × (db' : Db) × (message : MessageRow) × (claim_next_job (lit "w1") noon before.db
      ≡ (ok (some job), db'))
    × (get_message job.message_id db' ≡ ok message)
    × IsProcessed plain clock worker surroundings message (record before { db = db' }) day after
process_next-IsProcessed_example =
    process_next-IsProcessed plain clock worker surroundings noon before after 1 day reports_done
