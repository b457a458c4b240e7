-- ===== src/Store/Invariant.antt =====
-- What holds of the database between two queries: the keys are unique, every job has its message,
-- and the locks of a job agree with its status.
use sage_wiki_bridge_wxo.Base.{
  ℕ, ◌≤◌, ◌<◌, ◌≡◌, ◌≢◌, true, Option, none, List, ◌==◌, map, All, is_some,
}
use sage_wiki_bridge_wxo.Text.{Text, non_empty}
use sage_wiki_bridge_wxo.Table.{first_where}
use sage_wiki_bridge_wxo.Table.Keys.{AllPairs}
use sage_wiki_bridge_wxo.Store.Schema.{JobStatus, MessageRow, JobRow, Db, empty_db}

abbrev pub message_ids : List MessageRow → List ℕ
message_ids = map (λ row. row.id)

-- The key of the partial unique index.
abbrev pub msg_id_keys : List MessageRow → List (Option Text)
msg_id_keys = map (λ row. non_empty row.wechat_msg_id)

abbrev pub job_ids : List JobRow → List ℕ
job_ids = map (λ row. row.id)

abbrev pub job_keys : List JobRow → List (ℕ × Text)
job_keys = map (λ row. (row.message_id, row.job_type))

-- Two keys of the partial index are equal only if both are left out of it.
abbrev pub Apart : Option Text → Option Text → Type 0
Apart a b = a ≡ b → a ≡ none

-- A pending job is unlocked; one in process is locked and was claimed at least once.
abbrev pub IsConsistent : JobRow → Type 0
IsConsistent row =
    (row.status ≡ JobStatus.pending → (row.locked_at ≡ none) × (row.locked_by ≡ none))
    × (row.status ≡ JobStatus.processing
        → (is_some row.locked_at ≡ true) × (is_some row.locked_by ≡ true) × (1 ≤ row.attempts))

abbrev pub HasMessage : List MessageRow → JobRow → Type 0
HasMessage messages row =
    is_some (first_where (λ message. message.id == row.message_id) messages) ≡ true

pub record IsValid (db : Db) : Type 0 where
  pub message_ids_below : All (λ id. id < db.next_message_id) (message_ids db.messages)
  pub message_ids_unique : AllPairs ◌≢◌ (message_ids db.messages)
  pub msg_ids_unique : AllPairs Apart (msg_id_keys db.messages)
  pub job_ids_below : All (λ id. id < db.next_job_id) (job_ids db.jobs)
  pub job_ids_unique : AllPairs ◌≢◌ (job_ids db.jobs)
  pub job_keys_unique : AllPairs ◌≢◌ (job_keys db.jobs)
  pub jobs_consistent : All IsConsistent db.jobs
  pub jobs_have_message : All (HasMessage db.messages) db.jobs

pub empty_db-IsValid : IsValid empty_db
unfolding empty_db
empty_db-IsValid = record {
  message_ids_below = tt;
  message_ids_unique = tt;
  msg_ids_unique = tt;
  job_ids_below = tt;
  job_ids_unique = tt;
  job_keys_unique = tt;
  jobs_consistent = tt;
  jobs_have_message = tt;
}
