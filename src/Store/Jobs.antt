-- ===== src/Store/Jobs.antt =====
-- The queries of src/store/mod.rs on the table `jobs`.
use sage_wiki_bridge_wxo.Base.{
  ℕ, ◌+◌, Bool, false, ◌&&◌, Option, none, some, List, [], ◌∷◌, ◌++◌, ltb, ◌==◌, if◌then◌else◌,
  is_some,
}
use sage_wiki_bridge_wxo.Text.{Text, lit, text_eq, text_le}
use sage_wiki_bridge_wxo.Error.{database, ok, err}
use sage_wiki_bridge_wxo.Exec.{Exec}
use sage_wiki_bridge_wxo.Table.{update_where, first_where, count_where}
use sage_wiki_bridge_wxo.Store.Schema.{
  MessageStatus, JobStatus, is_pending, is_processing, is_job_failed, MessageRow, JobRow, Db, Job,
}

-- The default of the column `max_attempts`, which no query sets.
abbrev pub default_max_attempts : ℕ
default_max_attempts = 3

unfoldable pub is_job_of : ℕ → Text → JobRow → Bool
is_job_of message_id job_type row = row.message_id == message_id && text_eq row.job_type job_type

unfoldable pub new_job : ℕ → ℕ → Text → Text → JobRow
new_job id message_id job_type next_run_at = record {
  id = id;
  message_id = message_id;
  job_type = job_type;
  status = JobStatus.pending;
  attempts = 0;
  max_attempts = default_max_attempts;
  next_run_at = next_run_at;
  locked_at = none;
  locked_by = none;
  last_error = none;
}

-- `OR IGNORE` skips a row that the unique index refuses, and not one without its message: sqlx
-- switches foreign keys on.
unfoldable pub create_job_once : ℕ → ℕ → Text → Text → Exec Db ℕ
unfolding is_job_of new_job
create_job_once connection message_id job_type next_run_at db =
    elim (first_where (is_job_of message_id job_type) db.jobs) [
      | some row ↦ (ok row.id, db)
      | none ↦
          if is_some (first_where (λ row. row.id == message_id) db.messages)
          then (
            ok db.next_job_id,
            record db {
              jobs = db.jobs ++ new_job db.next_job_id message_id job_type next_run_at ∷ [];
              next_job_id = db.next_job_id + 1;
              last_rowid = λ c. if c == connection then db.next_job_id else db.last_rowid c;
            },
          )
          else (err (database (lit "FOREIGN KEY constraint failed")), db)
    ]

unfoldable pub is_due : Text → JobRow → Bool
is_due now row = is_pending row.status && text_le row.next_run_at now

-- `ORDER BY next_run_at ASC, id ASC`
unfoldable pub runs_before : JobRow → JobRow → Bool
runs_before a b =
    if text_eq a.next_run_at b.next_run_at
    then ltb a.id b.id
    else text_le a.next_run_at b.next_run_at

unfoldable pub earlier : JobRow → Option JobRow → Option JobRow
earlier row none = some row
earlier row (some other) = if runs_before row other then some row else some other

-- The subquery of the claim: the first due job in that order.
unfoldable pub next_due : Text → List JobRow → Option JobRow
next_due now [] = none
next_due now (row ∷ rows) =
    let rest = next_due now rows in if is_due now row then earlier row rest else rest

unfoldable pub has_job_id : ℕ → JobRow → Bool
has_job_id id row = row.id == id

unfoldable pub claim : Text → Text → JobRow → JobRow
claim worker_id now row = record row {
  status = JobStatus.processing;
  locked_at = some now;
  locked_by = some worker_id;
  attempts = row.attempts + 1;
}

-- The columns of `RETURNING`
unfoldable pub returned : JobRow → Job
returned row = record {
  id = row.id;
  message_id = row.message_id;
  job_type = row.job_type;
  status = row.status;
  attempts = row.attempts;
}

unfoldable pub claim_next_job : Text → Text → Exec Db (Option Job)
unfolding next_due has_job_id claim returned
claim_next_job worker_id now db = elim (next_due now db.jobs) [
  | none ↦ (ok none, db)
  | some row ↦ (
    ok (some (returned (claim worker_id now row))),
    record db { jobs = update_where (has_job_id row.id) (claim worker_id now) db.jobs },
  )
]

unfoldable pub is_stale : Text → JobRow → Bool
is_stale locked_before row =
    is_processing row.status
    && elim row.locked_at [ none ↦ false | some t ↦ text_le t locked_before ]

unfoldable pub requeue : Text → JobRow → JobRow
requeue next_run_at row = record row {
  status = JobStatus.pending;
  next_run_at = next_run_at;
  locked_at = none;
  locked_by = none;
  last_error = some (lit "requeued after processing timeout");
}

unfoldable pub requeue_stale_processing_jobs : Text → Text → Exec Db ℕ
unfolding is_stale requeue
requeue_stale_processing_jobs locked_before next_run_at db = (
  ok (count_where (is_stale locked_before) db.jobs),
  record db { jobs = update_where (is_stale locked_before) (requeue next_run_at) db.jobs },
)

unfoldable pub finish : JobRow → JobRow
finish row = record row { status = JobStatus.done }

unfoldable pub mark_job_done : ℕ → Exec Db (Unit {0})
unfolding has_job_id finish
mark_job_done job_id db =
    (ok tt, record db { jobs = update_where (has_job_id job_id) finish db.jobs })

unfoldable pub mark_job_failed : ℕ → Text → Exec Db (Unit {0})
unfolding has_job_id
mark_job_failed job_id error db = (
  ok tt,
  record db {
    jobs =
        update_where (has_job_id job_id)
          (λ row. record row { status = JobStatus.failed; last_error = some error }) db.jobs;
  },
)

-- The `CASE`s read the row as it was.
unfoldable pub retry_or_fail : Text → Text → JobRow → JobRow
retry_or_fail error next_run_at row = record row {
  status = if ltb row.attempts row.max_attempts then JobStatus.pending else JobStatus.failed;
  next_run_at = if ltb row.attempts row.max_attempts then next_run_at else row.next_run_at;
  locked_at = none;
  locked_by = none;
  last_error = some error;
}

unfoldable pub fail_message : Text → MessageRow → MessageRow
fail_message error row = record row {
  values = record row.values { status = MessageStatus.failed };
  error_kind = some (lit "worker");
  error_message = some error;
}

unfoldable pub is_failed_job : ℕ → JobRow → Bool
unfolding has_job_id
is_failed_job job_id row = has_job_id job_id row && is_job_failed row.status

-- The message of the job, if the job is failed now.
unfoldable pub fail_message_of : ℕ → Text → List JobRow → List MessageRow → List MessageRow
unfolding is_failed_job fail_message
fail_message_of job_id error jobs messages = elim (first_where (is_failed_job job_id) jobs) [
  | none ↦ messages
  | some job ↦ update_where (λ row. row.id == job.message_id) (fail_message error) messages
]

-- The first query of `mark_job_retry_or_failed`
abbrev pub put_back_job : ℕ → Text → Text → Exec Db (Unit {0})
put_back_job job_id error next_run_at db = (
  ok tt,
  record db { jobs = update_where (has_job_id job_id) (retry_or_fail error next_run_at) db.jobs },
)

-- and the second one, in no transaction with it.
abbrev pub fail_message_of_job : ℕ → Text → Exec Db (Unit {0})
fail_message_of_job job_id error db =
    (ok tt, record db { messages = fail_message_of job_id error db.jobs db.messages })

unfoldable pub mark_job_retry_or_failed : ℕ → Text → Text → Exec Db (Unit {0})
unfolding has_job_id retry_or_fail fail_message_of
mark_job_retry_or_failed job_id error next_run_at db =
    fail_message_of_job job_id error (put_back_job job_id error next_run_at db).1
