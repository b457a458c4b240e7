-- ===== src/Store/GiveUp.antt =====
-- What a failed attempt leads to: another attempt, or the failure of the job and of its message.
use mathlib.Core.List.{Memᴰ}
use mathlib.Core.Path.{subst}
use sage_wiki_bridge_wxo.Base.{
  ℕ, ◌≤◌, ◌<◌, ◌≡◌, ap, ◌∙◌, sym, true, false, none, some, List, [], ◌∷◌, All, arith, ◌==◌,
  ltb-true, ltb-false,
}
use sage_wiki_bridge_wxo.Text.{Text, lit}
use sage_wiki_bridge_wxo.Table.{first_where, first_where_sound, update_where, All-map}
use sage_wiki_bridge_wxo.Table.Keys.{
  All-Mem, unique_key, first_where-Mem, first_where-none_true, first_where-some_of_Mem,
}
use sage_wiki_bridge_wxo.Store.Schema.{MessageStatus, JobStatus, MessageRow, JobRow, Db}
use sage_wiki_bridge_wxo.Store.Jobs.{
  retry_or_fail, is_failed_job, fail_message, fail_message_of, mark_job_retry_or_failed,
}
use sage_wiki_bridge_wxo.Store.Invariant.{IsValid}
use sage_wiki_bridge_wxo.Store.JobsKeep.{mark_job_retry_or_failed-IsValid}
use sage_wiki_bridge_wxo.Store.Claim.{updated-Mem}

not_failed :
    (id : ℕ) (row : JobRow)
    → (row.id ≡ id → row.status ≡ JobStatus.pending)
    → is_failed_job id row ≡ false
unfolding is_failed_job
not_failed id row h = ground arith

failed_id : (id : ℕ) (row : JobRow) → is_failed_job id row ≡ true → row.id ≡ id
unfolding is_failed_job
failed_id id row h = ground arith

-- The message row after its job was given up.
abbrev pub GaveUp : Text → MessageRow → Type 0
GaveUp error row =
    (row.status ≡ MessageStatus.failed)
    × (row.error_kind ≡ some (lit "worker"))
    × (row.error_message ≡ some error)

update_where-failed :
    (error : Text) (id : ℕ) (rows : List MessageRow)
    → All
        (λ row. row.id ≡ id → GaveUp error row)
        (update_where (λ row. row.id == id) (fail_message error) rows)
unfolding update_where fail_message
update_where-failed error id [] = tt
update_where-failed error id (row ∷ rows) =
    (λ same. ground arith, update_where-failed error id rows)

fail_message_of-All :
    (job_id : ℕ) (error : Text) (jobs : List JobRow) (job : JobRow) (messages : List MessageRow)
    (id : ℕ)
    → first_where (is_failed_job job_id) jobs ≡ some job
    → job.message_id ≡ id
    → All (λ row. row.id ≡ id → GaveUp error row) (fail_message_of job_id error jobs messages)
unfolding fail_message_of
fail_message_of-All job_id error jobs job messages id found same =
    rw (found, fail_message_of)
      (subst
        (λ k.
          All (λ row. row.id ≡ id → GaveUp error row)
            (update_where (λ row. row.id == k) (fail_message error) messages))
        (sym same) (update_where-failed error id messages))

-- The job after a failed attempt that leaves others, and after the last one.
abbrev pub open_job : Text → Text → JobRow → JobRow
open_job error next_run_at job = record job {
  status = JobStatus.pending;
  next_run_at = next_run_at;
  locked_at = none;
  locked_by = none;
  last_error = some error;
}

abbrev pub closed_job : Text → JobRow → JobRow
closed_job error job = record job {
  status = JobStatus.failed;
  locked_at = none;
  locked_by = none;
  last_error = some error;
}

module _ (error next_run_at : Text) (db : Db) (v : IsValid db) (job : JobRow)
    (m : Memᴰ job db.jobs) where
  abbrev after : Db
  after = (mark_job_retry_or_failed job.id error next_run_at db).1

  after-Mem : Memᴰ (retry_or_fail error next_run_at job) after.jobs
  unfolding mark_job_retry_or_failed
  after-Mem = updated-Mem (retry_or_fail error next_run_at) job db.jobs m

  -- The row of the job is the only one with its id.
  after-only : All (λ row. row.id ≡ job.id → row ≡ retry_or_fail error next_run_at job) after.jobs
  unfolding retry_or_fail
  after-only =
      unique_key (λ (row : JobRow). row.id)
        (mark_job_retry_or_failed-IsValid job.id error next_run_at v).job_ids_unique after-Mem

  -- A job with attempts left is pending again, unlocked, at the given time, and no message changes.
  pub retried :
      job.attempts < job.max_attempts
      → Memᴰ (open_job error next_run_at job) after.jobs × (after.messages ≡ db.messages)
  retried left =
      let e : retry_or_fail error next_run_at job ≡ open_job error next_run_at job =
        unfold retry_or_fail in rw (ltb-true job.attempts job.max_attempts left) in
      let open_again = first_where-none_true (is_failed_job job.id) after.jobs (
        All-map _ _
          (λ row same. not_failed job.id row (λ i. ap (λ (r : JobRow). r.status) (same i ∙ e)))
          after.jobs after-only) in
      (
        subst (λ row. Memᴰ row after.jobs) e after-Mem,
        unfold mark_job_retry_or_failed fail_message_of in rw (open_again, fail_message_of),
      )

  -- A job without attempts left has failed for good, and so has its message, with the error's text.
  pub given_up :
      job.max_attempts ≤ job.attempts
      → Memᴰ (closed_job error job) after.jobs
        × All (λ row. row.id ≡ job.message_id → GaveUp error row) after.messages
  given_up used =
      let e : retry_or_fail error next_run_at job ≡ closed_job error job =
        unfold retry_or_fail in rw (ltb-false job.attempts job.max_attempts used) in
      let closed = subst (λ row. Memᴰ row after.jobs) e after-Mem in
      let (row, found) =
        first_where-some_of_Mem (is_failed_job job.id) (closed_job error job) after.jobs closed
          (unfold is_failed_job in ground arith) in
      let found_Mem = first_where-Mem (is_failed_job job.id) after.jobs row found in
      let same_id = failed_id job.id row (first_where_sound _ after.jobs row found) in
      let same_row = All-Mem _ after-only found_Mem same_id in
      let same_message : row.message_id ≡ job.message_id =
        ap (λ (r : JobRow). r.message_id) (same_row ∙ e) in
      (
        closed,
        unfold mark_job_retry_or_failed in
            fail_message_of-All job.id error after.jobs row db.messages job.message_id found
              same_message,
      )
