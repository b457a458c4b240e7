-- ===== src/Store/Steps.antt =====
-- Every sequence of queries, from the empty database: the receiver, the start-up and any number of
-- workers, in any order.
use sage_wiki_bridge_wxo.Base.{
  ℕ, suc, ◌+◌, ◌≤◌, ◌<◌, ◌≡◌, true, some, All, is_some, arith, inl, inr, Bool-cases, Option-cases,
  ◌==◌,
}
use sage_wiki_bridge_wxo.Text.{Text}
use sage_wiki_bridge_wxo.Table.{first_where, All-map, All-update_where, All-update_of}
use sage_wiki_bridge_wxo.Table.Keys.{All-snoc, All-Mem, unique_key}
use sage_wiki_bridge_wxo.Store.Schema.{JobStatus, MessageInsert, JobRow, Db, empty_db}
use sage_wiki_bridge_wxo.Store.Messages.{
  insert_message_idempotent, mark_message_source_written, upsert_whitelist,
}
use sage_wiki_bridge_wxo.Store.Jobs.{
  is_job_of, new_job, create_job_once, next_due, is_due, has_job_id, claim, claim_next_job, requeue,
  is_stale, requeue_stale_processing_jobs, finish, mark_job_done, retry_or_fail, put_back_job,
  fail_message_of_job,
}
use sage_wiki_bridge_wxo.Store.Claim.{next_due-Mem, next_due-is_due}
use sage_wiki_bridge_wxo.Store.Invariant.{IsValid, empty_db-IsValid}
use sage_wiki_bridge_wxo.Store.MessagesKeep.{
  insert_message_idempotent-IsValid, upsert_whitelist-IsValid, mark_message_source_written-IsValid,
}
use sage_wiki_bridge_wxo.Store.JobsKeep.{
  create_job_once-IsValid, claim_next_job-IsValid, requeue_stale_processing_jobs-IsValid,
  mark_job_done-IsValid, put_back_job-IsValid, fail_message_of_job-IsValid,
}

-- One query of the running program, but the requeueing of stale jobs.
pub data Step (db : Db) : Db → Type 0 where
  whitelist_step :
      (connection : ℕ) (openid openid_hash source : Text)
      → Step db (upsert_whitelist connection openid openid_hash source db).1
  insert_step :
      (first second : ℕ) (message : MessageInsert)
      → Step db (insert_message_idempotent first second message db).1
  create_step :
      (connection message_id : ℕ) (job_type next_run_at : Text)
      → Step db (create_job_once connection message_id job_type next_run_at db).1
  claim_step : (worker_id now : Text) → Step db (claim_next_job worker_id now db).1
  written_step :
      (now : Text) (message_id : ℕ) (source_path processed_text : Text)
      → Step db (mark_message_source_written now message_id source_path processed_text db).1
  done_step : (job_id : ℕ) → Step db (mark_job_done job_id db).1
  put_back_step :
      (job_id : ℕ) (error next_run_at : Text) → Step db (put_back_job job_id error next_run_at db).1
  fail_message_step : (job_id : ℕ) (error : Text) → Step db (fail_message_of_job job_id error db).1

-- The databases that queries reach, with the number of requeueings among them.
pub data Reach : ℕ → Db → Type 0 where
  start : Reach 0 empty_db
  step : {requeues : ℕ} {s t : Db} → Reach requeues s → Step s t → Reach requeues t
  requeued :
      {requeues : ℕ} {s : Db} (locked_before next_run_at : Text)
      → Reach requeues s
      → Reach (suc requeues) (requeue_stale_processing_jobs locked_before next_run_at s).1

Step-IsValid : {s t : Db} → Step s t → IsValid s → IsValid t
Step-IsValid (whitelist_step c o h f) v = upsert_whitelist-IsValid c o h f v
Step-IsValid (insert_step c d m) v = insert_message_idempotent-IsValid c d m v
Step-IsValid (create_step c m j n) v = create_job_once-IsValid c m j n v
Step-IsValid (claim_step w n) v = claim_next_job-IsValid w n v
Step-IsValid (written_step n m p t) v = mark_message_source_written-IsValid n m p t v
Step-IsValid (done_step j) v = mark_job_done-IsValid j v
Step-IsValid (put_back_step j e n) v = put_back_job-IsValid j e n v
Step-IsValid (fail_message_step j e) v = fail_message_of_job-IsValid j e v

-- Whatever the queries and their order, ids, message ids and jobs per message stay unique, every
-- job has its message, a pending job is unlocked and a job in process is locked.
pub Reach-IsValid : {requeues : ℕ} {db : Db} → Reach requeues db → IsValid db
Reach-IsValid start = empty_db-IsValid
Reach-IsValid (step r s) = Step-IsValid s (Reach-IsValid r)
Reach-IsValid (requeued l n r) = requeue_stale_processing_jobs-IsValid l n (Reach-IsValid r)

-- At most `r` attempts above the maximum, and one fewer for a job that may be claimed.
abbrev pub Within : ℕ → JobRow → Type 0
Within r row =
    (row.attempts ≤ row.max_attempts + r)
    × (row.status ≡ JobStatus.pending → row.attempts < row.max_attempts + r)

create_job_once-Within :
    (r connection message_id : ℕ) (job_type next_run_at : Text) (db : Db)
    → All (Within r) db.jobs
    → All (Within r) (create_job_once connection message_id job_type next_run_at db).1.jobs
unfolding create_job_once
create_job_once-Within r connection message_id job_type next_run_at db h =
    elim (Option-cases (first_where (is_job_of message_id job_type) db.jobs)) [
      | inr (row, e) ↦ rw (e, create_job_once) h
      | inl e ↦
          elim (Bool-cases (is_some (first_where (λ row. row.id == message_id) db.messages))) [
            | inl m ↦
                rw (e, m, create_job_once)
                  (All-snoc (Within r) _ _ h (unfold new_job in omega arith))
            | inr m ↦ rw (e, m, create_job_once) h
          ]
    ]

claimed-Within :
    (r : ℕ) (worker_id now : Text) (db : Db) (row : JobRow)
    → IsValid db
    → next_due now db.jobs ≡ some row
    → All (Within r) db.jobs
    → All (λ x. has_job_id row.id x ≡ true → Within r (claim worker_id now x)) db.jobs
claimed-Within r worker_id now db row v e h =
    let m = next_due-Mem now db.jobs row e in
    let due = next_due-is_due now db.jobs row e in
    let fits = All-Mem (Within r) h m in
    let pending : row.status ≡ JobStatus.pending = unfold is_due in ground arith in
    let room = fits.1 pending in
    let counted : Within r (claim worker_id now row) = unfold claim in ground arith in
    All-map _ _ (λ x same found. rw (same (unfold has_job_id in ground arith)) counted) db.jobs
      (unique_key (λ (x : JobRow). x.id) v.job_ids_unique m)

claim_next_job-Within :
    (r : ℕ) (worker_id now : Text) (db : Db)
    → IsValid db
    → All (Within r) db.jobs
    → All (Within r) (claim_next_job worker_id now db).1.jobs
unfolding claim_next_job
claim_next_job-Within r worker_id now db v h = elim (Option-cases (next_due now db.jobs)) [
  | inl e ↦ rw (e, claim_next_job) h
  | inr (row, e) ↦
      rw (e, claim_next_job)
        (All-update_of (Within r) _ _ db.jobs (claimed-Within r worker_id now db row v e h) h)
]

jobs-upsert_whitelist :
    (connection : ℕ) (openid openid_hash source : Text) (db : Db)
    → (upsert_whitelist connection openid openid_hash source db).1.jobs ≡ db.jobs
unfolding upsert_whitelist
jobs-upsert_whitelist connection openid openid_hash source db = ground arith

jobs-insert_message_idempotent :
    (first second : ℕ) (m : MessageInsert) (db : Db)
    → (insert_message_idempotent first second m db).1.jobs ≡ db.jobs
unfolding insert_message_idempotent
jobs-insert_message_idempotent first second m db = ground arith

Step-Within :
    (r : ℕ) {s t : Db} → Step s t → IsValid s → All (Within r) s.jobs → All (Within r) t.jobs
Step-Within r {s} (whitelist_step c o oh f) v h = rw (jobs-upsert_whitelist c o oh f s) h
Step-Within r {s} (insert_step c d m) v h = rw (jobs-insert_message_idempotent c d m s) h
Step-Within r {s} (create_step c m j n) v h = create_job_once-Within r c m j n s h
Step-Within r {s} (claim_step w n) v h = claim_next_job-Within r w n s v h
Step-Within r (written_step n m p t) v h = unfold mark_message_source_written in h
Step-Within r {s} (done_step j) v h =
    unfold mark_job_done in
    All-update_where (Within r) (has_job_id j) finish (λ row e k. unfold finish in ground arith)
      s.jobs h
Step-Within r (fail_message_step j e) v h = h
Step-Within r {s} (put_back_step j e n) v h =
    All-update_where (Within r) (has_job_id j) (retry_or_fail e n)
      (λ row e k. unfold retry_or_fail in ground arith) s.jobs h

requeue-Within :
    (r : ℕ) (next_run_at : Text) (row : JobRow)
    → Within r row
    → Within (suc r) (requeue next_run_at row)
unfolding requeue
requeue-Within r next_run_at row k = (omega arith, λ p. omega arith)

requeue_stale_processing_jobs-Within :
    (r : ℕ) (locked_before next_run_at : Text) (db : Db)
    → All (Within r) db.jobs
    → All (Within (suc r)) (requeue_stale_processing_jobs locked_before next_run_at db).1.jobs
unfolding requeue_stale_processing_jobs
requeue_stale_processing_jobs-Within r l n db h =
    All-update_of (Within (suc r)) (is_stale l) (requeue n) db.jobs
      (All-map _ _ (λ row k e. requeue-Within r n row k) db.jobs h)
      (All-map _ _ (λ row k. (omega arith, λ p. omega (arith, k.1 p))) db.jobs h)

-- A job is attempted at most as often as its maximum allows, and once more for each requeueing of
-- stale jobs so far.
pub Reach-Within : {requeues : ℕ} {db : Db} → Reach requeues db → All (Within requeues) db.jobs
Reach-Within start = unfold empty_db in tt
Reach-Within {requeues} (step r s) = Step-Within requeues s (Reach-IsValid r) (Reach-Within r)
Reach-Within (requeued {requeues} {s} l n r) =
    requeue_stale_processing_jobs-Within requeues l n s (Reach-Within r)
