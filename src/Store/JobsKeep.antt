-- ===== src/Store/JobsKeep.antt =====
-- The queries on jobs keep the invariant.
use sage_wiki_bridge_wxo.Base.{
  ℕ, ◌+◌, ◌≡◌, refl, ap, ◌≢◌, Bool, true, false, none, List, [], ◌∷◌, ◌++◌, ◌==◌, is_some, arith,
  inl, inr, Bool-cases, Option-cases, if◌then◌else◌,
}
use sage_wiki_bridge_wxo.Text.{Text, text_eq_iff}
use sage_wiki_bridge_wxo.Table.{first_where, update_where, All-map, All-update_where}
use sage_wiki_bridge_wxo.Table.Keys.{
  All-snoc, AllPairs-snoc, map-snoc, map-update_where, first_where-none, All-of_map,
}
use sage_wiki_bridge_wxo.Store.Schema.{MessageRow, JobRow, Db}
use sage_wiki_bridge_wxo.Store.Jobs.{
  is_job_of, new_job, create_job_once, next_due, claim, claim_next_job, requeue,
  requeue_stale_processing_jobs, finish, mark_job_done, retry_or_fail, fail_message,
  fail_message_of, is_failed_job, put_back_job, fail_message_of_job, mark_job_retry_or_failed,
}
use sage_wiki_bridge_wxo.Store.Invariant.{job_keys, IsConsistent, HasMessage, IsValid}
use sage_wiki_bridge_wxo.Store.MessagesKeep.{update_messages-IsValid}

-- What an update of a job must keep.
record Keeps (p : JobRow → Bool) (f : JobRow → JobRow) : Type 0 where
  same_id : (row : JobRow) → (f row).id ≡ row.id
  same_message : (row : JobRow) → (f row).message_id ≡ row.message_id
  same_type : (row : JobRow) → (f row).job_type ≡ row.job_type
  consistent : (row : JobRow) → p row ≡ true → IsConsistent row → IsConsistent (f row)

update_jobs-IsValid :
    (p : JobRow → Bool) (f : JobRow → JobRow) {db : Db}
    → Keeps p f
    → IsValid db
    → IsValid (record db { jobs = update_where p f db.jobs })
update_jobs-IsValid p f {db} k v =
    let ids = map-update_where (λ (row : JobRow). row.id) p f k.same_id db.jobs in
    let keys : job_keys (update_where p f db.jobs) ≡ job_keys db.jobs =
      map-update_where _ p f (λ row i. (k.same_message row i, k.same_type row i)) db.jobs in
    record {
      message_ids_below = v.message_ids_below;
      message_ids_unique = v.message_ids_unique;
      msg_ids_unique = v.msg_ids_unique;
      job_ids_below = rw ids v.job_ids_below;
      job_ids_unique = rw ids v.job_ids_unique;
      job_keys_unique = rw keys v.job_keys_unique;
      jobs_consistent = All-update_where IsConsistent p f k.consistent db.jobs v.jobs_consistent;
      jobs_have_message =
          All-update_where (HasMessage db.messages) p f (λ row e h. rw (k.same_message row) h)
            db.jobs v.jobs_have_message;
    }

claim-Keeps : (p : JobRow → Bool) (worker_id now : Text) → Keeps p (claim worker_id now)
unfolding claim
claim-Keeps p worker_id now = record {
  same_id = λ row. refl;
  same_message = λ row. refl;
  same_type = λ row. refl;
  consistent = λ row e h. ground arith;
}

requeue-Keeps : (p : JobRow → Bool) (next_run_at : Text) → Keeps p (requeue next_run_at)
unfolding requeue
requeue-Keeps p next_run_at = record {
  same_id = λ row. refl;
  same_message = λ row. refl;
  same_type = λ row. refl;
  consistent = λ row e h. ground arith;
}

finish-Keeps : (p : JobRow → Bool) → Keeps p finish
unfolding finish
finish-Keeps p = record {
  same_id = λ row. refl;
  same_message = λ row. refl;
  same_type = λ row. refl;
  consistent = λ row e h. ground arith;
}

retry_or_fail-Keeps :
    (p : JobRow → Bool) (error next_run_at : Text) → Keeps p (retry_or_fail error next_run_at)
unfolding retry_or_fail
retry_or_fail-Keeps p error next_run_at = record {
  same_id = λ row. refl;
  same_message = λ row. refl;
  same_type = λ row. refl;
  consistent = λ row e h. ground arith;
}

pub claim_next_job-IsValid :
    (worker_id now : Text) {db : Db} → IsValid db → IsValid (claim_next_job worker_id now db).1
unfolding claim_next_job
claim_next_job-IsValid worker_id now {db} v = elim (Option-cases (next_due now db.jobs)) [
  | inl e ↦ rw (e, claim_next_job) v
  | inr (row, e) ↦ rw (e, claim_next_job) (update_jobs-IsValid _ _ (claim-Keeps _ worker_id now) v)
]

pub requeue_stale_processing_jobs-IsValid :
    (locked_before next_run_at : Text) {db : Db}
    → IsValid db
    → IsValid (requeue_stale_processing_jobs locked_before next_run_at db).1
unfolding requeue_stale_processing_jobs
requeue_stale_processing_jobs-IsValid locked_before next_run_at v =
    update_jobs-IsValid _ _ (requeue-Keeps _ next_run_at) v

pub mark_job_done-IsValid :
    (job_id : ℕ) {db : Db} → IsValid db → IsValid (mark_job_done job_id db).1
unfolding mark_job_done
mark_job_done-IsValid job_id v = update_jobs-IsValid _ _ (finish-Keeps _) v

fail_message_of-IsValid :
    (job_id : ℕ) (error : Text) (jobs : List JobRow) {db : Db}
    → IsValid db
    → IsValid (record db { messages = fail_message_of job_id error jobs db.messages })
unfolding fail_message_of
fail_message_of-IsValid job_id error jobs v =
    elim (Option-cases (first_where (is_failed_job job_id) jobs)) [
      | inl e ↦ rw (e, fail_message_of) v
      | inr (job, e) ↦
          rw (e, fail_message_of)
            (update_messages-IsValid _ _ (λ row. unfold fail_message in refl)
              (λ row. unfold fail_message in refl) v)
    ]

-- Either query of a failed attempt keeps the invariant, and so do both.
pub put_back_job-IsValid :
    (job_id : ℕ) (error next_run_at : Text) {db : Db}
    → IsValid db
    → IsValid (put_back_job job_id error next_run_at db).1
put_back_job-IsValid job_id error next_run_at v =
    update_jobs-IsValid _ _ (retry_or_fail-Keeps _ error next_run_at) v

pub fail_message_of_job-IsValid :
    (job_id : ℕ) (error : Text) {db : Db}
    → IsValid db
    → IsValid (fail_message_of_job job_id error db).1
fail_message_of_job-IsValid job_id error {db} v = fail_message_of-IsValid job_id error db.jobs v

pub mark_job_retry_or_failed-IsValid :
    (job_id : ℕ) (error next_run_at : Text) {db : Db}
    → IsValid db
    → IsValid (mark_job_retry_or_failed job_id error next_run_at db).1
unfolding mark_job_retry_or_failed
mark_job_retry_or_failed-IsValid job_id error next_run_at {db} v =
    fail_message_of_job-IsValid job_id error (put_back_job-IsValid job_id error next_run_at v)

other_key :
    (message_id : ℕ) (job_type : Text) (row : JobRow)
    → is_job_of message_id job_type row ≡ false
    → ◌≢◌ {A = ℕ × Text} (row.message_id, row.job_type) (message_id, job_type)
unfolding is_job_of
other_key message_id job_type row h e =
    let same_id : row.message_id ≡ message_id = ap (λ (k : ℕ × Text). k.0) e in
    let same_type : row.job_type ≡ job_type = ap (λ (k : ℕ × Text). k.1) e in
    ground (arith, text_eq_iff row.job_type job_type)

-- A job with a fresh id, for a message that has none of its type.
added_job-IsValid :
    (connection message_id : ℕ) (job_type next_run_at : Text) {db : Db}
    → is_some (first_where (λ (row : MessageRow). row.id == message_id) db.messages) ≡ true
    → first_where (is_job_of message_id job_type) db.jobs ≡ none
    → IsValid db
    → IsValid (record db {
      jobs = db.jobs ++ new_job db.next_job_id message_id job_type next_run_at ∷ [];
      next_job_id = db.next_job_id + 1;
      last_rowid = λ c. if c == connection then db.next_job_id else db.last_rowid c;
    })
unfolding new_job
added_job-IsValid connection message_id job_type next_run_at {db} m e v = record {
  message_ids_below = v.message_ids_below;
  message_ids_unique = v.message_ids_unique;
  msg_ids_unique = v.msg_ids_unique;
  job_ids_below =
      rw map-snoc
        (All-snoc _ _ _ (All-map _ _ (λ id h. omega arith) _ v.job_ids_below) (omega arith));
  job_ids_unique = rw map-snoc (
      AllPairs-snoc _ _ _ v.job_ids_unique
        (All-map _ _ (λ id h same. omega arith) _ v.job_ids_below));
  job_keys_unique = rw map-snoc (
      AllPairs-snoc _ _ _ v.job_keys_unique (
        All-of_map _ _ db.jobs
          (All-map _ _ (other_key message_id job_type) db.jobs (first_where-none _ db.jobs e))));
  jobs_consistent = All-snoc IsConsistent _ _ v.jobs_consistent (ground arith);
  jobs_have_message = All-snoc (HasMessage db.messages) _ _ v.jobs_have_message m;
}

-- Queueing a job keeps the invariant, whether or not it is there already.
pub create_job_once-IsValid :
    (connection message_id : ℕ) (job_type next_run_at : Text) {db : Db}
    → IsValid db
    → IsValid (create_job_once connection message_id job_type next_run_at db).1
unfolding create_job_once
create_job_once-IsValid connection message_id job_type next_run_at {db} v =
    elim (Option-cases (first_where (is_job_of message_id job_type) db.jobs)) [
      | inr (row, e) ↦ rw (e, create_job_once) v
      | inl e ↦
          elim (Bool-cases (is_some (first_where (λ row. row.id == message_id) db.messages))) [
            | inl m ↦
                rw (e, m, create_job_once)
                  (added_job-IsValid connection message_id job_type next_run_at m e v)
            | inr m ↦ rw (e, m, create_job_once) v
          ]
    ]
