-- ===== src/Examples/Queries.antt =====
-- The theorems on the store at concrete databases.
use mathlib.Core.List.{Memᴰ}
use sage_wiki_bridge_wxo.Base.{
  ℕ, ◌+◌, ◌≤◌, ◌≡◌, ◌≢◌, refl, ap, true, none, some, [], ◌∷◌, ◌++◌, All, arith,
}
use sage_wiki_bridge_wxo.Text.{Text, lit, text_eq, text_le, is_empty}
use sage_wiki_bridge_wxo.Error.{ok}
use sage_wiki_bridge_wxo.Table.{first_where, update_where}
use sage_wiki_bridge_wxo.Store.Schema.{JobStatus, JobRow, Db, empty_db}
use sage_wiki_bridge_wxo.Store.Messages.{
  has_msg_id, conflicts, new_row, insert_or_ignore, inserted_id, insert_message_idempotent,
}
use sage_wiki_bridge_wxo.Store.Jobs.{
  is_job_of, new_job, is_due, runs_before, earlier, next_due, has_job_id, claim, returned,
  create_job_once, claim_next_job, mark_job_retry_or_failed, requeue_stale_processing_jobs,
}
use sage_wiki_bridge_wxo.Store.Invariant.{IsValid}
use sage_wiki_bridge_wxo.Store.Steps.{
  Reach, start, step, requeued, insert_step, create_step, claim_step, Within, Reach-IsValid,
  Reach-Within,
}
use sage_wiki_bridge_wxo.Store.Claim.{NoneBefore, claim_next_job-first, claim_twice}
use sage_wiki_bridge_wxo.Store.Repeat.{insert_message_idempotent-empty}
use sage_wiki_bridge_wxo.Store.GiveUp.{GaveUp, closed_job, given_up}
use sage_wiki_bridge_wxo.Examples.{hello}

abbrev noon : Text
noon = lit "2026-01-01T12:00:00Z"

abbrev morning : Text
morning = lit "2026-01-01T08:00:00Z"

-- One message, with a job that is due in the morning.
abbrev one_job : Db
one_job =
    (create_job_once 0 1 (lit "process_message") morning
      (insert_message_idempotent 0 0 hello empty_db).1).1

one_job-Reach : Reach 0 one_job
one_job-Reach =
    step (step start (insert_step 0 0 hello)) (create_step 0 1 (lit "process_message") morning)

abbrev claimed_db : Db
claimed_db = (claim_next_job (lit "w1") noon one_job).1

Reach-IsValid_example : IsValid (requeue_stale_processing_jobs noon noon claimed_db).1
Reach-IsValid_example =
    Reach-IsValid (requeued noon noon (step one_job-Reach (claim_step (lit "w1") noon)))

Reach-Within_example : All (Within 1) (requeue_stale_processing_jobs noon noon claimed_db).1.jobs
Reach-Within_example =
    Reach-Within (requeued noon noon (step one_job-Reach (claim_step (lit "w1") noon)))

abbrev first_job : JobRow
first_job = new_job 1 1 (lit "process_message") morning

-- The same, written out.
abbrev queue : Db
queue = record empty_db {
  messages = new_row 1 hello ∷ [];
  jobs = first_job ∷ new_job 2 1 (lit "other") noon ∷ [];
}

claims_first : claim_next_job (lit "w1") noon queue ≡ (
  ok (some (returned (claim (lit "w1") noon first_job))),
  record queue { jobs = claim (lit "w1") noon first_job ∷ new_job 2 1 (lit "other") noon ∷ [] },
)
unfolding claim_next_job next_due is_due earlier runs_before update_where has_job_id new_job claim
    text_eq text_le lit
claims_first = refl

claim_next_job-first_example :
    let db' = (claim_next_job (lit "w1") noon queue).1 in
    let job = returned (claim (lit "w1") noon first_job) in
    (row : JobRow) × Memᴰ row queue.jobs
    × (row.status ≡ JobStatus.pending)
    × (text_le row.next_run_at noon ≡ true)
    × All (NoneBefore noon row) queue.jobs
    × (job.id ≡ row.id)
    × (job.attempts ≡ row.attempts + 1)
    × Memᴰ (claim (lit "w1") noon row) db'.jobs
    × All (λ other. other.id ≢ row.id → Memᴰ other db'.jobs) queue.jobs
claim_next_job-first_example =
    claim_next_job-first (lit "w1") noon queue (claim_next_job (lit "w1") noon queue).1
      (returned (claim (lit "w1") noon first_job))
      (ap (λ r. (r.0, (claim_next_job (lit "w1") noon queue).1)) claims_first)

claims_second : claim_next_job (lit "w2") noon (claim_next_job (lit "w1") noon queue).1 ≡ (
  ok (some (returned (claim (lit "w2") noon (new_job 2 1 (lit "other") noon)))),
  (claim_next_job (lit "w2") noon (claim_next_job (lit "w1") noon queue).1).1,
)
unfolding claim_next_job next_due is_due earlier runs_before update_where has_job_id new_job claim
    text_eq text_le lit
claims_second = refl

claim_twice_example :
    (returned (claim (lit "w1") noon first_job)).id
    ≢ (returned (claim (lit "w2") noon (new_job 2 1 (lit "other") noon))).id
claim_twice_example =
    claim_twice (lit "w1") noon (lit "w2") noon queue (claim_next_job (lit "w1") noon queue).1
      (claim_next_job (lit "w2") noon (claim_next_job (lit "w1") noon queue).1).1
      (returned (claim (lit "w1") noon first_job))
      (returned (claim (lit "w2") noon (new_job 2 1 (lit "other") noon)))
      (ap (λ r. (r.0, (claim_next_job (lit "w1") noon queue).1)) claims_first) claims_second

claims_none : claim_next_job (lit "w1") (lit "2025") queue ≡ (ok none, queue)
unfolding claim_next_job next_due is_due earlier new_job text_le lit
claims_none = refl

creates : create_job_once 0 1 (lit "process_message") morning queue ≡ (ok 1, queue)
unfolding create_job_once first_where is_job_of new_job text_eq lit
creates = refl

nameless_found :
    first_where (has_msg_id []) (new_row 1 (record hello { wechat_msg_id = some [] }) ∷ [])
    ≡ some (new_row 1 (record hello { wechat_msg_id = some [] }))
unfolding first_where has_msg_id new_row text_eq
nameless_found = refl

insert_message_idempotent-empty_example :
    let m = record hello { wechat_msg_id = some [] } in
    let db = record queue { messages = new_row 1 m ∷ [] } in
    let (id, db') = insert_message_idempotent 0 0 m db in
    (id ≡ ok 1) × (db'.messages ≡ db.messages ++ new_row db.next_message_id m ∷ [])
unfolding new_row
insert_message_idempotent-empty_example =
    insert_message_idempotent-empty 0 0 (record hello { wechat_msg_id = some [] })
      (record queue { messages = new_row 1 (record hello { wechat_msg_id = some [] }) ∷ [] })
      (new_row 1 (record hello { wechat_msg_id = some [] })) refl nameless_found

inserts : (insert_message_idempotent 0 0 hello empty_db).0 ≡ ok 1
unfolding insert_message_idempotent insert_or_ignore conflicts inserted_id first_where has_msg_id
    new_row is_empty empty_db text_eq lit
inserts = refl

-- A job in process, with a number of attempts.
abbrev busy_job : ℕ → JobRow
busy_job attempts = record first_job {
  status = JobStatus.processing;
  attempts = attempts;
  locked_at = some morning;
  locked_by = some (lit "w1");
}

abbrev busy : ℕ → Db
busy attempts = record empty_db {
  messages = new_row 1 hello ∷ [];
  jobs = busy_job attempts ∷ [];
  next_message_id = 2;
  next_job_id = 2;
}

busy-IsValid : (attempts : ℕ) → 1 ≤ attempts → IsValid (busy attempts)
unfolding first_where new_row new_job
busy-IsValid attempts h = record {
  message_ids_below = (omega arith, tt);
  message_ids_unique = (tt, tt);
  msg_ids_unique = (tt, tt);
  job_ids_below = (omega arith, tt);
  job_ids_unique = (tt, tt);
  job_keys_unique = (tt, tt);
  jobs_consistent = ((λ e. cc, λ e. (refl, refl, h)), tt);
  jobs_have_message = (refl, tt);
}

given_up_example :
    let after = (mark_job_retry_or_failed 1 (lit "timeout") noon (busy 3)).1 in
    Memᴰ (closed_job (lit "timeout") (busy_job 3)) after.jobs
    × All (λ row. row.id ≡ 1 → GaveUp (lit "timeout") row) after.messages
unfolding new_job
given_up_example =
    given_up (lit "timeout") noon (busy 3) (busy-IsValid 3 (omega arith)) (busy_job 3)
      (Memᴰ.head refl) (omega arith)
