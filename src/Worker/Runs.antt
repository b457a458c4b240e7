-- ===== src/Worker/Runs.antt =====
-- What one run of a worker does to the database, exactly.
use mathlib.Core.Path.{subst}
use sage_wiki_bridge_wxo.Base.{ℕ, ◌≡◌, refl, ap, ◌⊎◌, inl, inr, none, some, Option-cases}
use sage_wiki_bridge_wxo.Text.{Text}
use sage_wiki_bridge_wxo.Error.{BridgeError, to_text, Result, ok, err, Result-cases}
use sage_wiki_bridge_wxo.Exec.{◌>>=◌, ◌>>◌, proceed, pure, raise, lift, gets}
use sage_wiki_bridge_wxo.Files.{FilePath, display}
use sage_wiki_bridge_wxo.Wechat.Primitives.{Primitives}
use sage_wiki_bridge_wxo.Store.Schema.{Db, Job}
use sage_wiki_bridge_wxo.Store.Messages.{get_message, mark_message_source_written}
use sage_wiki_bridge_wxo.Store.Jobs.{
  next_due, claim, returned, claim_next_job, mark_job_done, mark_job_retry_or_failed,
}
use sage_wiki_bridge_wxo.Store.Steps.{
  Reach, step, claim_step, written_step, done_step, put_back_step, fail_message_step,
}
use sage_wiki_bridge_wxo.Receiver.Process.{World, on_db}
use sage_wiki_bridge_wxo.Worker.Artifacts.{Worker, JobSurroundings}
use sage_wiki_bridge_wxo.Worker.Jobs.{
  Clock, WorkOutcome, no_job, done, write_sources, process_claimed_job, next_retry_at, settle,
  run_job, process_next,
}
use sage_wiki_bridge_wxo.Worker.Keeps.{write_sources-Keeps}
use sage_wiki_bridge_wxo.Worker.Settles.{claimed_next, claimed_none}

-- A failed attempt is two queries.
retry-Reach :
    {requeues : ℕ} (job_id : ℕ) (error next_run_at : Text) {db : Db}
    → Reach requeues db
    → Reach requeues (mark_job_retry_or_failed job_id error next_run_at db).1
unfolding mark_job_retry_or_failed
retry-Reach job_id error next_run_at r =
    step (step r (put_back_step job_id error next_run_at)) (fail_message_step job_id error)

module _ (p : Primitives) (clock : Clock) (worker : Worker) (out : JobSurroundings)
    (now : Text) where
  abbrev marked : ℕ → FilePath → Text → Db → Db
  marked id path text db =
      (mark_message_source_written out.current_timestamp id (display path) text db).1

  -- What a run of the worker on the database `db` makes of it, and what the run returns.
  pub data JobRun (db : Db) (r : Result WorkOutcome) (db' : Db) : Type 0 where
    -- no job was there to claim, and the database stays as it is,
    idle :
        claim_next_job worker.worker_id now db ≡ (ok none, db)
        → r ≡ ok no_job
        → db' ≡ db
        → JobRun db r db'
    -- or a job was claimed, its message marked as written, and the job marked as done,
    finished :
        (job : Job) (claimed : Db) (path : FilePath) (text : Text)
        → claim_next_job worker.worker_id now db ≡ (ok (some job), claimed)
        → r ≡ ok (done job.id path)
        → db' ≡ (mark_job_done job.id (marked job.message_id path text claimed)).1
        → JobRun db r db'
    -- or a job was claimed and put back with the text of the error.
    failed :
        (job : Job) (claimed : Db) (e : BridgeError)
        → claim_next_job worker.worker_id now db ≡ (ok (some job), claimed)
        → r ≡ err e
        → db'
          ≡ (mark_job_retry_or_failed job.id
              (to_text e)
              (next_retry_at p clock worker out now job.attempts)
              claimed).1
        → JobRun db r db'

  -- Processing a message marks it at the end, and changes nothing else in the database.
  abbrev Processing : ℕ → Db → Result FilePath → Db → Type 0
  Processing id db r db' =
      ((path : FilePath) × (text : Text) × (r ≡ ok path) × (db' ≡ marked id path text db))
      ⊎ ((e : BridgeError) × (r ≡ err e) × (db' ≡ db))

  process_claimed_job-Processing :
      (id : ℕ) (w : World)
      → Processing id w.db
          (process_claimed_job p clock worker out id w).0
          (process_claimed_job p clock worker out id w).1.db
  unfolding process_claimed_job ◌>>=◌ ◌>>◌ proceed gets lift pure on_db mark_message_source_written
  process_claimed_job-Processing id w = elim (Result-cases (get_message id w.db)) [
    | inr (e, missing) ↦ rw missing (inr (e, refl, refl))
    | inl (message, found) ↦
        let same : (write_sources p clock worker out message w).1.db ≡ w.db =
          (write_sources-Keeps (λ db. db ≡ w.db) p worker out clock message).keeps w refl in
        elim (Result-cases (write_sources p clock worker out message w).0) [
          | inr (e, bad) ↦ rw (found, bad) (inr (e, refl, same))
          | inl (written, fine) ↦
              rw (found, fine)
                (inl (
                  written.1.path,
                  written.0.markdown_body,
                  refl,
                  ap (marked id written.1.path written.0.markdown_body) same,
                ))
        ]
  ]

  settle-JobRun :
      (job : Job) (db claimed : Db) (r : Result FilePath) (w : World)
      → claim_next_job worker.worker_id now db ≡ (ok (some job), claimed)
      → Processing job.message_id claimed r w.db
      → JobRun db
          (settle p clock worker out now job r w).0
          (settle p clock worker out now job r w).1.db
  unfolding settle ◌>>=◌ ◌>>◌ proceed pure raise on_db mark_job_done mark_job_retry_or_failed
  settle-JobRun job db claimed r w is_claimed (inl (path, text, fine, same)) =
      rw (fine, same) (finished job claimed path text is_claimed refl refl)
  settle-JobRun job db claimed r w is_claimed (inr (e, bad, same)) =
      rw (bad, same) (failed job claimed e is_claimed refl refl)

  -- A run of a worker either finds no job and leaves the database as it is; or it claims a job,
  -- marks the job's message as written and the job as done, and reports the job as done; or it
  -- claims a job and puts it back with the text of the error that it returns. Nothing else changes
  -- in the database.
  pub process_next-JobRun :
      (w : World)
      → JobRun w.db
          (process_next p clock worker out now w).0
          (process_next p clock worker out now w).1.db
  process_next-JobRun w = elim (Option-cases (next_due now w.db.jobs)) [
    | inl e ↦
        let unclaimed : claim_next_job worker.worker_id now w.db ≡ (ok none, w.db) =
          unfold claim_next_job in rw (e, claim_next_job) refl in
        rw (claimed_none p clock worker out now w unclaimed) (idle unclaimed refl refl)
    | inr (row, e) ↦
        let job = returned (claim worker.worker_id now row) in
        let claimed = (claim_next_job worker.worker_id now w.db).1 in
        let is_claimed : claim_next_job worker.worker_id now w.db ≡ (ok (some job), claimed) =
          unfold claim_next_job in rw (e, claim_next_job) refl in
        rw (claimed_next p clock worker out now job claimed w is_claimed) (
          unfold run_job in
          settle-JobRun job w.db claimed
            (process_claimed_job p clock worker out job.message_id (record w { db = claimed })).0
            (process_claimed_job p clock worker out job.message_id (record w { db = claimed })).1
            is_claimed (process_claimed_job-Processing job.message_id (record w { db = claimed })))
  ]

  -- What a run does is a sequence of queries of `Step`, so a reachable database stays reachable.
  JobRun-Reach :
      {requeues : ℕ} {db db' : Db} {r : Result WorkOutcome}
      → JobRun db r db'
      → Reach requeues db
      → Reach requeues db'
  JobRun-Reach (idle _ _ e) r = rw e r
  JobRun-Reach (finished job claimed path text c _ e) r =
      let start = subst (Reach _) (ap (λ q. q.1) c) (step r (claim_step worker.worker_id now)) in
      rw e (step (step start (written_step _ _ _ _)) (done_step job.id))
  JobRun-Reach (failed job claimed x c _ e) r =
      let start = subst (Reach _) (ap (λ q. q.1) c) (step r (claim_step worker.worker_id now)) in
      rw e (retry-Reach job.id _ _ start)

  pub process_next-Reach :
      {requeues : ℕ} (w : World)
      → Reach requeues w.db
      → Reach requeues (process_next p clock worker out now w).1.db
  process_next-Reach w = JobRun-Reach (process_next-JobRun w)
