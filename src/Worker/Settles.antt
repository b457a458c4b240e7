-- ===== src/Worker/Settles.antt =====
-- What becomes of a claimed job, whatever happens while its message is processed.
use sage_wiki_bridge_wxo.Base.{
  ℕ, ◌≤◌, ◌<◌, ◌≡◌, refl, ◌⊎◌, inl, inr, false, none, some, List, [], ◌∷◌, All, arith, Bool-cases,
  Option-cases,
}
use sage_wiki_bridge_wxo.Text.{Text}
use sage_wiki_bridge_wxo.Table.{update_where}
use sage_wiki_bridge_wxo.Error.{BridgeError, to_text, Result, ok, err}
use sage_wiki_bridge_wxo.Exec.{◌>>=◌, ◌>>◌, proceed, pure, raise}
use sage_wiki_bridge_wxo.Files.{FilePath}
use sage_wiki_bridge_wxo.Wechat.Primitives.{Primitives}
use sage_wiki_bridge_wxo.Store.Schema.{JobStatus, JobRow, Db, Job}
use sage_wiki_bridge_wxo.Store.Jobs.{
  has_job_id, is_due, next_due, claim, returned, claim_next_job, finish, mark_job_done,
  retry_or_fail, mark_job_retry_or_failed,
}
use sage_wiki_bridge_wxo.Store.Claim.{claim_next_job-none}
use sage_wiki_bridge_wxo.Receiver.Process.{World, on_db}
use sage_wiki_bridge_wxo.Worker.Artifacts.{Worker, JobSurroundings}
use sage_wiki_bridge_wxo.Worker.Jobs.{
  Clock, WorkOutcome, no_job, done, next_retry_at, settle, run_job, process_next,
}

updated_rows :
    (Q : JobRow → Type 0) (f : JobRow → JobRow) (id : ℕ)
    → ((row : JobRow) → Q (f row))
    → (rows : List JobRow) → All (λ row. row.id ≡ id → Q row) (update_where (has_job_id id) f rows)
unfolding update_where has_job_id
updated_rows Q f id h [] = tt
updated_rows Q f id h (row ∷ rows) = elim (Bool-cases (has_job_id id row)) [
  | inl same ↦ rw same (λ _. h row, updated_rows Q f id h rows)
  | inr other ↦
      rw other (λ e. absurd (unfold has_job_id in ground arith), updated_rows Q f id h rows)
]

-- A job after a failed attempt: unlocked, with the error's text, pending at the given time if it has
-- attempts left, and failed otherwise.
pub record IsPutBack (error next_run_at : Text) (row : JobRow) : Type 0 where
  pub unlocked : (row.locked_at ≡ none) × (row.locked_by ≡ none)
  pub has_error : row.last_error ≡ some error
  pub tried_again :
      row.attempts < row.max_attempts
      → (row.status ≡ JobStatus.pending) × (row.next_run_at ≡ next_run_at)
  pub failed : row.max_attempts ≤ row.attempts → row.status ≡ JobStatus.failed

retry_or_fail-IsPutBack :
    (error next_run_at : Text) (row : JobRow)
    → IsPutBack error next_run_at (retry_or_fail error next_run_at row)
unfolding retry_or_fail
retry_or_fail-IsPutBack error next_run_at row = record {
  unlocked = (refl, refl);
  has_error = refl;
  tried_again = λ h. ground arith;
  failed = λ h. ground arith;
}

module _ (p : Primitives) (clock : Clock) (worker : Worker) (out : JobSurroundings)
    (now : Text) where
  -- The end of a job that was claimed.
  pub record IsSettled (job : Job) (r : Result WorkOutcome × World) : Type 0 where
    -- It is reported as done and is done,
    pub finished :
        {outcome : WorkOutcome}
        → r.0 ≡ ok outcome
        → (path : FilePath) × (outcome ≡ done job.id path)
          × All (λ row. row.id ≡ job.id → row.status ≡ JobStatus.done) r.1.db.jobs
    -- or the error is returned, and the job is put back with its text.
    pub put_back :
        (e : BridgeError)
        → r.0 ≡ err e
        → All
            (λ row.
              row.id ≡ job.id
              → IsPutBack (to_text e) (next_retry_at p clock worker out now job.attempts) row)
            r.1.db.jobs

  settle-IsSettled :
      (job : Job) (r : Result FilePath) (w : World)
      → IsSettled job (settle p clock worker out now job r w)
  unfolding settle ◌>>=◌ ◌>>◌ proceed pure raise on_db mark_job_done mark_job_retry_or_failed finish
  settle-IsSettled job (ok path) w = record {
    finished = λ h. (
      path,
      cc,
      updated_rows (λ row. row.status ≡ JobStatus.done) finish job.id (λ row. refl) w.db.jobs,
    );
    put_back = λ e h. cc;
  }
  settle-IsSettled job (err e) w = record {
    finished = λ h. cc;
    put_back = λ e' h.
        let same : e ≡ e' = cc h in
        rw (← same) (
          updated_rows _
            (retry_or_fail (to_text e) (next_retry_at p clock worker out now job.attempts)) job.id
            (retry_or_fail-IsPutBack (to_text e) _) w.db.jobs);
  }

  run_job-IsSettled : (job : Job) (w : World) → IsSettled job (run_job p clock worker out now job w)
  unfolding run_job
  run_job-IsSettled job w = settle-IsSettled job _ _

  pub claimed_next :
      (job : Job) (db' : Db) (w : World)
      → claim_next_job worker.worker_id now w.db ≡ (ok (some job), db')
      → process_next p clock worker out now w
        ≡ run_job p clock worker out now job (record w { db = db' })
  unfolding process_next ◌>>=◌ proceed on_db
  claimed_next job db' w h = rw h refl

  pub claimed_none :
      (w : World)
      → claim_next_job worker.worker_id now w.db ≡ (ok none, w.db)
      → process_next p clock worker out now w ≡ (ok no_job, w)
  unfolding process_next ◌>>=◌ proceed on_db pure
  claimed_none w h = rw h refl

  -- Either no job was pending and due, and nothing changes, or a job is claimed and settled: it is
  -- done if this is reported, and put back with the text of the error that is returned otherwise.
  pub process_next-IsSettled :
      (w : World)
      → ((process_next p clock worker out now w ≡ (ok no_job, w))
          × All (λ row. is_due now row ≡ false) w.db.jobs)
        ⊎ ((job : Job) × (db' : Db) × (claim_next_job worker.worker_id now w.db
              ≡ (ok (some job), db'))
            × IsSettled job (process_next p clock worker out now w))
  process_next-IsSettled w = elim (Option-cases (next_due now w.db.jobs)) [
    | inl e ↦
        let unclaimed : claim_next_job worker.worker_id now w.db ≡ (ok none, w.db) =
          unfold claim_next_job in rw (e, claim_next_job) refl in
        inl (
          claimed_none w unclaimed,
          (claim_next_job-none worker.worker_id now w.db w.db unclaimed).1,
        )
    | inr (row, e) ↦
        let job = returned (claim worker.worker_id now row) in
        let db' = (claim_next_job worker.worker_id now w.db).1 in
        let claimed : claim_next_job worker.worker_id now w.db ≡ (ok (some job), db') =
          unfold claim_next_job in rw (e, claim_next_job) refl in
        inr (
          job,
          db',
          claimed,
          rw (claimed_next job db' w claimed) (run_job-IsSettled job (record w { db = db' })),
        )
  ]
