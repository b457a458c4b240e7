-- ===== src/Worker/Done.antt =====
-- A worker that reports a job as done has written the source of the job's message.
use mathlib.Core.Path.{subst}
use sage_wiki_bridge_wxo.Base.{ℕ, ◌≡◌, refl, ap, sym, ◌∙◌, inl, inr, some, arith}
use sage_wiki_bridge_wxo.Table.{first_where, first_where_sound}
use sage_wiki_bridge_wxo.Error.{Result, ok, err, Result-cases, ok_or-eq-ok}
use sage_wiki_bridge_wxo.Exec.{◌>>=◌, ◌>>◌, proceed, pure, raise, lift, gets}
use sage_wiki_bridge_wxo.Files.{FilePath}
use sage_wiki_bridge_wxo.Text.{Text}
use sage_wiki_bridge_wxo.Wechat.Primitives.{Primitives}
use sage_wiki_bridge_wxo.Store.Schema.{MessageRow, Db, Job}
use sage_wiki_bridge_wxo.Store.Messages.{has_id, get_message}
use sage_wiki_bridge_wxo.Store.Jobs.{claim_next_job, mark_job_done, mark_job_retry_or_failed}
use sage_wiki_bridge_wxo.Receiver.Process.{World, on_db}
use sage_wiki_bridge_wxo.Worker.Artifacts.{Worker, JobSurroundings}
use sage_wiki_bridge_wxo.Worker.Jobs.{
  Clock, no_job, done, process_claimed_job, settle, run_job, process_next,
}
use sage_wiki_bridge_wxo.Worker.Settles.{claimed_next, process_next-IsSettled}
use sage_wiki_bridge_wxo.Worker.Written.{IsProcessed, process_claimed_job-IsProcessed}

get_message-id :
    (id : ℕ) (db : Db) (message : MessageRow) → get_message id db ≡ ok message → message.id ≡ id
unfolding get_message has_id
get_message-id id db message h =
    let found = ok_or-eq-ok (first_where (has_id id) db.messages) _ h in
    let test = first_where_sound (has_id id) db.messages message found in ground arith

module _ (p : Primitives) (clock : Clock) (worker : Worker) (out : JobSurroundings)
    (now : Text) where
  -- A job whose message is not there does not succeed.
  has_message :
      (id : ℕ) (w : World) (path : FilePath)
      → (process_claimed_job p clock worker out id w).0 ≡ ok path
      → (message : MessageRow) × (get_message id w.db ≡ ok message)
  unfolding process_claimed_job ◌>>=◌ proceed gets lift
  has_message id w path h = elim (Result-cases (get_message id w.db)) [
    | inl (message, found) ↦ (message, found)
    | inr (e, missing) ↦ let k = rw missing at h in absurd (cc k)
  ]

  processed :
      (id : ℕ) (w : World) (path : FilePath)
      → (process_claimed_job p clock worker out id w).0 ≡ ok path
      → (message : MessageRow) × (get_message id w.db ≡ ok message)
        × IsProcessed p clock worker out message w path
            (process_claimed_job p clock worker out id w).1
  processed id w path h =
      let (message, found) = has_message id w path h in
      let same = get_message-id id w.db message found in
      (
        message,
        found,
        subst
            (λ i.
              IsProcessed p clock worker out message w path
                (process_claimed_job p clock worker out i w).1)
            same
            (process_claimed_job-IsProcessed p clock worker out message w path
              (ap (λ i. get_message i w.db) same ∙ found)
              (ap (λ i. (process_claimed_job p clock worker out i w).0) same ∙ h)),
      )

  settled :
      (job : Job) (r : Result FilePath) (w : World) (id : ℕ) (path : FilePath)
      → (settle p clock worker out now job r w).0 ≡ ok (done id path)
      → (r ≡ ok path)
        × ((settle p clock worker out now job r w).1
            ≡ record w { db = (mark_job_done job.id w.db).1 })
  unfolding settle ◌>>=◌ ◌>>◌ proceed pure raise on_db mark_job_done mark_job_retry_or_failed
  settled job (ok path') w id path h = (cc h, refl)
  settled job (err e) w id path h = (cc h, cc h)

  -- The end of a job leaves the files and the messages as they are.
  after_done :
      (job : Job) (message : MessageRow) (start : World) (path : FilePath) (w : World)
      → IsProcessed p clock worker out message start path w
      → IsProcessed p clock worker out message start path
          (record w { db = (mark_job_done job.id w.db).1 })
  unfolding mark_job_done
  after_done job message start path w done_with = record {
    artifact = done_with.artifact;
    result = done_with.result;
    end = done_with.end;
    sourced = done_with.sourced;
    writes = done_with.writes;
    is_path = done_with.is_path;
    holds = done_with.holds;
    marked = done_with.marked;
  }

  -- Where a worker reports a job as done, it had claimed this job, the job's message was there, and
  -- after all steps up to the source succeeded in turn, the document of the message's day has the text
  -- into which the artifact that the message gives was put, under the path that is reported and with
  -- which, as with the artifact's text, the message is marked as written.
  pub process_next-IsProcessed :
      (w w' : World) (id : ℕ) (path : FilePath)
      → process_next p clock worker out now w ≡ (ok (done id path), w')
      → (job : Job) × (db' : Db) × (message : MessageRow) × (claim_next_job worker.worker_id now
            w.db
          ≡ (ok (some job), db'))
        × (get_message job.message_id db' ≡ ok message)
        × IsProcessed p clock worker out message (record w { db = db' }) path w'
  process_next-IsProcessed w w' id path h = elim (process_next-IsSettled p clock worker out now w) [
    | inl (nothing, _) ↦
        let k : ok no_job ≡ ok (done id path) = ap (λ r. r.0) (sym nothing ∙ h) in absurd (cc k)
    | inr (job, db', claimed, _) ↦
        let start : World = record w { db = db' } in
        let ran = sym (claimed_next p clock worker out now job db' w claimed) ∙ h in
        let (fine, after) =
          settled job (process_claimed_job p clock worker out job.message_id start).0
            (process_claimed_job p clock worker out job.message_id start).1 id path
            (unfold run_job in ap (λ r. r.0) ran) in
        let (message, found, is_processed) = processed job.message_id start path fine in
        (
          job,
          db',
          message,
          claimed,
          found,
          subst (IsProcessed p clock worker out message start path)
              (sym after ∙ unfold run_job in ap (λ r. r.1) ran)
              (after_done job message start path
                (process_claimed_job p clock worker out job.message_id start).1 is_processed),
        )
  ]
