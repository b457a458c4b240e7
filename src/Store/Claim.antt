-- ===== src/Store/Claim.antt =====
-- Which job a claim takes: the first of the due jobs, in the order of their times and ids.
use mathlib.Core.List.{Memᴰ}
use mathlib.Core.Path.{subst}
use sage_wiki_bridge_wxo.Base.{
  ℕ, ◌+◌, ◌≡◌, sym, ◌≢◌, ◌⊎◌, true, false, none, some, List, [], ◌∷◌, All, arith, inl, inr,
  Bool-cases, Option-cases,
}
use sage_wiki_bridge_wxo.Text.{
  Text, text_le, text_eq_iff, text_eq_refl, text_le_trans, text_le-antisym,
}
use sage_wiki_bridge_wxo.Error.{ok}
use sage_wiki_bridge_wxo.Table.{update_where, All-map}
use sage_wiki_bridge_wxo.Table.Keys.{All-Mem, All-of_Mem, Mem-update_where}
use sage_wiki_bridge_wxo.Store.Schema.{JobStatus, JobRow, Db, Job}
use sage_wiki_bridge_wxo.Store.Jobs.{
  is_due, runs_before, earlier, next_due, has_job_id, claim, returned, claim_next_job,
}

runs_before_irrefl : (a : JobRow) → runs_before a a ≡ false
unfolding runs_before
runs_before_irrefl a = ground (arith, text_eq_refl a.next_run_at)

runs_before_trans :
    (a b c : JobRow) → runs_before a b ≡ true → runs_before b c ≡ true → runs_before a c ≡ true
unfolding runs_before
runs_before_trans a b c h k = ground (
  arith,
  text_eq_iff a.next_run_at b.next_run_at,
  text_eq_iff b.next_run_at c.next_run_at,
  text_eq_iff a.next_run_at c.next_run_at,
  text_le_trans a.next_run_at b.next_run_at c.next_run_at,
  text_le-antisym a.next_run_at b.next_run_at,
)

next_due_step :
    (now : Text) (x : JobRow) (xs : List JobRow) (row : JobRow)
    → next_due now (x ∷ xs) ≡ some row
    → ((is_due now x ≡ true)
        × (x ≡ row)
        × ((next_due now xs ≡ none)
            ⊎ ((other : JobRow) × (next_due now xs ≡ some other) × (runs_before x other ≡ true))))
      ⊎ ((next_due now xs ≡ some row) × (is_due now x ≡ true → runs_before x row ≡ false))
unfolding next_due earlier
next_due_step now x xs row h = elim (Bool-cases (is_due now x)) [
  | inr no_due ↦ inr (ground arith, λ due. cc)
  | inl due ↦ elim (Option-cases (next_due now xs)) [
    | inl e ↦ inl (due, ground arith, inl e)
    | inr (other, e) ↦ elim (Bool-cases (runs_before x other)) [
      | inl b ↦ inl (due, ground arith, inr (other, e, b))
      | inr b ↦ let q : other ≡ row = ground arith in inr (rw (← q) e, λ _. rw (← q) b)
    ]
  ]
]

pub next_due-Mem :
    (now : Text) (xs : List JobRow) (row : JobRow) → next_due now xs ≡ some row → Memᴰ row xs
unfolding next_due
next_due-Mem now [] row h = cc
next_due-Mem now (x ∷ xs) row h = elim (next_due_step now x xs row h) [
  | inl (due, e, rest) ↦ Memᴰ.head (sym e)
  | inr (rest, later) ↦ Memᴰ.tail (next_due-Mem now xs row rest)
]

pub next_due-is_due :
    (now : Text) (xs : List JobRow) (row : JobRow)
    → next_due now xs ≡ some row
    → is_due now row ≡ true
unfolding next_due
next_due-is_due now [] row h = cc
next_due-is_due now (x ∷ xs) row h = elim (next_due_step now x xs row h) [
  | inl (due, e, rest) ↦ rw (← e) due
  | inr (rest, later) ↦ next_due-is_due now xs row rest
]

-- Where no job is next, none is due.
next_due-none :
    (now : Text) (xs : List JobRow)
    → next_due now xs ≡ none
    → All (λ other. is_due now other ≡ false) xs
unfolding next_due earlier
next_due-none now [] h = tt
next_due-none now (x ∷ xs) h = (ground arith, next_due-none now xs (ground arith))

-- No due job runs before the next one.
abbrev pub NoneBefore : Text → JobRow → JobRow → Type 0
NoneBefore now row other = is_due now other ≡ true → runs_before other row ≡ false

next_due-first :
    (now : Text) (xs : List JobRow) (row : JobRow)
    → next_due now xs ≡ some row
    → All (NoneBefore now row) xs
unfolding next_due
next_due-first now [] row h = tt
next_due-first now (x ∷ xs) row h = elim (next_due_step now x xs row h) [
  | inr (rest, later) ↦ (later, next_due-first now xs row rest)
  | inl (due, e, inl none_due) ↦ (
    λ _. rw e (runs_before_irrefl row),
    All-map _ _ (λ o no_due due. cc) xs (next_due-none now xs none_due),
  )
  | inl (due, e, inr (other, rest, before)) ↦ (
    λ _. rw e (runs_before_irrefl row),
    All-map _ _ (λ o h due. ground (arith, h due, runs_before_trans o x other)) xs
        (next_due-first now xs other rest),
  )
]

module _ (f : JobRow → JobRow) where
  pub updated-Mem :
      (row : JobRow) (rows : List JobRow)
      → Memᴰ row rows
      → Memᴰ (f row) (update_where (has_job_id row.id) f rows)
  updated-Mem row rows m =
      let e : has_job_id row.id row ≡ true = unfold has_job_id in ground arith in
      rw e at (Mem-update_where (has_job_id row.id) f m)

  pub kept-Mem :
      (id : ℕ) (other : JobRow) (rows : List JobRow)
      → other.id ≢ id
      → Memᴰ other rows
      → Memᴰ other (update_where (has_job_id id) f rows)
  kept-Mem id other rows ne m =
      let e : has_job_id id other ≡ false = unfold has_job_id in ground (arith, ne) in
      rw e at (Mem-update_where (has_job_id id) f m)

-- After a claim, the rows with its id are in process.
claimed_processing :
    (worker_id now : Text) (id : ℕ) (rows : List JobRow)
    → All
        (λ row. row.id ≡ id → row.status ≡ JobStatus.processing)
        (update_where (has_job_id id) (claim worker_id now) rows)
unfolding update_where claim has_job_id
claimed_processing worker_id now id [] = tt
claimed_processing worker_id now id (row ∷ rows) =
    (λ same. ground arith, claimed_processing worker_id now id rows)

module _ (worker_id now : Text) (db db' : Db) where
  claimed_row :
      (job : Job)
      → claim_next_job worker_id now db ≡ (ok (some job), db')
      → (row : JobRow) × (next_due now db.jobs ≡ some row)
        × (job ≡ returned (claim worker_id now row))
        × (db'.jobs ≡ update_where (has_job_id row.id) (claim worker_id now) db.jobs)
  unfolding claim_next_job
  claimed_row job h = elim (Option-cases (next_due now db.jobs)) [
    | inl e ↦ absurd (ground (arith, e))
    | inr (row, e) ↦ (row, e, ground (arith, e), ground (arith, e))
  ]

  -- A claim that finds a job takes one that was pending and due, before which no due job runs. It
  -- returns the job with one more attempt; the job is locked by the worker, and the other jobs stay
  -- as they were.
  pub claim_next_job-first :
      (job : Job)
      → claim_next_job worker_id now db ≡ (ok (some job), db')
      → (row : JobRow) × Memᴰ row db.jobs
        × (row.status ≡ JobStatus.pending)
        × (text_le row.next_run_at now ≡ true)
        × All (NoneBefore now row) db.jobs
        × (job.id ≡ row.id)
        × (job.attempts ≡ row.attempts + 1)
        × Memᴰ (claim worker_id now row) db'.jobs
        × All (λ other. other.id ≢ row.id → Memᴰ other db'.jobs) db.jobs
  claim_next_job-first job h =
      let (row, e, j, d) = claimed_row job h in
      let due = next_due-is_due now db.jobs row e in
      let m = next_due-Mem now db.jobs row e in
      (
        row,
        m,
        unfold is_due in ground arith,
        unfold is_due in ground arith,
        next_due-first now db.jobs row e,
        unfold returned claim in cc,
        unfold returned claim in cc,
        subst (Memᴰ _) (sym d) (updated-Mem (claim worker_id now) row db.jobs m),
        All-of_Mem _ db.jobs
            (λ other mo ne. subst (Memᴰ other) (sym d) (kept-Mem _ row.id other db.jobs ne mo)),
      )

  -- A claim that finds no job changes nothing, and no job was pending and due.
  pub claim_next_job-none :
      claim_next_job worker_id now db ≡ (ok none, db')
      → (db' ≡ db) × All (λ other. is_due now other ≡ false) db.jobs
  unfolding claim_next_job
  claim_next_job-none h = elim (Option-cases (next_due now db.jobs)) [
    | inl e ↦ (ground (arith, e), next_due-none now db.jobs e)
    | inr (row, e) ↦ absurd (ground (arith, e))
  ]

-- Two claims, one after the other, never return the same job.
pub claim_twice :
    (w₁ now₁ w₂ now₂ : Text) (db db₁ db₂ : Db) (a b : Job)
    → claim_next_job w₁ now₁ db ≡ (ok (some a), db₁)
    → claim_next_job w₂ now₂ db₁ ≡ (ok (some b), db₂)
    → a.id ≢ b.id
claim_twice w₁ now₁ w₂ now₂ db db₁ db₂ a b h k same =
    let (row, e, j, d) = claimed_row w₁ now₁ db db₁ a h in
    let (next, e', j', d') = claimed_row w₂ now₂ db₁ db₂ b k in
    let m = next_due-Mem now₂ db₁.jobs next e' in
    let due = next_due-is_due now₂ db₁.jobs next e' in
    let busy = All-Mem _ (claimed_processing w₁ now₁ row.id db.jobs) (subst (Memᴰ next) d m) in
    let same_id : next.id ≡ row.id = unfold returned claim in cc (j, j', same) in
    unfold is_due in ground (arith, busy same_id)
