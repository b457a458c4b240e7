-- ===== src/Store/Repeat.antt =====
-- Delivering a message again, and queueing its job again, is harmless. A message id that is empty
-- is the exception.
use sage_wiki_bridge_wxo.Base.{
  ℕ, ◌≡◌, refl, ◌∙◌, true, false, Option, none, some, List, [], ◌∷◌, ◌++◌, arith, inl, inr,
  Bool-cases, Option-cases, if◌then◌else◌, ◌==◌,
}
use sage_wiki_bridge_wxo.Text.{Text, text_eq_refl, is_empty}
use sage_wiki_bridge_wxo.Error.{ok}
use sage_wiki_bridge_wxo.Table.{first_where, first_where-append, first_where-append_some}
use sage_wiki_bridge_wxo.Store.Schema.{MessageInsert, MessageRow, JobRow, Db}
use sage_wiki_bridge_wxo.Store.Messages.{
  has_msg_id, conflicts, new_row, insert_or_ignore, inserted_id, insert_message_idempotent,
}
use sage_wiki_bridge_wxo.Store.Jobs.{is_job_of, new_job, create_job_once}

module _ (msg_id : Text) where
  new_row-has_msg_id :
      (id : ℕ) (m : MessageInsert)
      → m.wechat_msg_id ≡ some msg_id
      → has_msg_id msg_id (new_row id m) ≡ true
  unfolding has_msg_id new_row
  new_row-has_msg_id id m e = ground (arith, text_eq_refl msg_id)

  no_conflict :
      (w : Option Text) (rows : List MessageRow)
      → w ≡ some msg_id
      → first_where (has_msg_id msg_id) rows ≡ none
      → conflicts w rows ≡ false
  no_conflict w rows e missing = rw e (unfold conflicts in rw missing (ground arith))

  conflict :
      (w : Option Text) (rows : List MessageRow) (row : MessageRow)
      → w ≡ some msg_id
      → is_empty msg_id ≡ false
      → first_where (has_msg_id msg_id) rows ≡ some row
      → conflicts w rows ≡ true
  conflict w rows row e full found = rw e (unfold conflicts in rw (found, full))

  -- A message that bears a message id is found after the insertion, whether or not it was there.
  found_after_insert :
      (first : ℕ) (m : MessageInsert) (db : Db)
      → m.wechat_msg_id ≡ some msg_id
      → (row : MessageRow) × (first_where (has_msg_id msg_id) (insert_or_ignore first m db).messages
          ≡ some row)
  found_after_insert first m db e =
      elim (Option-cases (first_where (has_msg_id msg_id) db.messages)) [
        | inr (row, found) ↦ elim (Bool-cases (conflicts m.wechat_msg_id db.messages)) [
          | inl c ↦ (row, unfold insert_or_ignore in rw c found)
          | inr c ↦ (
            row,
            unfold insert_or_ignore in
                rw c (
                  first_where-append_some _ db.messages (new_row db.next_message_id m ∷ []) row
                    found),
          )
        ]
        | inl missing ↦
            let c = no_conflict m.wechat_msg_id db.messages e missing in
            (
              new_row db.next_message_id m,
              unfold insert_or_ignore in
                  rw c (
                    first_where-append _ db.messages (new_row db.next_message_id m ∷ []) missing
                    ∙ unfold first_where in rw (new_row-has_msg_id db.next_message_id m e)),
            )
      ]

  -- A message with a message id that is not empty, delivered again with whatever other contents and
  -- on whatever connections, is given the id of the first delivery, and nothing changes.
  pub insert_message_idempotent-again :
      (c₁ c₂ c₃ c₄ : ℕ) (m n : MessageInsert) (db : Db)
      → m.wechat_msg_id ≡ some msg_id
      → n.wechat_msg_id ≡ some msg_id
      → is_empty msg_id ≡ false
      → let once = insert_message_idempotent c₁ c₂ m db in
        insert_message_idempotent c₃ c₄ n once.1 ≡ once
  insert_message_idempotent-again c₁ c₂ c₃ c₄ m n db em en full =
      let once = insert_or_ignore c₁ m db in
      let (row, found) = found_after_insert c₁ m db em in
      let ignored : insert_or_ignore c₃ n once ≡ once =
        unfold insert_or_ignore in rw (conflict n.wechat_msg_id once.messages row en full found) in
      unfold insert_message_idempotent in rw (ignored, en, em) (unfold inserted_id in refl)

module _ (message_id : ℕ) (job_type : Text) where
  new_job-is_job_of :
      (id : ℕ) (next_run_at : Text)
      → is_job_of message_id job_type (new_job id message_id job_type next_run_at) ≡ true
  unfolding is_job_of new_job
  new_job-is_job_of id next_run_at = ground (arith, text_eq_refl job_type)

  appended_job :
      (id : ℕ) (next_run_at : Text) (jobs : List JobRow)
      → first_where (is_job_of message_id job_type) jobs ≡ none
      → first_where
          (is_job_of message_id job_type)
          (jobs ++ new_job id message_id job_type next_run_at ∷ [])
        ≡ some (new_job id message_id job_type next_run_at)
  appended_job id next_run_at jobs e =
      first_where-append _ jobs (new_job id message_id job_type next_run_at ∷ []) e
      ∙ unfold first_where in rw (new_job-is_job_of id next_run_at)

  -- After a call that succeeds the job is there, under the id that was returned.
  pub queued_job :
      (connection : ℕ) (next_run_at : Text) (db db' : Db) (id : ℕ)
      → create_job_once connection message_id job_type next_run_at db ≡ (ok id, db')
      → (row : JobRow) × (first_where (is_job_of message_id job_type) db'.jobs ≡ some row)
        × (row.id ≡ id)
  unfolding create_job_once
  queued_job connection next_run_at db db' id h =
      elim (Option-cases (first_where (is_job_of message_id job_type) db.jobs)) [
        | inr (row, e) ↦
            let same : db.jobs ≡ db'.jobs = ground (arith, e) in
            (row, rw (← same) e, ground (arith, e))
        | inl e ↦
            let job = new_job db.next_job_id message_id job_type next_run_at in
            let added : db.jobs ++ job ∷ [] ≡ db'.jobs = ground (arith, e) in
            (
              job,
              rw (← added) (appended_job db.next_job_id next_run_at db.jobs e),
              unfold new_job in ground (arith, e),
            )
      ]

  -- A job that was queued, or was there already, is found again with its id, and nothing changes,
  -- whatever the time of the second call.
  pub create_job_once-again :
      (c₁ c₂ : ℕ) (t₁ t₂ : Text) (db db' : Db) (id : ℕ)
      → create_job_once c₁ message_id job_type t₁ db ≡ (ok id, db')
      → create_job_once c₂ message_id job_type t₂ db' ≡ (ok id, db')
  create_job_once-again c₁ c₂ t₁ t₂ db db' id h =
      let (row, found, same) = queued_job c₁ t₁ db db' id h in
      unfold create_job_once in rw (found, create_job_once) (rw same)

found_id :
    (connection : ℕ) (w : Option Text) (msg_id : Text) (db : Db) (row : MessageRow)
    → w ≡ some msg_id
    → first_where (has_msg_id msg_id) db.messages ≡ some row
    → inserted_id connection w db ≡ ok row.id
found_id connection w msg_id db row e found = rw e (unfold inserted_id in rw found)

-- Of a message without a message id the new row's id is returned if the pool lends the connection of
-- the insertion again, and otherwise the id of whatever the other connection inserted last.
pub insert_message_idempotent-connection :
    (first second : ℕ) (m : MessageInsert) (db : Db)
    → m.wechat_msg_id ≡ none
    → (insert_message_idempotent first second m db).0
      ≡ ok (if second == first then db.next_message_id else db.last_rowid second)
unfolding insert_message_idempotent
insert_message_idempotent-connection first second m db e = ground arith

-- A message whose message id is the empty text is stored as a new row, but the id that is returned
-- is that of the first row with an empty message id.
pub insert_message_idempotent-empty :
    (first second : ℕ) (m : MessageInsert) (db : Db) (row : MessageRow)
    → m.wechat_msg_id ≡ some []
    → first_where (has_msg_id []) db.messages ≡ some row
    → let (id, db') = insert_message_idempotent first second m db in
      (id ≡ ok row.id) × (db'.messages ≡ db.messages ++ new_row db.next_message_id m ∷ [])
insert_message_idempotent-empty first second m db row e found =
    let kept =
      first_where-append_some _ db.messages (new_row db.next_message_id m ∷ []) row found in
    let c : conflicts m.wechat_msg_id db.messages ≡ false = rw e (unfold conflicts in refl) in
    (
      unfold insert_message_idempotent in
          found_id second m.wechat_msg_id [] (insert_or_ignore first m db) row e
            (unfold insert_or_ignore in rw c kept),
      unfold insert_message_idempotent insert_or_ignore in rw c,
    )
