-- ===== src/Receiver/Inserts.antt =====
-- The insertion of a received message always gives an id, and leaves the other tables alone.
use sage_wiki_bridge_wxo.Base.{
  ℕ, ◌≡◌, refl, ◌⊎◌, inl, inr, true, false, Option, none, some, [], ◌∷◌, ◌++◌, is_some, arith,
  Bool-cases, Option-cases, ◌==◌,
}
use sage_wiki_bridge_wxo.Text.{Text, text_eq_refl}
use sage_wiki_bridge_wxo.Error.{ok}
use sage_wiki_bridge_wxo.Table.{first_where, first_where-append, first_where-append_some}
use sage_wiki_bridge_wxo.Store.Schema.{MessageInsert, Db}
use sage_wiki_bridge_wxo.Store.Messages.{
  has_msg_id, conflicts, new_row, insert_or_ignore, inserted_id, insert_message_idempotent,
  has_openid, upsert_whitelist,
}
use sage_wiki_bridge_wxo.Store.Jobs.{is_job_of, new_job, create_job_once}

pub insert_message_idempotent-tables :
    (first second : ℕ) (m : MessageInsert) (db : Db)
    → let db' = (insert_message_idempotent first second m db).1 in
      (db'.jobs ≡ db.jobs) × (db'.whitelist ≡ db.whitelist) × (db'.next_job_id ≡ db.next_job_id)
unfolding insert_message_idempotent insert_or_ignore
insert_message_idempotent-tables first second m db =
    elim (Bool-cases (conflicts m.wechat_msg_id db.messages)) [
      | inl c ↦ rw c (refl, refl, refl)
      | inr c ↦ rw c (refl, refl, refl)
    ]

found_inserted :
    (k : Text) (first : ℕ) (m : MessageInsert) (db : Db)
    → m.wechat_msg_id ≡ some k
    → is_some (first_where (has_msg_id k) (insert_or_ignore first m db).messages) ≡ true
found_inserted k first m db e = elim (Option-cases (first_where (has_msg_id k) db.messages)) [
  | inl missing ↦
      let fresh : conflicts m.wechat_msg_id db.messages ≡ false =
        rw e (unfold conflicts in ground arith) in
      let new : has_msg_id k (new_row db.next_message_id m) ≡ true =
        unfold has_msg_id new_row in rw (e, text_eq_refl k) in
      unfold insert_or_ignore in
      rw (fresh, first_where-append _ _ _ missing) (unfold first_where in rw new)
  | inr (row, found) ↦ elim (Bool-cases (conflicts m.wechat_msg_id db.messages)) [
    | inl c ↦ unfold insert_or_ignore in rw (c, found)
    | inr c ↦
        unfold insert_or_ignore in
        rw (c, first_where-append_some _ _ (new_row db.next_message_id m ∷ []) row found)
  ]
]

inserted_id-ok :
    (second : ℕ) (w : Option Text) (db : Db)
    → ((k : Text) → w ≡ some k → is_some (first_where (has_msg_id k) db.messages) ≡ true)
    → (id : ℕ) × (inserted_id second w db ≡ ok id)
unfolding inserted_id
inserted_id-ok second none db h = (db.last_rowid second, refl)
inserted_id-ok second (some k) db h = elim (Option-cases (first_where (has_msg_id k) db.messages)) [
  | inl missing ↦ let there = h k refl in absurd (ground arith)
  | inr (row, found) ↦ (row.id, rw (found, inserted_id))
]

pub insert_message_idempotent-ok :
    (first second : ℕ) (m : MessageInsert) (db : Db)
    → (id : ℕ) × ((insert_message_idempotent first second m db).0 ≡ ok id)
unfolding insert_message_idempotent
insert_message_idempotent-ok first second m db =
    inserted_id-ok second m.wechat_msg_id (insert_or_ignore first m db)
      (λ k. found_inserted k first m db)

pub create_job_once-jobs :
    (connection message_id : ℕ) (job_type next_run_at : Text) (db : Db)
    → let db' = (create_job_once connection message_id job_type next_run_at db).1 in
      (db'.jobs ≡ db.jobs)
      ⊎ (db'.jobs ≡ db.jobs ++ new_job db.next_job_id message_id job_type next_run_at ∷ [])
unfolding create_job_once
create_job_once-jobs connection message_id job_type next_run_at db =
    elim (Option-cases (first_where (is_job_of message_id job_type) db.jobs)) [
      | inr (row, found) ↦ inl (rw (found, create_job_once))
      | inl missing ↦
          elim (Bool-cases (is_some (first_where (λ row. row.id == message_id) db.messages))) [
            | inl there ↦ inr (rw (missing, there, create_job_once))
            | inr none_there ↦ inl (rw (missing, none_there, create_job_once))
          ]
    ]

pub upsert_whitelist-jobs :
    (connection : ℕ) (openid openid_hash source : Text) (db : Db)
    → (upsert_whitelist connection openid openid_hash source db).1.jobs ≡ db.jobs
unfolding upsert_whitelist
upsert_whitelist-jobs connection openid openid_hash source db =
    elim (Bool-cases (is_some (first_where (has_openid openid) db.whitelist))) [
      | inl old ↦ rw (old, upsert_whitelist)
      | inr new ↦ rw (new, upsert_whitelist)
    ]
