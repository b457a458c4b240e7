-- ===== src/Store/MessagesKeep.antt =====
-- The queries on messages and on the whitelist keep the invariant.
use sage_wiki_bridge_wxo.Base.{
  ℕ, ◌≡◌, refl, ap, ◌∙◌, Bool, false, Option, none, some, List, ◌==◌, All, is_some, arith, inl, inr,
  Bool-cases,
}
use sage_wiki_bridge_wxo.Text.{Text, non_empty, is_empty, text_eq_refl}
use sage_wiki_bridge_wxo.Table.{first_where, update_where, All-map, All-total}
use sage_wiki_bridge_wxo.Table.Keys.{
  All-snoc, AllPairs-snoc, map-snoc, map-update_where, first_where-none, is_some-first_where-append,
  is_some-first_where-update_where, All-of_map,
}
use sage_wiki_bridge_wxo.Store.Schema.{MessageInsert, MessageRow, WhitelistRow, Db}
use sage_wiki_bridge_wxo.Store.Messages.{
  has_openid, has_msg_id, conflicts, insert_or_ignore, insert_message_idempotent,
  mark_message_source_written, upsert_whitelist,
}
use sage_wiki_bridge_wxo.Store.Invariant.{msg_id_keys, Apart, IsValid}

not_found-Apart :
    (msg_id : Text) (row : MessageRow)
    → has_msg_id msg_id row ≡ false
    → Apart (non_empty row.wechat_msg_id) (non_empty (some msg_id))
unfolding has_msg_id non_empty
not_found-Apart msg_id row h e = ground (arith, text_eq_refl msg_id)

left_out :
    (w : Option Text) (rows : List MessageRow)
    → non_empty w ≡ none
    → All (λ k. Apart k (non_empty w)) (msg_id_keys rows)
left_out w rows h = rw h (All-total _ (λ k e. e) (msg_id_keys rows))

-- A message id that does not conflict is apart from those of all rows.
no_conflict-Apart :
    (w : Option Text) (rows : List MessageRow)
    → conflicts w rows ≡ false
    → All (λ k. Apart k (non_empty w)) (msg_id_keys rows)
no_conflict-Apart none rows h = left_out none rows (unfold non_empty in refl)
no_conflict-Apart (some msg_id) rows h = elim (Bool-cases (is_empty msg_id)) [
  | inl e ↦ left_out (some msg_id) rows (unfold non_empty in rw e)
  | inr e ↦ All-of_map _ _ rows (
      All-map _ _ (not_found-Apart msg_id) rows
        (first_where-none (has_msg_id msg_id) rows (unfold conflicts has_msg_id in ground arith)))
]

insert_or_ignore-IsValid :
    (connection : ℕ) (m : MessageInsert) {db : Db}
    → IsValid db
    → IsValid (insert_or_ignore connection m db)
unfolding insert_or_ignore
insert_or_ignore-IsValid connection m {db} v =
    elim (Bool-cases (conflicts m.wechat_msg_id db.messages)) [
      | inl e ↦ rw e v
      | inr e ↦ rw e (record {
        message_ids_below = rw map-snoc (
            All-snoc _ _ _ (All-map _ _ (λ id h. omega arith) _ v.message_ids_below) (omega arith));
        message_ids_unique = rw map-snoc (
            AllPairs-snoc _ _ _ v.message_ids_unique
              (All-map _ _ (λ id h same. omega arith) _ v.message_ids_below));
        msg_ids_unique =
            rw map-snoc (AllPairs-snoc _ _ _ v.msg_ids_unique (no_conflict-Apart _ _ e));
        job_ids_below = v.job_ids_below;
        job_ids_unique = v.job_ids_unique;
        job_keys_unique = v.job_keys_unique;
        jobs_consistent = v.jobs_consistent;
        jobs_have_message =
            All-map _ _ (λ row h. is_some-first_where-append _ db.messages _ h) db.jobs
              v.jobs_have_message;
      })
    ]

-- Storing a message keeps the invariant, on whichever connections its queries run.
pub insert_message_idempotent-IsValid :
    (first second : ℕ) (m : MessageInsert) {db : Db}
    → IsValid db
    → IsValid (insert_message_idempotent first second m db).1
unfolding insert_message_idempotent
insert_message_idempotent-IsValid first second m v = insert_or_ignore-IsValid first m v

-- The invariant does not look at the whitelist.
whitelist-IsValid :
    (rows : List WhitelistRow) (next : ℕ) (rowid : ℕ → ℕ) {db : Db}
    → IsValid db
    → IsValid (record db { whitelist = rows; next_whitelist_id = next; last_rowid = rowid })
whitelist-IsValid rows next rowid v = record {
  message_ids_below = v.message_ids_below;
  message_ids_unique = v.message_ids_unique;
  msg_ids_unique = v.msg_ids_unique;
  job_ids_below = v.job_ids_below;
  job_ids_unique = v.job_ids_unique;
  job_keys_unique = v.job_keys_unique;
  jobs_consistent = v.jobs_consistent;
  jobs_have_message = v.jobs_have_message;
}

pub upsert_whitelist-IsValid :
    (connection : ℕ) (openid openid_hash source : Text) {db : Db}
    → IsValid db
    → IsValid (upsert_whitelist connection openid openid_hash source db).1
unfolding upsert_whitelist has_openid
upsert_whitelist-IsValid connection openid openid_hash source {db} v =
    elim (Bool-cases (is_some (first_where (has_openid openid) db.whitelist))) [
      | inl e ↦ rw e (whitelist-IsValid _ _ _ v)
      | inr e ↦ rw e (whitelist-IsValid _ _ _ v)
    ]

-- An update of a message that keeps its id and its message id keeps the invariant.
pub update_messages-IsValid :
    (p : MessageRow → Bool) (f : MessageRow → MessageRow) {db : Db}
    → ((row : MessageRow) → (f row).id ≡ row.id)
    → ((row : MessageRow) → (f row).wechat_msg_id ≡ row.wechat_msg_id)
    → IsValid db
    → IsValid (record db { messages = update_where p f db.messages })
update_messages-IsValid p f {db} same_id same_key v =
    let ids = map-update_where (λ (row : MessageRow). row.id) p f same_id db.messages in
    let keys =
      map-update_where (λ (row : MessageRow). non_empty row.wechat_msg_id) p f
        (λ row. ap non_empty (same_key row)) db.messages in
    record {
      message_ids_below = rw ids v.message_ids_below;
      message_ids_unique = rw ids v.message_ids_unique;
      msg_ids_unique = rw keys v.msg_ids_unique;
      job_ids_below = v.job_ids_below;
      job_ids_unique = v.job_ids_unique;
      job_keys_unique = v.job_keys_unique;
      jobs_consistent = v.jobs_consistent;
      jobs_have_message =
          All-map _ _
            (λ row h.
              is_some-first_where-update_where (λ message. message.id == row.message_id) p f
                (λ message. ap (λ i. i == row.message_id) (same_id message)) db.messages
              ∙ h)
            db.jobs v.jobs_have_message;
    }

pub mark_message_source_written-IsValid :
    (now : Text) (message_id : ℕ) (source_path processed_text : Text) {db : Db}
    → IsValid db
    → IsValid (mark_message_source_written now message_id source_path processed_text db).1
unfolding mark_message_source_written
mark_message_source_written-IsValid now message_id source_path processed_text v =
    update_messages-IsValid _ _ (λ row. refl) (λ row. refl) v
