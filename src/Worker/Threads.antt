-- ===== src/Worker/Threads.antt =====
-- Which thread a message joins: that of the latest message before it only where this message began
-- its thread itself.
use sage_wiki_bridge_wxo.Base.{
  ◌≡◌, ◌≢◌, refl, ap, sym, ◌∙◌, inl, inr, Option-cases, Option, none, some, ◌++◌, min, arith,
  length, length-append, unwrap_or,
}
use sage_wiki_bridge_wxo.Text.{Text, lit, show_nat}
use sage_wiki_bridge_wxo.Table.{select_where}
use sage_wiki_bridge_wxo.Wechat.Primitives.{Primitives}
use sage_wiki_bridge_wxo.Store.Schema.{MessageRow, Db}
use sage_wiki_bridge_wxo.Store.Messages.{is_candidate, latest, find_ai_thread_anchor}
use sage_wiki_bridge_wxo.Worker.{i64_max}
use sage_wiki_bridge_wxo.Worker.Artifacts.{Worker, JobSurroundings, message_key}
use sage_wiki_bridge_wxo.Worker.Jobs.{Clock, thread_id_for_message}

-- The key that the query returns for a row.
abbrev pub anchor_key : MessageRow → Text
anchor_key row = unwrap_or (show_nat row.id) row.wechat_msg_id

module _ (p : Primitives) (clock : Clock) (worker : Worker) (out : JobSurroundings) where
  -- The latest message of the same sender, within the window, that is written and behind which no
  -- new thread was asked for.
  abbrev pub latest_before : MessageRow → Db → Option MessageRow
  latest_before message db = elim (clock.parse message.received_at) [
    | none ↦ none
    | some received_at ↦
        let threshold = unwrap_or message.received_at (
          clock.format
            (clock.sub_seconds received_at (min worker.ai_source_thread_window i64_max))) in
        latest (
          select_where (is_candidate message.id message.from_openid_hash threshold db.messages)
            db.messages)
  ]

  joins_latest :
      (message row : MessageRow) (db : Db)
      → latest_before message db ≡ some row
      → thread_id_for_message p clock worker out message db ≡ anchor_key row
  unfolding thread_id_for_message find_ai_thread_anchor
  joins_latest message row db h = elim (Option-cases (clock.parse message.received_at)) [
    | inl unread ↦ absurd (let k = rw (unread, latest_before) at h in cc k)
    | inr (received_at, read) ↦
        let found = rw (read, latest_before) at h in rw (read, found, thread_id_for_message) refl
  ]

  key_without_id : (row : MessageRow) → row.wechat_msg_id ≡ none → anchor_key row ≢ message_key row
  unfolding message_key lit
  key_without_id row h e =
      let k : show_nat row.id ≡ lit "message_" ++ show_nat row.id = rw h at e in
      omega (arith, ap length k, length-append {0} (lit "message_") (show_nat row.id))

  -- A message that has a latest message before it does not join the thread of that message where
  -- that message was put into a thread that is not named by its own key.
  pub thread_id_for_message-splits :
      (message row : MessageRow) (db earlier : Db)
      → latest_before message db ≡ some row
      → thread_id_for_message p clock worker out row earlier ≢ anchor_key row
      → thread_id_for_message p clock worker out message db
        ≢ thread_id_for_message p clock worker out row earlier
  thread_id_for_message-splits message row db earlier h other same =
      other (sym same ∙ joins_latest message row db h)

  -- Where the latest message has no message id, the thread that is joined is not named by the key
  -- under which that message is written.
  pub thread_id_for_message-message_key :
      (message row : MessageRow) (db : Db)
      → latest_before message db ≡ some row
      → row.wechat_msg_id ≡ none
      → thread_id_for_message p clock worker out message db ≢ message_key row
  thread_id_for_message-message_key message row db h no_id same =
      key_without_id row no_id (sym (joins_latest message row db h) ∙ same)
