-- ===== src/Store/Messages.antt =====
-- The queries of src/store/mod.rs on the tables `messages` and `whitelist_subjects`. A query fails
-- here where its SQL does; failures of the database file are not modelled.
use mathlib.Core.Option
use sage_wiki_bridge_wxo.Base.{
  ℕ, ◌+◌, Bool, true, false, not, ◌&&◌, Option, none, some, List, [], ◌∷◌, ◌++◌, ltb, ◌==◌,
  if◌then◌else◌, is_some, unwrap_or,
}
use sage_wiki_bridge_wxo.Text.{Text, lit, text_eq, text_le, trim_spaces, is_empty, show_nat}
use sage_wiki_bridge_wxo.Error.{database, Result, ok, ok_or}
use sage_wiki_bridge_wxo.Exec.{Exec}
use sage_wiki_bridge_wxo.Table.{update_where, first_where, count_where, select_where}
use sage_wiki_bridge_wxo.Store.Schema.{
  MessageStatus, is_source_written, is_command, MessageInsert, MessageRow, WhitelistRow, Db,
  ThreadAnchor,
}

-- Stands for the text of sqlx's `RowNotFound`.
abbrev pub row_not_found : Text
row_not_found = lit "no rows returned by a query that expected to return at least one row"

unfoldable pub has_openid : Text → WhitelistRow → Bool
has_openid openid row = text_eq row.openid openid

-- `connection` is the one that the pool lends for the query.
unfoldable pub upsert_whitelist : ℕ → Text → Text → Text → Exec Db (Unit {0})
unfolding has_openid
upsert_whitelist connection openid openid_hash source db =
    if is_some (first_where (has_openid openid) db.whitelist)
    then (
      ok tt,
      record db {
        whitelist =
            update_where (has_openid openid)
              (λ row. record row { openid_hash = openid_hash; source = source; enabled = true })
              db.whitelist;
      },
    )
    else (
      ok tt,
      record db {
        whitelist =
            db.whitelist
            ++ record {
              id = db.next_whitelist_id;
              openid = openid;
              openid_hash = openid_hash;
              source = source;
              enabled = true;
            }
              ∷ [];
        next_whitelist_id = db.next_whitelist_id + 1;
        last_rowid = λ c. if c == connection then db.next_whitelist_id else db.last_rowid c;
      },
    )

unfoldable pub is_openid_whitelisted : Text → Db → Bool
is_openid_whitelisted openid db =
    ltb 0 (count_where (λ row. text_eq row.openid openid && row.enabled) db.whitelist)

-- `wechat_msg_id = ?`, which no NULL satisfies
unfoldable pub has_msg_id : Text → MessageRow → Bool
has_msg_id msg_id row = elim row.wechat_msg_id [ none ↦ false | some k ↦ text_eq k msg_id ]

-- The partial unique index leaves out NULL and the empty text.
unfoldable pub conflicts : Option Text → List MessageRow → Bool
unfolding has_msg_id is_empty
conflicts none rows = false
conflicts (some msg_id) rows =
    not (is_empty msg_id) && is_some (first_where (has_msg_id msg_id) rows)

unfoldable pub new_row : ℕ → MessageInsert → MessageRow
new_row id message = record {
  id = id;
  values = message;
  source_path = none;
  processed_text = none;
  error_kind = none;
  error_message = none;
  processed_at = none;
}

-- `INSERT OR IGNORE INTO messages`
unfoldable pub insert_or_ignore : ℕ → MessageInsert → Db → Db
unfolding conflicts new_row
insert_or_ignore connection message db =
    if conflicts message.wechat_msg_id db.messages then db else record db {
      messages = db.messages ++ new_row db.next_message_id message ∷ [];
      next_message_id = db.next_message_id + 1;
      last_rowid = λ c. if c == connection then db.next_message_id else db.last_rowid c;
    }

-- The second query: the id of the row with this message id, or the connection's last row.
unfoldable pub inserted_id : ℕ → Option Text → Db → Result ℕ
unfolding has_msg_id
inserted_id connection none db = ok (db.last_rowid connection)
inserted_id connection (some msg_id) db =
    ok_or (Option.map (λ row. row.id) (first_where (has_msg_id msg_id) db.messages))
      (database row_not_found)

-- The pool may lend another connection for the second query.
unfoldable pub insert_message_idempotent : ℕ → ℕ → MessageInsert → Exec Db ℕ
unfolding insert_or_ignore inserted_id
insert_message_idempotent first second message db =
    let db' = insert_or_ignore first message db in
    (inserted_id second message.wechat_msg_id db', db')

unfoldable pub has_id : ℕ → MessageRow → Bool
has_id id row = row.id == id

-- The columns of a `StoredMessage` are columns of the row.
unfoldable pub get_message : ℕ → Db → Result MessageRow
unfolding has_id
get_message message_id db =
    ok_or (first_where (has_id message_id) db.messages) (database row_not_found)

-- The second query of `find_ai_thread_anchor`: a `/new` command between the candidate and the
-- current message.
unfoldable pub is_boundary : Text → ℕ → ℕ → MessageRow → Bool
is_boundary from_openid_hash current_message_id candidate_id boundary =
    text_eq boundary.from_openid_hash from_openid_hash
    && ltb candidate_id boundary.id
    && ltb boundary.id current_message_id
    && is_command boundary.status
    && text_eq (trim_spaces (unwrap_or [] boundary.content_text)) (lit "/new")

unfoldable pub is_candidate : ℕ → Text → Text → List MessageRow → MessageRow → Bool
unfolding is_boundary
is_candidate current_message_id from_openid_hash threshold_received_at rows candidate =
    text_eq candidate.from_openid_hash from_openid_hash
    && ltb candidate.id current_message_id
    && text_le threshold_received_at candidate.received_at
    && is_source_written candidate.status
    && not
        (is_some (first_where (is_boundary from_openid_hash current_message_id candidate.id) rows))

-- `ORDER BY received_at DESC, id DESC`: whether the first row stands before the second.
unfoldable pub is_later : MessageRow → MessageRow → Bool
is_later a b =
    if text_eq a.received_at b.received_at
    then ltb b.id a.id
    else text_le b.received_at a.received_at

unfoldable pub pick_later : MessageRow → Option MessageRow → Option MessageRow
unfolding is_later
pick_later row none = some row
pick_later row (some other) = if is_later row other then some row else some other

-- `LIMIT 1`
unfoldable pub latest : List MessageRow → Option MessageRow
unfolding pick_later
latest [] = none
latest (row ∷ rows) = pick_later row (latest rows)

unfoldable pub find_ai_thread_anchor : ℕ → Text → Text → Db → Option ThreadAnchor
unfolding is_candidate latest
find_ai_thread_anchor current_message_id from_openid_hash threshold_received_at db =
    Option.map
      (λ row. record {
        message_key = unwrap_or (show_nat row.id) row.wechat_msg_id;
        received_at = row.received_at;
      })
      (latest (
        select_where
          (is_candidate current_message_id from_openid_hash threshold_received_at db.messages)
          db.messages))

unfoldable pub mark_message_source_written : Text → ℕ → Text → Text → Exec Db (Unit {0})
unfolding has_id
mark_message_source_written now message_id source_path processed_text db = (
  ok tt,
  record db {
    messages =
        update_where (has_id message_id)
          (λ row. record row {
            values = record row.values { status = MessageStatus.source_written };
            source_path = some source_path;
            processed_text = some processed_text;
            processed_at = some now;
          })
          db.messages;
  },
)
