-- ===== src/Receiver/Rows.antt =====
-- The row of the id that an insertion gives.
use sage_wiki_bridge_wxo.Base.{
  ℕ, ◌≡◌, refl, ◌⊎◌, inl, inr, Bool, true, false, Option, none, some, List, [], ◌∷◌, ◌++◌, is_some,
  arith, Option-cases, ◌==◌,
}
use sage_wiki_bridge_wxo.Text.{Text}
use sage_wiki_bridge_wxo.Error.{ok}
use sage_wiki_bridge_wxo.Table.{first_where, first_where-append, first_where-append_some}
use sage_wiki_bridge_wxo.Table.Keys.{first_where-Mem, first_where-some_of_Mem}
use sage_wiki_bridge_wxo.Store.Schema.{MessageInsert, MessageRow, Db}
use sage_wiki_bridge_wxo.Store.Messages.{
  has_msg_id, conflicts, new_row, insert_or_ignore, inserted_id, insert_message_idempotent,
}

abbrev pub is_row : ℕ → MessageRow → Bool
is_row id row = row.id == id

abbrev pub HasRow : Db → ℕ → Type 0
HasRow db id = is_some (first_where (is_row id) db.messages) ≡ true

row_there :
    (k : Text) (db : Db) (row : MessageRow)
    → first_where (has_msg_id k) db.messages ≡ some row
    → HasRow db row.id
row_there k db row found =
    let (other, there) =
      first_where-some_of_Mem (is_row row.id) row db.messages
        (first_where-Mem (has_msg_id k) db.messages row found) (ground arith) in
    rw there refl

inserted_id-HasRow :
    (w : Option Text) (second : ℕ) (db : Db) (id : ℕ)
    → (w ≡ none → HasRow db (db.last_rowid second))
    → inserted_id second w db ≡ ok id
    → HasRow db id
unfolding inserted_id
inserted_id-HasRow none second db id last h =
    let same : db.last_rowid second ≡ id = cc in rw (← same) (last refl)
inserted_id-HasRow (some k) second db id last h =
    elim (Option-cases (first_where (has_msg_id k) db.messages)) [
      | inl missing ↦ absurd (ground (arith, missing))
      | inr (row, found) ↦
          let same : row.id ≡ id = ground (arith, found) in rw (← same) (row_there k db row found)
    ]

row_appended :
    (id : ℕ) (m : MessageInsert) (rows : List MessageRow)
    → is_some (first_where (is_row id) (rows ++ new_row id m ∷ [])) ≡ true
row_appended id m rows = elim (Option-cases (first_where (is_row id) rows)) [
  | inl missing ↦ rw (first_where-append _ _ _ missing) (unfold first_where new_row in ground arith)
  | inr (row, found) ↦ rw (first_where-append_some _ _ (new_row id m ∷ []) row found) refl
]

last_row :
    (connection : ℕ) (m : MessageInsert) (db : Db)
    → m.wechat_msg_id ≡ none
    → let db' = insert_or_ignore connection m db in HasRow db' (db'.last_rowid connection)
last_row connection m db e =
    let fresh : conflicts m.wechat_msg_id db.messages ≡ false = rw e (unfold conflicts in refl) in
    let self : (connection == connection) ≡ true = ground arith in
    unfold insert_or_ignore in rw (fresh, self) (row_appended db.next_message_id m db.messages)

-- The id that an insertion gives is that of a row, if the message has a message id or both queries
-- run on one connection.
pub insert_message_idempotent-HasRow :
    (first second : ℕ) (m : MessageInsert) (db : Db) (id : ℕ)
    → (is_some m.wechat_msg_id ≡ true) ⊎ (second ≡ first)
    → (insert_message_idempotent first second m db).0 ≡ ok id
    → HasRow (insert_message_idempotent first second m db).1 id
unfolding insert_message_idempotent
insert_message_idempotent-HasRow first second m db id how given =
    inserted_id-HasRow m.wechat_msg_id second (insert_or_ignore first m db) id
      (λ e. elim how [
        | inl given_id ↦ absurd (ground (arith, e))
        | inr same ↦ rw same (last_row first m db e)
      ])
      given
