-- ===== src/Source.antt =====
-- The upserts of src/source/mod.rs, which put an item into the Markdown text of a day. Render is about
-- the texts of the items, and Writer about the documents on the file system.
pub mod Dates
pub mod Escape
pub mod Render
pub mod Writer
pub mod Written
pub mod Upserts
pub mod Threads
pub mod First
use sage_wiki_bridge_wxo.Base.{ℕ, ◌+◌, Option, none, some, [], ◌∷◌, ◌++◌, length, take, drop}
use sage_wiki_bridge_wxo.Text.{Text, lit, trim_end, strip_newlines, find?}

-- An item behind the rest of the text.
unfoldable pub append_entry : Text → Text → Text
append_entry current entry = trim_end current ++ (lit "\n\n" ++ (trim_end entry ++ lit "\n"))

unfoldable pub daily_start_marker : Text → Text
daily_start_marker message_key =
    lit "<!-- sage-wiki-bridge-message-start:" ++ (message_key ++ lit " -->")

unfoldable pub daily_end_marker : Text → Text
daily_end_marker message_key =
    lit "<!-- sage-wiki-bridge-message-end:" ++ (message_key ++ lit " -->")

-- `current[..start]`, the entry, and `current[end..]`.
unfoldable pub replace_entry : Text → Text → Text → Text
replace_entry before entry after =
    trim_end before ++ (lit "\n\n" ++ (trim_end entry ++ (lit "\n" ++ strip_newlines after)))

unfoldable pub upsert_daily_entry : Text → Text → Text → Text
unfolding append_entry replace_entry
upsert_daily_entry current message_key entry =
    elim (find? (daily_start_marker message_key) current) [
      | none ↦ append_entry current entry
      | some start ↦ elim (find? (daily_end_marker message_key) (drop start current)) [
        | none ↦ append_entry current entry
        | some relative_end ↦
            replace_entry (take start current) entry
              (drop (start + relative_end + length (daily_end_marker message_key)) current)
      ]
    ]

unfoldable pub thread_start_marker : Text → Text
thread_start_marker thread_id = lit "<!-- swb:thread v=1 id=" ++ (thread_id ++ lit " -->")

abbrev pub thread_end_marker : Text
thread_end_marker = lit "<!-- /swb:thread -->"

unfoldable pub item_start_marker : Text → Text
item_start_marker message_key = lit "<!-- swb:item:start:" ++ (message_key ++ lit " -->")

unfoldable pub item_end_marker : Text → Text
item_end_marker message_key = lit "<!-- swb:item:end:" ++ (message_key ++ lit " -->")

-- A new thread behind the rest of the text.
unfoldable pub append_thread : Text → Text → Text → Text
append_thread current thread_id item =
    trim_end current
    ++ (lit "\n\n"
        ++ (thread_start_marker thread_id
            ++ (lit "\n<<< wechat-thread >>>\n\n"
                ++ (trim_end item
                    ++ (lit "\n\n<<< /wechat-thread >>>\n" ++ (thread_end_marker ++ lit "\n"))))))

-- `current[..item_start]`, the item, and `current[item_end..]`.
unfoldable pub replace_item : Text → Text → Text → Text
replace_item before item after =
    trim_end before ++ (lit "\n" ++ (trim_end item ++ (lit "\n" ++ strip_newlines after)))

-- `current[..insert_at]`, the item, and `current[insert_at..]`.
unfoldable pub insert_item : Text → Text → Text → Text
insert_item before item after =
    trim_end before ++ (lit "\n\n" ++ (trim_end item ++ (lit "\n\n" ++ strip_newlines after)))

-- A new item in front of the thread's closing line, or of its end marker where that is missing.
unfoldable pub insert_into_thread : Text → ℕ → ℕ → Text → Text → Text
unfolding insert_item
insert_into_thread current thread_start thread_end thread_body item =
    elim (find? (lit "<<< /wechat-thread >>>") thread_body) [
      | some relative ↦
          insert_item (take (thread_start + relative) current) item
            (drop (thread_start + relative) current)
      | none ↦ insert_item (take thread_end current) item (drop thread_end current)
    ]

-- The thread stands at `thread_start`, its end marker at `thread_end`, and its text up to there is
-- `thread_body`.
unfoldable pub upsert_in_thread : Text → ℕ → ℕ → Text → Text → Text → Text
unfolding replace_item insert_into_thread
upsert_in_thread current thread_start thread_end thread_body message_key item =
    elim (find? (item_start_marker message_key) thread_body) [
      | none ↦ insert_into_thread current thread_start thread_end thread_body item
      | some relative_item_start ↦
          elim (find? (item_end_marker message_key) (drop relative_item_start thread_body)) [
            | none ↦ insert_into_thread current thread_start thread_end thread_body item
            | some relative_item_end ↦
                let item_start = thread_start + relative_item_start in
                replace_item (take item_start current) item (
                  drop (item_start + relative_item_end + length (item_end_marker message_key))
                    current)
          ]
    ]

unfoldable pub upsert_ai_thread_item : Text → Text → Text → Text → Text
unfolding append_thread upsert_in_thread
upsert_ai_thread_item current thread_id message_key item =
    elim (find? (thread_start_marker thread_id) current) [
      | none ↦ append_thread current thread_id item
      | some thread_start ↦ elim (find? thread_end_marker (drop thread_start current)) [
        | none ↦ append_thread current thread_id item
        | some relative_thread_end ↦
            upsert_in_thread current thread_start (thread_start + relative_thread_end)
              (take relative_thread_end (drop thread_start current)) message_key item
      ]
    ]
