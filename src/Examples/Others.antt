-- ===== src/Examples/Others.antt =====
-- The theorems on replies, files and retries at concrete inputs.
use sage_wiki_bridge_wxo.Base.{
  ◌^◌, ◌≤◌, ◌<◌, ◌≡◌, refl, true, false, none, some, [], ◌∷◌, ◌++◌, min,
}
use sage_wiki_bridge_wxo.Text.{
  Text, lit, starts_with, text_eq, is_whitespace, is_empty, contains_char,
}
use sage_wiki_bridge_wxo.Error.{ok}
use sage_wiki_bridge_wxo.Files.{FilePath, Fault, is_safe, safe_char, is_refused, sanitize_segment}
use sage_wiki_bridge_wxo.Archive.{save_artifact}
use sage_wiki_bridge_wxo.Archive.Confined.{IsOutside, save_artifact-confined}
use sage_wiki_bridge_wxo.Wechat.Primitives.{plain}
use sage_wiki_bridge_wxo.Store.Messages.{new_row, is_boundary}
use sage_wiki_bridge_wxo.Receiver.Fields.{UserCommand, detect_user_command}
use sage_wiki_bridge_wxo.Receiver.Reply.{sanitize_cdata}
use sage_wiki_bridge_wxo.Receiver.Boundary.{detect_user_command-is_boundary}
use sage_wiki_bridge_wxo.Receiver.Cdata.{read_cdata, read_cdata-sanitize_cdata}
use sage_wiki_bridge_wxo.Source.{
  daily_start_marker, daily_end_marker, upsert_daily_entry, thread_start_marker, item_start_marker,
  item_end_marker, upsert_ai_thread_item,
}
use sage_wiki_bridge_wxo.Source.Upserts.{DailyUpsert, upsert_daily_entry-DailyUpsert}
use sage_wiki_bridge_wxo.Source.Threads.{ThreadUpsert, upsert_ai_thread_item-ThreadUpsert}
use sage_wiki_bridge_wxo.Worker.{RetryPolicy, i64_max, retry_delay_seconds}
use sage_wiki_bridge_wxo.Worker.Retry.{retry_delay_seconds-bounds}
use sage_wiki_bridge_wxo.Examples.{hello, alice_text, alice_says}

no_section : starts_with (lit "<![CDATA[") (lit "</Content></xml>") ≡ false
unfolding starts_with lit
no_section = refl

read_cdata-sanitize_cdata_example :
    read_cdata 0 (sanitize_cdata (lit "a]]>b") ++ (lit "]]>" ++ lit "</Content></xml>"))
    ≡ (lit "a]]>b", lit "</Content></xml>")
read_cdata-sanitize_cdata_example =
    read_cdata-sanitize_cdata (lit "a]]>b") (lit "</Content></xml>") no_section

newline_is_white : is_whitespace 10 ≡ true
unfolding is_whitespace
newline_is_white = refl

detect_user_command-is_boundary_example :
    let row = new_row 3 (record hello { content_text = some (lit "/new" ++ 10 ∷ []) }) in
    (detect_user_command (alice_says (lit "/new" ++ 10 ∷ [])) ≡ some UserCommand.new)
    × (is_boundary (lit "sha256:alice") 5 2 row ≡ false)
unfolding new_row
detect_user_command-is_boundary_example =
    detect_user_command-is_boundary 10 (alice_text (lit "/new" ++ 10 ∷ [])) (lit "sha256:alice") 5 2
      (new_row 3 (record hello { content_text = some (lit "/new" ++ 10 ∷ []) })) newline_is_white
      refl refl refl

abbrev policy : RetryPolicy
policy = record { base_delay = 30; max_delay = 600 }

retry_delay_seconds-bounds_example :
    (retry_delay_seconds 3 policy < 2 ^ 63)
    × (retry_delay_seconds 3 policy ≤ 600)
    × (min (min 30 600) i64_max ≤ retry_delay_seconds 3 policy)
retry_delay_seconds-bounds_example = retry_delay_seconds-bounds 3 policy

sanitizes : sanitize_segment (lit "a b") ≡ ok (lit "a_b")
unfolding sanitize_segment is_refused safe_char is_safe is_empty text_eq contains_char lit
sanitizes = refl

-- A file beside the root, by way of `..`.
abbrev beside : FilePath
beside = lit "" ∷ lit "raw" ∷ lit ".." ∷ lit "callback.xml" ∷ []

beside-IsOutside : IsOutside (lit "" ∷ lit "raw" ∷ []) beside
beside-IsOutside key name is_key is_name e = is_key.is_not_parent (cc e)

save_artifact-confined_example :
    (save_artifact plain Fault.no_fault
        (lit "" ∷ lit "raw" ∷ [])
        (lit "m1")
        (lit "callback.xml")
        (60 ∷ [])
        (λ p. none)).1
      beside
    ≡ none
save_artifact-confined_example =
    save_artifact-confined plain Fault.no_fault (lit "" ∷ lit "raw" ∷ []) (lit "m1")
      (lit "callback.xml") (60 ∷ []) (λ p. none) beside beside-IsOutside

-- A day with an entry for the message already.
abbrev day : Text
day =
    lit "# Day\n\n"
    ++ (daily_start_marker (lit "m1")
        ++ (lit "old entry" ++ (daily_end_marker (lit "m1") ++ lit "\nmore")))

upsert_daily_entry-DailyUpsert_example :
    DailyUpsert
      (daily_start_marker (lit "m1"))
      (daily_end_marker (lit "m1"))
      (lit "new entry")
      day
      (upsert_daily_entry day (lit "m1") (lit "new entry"))
upsert_daily_entry-DailyUpsert_example =
    upsert_daily_entry-DailyUpsert day (lit "m1") (lit "new entry")

-- A day with a thread that has the item already.
abbrev thread : Text
thread =
    lit "# Day\n\n"
    ++ (thread_start_marker (lit "m1")
        ++ (lit "\n"
            ++ (item_start_marker (lit "m1")
                ++ (lit "old item"
                    ++ (item_end_marker (lit "m1") ++ lit "\n<!-- /swb:thread -->\n")))))

upsert_ai_thread_item-ThreadUpsert_example :
    ThreadUpsert thread
      (lit "m1")
      (lit "m1")
      (lit "new item")
      (upsert_ai_thread_item thread (lit "m1") (lit "m1") (lit "new item"))
upsert_ai_thread_item-ThreadUpsert_example =
    upsert_ai_thread_item-ThreadUpsert thread (lit "m1") (lit "m1") (lit "new item")
