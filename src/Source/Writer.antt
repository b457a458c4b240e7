-- ===== src/Source/Writer.antt =====
-- `SourceWriter` of src/source/mod.rs: the file of a day is read, the item put into its text, and
-- the text written back.
use sage_wiki_bridge_wxo.Base.{
  ℕ, zero, suc, ◌-◌, Bool, true, ◌&&◌, ◌||◌, Option, none, some, List, [], ◌∷◌, ◌++◌, leb, ◌==◌,
  if◌then◌else◌, length, unwrap_or,
}
use mathlib.Core.Option
use sage_wiki_bridge_wxo.Text.{Text, lit}
use sage_wiki_bridge_wxo.Text.Utf8.{utf8, utf8_char, from_utf8}
use sage_wiki_bridge_wxo.Error.{BridgeError, io, Result, ok, err, ok_or}
use sage_wiki_bridge_wxo.Exec.{Exec, ◌>>=◌, ◌>>◌, pure, lift, gets}
use sage_wiki_bridge_wxo.Files.{
  FilePath, FileSystem, Fault, sanitize_segment, ensure_under_root, write_via, with_extension,
}
use sage_wiki_bridge_wxo.Preprocess.{ProcessedArtifact}
use sage_wiki_bridge_wxo.Source.{upsert_daily_entry, upsert_ai_thread_item}
use sage_wiki_bridge_wxo.Source.Render.{
  SourceMetadata, render_ai_document_header, render_daily_log_document_header, render_ai_item,
  render_daily_log_entry,
}

pub data SourceFormat : Type 0 where
  ai daily_log : SourceFormat

pub record SourceWriter : Type 0 where
  pub root : FilePath
  pub format : SourceFormat

pub record SourceWriteResult : Type 0 where
  pub path : FilePath
  pub bytes_written : ℕ

-- `text.get(0..n)`: the first `n` bytes, where a character ends there.
unfoldable pub get_prefix : ℕ → Text → Option Text
get_prefix zero t = some []
get_prefix (suc n) [] = none
get_prefix (suc n) (c ∷ t) =
    let rest = get_prefix (suc n - length (utf8_char c)) t in
    if leb (length (utf8_char c)) (suc n) then Option.map (λ r. c ∷ r) rest else none

unfoldable pub is_ascii_digit : ℕ → Bool
is_ascii_digit c = leb b'0' c && leb c b'9'

-- The test of each character with its index.
unfoldable pub is_date_from : ℕ → Text → Bool
unfolding is_ascii_digit
is_date_from index [] = true
is_date_from index (c ∷ t) =
    (if index == 4 || index == 7 then c == b'-' else is_ascii_digit c) && is_date_from (suc index) t

unfoldable pub capture_date_from_received_at : Text → Result Text
unfolding get_prefix is_date_from
capture_date_from_received_at received_at = elim (get_prefix 10 received_at) [
  | none ↦
      err
        (BridgeError.config (lit "received_at is too short for daily source path: " ++ received_at))
  | some date ↦
      if is_date_from 0 date
      then sanitize_segment date
      else err
          (BridgeError.config (lit "received_at does not start with YYYY-MM-DD: " ++ received_at))
]

-- The text that a document starts with.
unfoldable pub new_document : SourceFormat → Text → SourceMetadata → Text
unfolding render_ai_document_header render_daily_log_document_header
new_document SourceFormat.ai capture_date metadata = render_ai_document_header capture_date
new_document SourceFormat.daily_log capture_date metadata =
    render_daily_log_document_header capture_date metadata

-- `fs::read_to_string`, where a file that is not there gives the new document. `read_fault` is the
-- text of any other error.
unfoldable pub read_document :
    Option Text → SourceFormat → FilePath → Text → SourceMetadata → FileSystem → Result Text
unfolding new_document
read_document (some e) format path capture_date metadata files = err (io e)
read_document none format path capture_date metadata files = elim (files path) [
  | none ↦ ok (new_document format capture_date metadata)
  | some bytes ↦ ok_or (from_utf8 bytes) (io (lit "stream did not contain valid UTF-8"))
]

unfoldable pub render_markdown :
    SourceFormat → Text → Text → ProcessedArtifact → SourceMetadata → Result Text
unfolding render_ai_item render_daily_log_entry
render_markdown SourceFormat.ai current message_key artifact metadata =
    elim (sanitize_segment (unwrap_or message_key metadata.thread_id)) [
      | err e ↦ err e
      | ok thread_id ↦ ok (
          upsert_ai_thread_item current thread_id message_key
            (render_ai_item message_key artifact metadata))
    ]
render_markdown SourceFormat.daily_log current message_key artifact metadata =
    ok (
      upsert_daily_entry current message_key (render_daily_log_entry message_key artifact metadata))

unfoldable pub write_file_atomically : Fault → FilePath → List ℕ → Exec FileSystem (Unit {0})
unfolding write_via with_extension
write_file_atomically fault path bytes =
    write_via fault (with_extension (lit "md.tmp") path) path bytes

unfoldable pub write_source :
    Option Text
    → Fault
    → SourceWriter
    → ProcessedArtifact
    → SourceMetadata
    → Exec FileSystem SourceWriteResult
unfolding read_document render_markdown write_file_atomically
write_source read_fault fault writer artifact metadata = do
  message_key ← lift (sanitize_segment artifact.message_key)
  capture_date ← lift (capture_date_from_received_at metadata.received_at)
  let path = writer.root ++ (capture_date ++ lit ".md") ∷ []
  lift (ensure_under_root writer.root path)
  read ← gets (read_document read_fault writer.format path capture_date metadata)
  current ← lift read
  markdown ← lift (render_markdown writer.format current message_key artifact metadata)
  write_file_atomically fault path (utf8 markdown)
  pure (record { path = path; bytes_written = length (utf8 markdown) })
