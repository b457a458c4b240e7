-- ===== src/Worker/Written.antt =====
-- A job that is done has written its source.
use sage_wiki_bridge_wxo.Base.{
  ℕ, ◌≡◌, refl, ap, sym, ◌∙◌, inl, inr, some, List, [], ◌∷◌, ◌++◌, All, arith, Bool-cases,
}
use sage_wiki_bridge_wxo.Text.{Text, lit}
use sage_wiki_bridge_wxo.Text.Utf8.{utf8}
use sage_wiki_bridge_wxo.Table.{update_where}
use sage_wiki_bridge_wxo.Error.{Result, ok}
use sage_wiki_bridge_wxo.Exec.{Exec, ◌>>=◌, ◌>>◌, bind-eq-ok, proceed, pure, lift, gets}
use sage_wiki_bridge_wxo.Files.{FilePath, display}
use sage_wiki_bridge_wxo.Wechat.Primitives.{Primitives}
use sage_wiki_bridge_wxo.Store.Schema.{MessageStatus, MessageRow, Db}
use sage_wiki_bridge_wxo.Store.Messages.{has_id, get_message, mark_message_source_written}
use sage_wiki_bridge_wxo.Preprocess.{ProcessedArtifact}
use sage_wiki_bridge_wxo.Source.Writer.{SourceWriteResult}
use sage_wiki_bridge_wxo.Source.Written.{Writes, write_source-IsSourceWrite}
use sage_wiki_bridge_wxo.Receiver.Process.{World, on_db, on_files}
use sage_wiki_bridge_wxo.Worker.Artifacts.{Worker, JobSurroundings}
use sage_wiki_bridge_wxo.Worker.Jobs.{
  Clock, thread_id_for_message, write_sources, process_claimed_job,
}
use sage_wiki_bridge_wxo.Worker.Sourced.{
  source_metadata, source_written, IsSourced, write_sources-IsSourced,
}

updated_messages :
    (Q : MessageRow → Type 0) (f : MessageRow → MessageRow) (id : ℕ)
    → ((row : MessageRow) → Q (f row))
    → (rows : List MessageRow) → All (λ row. row.id ≡ id → Q row) (update_where (has_id id) f rows)
unfolding update_where has_id
updated_messages Q f id h [] = tt
updated_messages Q f id h (row ∷ rows) = elim (Bool-cases (has_id id row)) [
  | inl same ↦ rw same (λ _. h row, updated_messages Q f id h rows)
  | inr other ↦
      rw other (λ e. absurd (unfold has_id in ground arith), updated_messages Q f id h rows)
]

module _ (p : Primitives) (clock : Clock) (worker : Worker) (out : JobSurroundings) where
  -- A message row once its source is written.
  pub record IsMarked (path : FilePath) (text : Text) (row : MessageRow) : Type 0 where
    pub is_written : row.status ≡ MessageStatus.source_written
    pub has_path : row.source_path ≡ some (display path)
    pub has_text : row.processed_text ≡ some text

  rows_after :
      (now : Text) (id : ℕ) (path : FilePath) (text : Text) (db : Db)
      → All
          (λ row. row.id ≡ id → IsMarked path text row)
          (mark_message_source_written now id (display path) text db).1.messages
  unfolding mark_message_source_written
  rows_after now id path text db =
      updated_messages (IsMarked path text) _ id
        (λ row. record { is_written = refl; has_path = refl; has_text = refl }) db.messages

  -- What a job that is done has done for its message since the world `start`: the artifact that the
  -- message gives was put into the text of the document of the day as the steps before it left the
  -- files, the document has that text, and the message is marked with its path and with the text of
  -- the artifact.
  pub record IsProcessed (message : MessageRow) (start : World) (path : FilePath) (w' : World)
      : Type 0 where
    pub artifact : ProcessedArtifact
    pub result : SourceWriteResult
    pub end : World
    pub sourced : IsSourced p clock worker out message start (artifact, result) end
    pub writes :
        Writes out.source_read_fault out.source_fault worker.source_writer artifact
          (source_metadata p clock worker out message artifact
            (thread_id_for_message p clock worker out message sourced.saved.db))
          sourced.logged.files
    pub is_path : path ≡ worker.source_writer.root ++ (writes.capture_date ++ lit ".md") ∷ []
    pub holds : w'.files path ≡ some (utf8 writes.markdown)
    pub marked :
        All (λ row. row.id ≡ message.id → IsMarked path artifact.markdown_body row) w'.db.messages

  marking :
      (message : MessageRow) (start : World) (artifact : ProcessedArtifact)
      (result : SourceWriteResult) (w : World)
      → IsSourced p clock worker out message start (artifact, result) w
      → IsProcessed message start result.path (record w {
        db =
            (mark_message_source_written out.current_timestamp message.id
              (display result.path)
              artifact.markdown_body
              w.db).1;
      })
  unfolding on_files
  marking message start artifact result w sourced =
      let metadata =
        source_metadata p clock worker out message artifact
          (thread_id_for_message p clock worker out message sourced.saved.db) in
      let (writes, same, holds) =
        (write_source-IsSourceWrite out.source_read_fault out.source_fault worker.source_writer
            artifact metadata sourced.logged.files).written
          (ap (λ r. r.0) sourced.is_written) in
      record {
        artifact = artifact;
        result = result;
        end = w;
        sourced = sourced;
        writes = writes;
        is_path = ap (λ (r : SourceWriteResult). r.path) same;
        holds =
            ap (λ (r : Result SourceWriteResult × World). r.1.files result.path)
              (sym sourced.is_written)
            ∙ ap
                (source_written p clock worker out message artifact
                  (thread_id_for_message p clock worker out message sourced.saved.db)
                  sourced.logged.files).1
                (ap (λ (r : SourceWriteResult). r.path) same)
            ∙ holds;
        marked =
            rows_after out.current_timestamp message.id result.path artifact.markdown_body w.db;
      }

  abbrev mark_and_return : MessageRow → ProcessedArtifact × SourceWriteResult → Exec World FilePath
  mark_and_return message written =
      on_db (
        mark_message_source_written out.current_timestamp message.id (display written.1.path)
          written.0.markdown_body)
      >> pure written.1.path

  found_message :
      (message : MessageRow) (w : World)
      → get_message message.id w.db ≡ ok message
      → process_claimed_job p clock worker out message.id w
        ≡ (write_sources p clock worker out message >>= mark_and_return message) w
  unfolding process_claimed_job ◌>>=◌ ◌>>◌ proceed gets lift
  found_message message w found = rw found refl

  marked_after :
      (message : MessageRow) (start : World) (written : ProcessedArtifact × SourceWriteResult)
      (w w' : World) (path : FilePath)
      → IsSourced p clock worker out message start written w
      → mark_and_return message written w ≡ (ok path, w')
      → IsProcessed message start path w'
  unfolding ◌>>◌ ◌>>=◌ proceed on_db pure mark_message_source_written
  marked_after message start written w w' path sourced h =
      let same : written.1.path ≡ path = cc (ap (λ r. r.0) h) in
      rw (← same, ← ap (λ r. r.1) h) (marking message start written.0 written.1 w sourced)

  pub process_claimed_job-IsProcessed :
      (message : MessageRow) (w : World) (path : FilePath)
      → get_message message.id w.db ≡ ok message
      → (process_claimed_job p clock worker out message.id w).0 ≡ ok path
      → IsProcessed message w path (process_claimed_job p clock worker out message.id w).1
  process_claimed_job-IsProcessed message w path found h =
      let w' = (process_claimed_job p clock worker out message.id w).1 in
      let (written, w1, wrote, h1) =
        bind-eq-ok (mark_and_return message) w' (write_sources p clock worker out message) w
          (sym (found_message message w found) ∙ ap (λ r. (r, w')) h) in
      marked_after message w written w1 w' path
        (write_sources-IsSourced p clock worker out message w written w1 wrote) h1
