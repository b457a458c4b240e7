-- ===== src/Worker/Sourced.antt =====
-- The steps of a job up to its source, one after the other.
use sage_wiki_bridge_wxo.Base.{◌≡◌}
use sage_wiki_bridge_wxo.Text.{Text}
use sage_wiki_bridge_wxo.Error.{Result, ok}
use sage_wiki_bridge_wxo.Exec.{Exec, ◌>>=◌, ◌>>◌, bind-eq-ok, pure-eq-ok, proceed, pure, gets}
use sage_wiki_bridge_wxo.Files.{FileSystem}
use sage_wiki_bridge_wxo.Wechat.Primitives.{Primitives}
use sage_wiki_bridge_wxo.Store.Schema.{MessageRow}
use sage_wiki_bridge_wxo.Preprocess.{ProcessedArtifact}
use sage_wiki_bridge_wxo.Source.Render.{SourceMetadata}
use sage_wiki_bridge_wxo.Source.Writer.{SourceWriteResult, write_source}
use sage_wiki_bridge_wxo.Receiver.Process.{World, on_files}
use sage_wiki_bridge_wxo.Worker.Artifacts.{
  Worker, JobSurroundings, save_processed_artifact, artifact_from_stored_message,
}
use sage_wiki_bridge_wxo.Worker.Jobs.{
  Clock, metadata_from_stored_message, with_artifact, thread_id_for_message, write_log,
  write_sources,
}

module _ (p : Primitives) (clock : Clock) (worker : Worker) (out : JobSurroundings) where
  abbrev pub source_metadata : MessageRow → ProcessedArtifact → Text → SourceMetadata
  source_metadata message artifact thread_id =
      with_artifact artifact thread_id (metadata_from_stored_message message worker.bridge_version)

  abbrev pub source_written :
      MessageRow → ProcessedArtifact → Text → FileSystem → Result SourceWriteResult × FileSystem
  source_written message artifact thread_id =
      write_source out.source_read_fault out.source_fault worker.source_writer artifact
        (source_metadata message artifact thread_id)

  -- The steps up to the source all succeeded, one after the other from the world `start`: the artifact
  -- of the message, its file, the name of its thread, its log, and its source.
  pub record IsSourced (message : MessageRow) (start : World)
      (written : ProcessedArtifact × SourceWriteResult) (w' : World) : Type 0 where
    pub made : World
    pub saved : World
    pub logged : World
    pub is_made : artifact_from_stored_message p worker out message start ≡ (ok written.0, made)
    pub is_saved : save_processed_artifact p worker out written.0 made ≡ (ok tt, saved)
    pub is_logged :
        write_log p clock worker out written.0
          (source_metadata message written.0
            (thread_id_for_message p clock worker out message saved.db))
          saved
        ≡ (ok tt, logged)
    pub is_written :
        on_files
          (source_written message written.0
            (thread_id_for_message p clock worker out message saved.db))
          logged
        ≡ (ok written.1, w')

  abbrev pub source_step :
      MessageRow → ProcessedArtifact → Text → Exec World (ProcessedArtifact × SourceWriteResult)
  source_step message artifact thread_id =
      on_files (source_written message artifact thread_id) >>= λ result. pure (artifact, result)

  pure-IsSourced :
      (message : MessageRow) (start : World) (first written : ProcessedArtifact × SourceWriteResult)
      (w w' : World)
      → IsSourced message start first w
      → pure first w ≡ (ok written, w')
      → IsSourced message start written w'
  pure-IsSourced message start first written w w' sourced h =
      let (same, ends) = pure-eq-ok first written w w' h in rw (← same, ← ends) sourced

  pub write_sources-IsSourced :
      (message : MessageRow) (start : World) (written : ProcessedArtifact × SourceWriteResult)
      (w' : World)
      → write_sources p clock worker out message start ≡ (ok written, w')
      → IsSourced message start written w'
  unfolding write_sources ◌>>◌ gets
  write_sources-IsSourced message start written w' h =
      let (artifact, made, is_made, h1) =
        bind-eq-ok
          (λ artifact.
            save_processed_artifact p worker out artifact
            >> (gets (λ (w : World). thread_id_for_message p clock worker out message w.db)
                >>= λ thread_id.
                    write_log p clock worker out artifact
                      (source_metadata message artifact thread_id)
                    >> source_step message artifact thread_id))
          w' (artifact_from_stored_message p worker out message) start h in
      let (_, saved, is_saved, h2) =
        bind-eq-ok
          (λ _.
            gets (λ (w : World). thread_id_for_message p clock worker out message w.db)
            >>= λ thread_id.
                write_log p clock worker out artifact (source_metadata message artifact thread_id)
                >> source_step message artifact thread_id)
          w' (save_processed_artifact p worker out artifact) made h1 in
      let thread_id = thread_id_for_message p clock worker out message saved.db in
      let (_, logged, is_logged, h3) =
        bind-eq-ok (λ _. source_step message artifact thread_id) w'
          (write_log p clock worker out artifact (source_metadata message artifact thread_id)) saved
          (unfold ◌>>=◌ proceed in h2) in
      let (result, end, is_written, h4) =
        bind-eq-ok (λ result. pure (artifact, result)) w'
          (on_files (source_written message artifact thread_id)) logged h3 in
      pure-IsSourced message start (artifact, result) written end w'
        (record {
          made = made;
          saved = saved;
          logged = logged;
          is_made = is_made;
          is_saved = is_saved;
          is_logged = is_logged;
          is_written = is_written;
        })
        h4
