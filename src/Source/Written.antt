-- ===== src/Source/Written.antt =====
-- What a write of a source does to the files.
use sage_wiki_bridge_wxo.Base.{
  ◌≡◌, ◌≢◌, refl, ap, sym, ◌∙◌, ◌⊎◌, inl, inr, Option, some, [], ◌∷◌, ◌++◌, arith, length,
  Bool-cases,
}
use sage_wiki_bridge_wxo.Text.{Text, lit, last_of, last_of-append}
use sage_wiki_bridge_wxo.Text.Utf8.{utf8}
use sage_wiki_bridge_wxo.Error.{BridgeError, Result, ok, err, Result-cases}
use sage_wiki_bridge_wxo.Exec.{Exec, ◌>>=◌, ◌>>◌, proceed, pure, lift, gets}
use sage_wiki_bridge_wxo.Files.{
  FilePath, FileSystem, Fault, ensure_under_root, sanitize_segment, with_extension, file_stem,
  path_eq,
}
use sage_wiki_bridge_wxo.Files.Segments.{starts_with_path-append}
use sage_wiki_bridge_wxo.Files.Atomic.{IsOk, IsAtomic, write_via-IsAtomic, path_eq_iff}
use sage_wiki_bridge_wxo.Archive.Atomic.{with_extension-snoc, snoc-ne}
use sage_wiki_bridge_wxo.Archive.Confined.{then_pure}
use sage_wiki_bridge_wxo.Preprocess.{ProcessedArtifact}
use sage_wiki_bridge_wxo.Source.Render.{SourceMetadata}
use sage_wiki_bridge_wxo.Source.Dates.{IsDate, capture_date_from_received_at_iff}
use sage_wiki_bridge_wxo.Source.Writer.{
  SourceWriter, SourceWriteResult, capture_date_from_received_at, read_document, render_markdown,
  write_file_atomically, write_source,
}

tmp_name-ne : (stem date : Text) → stem ++ (lit "." ++ lit "md.tmp") ≢ date ++ lit ".md"
unfolding lit last_of
tmp_name-ne stem date e =
    let p : last_of 0 (stem ++ (lit "." ++ lit "md.tmp")) ≡ b'p' =
      last_of-append 0 b'.' stem (lit "md.tmp") in
    let d : last_of 0 (date ++ lit ".md") ≡ b'd' = last_of-append 0 b'.' date (lit "md") in
    absurd (omega (arith, p, d, ap (last_of 0) e))

proceed-pure_ok :
    {S A : Type 0} (r : Result (Unit {0})) (b : A) (s : S) {b' : A}
    → (proceed r (λ _. pure b) s).0 ≡ ok b'
    → IsOk r × (b ≡ b')
unfolding proceed pure
proceed-pure_ok (ok u) b s h = (tt, cc)
proceed-pure_ok (err e) b s h = cc

proceed-pure_fails :
    {S A : Type 0} (r : Result (Unit {0})) (b : A) (s : S)
    → ¬ IsOk (proceed r (λ _. pure b) s).0
    → ¬ IsOk r
unfolding proceed pure
proceed-pure_fails (ok u) b s h = absurd (h tt)
proceed-pure_fails (err e) b s h = h

module _ {A : Type 0} (m : Exec FileSystem (Unit {0})) (b : A) (files : FileSystem) where
  then_pure_ok : {b' : A} → ((m >> pure b) files).0 ≡ ok b' → IsOk (m files).0 × (b ≡ b')
  unfolding ◌>>=◌ ◌>>◌
  then_pure_ok h = proceed-pure_ok (m files).0 b (m files).1 h

  then_pure_fails : ¬ IsOk ((m >> pure b) files).0 → ¬ IsOk (m files).0
  unfolding ◌>>=◌ ◌>>◌
  then_pure_fails h = proceed-pure_fails (m files).0 b (m files).1 h

module _ (read_fault : Option Text) (fault : Fault) (writer : SourceWriter)
    (artifact : ProcessedArtifact) (metadata : SourceMetadata) where
  abbrev pub document : Text → FilePath
  document capture_date = writer.root ++ (capture_date ++ lit ".md") ∷ []

  abbrev pub temporary : Text → FilePath
  temporary capture_date = with_extension (lit "md.tmp") (document capture_date)

  -- What is written, and where: the key and the date of the message, the text that the document
  -- has, and the text that it gets.
  pub record Writes (files : FileSystem) : Type 0 where
    pub message_key : Text
    pub capture_date : Text
    pub current : Text
    pub markdown : Text
    pub is_key : sanitize_segment artifact.message_key ≡ ok message_key
    pub is_date : capture_date_from_received_at metadata.received_at ≡ ok capture_date
    pub is_current :
        read_document read_fault writer.format (document capture_date) capture_date metadata files
        ≡ ok current
    pub is_markdown :
        render_markdown writer.format current message_key artifact metadata ≡ ok markdown

  abbrev result : Text → Text → SourceWriteResult
  result capture_date markdown = record {
    path = document capture_date;
    bytes_written = length (utf8 markdown);
  }

  -- Either nothing is written and an error returned, or everything up to the write succeeds.
  write_source-cases :
      (files : FileSystem)
      → ((e : BridgeError) × (write_source read_fault fault writer artifact metadata files
            ≡ (err e, files)))
        ⊎ ((w : Writes files) × (write_source read_fault fault writer artifact metadata files
              ≡ (write_file_atomically fault (document w.capture_date) (utf8 w.markdown)
                    >> pure (result w.capture_date w.markdown))
                  files))
  unfolding write_source ◌>>=◌ ◌>>◌ proceed pure lift gets
  write_source-cases files = elim (Result-cases (sanitize_segment artifact.message_key)) [
    | inr (e, bad) ↦ inl (e, rw bad refl)
    | inl (key, is_key) ↦ elim (Result-cases (capture_date_from_received_at metadata.received_at)) [
      | inr (e, bad) ↦ inl (e, rw (is_key, bad) refl)
      | inl (date, is_date) ↦
          let inside : ensure_under_root writer.root (document date) ≡ ok tt =
            unfold ensure_under_root in
            rw (starts_with_path-append writer.root ((date ++ lit ".md") ∷ [])) refl in
          elim (Result-cases
            (read_document read_fault writer.format (document date) date metadata files)) [
              | inr (e, bad) ↦ inl (e, rw (is_key, is_date, inside, bad) refl)
              | inl (current, is_current) ↦
                  elim (Result-cases
                    (render_markdown writer.format current key artifact metadata)) [
                      | inr (e, bad) ↦ inl (e, rw (is_key, is_date, inside, is_current, bad) refl)
                      | inl (markdown, is_markdown) ↦ inr (
                        record {
                          message_key = key;
                          capture_date = date;
                          current = current;
                          markdown = markdown;
                          is_key = is_key;
                          is_date = is_date;
                          is_current = is_current;
                          is_markdown = is_markdown;
                        },
                        rw (is_key, is_date, inside, is_current, is_markdown) refl,
                      )
                    ]
            ]
    ]
  ]

  temporary-ne : (capture_date : Text) → temporary capture_date ≢ document capture_date
  temporary-ne capture_date e =
      let name = capture_date ++ lit ".md" in
      snoc-ne writer.root (file_stem name ++ (lit "." ++ lit "md.tmp")) name
        (tmp_name-ne (file_stem name) capture_date)
        (sym (with_extension-snoc (lit "md.tmp") writer.root name) ∙ e)

  -- The path is neither the document of the message's date nor its temporary file.
  abbrev pub IsElsewhere : FilePath → Type 0
  IsElsewhere q =
      (date rest : Text)
      → metadata.received_at ≡ date ++ rest
      → IsDate date
      → (q ≢ document date) × (q ≢ temporary date)

  -- What a write of a source may leave behind, from the files that it met.
  pub record IsSourceWrite (files : FileSystem) (r : Result SourceWriteResult × FileSystem)
      : Type 0 where
    -- A success: the document of the message's date has the new text.
    pub written :
        {written : SourceWriteResult}
        → r.0 ≡ ok written
        → (w : Writes files) × (written ≡ result w.capture_date w.markdown)
          × (r.1 (document w.capture_date) ≡ some (utf8 w.markdown))
    -- A failure changes no file but the temporary one of that document.
    pub kept :
        ¬ IsOk r.0
        → (q : FilePath)
        → ((date rest : Text)
            → metadata.received_at ≡ date ++ rest
            → IsDate date
            → q ≢ temporary date)
        → r.1 q ≡ files q
    -- In any case, only that document and its temporary file change.
    pub others : (q : FilePath) → IsElsewhere q → r.1 q ≡ files q

  -- Writing a source puts the new text into the document of the message's date, as it was read
  -- before, or fails and leaves every document as it was; no other file changes, and of the temporary
  -- files only that of the document.
  pub write_source-IsSourceWrite :
      (files : FileSystem)
      → IsSourceWrite files (write_source read_fault fault writer artifact metadata files)
  write_source-IsSourceWrite files = elim (write_source-cases files) [
    | inl (e, same) ↦
        rw same (record { written = λ h. cc; kept = λ _ q _. refl; others = λ q _. refl })
    | inr (w, same) ↦
        let path = document w.capture_date in
        let m = write_file_atomically fault path (utf8 w.markdown) in
        let res = result w.capture_date w.markdown in
        let atomic : IsAtomic (temporary w.capture_date) path (utf8 w.markdown) files (m files) =
          unfold write_file_atomically in
          write_via-IsAtomic (temporary w.capture_date) path (utf8 w.markdown) files
            (temporary-ne w.capture_date) fault in
        let after = then_pure m res files in
        let (rest, begins, dated) =
          (capture_date_from_received_at_iff metadata.received_at w.capture_date).0 w.is_date in
        rw same (record {
          written = λ h.
              let (fine, e) = then_pure_ok m res files h in
              (w, sym e, ap (λ f. f path) after ∙ (atomic.written fine).0);
          kept = λ h q apart. ap (λ f. f q) after ∙ elim (Bool-cases (path_eq q path)) [
            | inl here ↦
                let e = (path_eq_iff q path).0 here in
                rw e (atomic.kept (then_pure_fails m res files h))
            | inr there ↦
                atomic.others q (λ e. absurd (cc ((path_eq_iff q path).1 e)))
                  (apart w.capture_date rest begins dated)
          ];
          others = λ q elsewhere.
              let (no_document, apart) = elsewhere w.capture_date rest begins dated in
              ap (λ f. f q) after ∙ atomic.others q no_document apart;
        })
  ]
