-- ===== src/Examples/Sources.antt =====
-- The theorems on sources at concrete documents.
use sage_wiki_bridge_wxo.Base.{◌≡◌, ◌↔◌, false, none, some, [], ◌∷◌, ◌++◌}
use sage_wiki_bridge_wxo.Text.{Text, lit}
use sage_wiki_bridge_wxo.Files.{Fault}
use sage_wiki_bridge_wxo.Preprocess.{ProcessedArtifact, ProcessedArtifactKind, new_artifact}
use sage_wiki_bridge_wxo.Error.{ok}
use sage_wiki_bridge_wxo.Source.Render.{SourceMetadata, escape}
use sage_wiki_bridge_wxo.Source.Dates.{IsDate, capture_date_from_received_at_iff}
use sage_wiki_bridge_wxo.Source.Escape.{read_quoted, read_quoted-escape}
use sage_wiki_bridge_wxo.Source.Writer.{
  SourceWriter, SourceFormat, capture_date_from_received_at, write_source,
}
use sage_wiki_bridge_wxo.Source.Written.{IsSourceWrite, write_source-IsSourceWrite}

abbrev noon_utc : Text
noon_utc = lit "2026-01-01T12:00:00Z"

abbrev writer : SourceWriter
writer = record { root = lit "" ∷ lit "wiki" ∷ []; format = SourceFormat.daily_log }

abbrev artifact : ProcessedArtifact
artifact = new_artifact (lit "m1") ProcessedArtifactKind.text (lit "hello")

abbrev metadata : SourceMetadata
metadata = record {
  wechat_msg_id = some (lit "m1");
  thread_id = some (lit "m1");
  message_type = lit "text";
  received_at = noon_utc;
  wechat_create_time = some 7;
  openid_hash = lit "sha256:alice";
  raw_dir = none;
  provider = none;
  model = none;
  external_service = none;
  bridge_version = lit "1";
}

write_source-IsSourceWrite_example :
    IsSourceWrite none Fault.no_fault writer artifact metadata
      (λ path. none)
      (write_source none Fault.no_fault writer artifact metadata (λ path. none))
write_source-IsSourceWrite_example =
    write_source-IsSourceWrite none Fault.no_fault writer artifact metadata (λ path. none)

capture_date_from_received_at_iff_example :
    (capture_date_from_received_at (lit "2026-01-01T08:00:00Z") ≡ ok (lit "2026-01-01")) ↔ (
      (rest : Text) × (lit "2026-01-01T08:00:00Z" ≡ lit "2026-01-01" ++ rest)
      × IsDate (lit "2026-01-01"))
capture_date_from_received_at_iff_example =
    capture_date_from_received_at_iff (lit "2026-01-01T08:00:00Z") (lit "2026-01-01")

read_quoted-escape_example :
    read_quoted false (escape (lit "a \"b\"") ++ b'"' ∷ lit "\n") ≡ some (lit "a \"b\"", lit "\n")
read_quoted-escape_example = read_quoted-escape (lit "a \"b\"") (lit "\n")
