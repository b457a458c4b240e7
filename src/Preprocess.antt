-- ===== src/Preprocess.antt =====
-- src/preprocess: the artifact that a processed message becomes, one function per kind of message.
use sage_wiki_bridge_wxo.Base.{
  ℕ, ◌-◌, ◌^◌, Option, none, some, List, [], ◌∷◌, ◌++◌, ltb, if◌then◌else◌, unwrap_or,
}
use sage_wiki_bridge_wxo.Text.{Text, lit, trim, is_empty, show_nat}
use sage_wiki_bridge_wxo.Files.{FilePath}
use sage_wiki_bridge_wxo.Wechat.Message.{CommonFields, TextMessage, LocationMessage, LinkMessage}
use sage_wiki_bridge_wxo.Enrich.{LocationSummary}

pub data ProcessedArtifactKind : Type 0 where
  text image voice video short_video location link : ProcessedArtifactKind

pub record ProcessedArtifact : Type 0 where
  pub message_key : Text
  pub kind : ProcessedArtifactKind
  pub markdown_body : Text
  pub summary : Option Text
  pub raw_payload_paths : List FilePath
  pub processed_payload_paths : List FilePath
  pub provider : Option Text
  pub model : Option Text
  pub external_service : Option Text

-- `ProcessedArtifact::new`
unfoldable pub new_artifact : Text → ProcessedArtifactKind → Text → ProcessedArtifact
new_artifact message_key kind markdown_body = record {
  message_key = message_key;
  kind = kind;
  markdown_body = markdown_body;
  summary = none;
  raw_payload_paths = [];
  processed_payload_paths = [];
  provider = none;
  model = none;
  external_service = none;
}

-- The decimal text of an `i64`, which is a two's complement pattern here.
unfoldable pub show_i64 : ℕ → Text
show_i64 n = if ltb n (2 ^ 63) then show_nat n else lit "-" ++ show_nat (2 ^ 64 - n)

-- `message_key` of src/preprocess/mod.rs
unfoldable pub fallback_key : CommonFields → Text → Text
unfolding show_i64
fallback_key common fallback_type =
    unwrap_or (show_i64 common.create_time ++ (lit "_" ++ fallback_type)) common.msg_id

-- `if let Some(value) = value { body.push_str(&format!("{label}{value}\n")) }`
unfoldable pub bullet : Text → Option Text → Text
bullet label none = []
bullet label (some value) = label ++ (value ++ lit "\n")

unfoldable pub path_list : Option FilePath → List FilePath
path_list none = []
path_list (some path) = path ∷ []

unfoldable pub process_text : TextMessage → ProcessedArtifact
unfolding new_artifact fallback_key
process_text message =
    new_artifact (fallback_key message.common (lit "text")) ProcessedArtifactKind.text
      message.content

unfoldable pub link_body : LinkMessage → Text → Text
unfolding bullet
link_body message reader_markdown =
    lit "## Original Link\n\n"
    ++ (bullet (lit "- Title: ") message.title
        ++ (bullet (lit "- Description: ") message.description
            ++ (lit "- URL: "
                ++ (message.url
                    ++ (lit "\n\n## Reader Content\n\n" ++ (trim reader_markdown ++ lit "\n"))))))

unfoldable pub process_link : LinkMessage → Text → Option FilePath → ProcessedArtifact
unfolding link_body new_artifact fallback_key path_list
process_link message reader_markdown reader_payload_path =
    record (new_artifact (fallback_key message.common (lit "link")) ProcessedArtifactKind.link
      (link_body message reader_markdown)) {
        external_service = some (lit "jina_reader");
        summary = message.title;
        processed_payload_paths = path_list reader_payload_path;
      }

-- `parts.into_iter().flatten().collect::<Vec<_>>()`
unfoldable pub flatten : List (Option Text) → List Text
flatten [] = []
flatten (none ∷ parts) = flatten parts
flatten (some part ∷ parts) = part ∷ flatten parts

-- `parts.join(separator)`
unfoldable pub join : Text → List Text → Text
join separator [] = []
join separator (part ∷ []) = part
join separator (part ∷ next ∷ parts) = part ++ (separator ++ join separator (next ∷ parts))

unfoldable pub administrative_area : LocationSummary → Text
unfolding flatten join
administrative_area summary =
    join (lit " / ") (flatten (summary.province ∷ summary.city ∷ summary.district ∷ []))

-- `show_f64` is the standard library's `Display` of an `f64`.
module _ (show_f64 : ℕ → Text) where
  unfoldable pub location_body : LocationMessage → LocationSummary → Text
  unfolding bullet administrative_area is_empty
  location_body message summary =
      let admin = administrative_area summary in
      lit "## Location\n\n- Coordinates: "
      ++ (show_f64 message.latitude
          ++ (lit ", "
              ++ (show_f64 message.longitude
                  ++ (lit "\n"
                      ++ (bullet (lit "- WeChat Label: ") message.label
                          ++ (bullet (lit "- Address: ") summary.address
                              ++ ((if is_empty admin
                                    then []
                                    else bullet (lit "- Administrative Area: ") (some admin))
                                  ++ (bullet (lit "- Adcode: ") summary.adcode
                                      ++ bullet (lit "- City Code: ") summary.city_code))))))))

  unfoldable pub process_location :
      LocationMessage → LocationSummary → Option FilePath → ProcessedArtifact
  unfolding location_body new_artifact fallback_key path_list
  process_location message summary raw_json_path =
      record (new_artifact (fallback_key message.common (lit "location"))
        ProcessedArtifactKind.location (location_body message summary)) {
          external_service = some (lit "tencent_lbs");
          raw_payload_paths = path_list raw_json_path;
          summary = summary.address;
        }

pub record ModelPreprocessOutput : Type 0 where
  pub message_key : Text
  pub kind : ProcessedArtifactKind
  pub markdown_body : Text
  pub provider : Text
  pub model : Text
  pub raw_payload_paths : List FilePath
  pub processed_payload_paths : List FilePath

unfoldable pub process_model_output : ModelPreprocessOutput → ProcessedArtifact
unfolding new_artifact
process_model_output output =
    record (new_artifact output.message_key output.kind output.markdown_body) {
      provider = some output.provider;
      model = some output.model;
      raw_payload_paths = output.raw_payload_paths;
      processed_payload_paths = output.processed_payload_paths;
    }
