-- ===== src/Llm.antt =====
-- src/llm: what a model is asked for a file, and src/llm/gemini.rs, which asks Gemini. The answer to
-- the request and the reader of its JSON are parameters.
pub mod Answers
use sage_wiki_bridge_wxo.Base.{
  ℕ, ◌⊎◌, inl, inr, Bool, not, Option, none, some, List, [], ◌∷◌, ◌++◌, ltb, if◌then◌else◌, length,
}
use sage_wiki_bridge_wxo.Text.{Text, lit, show_nat, trim, is_empty, trim_end_matches}
use sage_wiki_bridge_wxo.Error.{
  BridgeError, io, external_request, external_payload_invalid, Result, ok, err, map_err, ok_or,
  guard, ◌>>=◌, ◌>>◌,
}
use sage_wiki_bridge_wxo.Files.{FilePath, FileSystem}
use sage_wiki_bridge_wxo.Wechat.Primitives.{Primitives}
use sage_wiki_bridge_wxo.Preprocess.{flatten, join}
use sage_wiki_bridge_wxo.Enrich.HttpClient.{HttpResponse}

pub data MediaKind : Type 0 where
  image voice video short_video : MediaKind

pub record LlmMediaRequest : Type 0 where
  pub kind : MediaKind
  pub path : FilePath
  pub mime_type : Text
  pub system_prompt : Text

pub record LlmOutput : Type 0 where
  pub provider : Text
  pub model : Text
  pub text : Text

pub record GeminiConfig : Type 0 where
  pub endpoint_base : Text
  pub api_key : Text
  pub model : Text
  pub max_inline_bytes : ℕ

-- What is sent: the prompt, and the data with its type.
pub record GeminiGenerateRequest : Type 0 where
  pub text : Text
  pub mime_type : Text
  pub data' : Text

-- The candidates of an answer, each with its parts, of which some have a text.
pub record GeminiGenerateResponse : Type 0 where
  pub candidates : List (List (Option Text))

-- `read_json` is serde_json; the left results are the errors' texts. `not_found` is the text of the
-- error of a file that is not there.
pub record GeminiApi : Type 0 where
  pub answer : Text → GeminiGenerateRequest → Text ⊎ HttpResponse
  pub read_json : Text → Text ⊎ GeminiGenerateResponse
  pub not_found : Text

unfoldable pub generate_url : GeminiConfig → Text
generate_url config =
    trim_end_matches b'/' config.endpoint_base
    ++ (lit "/v1beta/models/" ++ (config.model ++ (lit ":generateContent?key=" ++ config.api_key)))

-- `flat_map(|candidate| candidate.content.parts).filter_map(|part| part.text)`
unfoldable pub texts_of : List (List (Option Text)) → List Text
unfolding flatten
texts_of [] = []
texts_of (parts ∷ candidates) = flatten parts ++ texts_of candidates

unfoldable pub answer_text : GeminiGenerateResponse → Text
unfolding texts_of join trim
answer_text response = trim (join (lit "\n") (texts_of response.candidates))

module _ (p : Primitives) (api : GeminiApi) (config : GeminiConfig) where
  unfoldable pub payload_of : LlmMediaRequest → List ℕ → GeminiGenerateRequest
  payload_of request bytes = record {
    text = request.system_prompt;
    mime_type = request.mime_type;
    data' = p.base64_encode bytes;
  }

  -- The body of a successful answer.
  unfoldable pub generate : GeminiGenerateRequest → Result Text
  unfolding generate_url map_err
  generate payload = do
    response ← map_err external_request (api.answer (generate_url config) payload)
    body ← map_err external_request response.text
    guard response.is_success
        (external_request (lit "Gemini returned " ++ (response.status ++ (lit ": " ++ body))))
    ok body

  unfoldable pub process_media : FileSystem → LlmMediaRequest → Result LlmOutput
  unfolding payload_of generate answer_text map_err
  process_media files request = do
    bytes ← ok_or (files request.path) (io api.not_found)
    guard (not (ltb config.max_inline_bytes (length bytes))) (
        external_payload_invalid
          (lit "media exceeds Gemini inline limit " ++ show_nat config.max_inline_bytes))
    body ← generate (payload_of request bytes)
    parsed ← map_err external_payload_invalid (api.read_json body)
    guard (not (is_empty (answer_text parsed)))
        (external_payload_invalid (lit "Gemini response contained no text"))
    ok (record { provider = lit "gemini"; model = config.model; text = answer_text parsed })
