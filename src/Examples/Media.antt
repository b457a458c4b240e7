-- ===== src/Examples/Media.antt =====
-- The theorems on media files and on the pages at concrete inputs.
use sage_wiki_bridge_wxo.Base.{
  ◌+◌, ◌*◌, ◌^◌, ◌≡◌, refl, inr, true, false, none, some, Option, [], ◌∷◌, arith, length, map, take,
}
use sage_wiki_bridge_wxo.Text.{lit, text_eq, trim, is_whitespace, is_empty, contains_char}
use sage_wiki_bridge_wxo.Error.{ok}
use sage_wiki_bridge_wxo.Exec.{◌>>=◌, lift, pure, proceed}
use sage_wiki_bridge_wxo.Files.{Fault, FileSystem, write_via, is_refused}
use sage_wiki_bridge_wxo.Wechat.Primitives.{plain}
use sage_wiki_bridge_wxo.Store.Schema.{MessageRow, Db, empty_db}
use sage_wiki_bridge_wxo.Store.Pages.{
  MessageListQuery, list_item, page_size, listed_rows, list_messages,
}
use sage_wiki_bridge_wxo.Store.Pages.Covers.{first_pages, list_messages-pages}
use sage_wiki_bridge_wxo.Store.Messages.{new_row}
use sage_wiki_bridge_wxo.Preprocess.{
  ProcessedArtifact, ProcessedArtifactKind, process_model_output, join, flatten,
}
use sage_wiki_bridge_wxo.Llm.{
  MediaKind, LlmMediaRequest, LlmOutput, GeminiConfig, GeminiApi, process_media, generate,
  answer_text, texts_of,
}
use sage_wiki_bridge_wxo.Llm.Answers.{IsAnswer, process_media-IsAnswer}
use sage_wiki_bridge_wxo.Media.{
  AccessToken, CachedAccessToken, received, get_token, valid_cached_token, fetch_access_token,
  download_media, save_response, save_chunks, read_chunks,
}
use sage_wiki_bridge_wxo.Worker.MediaProcessor.{
  GeminiMediaJobProcessor, MediaState, MediaSurroundings, media_kind, artifact_kind,
  process_media_message, cached_token, download, ask_model, target_path, join_path, components,
  split_path, keep_components, add_to_component, mime_type, extension_for_mime,
}
use sage_wiki_bridge_wxo.Worker.MediaProcessor.Processed.{
  IsMediaArtifact, process_media_message-IsMediaArtifact,
}
use sage_wiki_bridge_wxo.Worker.Artifacts.{message_key}
use sage_wiki_bridge_wxo.Examples.{hello}

abbrev issued : AccessToken
issued = record { token = lit "a"; expires_in = 7200 }

-- A token that was stored at 5, is used five minutes less than it lasts, and is still good at 6.
abbrev cached : Option CachedAccessToken
cached = some (record { token = lit "a"; expires_at = 5 + 6900 * 10 ^ 9 })

abbrev gemini : GeminiConfig
gemini = record {
  endpoint_base = lit "https://g.example/";
  api_key = lit "k";
  model = lit "m";
  max_inline_bytes = 10;
}

abbrev gemini_api : GeminiApi
gemini_api = record {
  answer = λ url payload.
      inr (record { is_success = true; status = lit "200 OK"; text = inr (lit "{}") });
  read_json = λ body. inr (record { candidates = (some (lit " a cat ") ∷ []) ∷ [] });
  not_found = lit "no such file";
}

abbrev request : LlmMediaRequest
request = record {
  kind = MediaKind.image;
  path = lit "cat.jpg" ∷ [];
  mime_type = lit "image/jpeg";
  system_prompt = lit "what is it?";
}

abbrev one_file : FileSystem
one_file path = some (1 ∷ 2 ∷ 3 ∷ [])

abbrev a_cat : LlmOutput
a_cat = record { provider = lit "gemini"; model = lit "m"; text = lit "a cat" }

process_media-IsAnswer_example : IsAnswer plain gemini_api gemini one_file request a_cat
unfolding process_media generate answer_text texts_of flatten join trim is_whitespace is_empty lit
process_media-IsAnswer_example =
    process_media-IsAnswer plain gemini_api gemini one_file request a_cat refl

abbrev processor : GeminiMediaJobProcessor
processor = record {
  media_client = record {
    config = record { api_base = lit "https://w.example"; app_id = lit "i"; app_secret = lit "s" };
    max_media_bytes = 10;
  };
  refresh_skew = 0;
  raw_root = lit "raw" ∷ [];
  image_prompt = lit "image";
  voice_prompt = lit "voice";
  video_prompt = lit "video";
}

abbrev surroundings : MediaSurroundings
surroundings = record {
  api = record {
    answer_token =
        λ url query. inr (record { is_success = true; status = lit "200 OK"; json = inr issued });
    answer_media = λ url query. inr (record {
      is_success = true;
      status = lit "200 OK";
      content_type = none;
      rounds = received (1 ∷ 2 ∷ []) ∷ received (3 ∷ []) ∷ [];
    });
  };
  process_media = λ files request. ok a_cat;
  now = 1;
  later = 2;
  fault = Fault.no_fault;
}

abbrev picture : MessageRow
picture = new_row 1 (record hello { message_type = lit "image"; media_id = some (lit "id") })

abbrev before : MediaState
before = record { files = λ path. none; cached = none }

abbrev cat_artifact : ProcessedArtifact
cat_artifact = process_model_output (record {
  message_key = lit "m1";
  kind = ProcessedArtifactKind.image;
  markdown_body = lit "a cat";
  provider = lit "gemini";
  model = lit "m";
  raw_payload_paths = (lit "raw" ∷ lit "m1" ∷ lit "media.original.jpg" ∷ []) ∷ [];
  processed_payload_paths = [];
})

abbrev after : MediaState
after = (process_media_message plain processor surroundings picture before).1

processes :
    process_media_message plain processor surroundings picture before ≡ (ok cat_artifact, after)
unfolding process_media_message ◌>>=◌ proceed lift pure new_row text_eq lit media_kind artifact_kind
    cached_token get_token valid_cached_token fetch_access_token download download_media
    save_response save_chunks read_chunks write_via ask_model target_path join_path components
    split_path keep_components add_to_component mime_type extension_for_mime message_key
    process_model_output is_empty
processes = refl

picture-named : is_refused (message_key picture) ≡ false
unfolding is_refused message_key new_row is_empty text_eq contains_char lit
picture-named = refl

process_media_message-IsMediaArtifact_example :
    IsMediaArtifact plain processor surroundings picture before after cat_artifact
process_media_message-IsMediaArtifact_example =
    process_media_message-IsMediaArtifact plain processor surroundings picture before after
      cat_artifact picture-named processes

abbrev pages : MessageListQuery
pages = record {
  page = 1;
  per_page = 1;
  keyword = none;
  message_type = none;
  status = none;
  sort_desc = true;
}

abbrev two_rows : Db
two_rows = record empty_db { messages = new_row 1 hello ∷ new_row 2 hello ∷ [] }

list_messages-pages_example :
    (first_pages pages two_rows 2
      ≡ map list_item (take (2 * page_size pages) (listed_rows pages two_rows)))
    × ((list_messages pages two_rows).total ≡ length (listed_rows pages two_rows))
list_messages-pages_example = list_messages-pages pages two_rows 2 (unfold page_size in omega arith)
