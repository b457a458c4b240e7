-- ===== src/Llm/Answers.antt =====
-- What the text of a model is: the answer to a request with the whole file, which is small enough.
use sage_wiki_bridge_wxo.Base.{
  ℕ, ◌≤◌, ◌≡◌, ap, sym, ◌∙◌, inr, refl, true, false, not, Option, none, some, List, [], ◌∷◌, ◌++◌,
  arith, ltb, length,
}
use sage_wiki_bridge_wxo.Text.{Text, lit, trim, trim_end_matches, is_empty}
use sage_wiki_bridge_wxo.Preprocess.{flatten, join}
use sage_wiki_bridge_wxo.Error.{
  ok, map_err, map_err-eq-ok, >>=-eq-ok, guard, guard-eq-ok, ok_or, ok_or-eq-ok,
}
use sage_wiki_bridge_wxo.Files.{FileSystem}
use sage_wiki_bridge_wxo.Wechat.Primitives.{Primitives}
use sage_wiki_bridge_wxo.Enrich.HttpClient.{HttpResponse}
use sage_wiki_bridge_wxo.Llm.{
  LlmMediaRequest, LlmOutput, GeminiConfig, GeminiGenerateResponse, GeminiApi, generate_url,
  answer_text, texts_of, payload_of, generate, process_media,
}

-- The parts of all candidates, in order.
pub concat : List (List (Option Text)) → List (Option Text)
concat [] = []
concat (parts ∷ candidates) = parts ++ concat candidates

flatten-append : (xs ys : List (Option Text)) → flatten (xs ++ ys) ≡ flatten xs ++ flatten ys
unfolding flatten
flatten-append [] ys = refl
flatten-append (none ∷ xs) ys = flatten-append xs ys
flatten-append (some t ∷ xs) ys = ap (λ l. t ∷ l) (flatten-append xs ys)

flatten-concat :
    (candidates : List (List (Option Text))) → texts_of candidates ≡ flatten (concat candidates)
unfolding texts_of flatten concat
flatten-concat [] = refl
flatten-concat (parts ∷ candidates) =
    ap (λ l. flatten parts ++ l) (flatten-concat candidates)
    ∙ sym (flatten-append parts (concat candidates))

module _ (p : Primitives) (api : GeminiApi) (config : GeminiConfig) where
  pub record IsAnswer (files : FileSystem) (request : LlmMediaRequest) (output : LlmOutput)
      : Type 0 where
    pub bytes : List ℕ
    pub response : HttpResponse
    pub body : Text
    pub parsed : GeminiGenerateResponse
    pub is_file : files request.path ≡ some bytes
    pub is_small : length bytes ≤ config.max_inline_bytes
    pub is_response :
        api.answer
          (trim_end_matches b'/' config.endpoint_base
            ++ (lit "/v1beta/models/"
                ++ (config.model ++ (lit ":generateContent?key=" ++ config.api_key))))
          (record {
            text = request.system_prompt;
            mime_type = request.mime_type;
            data' = p.base64_encode bytes;
          })
        ≡ inr response
    pub is_success : response.is_success ≡ true
    pub is_body : response.text ≡ inr body
    pub is_parsed : api.read_json body ≡ inr parsed
    pub is_text : output.text ≡ trim (join (lit "\n") (flatten (concat parsed.candidates)))
    pub is_filled : is_empty output.text ≡ false
    pub is_model : output.model ≡ config.model

  -- A text of the model is not empty and has the texts of a successful answer, line by line; the
  -- request went to the address of the model, with the prompt, the type and the encoded bytes of the
  -- whole file, which is there and within the limit.
  pub process_media-IsAnswer :
      (files : FileSystem) (request : LlmMediaRequest) (output : LlmOutput)
      → process_media p api config files request ≡ ok output
      → IsAnswer files request output
  unfolding process_media generate
  process_media-IsAnswer files request output h =
      let (bytes, file, h₁) = >>=-eq-ok (ok_or (files request.path) _) _ h in
      let (_, small, h₂) =
        >>=-eq-ok (guard (not (ltb config.max_inline_bytes (length bytes))) _) _ h₁ in
      let (body, generated, h₃) =
        >>=-eq-ok (generate p api config (payload_of p api config request bytes)) _ h₂ in
      let (parsed, read, h₄) = >>=-eq-ok (map_err _ (api.read_json body)) _ h₃ in
      let (_, filled, h₅) = >>=-eq-ok (guard (not (is_empty (answer_text parsed))) _) _ h₄ in
      let (response, answered, g₁) =
        >>=-eq-ok
          (map_err _ (api.answer (generate_url config) (payload_of p api config request bytes))) _
          generated in
      let (body', read', g₂) = >>=-eq-ok (map_err _ response.text) _ g₁ in
      let (_, success, g₃) = >>=-eq-ok (guard response.is_success _) _ g₂ in
      let small' = guard-eq-ok (not (ltb config.max_inline_bytes (length bytes))) _ small in
      let filled' = guard-eq-ok (not (is_empty (answer_text parsed))) _ filled in
      let text : answer_text parsed ≡ output.text = cc h₅ in
      let same : body' ≡ body = cc g₃ in
      record {
        bytes = bytes;
        response = response;
        body = body;
        parsed = parsed;
        is_file = ok_or-eq-ok (files request.path) _ file;
        is_small = ground arith;
        is_response = unfold generate_url payload_of in map_err-eq-ok _ _ answered;
        is_success = guard-eq-ok response.is_success _ success;
        is_body = map_err-eq-ok _ response.text read' ∙ ap inr same;
        is_parsed = map_err-eq-ok _ (api.read_json body) read;
        is_text =
            sym text
            ∙ (unfold answer_text in
                ap (λ l. trim (join (lit "\n") l)) (flatten-concat parsed.candidates));
        is_filled = rw (← text) (ground arith);
        is_model = cc h₅;
      }
