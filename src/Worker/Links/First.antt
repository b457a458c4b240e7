-- ===== src/Worker/Links/First.antt =====
-- A link in a text is found.
use sage_wiki_bridge_wxo.Base.{
  ℕ, zero, suc, ◌≡◌, refl, ap, sym, ◌∙◌, inl, inr, true, some, List, [], ◌∷◌, ◌++◌, arith, length,
  take, drop, all_of, any_of, take-length-append, drop-length-append, Bool-cases, Option-cases,
}
use sage_wiki_bridge_wxo.Text.{Text, text_eq}
use sage_wiki_bridge_wxo.Url.{UrlParser}
use sage_wiki_bridge_wxo.Worker.Links.{
  is_http_url, url_delimiter, trim_url_token, find_next_url_start, token_end, push_url, scan_urls,
  extract_http_urls,
}
use sage_wiki_bridge_wxo.Worker.Links.Scan.{
  is_token_char, candidate_at, rest_at, scan_urls-zero, scan_urls_done, scan_urls_next,
  extract_http_urls_total,
}

-- The text is at its end, or goes on with a delimiter.
abbrev pub StopsToken : Text → Type 0
StopsToken [] = Unit
StopsToken (c ∷ t) = url_delimiter c ≡ true

token_end-append :
    (url rest : Text)
    → all_of is_token_char url ≡ true
    → StopsToken rest
    → token_end (url ++ rest) ≡ length url
unfolding token_end
token_end-append [] [] h stops = refl
token_end-append [] (c ∷ t) h stops = rw stops
token_end-append (c ∷ url) rest h stops = ground (arith, token_end-append url rest)

module _ (parse_url : UrlParser) where
  push_url_nil :
      (url : Text) → is_http_url parse_url url ≡ true → push_url parse_url url [] ≡ url ∷ []
  unfolding push_url
  push_url_nil url h = rw (h, push_url) refl

  push_url-head :
      (url candidate : Text) (urls : List Text)
      → (more : List Text) × (push_url parse_url candidate (url ∷ urls) ≡ url ∷ more)
  unfolding push_url
  push_url-head url candidate urls = elim (Bool-cases (is_http_url parse_url candidate)) [
    | inr no_url ↦ (urls, rw (no_url, push_url) refl)
    | inl accepted ↦ elim (Bool-cases (any_of (λ other. text_eq other candidate) (url ∷ urls))) [
      | inl old ↦ (urls, rw (accepted, old, push_url) refl)
      | inr new ↦ (urls ++ candidate ∷ [], rw (accepted, new, push_url) refl)
    ]
  ]

  scan_urls-head :
      (fuel : ℕ) (remaining url : Text) (urls found : List Text)
      → scan_urls parse_url fuel remaining (url ∷ urls) ≡ some found
      → (more : List Text) × (found ≡ url ∷ more)
  scan_urls-head zero remaining url urls found h =
      cc (scan_urls-zero parse_url remaining (url ∷ urls))
  scan_urls-head (suc fuel) remaining url urls found h =
      elim (Option-cases (find_next_url_start remaining)) [
        | inl e ↦ (urls, cc (scan_urls_done parse_url fuel remaining (url ∷ urls) e))
        | inr (start, e) ↦
            let (more, same) = push_url-head url (candidate_at (drop start remaining)) urls in
            scan_urls-head fuel (rest_at (drop start remaining)) url more found (
              ap (scan_urls parse_url fuel (rest_at (drop start remaining))) (sym same)
              ∙ sym (scan_urls_next parse_url fuel remaining (url ∷ urls) start e)
              ∙ h)
      ]

  -- The first address of a text, up to a delimiter or the end, is the first link found, where it is
  -- accepted and neither begins nor ends with punctuation.
  pub extract_http_urls-head :
      (before url rest : Text)
      → find_next_url_start (before ++ (url ++ rest)) ≡ some (length before)
      → all_of is_token_char url ≡ true
      → StopsToken rest
      → trim_url_token url ≡ url
      → is_http_url parse_url url ≡ true
      → (more : List Text) × (extract_http_urls parse_url (before ++ (url ++ rest)) ≡ url ∷ more)
  extract_http_urls-head before url rest at one_token stops trimmed accepted =
      let text = before ++ (url ++ rest) in
      let tail : drop (length before) text ≡ url ++ rest =
        drop-length-append before (url ++ rest) in
      let ends : token_end (url ++ rest) ≡ length url = token_end-append url rest one_token stops in
      let raw : take (token_end (url ++ rest)) (url ++ rest) ≡ url =
        ap (λ n. take n (url ++ rest)) ends ∙ take-length-append url rest in
      let candidate : candidate_at (drop (length before) text) ≡ url =
        ap (candidate_at) tail ∙ ap trim_url_token raw ∙ trimmed in
      let first : push_url parse_url (candidate_at (drop (length before) text)) [] ≡ url ∷ [] =
        ap (λ c. push_url parse_url c []) candidate ∙ push_url_nil url accepted in
      scan_urls-head (length text) (rest_at (drop (length before) text)) url []
        (extract_http_urls parse_url text)
        (ap (scan_urls parse_url (length text) (rest_at (drop (length before) text))) (sym first)
          ∙ sym (scan_urls_next parse_url (length text) text [] (length before) at)
          ∙ extract_http_urls_total parse_url text (suc (length text)) (omega arith))
