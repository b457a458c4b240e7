-- ===== src/Worker/Links.antt =====
-- src/worker/mod.rs: the links in a text message. `Url::parse` of the crate url is a parameter.
pub mod First
pub mod Scan
use sage_wiki_bridge_wxo.Base.{
  ℕ, zero, suc, Bool, true, false, not, ◌&&◌, ◌||◌, Option, none, some, List, [], ◌∷◌, ◌++◌, min,
  max, inl, inr, ◌==◌, if◌then◌else◌, length, take, drop, any_of, is_some, unwrap_or,
}
use sage_wiki_bridge_wxo.Text.{Text, lit, text_eq, is_whitespace, find?, contains_char}
use sage_wiki_bridge_wxo.Text.Trim.{trim_matches}
use sage_wiki_bridge_wxo.Url.{Url, UrlParser}

unfoldable pub is_http_url : UrlParser → Text → Bool
is_http_url parse_url value = elim (parse_url value) [
  | inl error ↦ false
  | inr url ↦
      (text_eq url.scheme (lit "http") || text_eq url.scheme (lit "https")) && is_some url.host
]

unfoldable pub url_delimiter : ℕ → Bool
unfolding is_whitespace contains_char
url_delimiter ch = is_whitespace ch || contains_char ch (lit "<>\"'“”‘’，。；：！？、")

unfoldable pub is_url_punctuation : ℕ → Bool
unfolding contains_char
is_url_punctuation ch = contains_char ch (lit ".,;:!?)]}，。；：！？）】》、")

unfoldable pub trim_url_token : Text → Text
unfolding is_url_punctuation
trim_url_token value = trim_matches is_url_punctuation value

-- The earlier of two positions.
unfoldable pub earlier_of : Option ℕ → Option ℕ → Option ℕ
earlier_of (some https) (some http) = some (min https http)
earlier_of (some https) none = some https
earlier_of none (some http) = some http
earlier_of none none = none

unfoldable pub find_next_url_start : Text → Option ℕ
unfolding earlier_of
find_next_url_start value = earlier_of (find? (lit "https://") value) (find? (lit "http://") value)

-- The position of the first delimiter, or the length.
unfoldable pub token_end : Text → ℕ
token_end [] = 0
token_end (c ∷ t) = let rest = suc (token_end t) in if url_delimiter c then 0 else rest

module _ (parse_url : UrlParser) where
  -- `urls.push(candidate)`, if it is accepted and not there.
  unfoldable pub push_url : Text → List Text → List Text
  unfolding is_http_url
  push_url candidate urls =
      if is_http_url parse_url candidate && not (any_of (λ url. text_eq url candidate) urls)
      then urls ++ candidate ∷ []
      else urls

  -- The loop on `remaining`, which is `text[offset..]`; `none` means that the fuel has run out.
  unfoldable pub scan_urls : ℕ → Text → List Text → Option (List Text)
  unfolding push_url find_next_url_start token_end trim_url_token
  scan_urls zero remaining urls = none
  scan_urls (suc fuel) remaining urls = elim (find_next_url_start remaining) [
    | none ↦ some urls
    | some start ↦
        let after_start = drop start remaining in
        let relative_end = token_end after_start in
        scan_urls fuel (drop (max relative_end 1) after_start)
          (push_url (trim_url_token (take relative_end after_start)) urls)
  ]

  -- Each round takes a character at least, so the text's length is enough.
  unfoldable pub extract_http_urls : Text → List Text
  unfolding scan_urls
  extract_http_urls text = unwrap_or [] (scan_urls (suc (length text)) text [])
