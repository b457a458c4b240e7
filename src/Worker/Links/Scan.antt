-- ===== src/Worker/Links/Scan.antt =====
-- The loop over a text's links ends; its results are accepted links of the text, each once.
use sage_wiki_bridge_wxo.Base.{
  ℕ, zero, suc, ◌<◌, ◌≡◌, ◌≢◌, refl, ap, sym, ◌∙◌, inl, inr, Bool, true, false, not, none, some,
  List, [], ◌∷◌, ◌++◌, max, arith, length, take, drop, all_of, any_of, All, length-drop,
  take-append-drop, Bool-cases, Option-cases,
}
use mathlib.Core.List.{append_assoc}
use sage_wiki_bridge_wxo.Text.{Text, lit, find?, starts_with, text_eq, text_eq_iff}
use sage_wiki_bridge_wxo.Text.Trim.{trim_matches-split}
use sage_wiki_bridge_wxo.Url.{UrlParser}
use sage_wiki_bridge_wxo.Worker.Links.{
  is_http_url, url_delimiter, is_url_punctuation, trim_url_token, find_next_url_start, token_end,
  push_url, scan_urls, extract_http_urls,
}

-- A character of a token.
abbrev pub is_token_char : ℕ → Bool
is_token_char c = not (url_delimiter c)

all_of-token_end : (t : Text) → all_of is_token_char (take (token_end t) t) ≡ true
unfolding token_end
all_of-token_end [] = refl
all_of-token_end (c ∷ t) = ground (arith, all_of-token_end t)

all_of-append :
    (p : ℕ → Bool) (s t : Text)
    → all_of p (s ++ t) ≡ true
    → (all_of p s ≡ true) × (all_of p t ≡ true)
all_of-append p [] t h = (refl, h)
all_of-append p (c ∷ s) t h = ground (arith, all_of-append p s t)

all_of_middle :
    (p : ℕ → Bool) (s t u whole : Text)
    → s ++ (t ++ u) ≡ whole
    → all_of p whole ≡ true
    → all_of p t ≡ true
all_of_middle p s t u whole e h =
    (all_of-append p t u (all_of-append p s (t ++ u) (ap (all_of p) e ∙ h)).1).0

shorter :
    (remaining : Text) (start relative_end : ℕ)
    → length remaining ≢ 0
    → length (drop (max relative_end 1) (drop start remaining)) < length remaining
shorter remaining start relative_end h = omega (
  arith,
  length-drop {0} (max relative_end 1) (drop start remaining),
  length-drop {0} start remaining,
)

pub find_next_url_start_nil : find_next_url_start [] ≡ none
unfolding find_next_url_start find? lit starts_with
find_next_url_start_nil = refl

trim_url_token-split : (t : Text) → (s : Text) × (s' : Text) × (s ++ (trim_url_token t ++ s') ≡ t)
unfolding trim_url_token
trim_url_token-split t = trim_matches-split is_url_punctuation t

start-ne-nil :
    (remaining : Text) (start : ℕ)
    → find_next_url_start remaining ≡ some start
    → length remaining ≢ 0
start-ne-nil [] start h e = cc (find_next_url_start_nil)
start-ne-nil (c ∷ t) start h e = absurd (omega arith)

-- Every text of the list is another.
abbrev pub AllDistinct : List Text → Type 0
AllDistinct [] = Unit
AllDistinct (url ∷ urls) = All (λ other. url ≢ other) urls × AllDistinct urls

All-append {ℓ κ} :
    {A : Type ℓ} (P : A → Type κ) (xs : List A) (y : A) → All P xs → P y → All P (xs ++ y ∷ [])
All-append P [] y h k = (k, tt)
All-append P (x ∷ xs) y h k = (h.0, All-append P xs y h.1 k)

other_of_new :
    (urls : List Text) (candidate : Text)
    → any_of (λ url. text_eq url candidate) urls ≡ false
    → All (λ url. url ≢ candidate) urls
other_of_new [] candidate h = tt
other_of_new (url ∷ urls) candidate h = (
  λ e. absurd (ground (arith, text_eq_iff url candidate)),
  other_of_new urls candidate (ground arith),
)

AllDistinct-append :
    (urls : List Text) (candidate : Text)
    → AllDistinct urls
    → All (λ url. url ≢ candidate) urls
    → AllDistinct (urls ++ candidate ∷ [])
AllDistinct-append [] candidate h k = (tt, tt)
AllDistinct-append (url ∷ urls) candidate h k =
    (All-append _ urls candidate h.0 k.0, AllDistinct-append urls candidate h.1 k.1)

regroup : (a b c d e : Text) → (a ++ b) ++ (c ++ (d ++ e)) ≡ a ++ ((b ++ (c ++ d)) ++ e)
regroup a b c d e = simp (append_assoc)

-- What one round takes from the text behind the start of a URL.
abbrev pub candidate_at : Text → Text
candidate_at after_start = trim_url_token (take (token_end after_start) after_start)

abbrev pub rest_at : Text → Text
rest_at after_start = drop (max (token_end after_start) 1) after_start

module _ (parse_url : UrlParser) where
  pub scan_urls-zero :
      (remaining : Text) (urls : List Text) → scan_urls parse_url zero remaining urls ≡ none
  unfolding scan_urls
  scan_urls-zero remaining urls = refl

  pub scan_urls_done :
      (fuel : ℕ) (remaining : Text) (urls : List Text)
      → find_next_url_start remaining ≡ none
      → scan_urls parse_url (suc fuel) remaining urls ≡ some urls
  unfolding scan_urls
  scan_urls_done fuel remaining urls e = rw (e, scan_urls) refl

  pub scan_urls_next :
      (fuel : ℕ) (remaining : Text) (urls : List Text) (start : ℕ)
      → find_next_url_start remaining ≡ some start
      → scan_urls parse_url (suc fuel) remaining urls
        ≡ scan_urls parse_url fuel
            (rest_at (drop start remaining))
            (push_url parse_url (candidate_at (drop start remaining)) urls)
  unfolding scan_urls
  scan_urls_next fuel remaining urls start e = rw (e, scan_urls) refl

  scan_urls_total :
      (fuel fuel' : ℕ) (remaining : Text) (urls : List Text)
      → length remaining < fuel
      → length remaining < fuel'
      → (found : List Text) × (scan_urls parse_url fuel remaining urls ≡ some found)
        × (scan_urls parse_url fuel' remaining urls ≡ some found)
  scan_urls_total zero fuel' remaining urls h h' = absurd (omega arith)
  scan_urls_total (suc fuel) zero remaining urls h h' = absurd (omega arith)
  scan_urls_total (suc fuel) (suc fuel') remaining urls h h' =
      elim (Option-cases (find_next_url_start remaining)) [
        | inl e ↦
            (urls, scan_urls_done fuel remaining urls e, scan_urls_done fuel' remaining urls e)
        | inr (start, e) ↦
            let less =
              shorter remaining start (token_end (drop start remaining))
                (start-ne-nil remaining start e) in
            let (found, one, two) =
              scan_urls_total fuel fuel' (rest_at (drop start remaining))
                (push_url parse_url (candidate_at (drop start remaining)) urls) (omega arith)
                (omega arith) in
            (
              found,
              scan_urls_next fuel remaining urls start e ∙ one,
              scan_urls_next fuel' remaining urls start e ∙ two,
            )
      ]

  -- Enough fuel gives the links: any fuel above the text's length gives the same list.
  pub extract_http_urls_total :
      (text : Text) (fuel : ℕ)
      → length text < fuel
      → scan_urls parse_url fuel text [] ≡ some (extract_http_urls parse_url text)
  unfolding extract_http_urls
  extract_http_urls_total text fuel h =
      let (found, one, two) = scan_urls_total (suc (length text)) fuel text [] (omega arith) h in
      rw one two

  -- An accepted URL that stands in the text, in one piece.
  pub record IsLink (text url : Text) : Type 0 where
    pub accepted : is_http_url parse_url url ≡ true
    pub one_token : all_of is_token_char url ≡ true
    pub before : Text
    pub after : Text
    pub occurs : before ++ (url ++ after) ≡ text

  candidate_at-IsLink :
      (text seen after_start : Text)
      → seen ++ after_start ≡ text
      → is_http_url parse_url (candidate_at after_start) ≡ true
      → IsLink text (candidate_at after_start)
  candidate_at-IsLink text seen after_start e h =
      let raw = take (token_end after_start) after_start in
      let (s, s', split) = trim_url_token-split raw in
      record {
        accepted = h;
        one_token =
            all_of_middle is_token_char s (trim_url_token raw) s' raw split
              (all_of-token_end after_start);
        before = seen ++ s;
        after = s' ++ drop (token_end after_start) after_start;
        occurs =
            regroup seen s (trim_url_token raw) s' (drop (token_end after_start) after_start)
            ∙ ap (λ t. seen ++ (t ++ drop (token_end after_start) after_start)) split
            ∙ ap (λ t. seen ++ t) (take-append-drop (token_end after_start) after_start)
            ∙ e;
      }

  push_url-links :
      (text candidate : Text) (urls : List Text)
      → All (IsLink text) urls
      → AllDistinct urls
      → (is_http_url parse_url candidate ≡ true → IsLink text candidate)
      → All (IsLink text) (push_url parse_url candidate urls)
        × AllDistinct (push_url parse_url candidate urls)
  unfolding push_url
  push_url-links text candidate urls links distinct link =
      elim (Bool-cases (is_http_url parse_url candidate)) [
        | inr no_url ↦ rw (no_url, push_url) (links, distinct)
        | inl url ↦ elim (Bool-cases (any_of (λ other. text_eq other candidate) urls)) [
          | inl old ↦ rw (url, old, push_url) (links, distinct)
          | inr new ↦
              rw (url, new, push_url)
                (
                  All-append (IsLink text) urls candidate links (link url),
                  AllDistinct-append urls candidate distinct (other_of_new urls candidate new),
                )
        ]
      ]

  scan_urls-links :
      (fuel : ℕ) (text seen remaining : Text) (urls found : List Text)
      → seen ++ remaining ≡ text
      → All (IsLink text) urls
      → AllDistinct urls
      → scan_urls parse_url fuel remaining urls ≡ some found
      → All (IsLink text) found × AllDistinct found
  scan_urls-links zero text seen remaining urls found e links distinct h =
      cc (scan_urls-zero remaining urls)
  scan_urls-links (suc fuel) text seen remaining urls found e links distinct h =
      elim (Option-cases (find_next_url_start remaining)) [
        | inl none_left ↦
            let same : some urls ≡ some found =
              sym (scan_urls_done fuel remaining urls none_left) ∙ h in
            let same' : urls ≡ found = cc in rw (← same') (links, distinct)
        | inr (start, at) ↦
            let after_start = drop start remaining in
            let here : (seen ++ take start remaining) ++ after_start ≡ text =
              append_assoc seen (take start remaining) after_start
              ∙ ap (λ t. seen ++ t) (take-append-drop start remaining)
              ∙ e in
            let pushed =
              push_url-links text (candidate_at after_start) urls links distinct
                (candidate_at-IsLink text (seen ++ take start remaining) after_start here) in
            let n = max (token_end after_start) 1 in
            scan_urls-links fuel text ((seen ++ take start remaining) ++ take n after_start)
              (rest_at after_start) (push_url parse_url (candidate_at after_start) urls) found
              (append_assoc (seen ++ take start remaining) (take n after_start)
                  (rest_at after_start)
                ∙ ap (λ t. (seen ++ take start remaining) ++ t) (take-append-drop n after_start)
                ∙ here)
              pushed.0 pushed.1 (sym (scan_urls_next fuel remaining urls start at) ∙ h)
      ]

  -- Each link found is an accepted URL that stands in the text in one piece, without a delimiter,
  -- and no link is found twice.
  pub extract_http_urls-links :
      (text : Text)
      → All (IsLink text) (extract_http_urls parse_url text)
        × AllDistinct (extract_http_urls parse_url text)
  extract_http_urls-links text =
      scan_urls-links (suc (length text)) text [] text [] (extract_http_urls parse_url text) refl tt
        tt (extract_http_urls_total text (suc (length text)) (omega arith))
