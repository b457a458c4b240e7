-- ===== src/Source/Dates.antt =====
-- The date that a document is named by.
use sage_wiki_bridge_wxo.Base.{
  ℕ, zero, suc, ◌-◌, ◌<◌, ◌≤◌, ◌≡◌, refl, ap, sym, ◌∙◌, ◌↔◌, inl, inr, true, false, some, [], ◌∷◌,
  ◌++◌, arith, leb-true, ◌==◌, length, all_of, Bool-cases, Option-cases,
}
use sage_wiki_bridge_wxo.Text.{Text, text_eq, is_empty}
use sage_wiki_bridge_wxo.Text.Utf8.{utf8_char}
use sage_wiki_bridge_wxo.Error.{ok}
use sage_wiki_bridge_wxo.Files.{is_safe, is_refused, sanitize_segment}
use sage_wiki_bridge_wxo.Files.Segments.{sanitize_safe, no_separator}
use sage_wiki_bridge_wxo.Source.Writer.{get_prefix, is_date_from, capture_date_from_received_at}

-- `YYYY-MM-DD`, in digits.
pub record IsDate (date : Text) : Type 0 where
  pub ten_characters : length date ≡ 10
  pub digits_and_dashes : is_date_from 0 date ≡ true

date_char :
    (index c : ℕ) (t : Text)
    → is_date_from index (c ∷ t) ≡ true
    → (c < 0x80) × (is_safe c ≡ true) × ((c == b'.') ≡ false) × (is_date_from (suc index) t ≡ true)
unfolding is_date_from is_safe
date_char index c t h = (ground arith, ground arith, ground arith, ground arith)

length-utf8_char : (c : ℕ) → c < 0x80 → length (utf8_char c) ≡ 1
unfolding utf8_char
length-utf8_char c h = ground arith

width-positive : (c : ℕ) → 1 ≤ length (utf8_char c)
unfolding utf8_char
width-positive c = ground arith

get_prefix-append :
    (index : ℕ) (date rest : Text)
    → is_date_from index date ≡ true
    → get_prefix (length date) (date ++ rest) ≡ some date
unfolding get_prefix
get_prefix-append index [] rest h = refl
get_prefix-append index (c ∷ date) rest h =
    let (small, _, _, more) = date_char index c date h in
    let one = length-utf8_char c small in
    let less : suc (length date) - 1 ≡ length date = omega arith in
    rw (
      one,
      less,
      leb-true 1 (suc (length date)) (omega arith),
      get_prefix-append (suc index) date rest more,
    )

get_prefix-cons :
    (n c : ℕ) (t d : Text)
    → get_prefix (suc n) (c ∷ t) ≡ some d
    → (d' : Text) × (d ≡ c ∷ d')
      × (get_prefix (suc n - length (utf8_char c)) t ≡ some d')
      × (length (utf8_char c) ≤ suc n)
unfolding get_prefix
get_prefix-cons n c t d h = elim (Option-cases (get_prefix (suc n - length (utf8_char c)) t)) [
  | inl e ↦ absurd (ground arith)
  | inr (d', e) ↦ (d', ground arith, e, ground arith)
]

get_prefix-split :
    (n index : ℕ) (t d : Text)
    → get_prefix n t ≡ some d
    → is_date_from index d ≡ true
    → (rest : Text) × (t ≡ d ++ rest) × (length d ≡ n)
get_prefix-split zero index t [] h date = (t, refl, refl)
get_prefix-split zero index t (x ∷ d) h date = absurd (unfold get_prefix in ground arith)
get_prefix-split (suc n) index [] d h date = absurd (unfold get_prefix in ground arith)
get_prefix-split (suc n) index (c ∷ t) d h date =
    let (d', e, more, fits) = get_prefix-cons n c t d h in
    let (small, _, _, dates) = date_char index c d' (ap (is_date_from index) (sym e) ∙ date) in
    let one = length-utf8_char c small in
    let less : suc n - length (utf8_char c) ≡ n = omega arith in
    let (rest, split, long) =
      get_prefix-split n (suc index) t d' (ap (λ k. get_prefix k t) (sym less) ∙ more) dates in
    (rest, ap (λ u. c ∷ u) split ∙ ap (λ u. u ++ rest) (sym e), ap length e ∙ ap suc long)

all_safe_date :
    (index : ℕ) (date : Text) → is_date_from index date ≡ true → all_of is_safe date ≡ true
all_safe_date index [] h = refl
all_safe_date index (c ∷ date) h =
    let (_, safe, _, more) = date_char index c date h in
    rw safe (all_safe_date (suc index) date more)

is_refused_date : (date : Text) → IsDate date → is_refused date ≡ false
unfolding is_refused is_empty text_eq
is_refused_date [] d = absurd (omega (arith, d.ten_characters))
is_refused_date (c ∷ date) d =
    let (slash, backslash) =
      no_separator (c ∷ date) (all_safe_date 0 (c ∷ date) d.digits_and_dashes) in
    let (_, _, no_dot, _) = date_char 0 c date d.digits_and_dashes in
    rw (no_dot, slash, backslash) refl

sanitize_segment-date : (date : Text) → IsDate date → sanitize_segment date ≡ ok date
sanitize_segment-date date d =
    sanitize_safe date (is_refused_date date d) (all_safe_date 0 date d.digits_and_dashes)

taken :
    (received_at date rest : Text)
    → received_at ≡ date ++ rest
    → IsDate date
    → get_prefix 10 received_at ≡ some date
taken received_at date rest e d =
    ap (get_prefix 10) e
    ∙ ap (λ n. get_prefix n (date ++ rest)) (sym d.ten_characters)
    ∙ get_prefix-append 0 date rest d.digits_and_dashes

-- A date is taken from a time exactly if the time begins with it.
pub capture_date_from_received_at_iff :
    (received_at date : Text)
    → (capture_date_from_received_at received_at ≡ ok date)
      ↔ ((rest : Text) × (received_at ≡ date ++ rest) × IsDate date)
unfolding capture_date_from_received_at
capture_date_from_received_at_iff received_at date = (sound, complete)
  where
    sound :
        capture_date_from_received_at received_at ≡ ok date
        → (rest : Text) × (received_at ≡ date ++ rest) × IsDate date
    sound h = elim (Option-cases (get_prefix 10 received_at)) [
      | inl e ↦ absurd (let k = rw (e, capture_date_from_received_at) at h in cc k)
      | inr (d, e) ↦ elim (Bool-cases (is_date_from 0 d)) [
        | inr f ↦ absurd (let k = rw (e, f, capture_date_from_received_at) at h in cc k)
        | inl dates ↦
            let (rest, split, ten) = get_prefix-split 10 0 received_at d e dates in
            let is_date : IsDate d = record { ten_characters = ten; digits_and_dashes = dates } in
            let k =
              rw (e, dates, sanitize_segment-date d is_date, capture_date_from_received_at) at h in
            let same : d ≡ date = cc k in rw (← same) (rest, split, is_date)
      ]
    ]

    complete :
        (rest : Text) × (received_at ≡ date ++ rest) × IsDate date
        → capture_date_from_received_at received_at ≡ ok date
    complete (rest, e, d) =
        rw (taken received_at date rest e d, d.digits_and_dashes, capture_date_from_received_at)
          (sanitize_segment-date date d)
