-- ===== src/Text/Trim.antt =====
-- `trim`, `trim_end` and `trim_start_matches('\n')`.
use sage_wiki_bridge_wxo.Base.{
  ℕ, ◌≡◌, ◌∙◌, refl, Bool, true, ◌&&◌, ◌||◌, [], ◌∷◌, ◌++◌, leb, ◌==◌, if◌then◌else◌, ap, inl, inr,
  Bool-cases, all_of,
}
use sage_wiki_bridge_wxo.Text.Compare.{Text}

-- `char::is_whitespace`: the property White_Space.
unfoldable pub is_whitespace : ℕ → Bool
is_whitespace c =
    (leb 9 c && leb c 13)
    || c == 0x20
    || c == 0x85
    || c == 0xa0
    || c == 0x1680
    || (leb 0x2000 c && leb c 0x200a)
    || c == 0x2028
    || c == 0x2029
    || c == 0x202f
    || c == 0x205f
    || c == 0x3000

unfoldable pub drop_while : (ℕ → Bool) → Text → Text
drop_while p [] = []
drop_while p (c ∷ t) = let rest = drop_while p t in if p c then rest else c ∷ t

-- One character in front of what `drop_end_while` leaves of the rest.
unfoldable pub keep_end : (ℕ → Bool) → ℕ → Text → Text
keep_end p c [] = if p c then [] else c ∷ []
keep_end p c (d ∷ r) = c ∷ d ∷ r

-- What is left when the longest suffix of characters in `p` is taken off.
unfoldable pub drop_end_while : (ℕ → Bool) → Text → Text
unfolding keep_end
drop_end_while p [] = []
drop_end_while p (c ∷ t) = keep_end p c (drop_end_while p t)

unfoldable pub trim_start : Text → Text
unfolding drop_while
trim_start = drop_while is_whitespace

unfoldable pub trim_end : Text → Text
unfolding drop_end_while
trim_end = drop_end_while is_whitespace

unfoldable pub trim : Text → Text
unfolding trim_start trim_end
trim t = trim_end (trim_start t)

-- `trim_start_matches('\n')`
unfoldable pub strip_newlines : Text → Text
unfolding drop_while
strip_newlines = drop_while (λ c. c == 10)

-- `t.trim_end_matches(char)`
unfoldable pub trim_end_matches : ℕ → Text → Text
unfolding drop_end_while
trim_end_matches char = drop_end_while (λ c. c == char)

-- `trim_matches` with a test of characters.
unfoldable pub trim_matches : (ℕ → Bool) → Text → Text
unfolding drop_while drop_end_while
trim_matches p t = drop_end_while p (drop_while p t)

-- SQLite's `TRIM`, which takes off spaces and nothing else.
unfoldable pub trim_spaces : Text → Text
unfolding drop_while drop_end_while
trim_spaces t = drop_end_while (λ c. c == 0x20) (drop_while (λ c. c == 0x20) t)

module _ (p : ℕ → Bool) where
  keep_end-split :
      (c : ℕ) (t r s : Text)
      → r ++ s ≡ t
      → all_of p s ≡ true
      → (s' : Text) × (keep_end p c r ++ s' ≡ c ∷ t) × (all_of p s' ≡ true)
  unfolding keep_end
  keep_end-split c t (d ∷ r) s e h = (s, ap (λ u. c ∷ u) e, h)
  keep_end-split c t [] s e h = elim (Bool-cases (p c)) [
    | inl w ↦ (c ∷ s, rw (w, e), rw (w, h))
    | inr b ↦ (s, rw b (ap (λ u. c ∷ u) e), h)
  ]

  pub drop_end_while-split :
      (t : Text) → (s : Text) × (drop_end_while p t ++ s ≡ t) × (all_of p s ≡ true)
  unfolding drop_end_while
  drop_end_while-split [] = ([], refl, refl)
  drop_end_while-split (c ∷ t) =
      let (s, e, h) = drop_end_while-split t in keep_end-split c t (drop_end_while p t) s e h

  pub drop_while-split : (t : Text) → (s : Text) × (s ++ drop_while p t ≡ t) × (all_of p s ≡ true)
  unfolding drop_while
  drop_while-split [] = ([], refl, refl)
  drop_while-split (c ∷ t) =
      let (s, e, h) = drop_while-split t in
      elim (Bool-cases (p c)) [
        | inl w ↦ (c ∷ s, rw w (ap (λ u. c ∷ u) e), rw (w, h))
        | inr b ↦ ([], rw b, refl)
      ]

-- `trim_end` takes off white space only.
pub trim_end-split :
    (t : Text) → (s : Text) × (trim_end t ++ s ≡ t) × (all_of is_whitespace s ≡ true)
unfolding trim_end
trim_end-split t = drop_end_while-split is_whitespace t

pub strip_newlines-split :
    (t : Text) → (s : Text) × (s ++ strip_newlines t ≡ t) × (all_of (λ c. c == 10) s ≡ true)
unfolding strip_newlines
strip_newlines-split t = drop_while-split (λ c. c == 10) t

pub trim_matches-split :
    (p : ℕ → Bool) (t : Text) → (s : Text) × (s' : Text) × (s ++ (trim_matches p t ++ s') ≡ t)
unfolding trim_matches
trim_matches-split p t =
    let (s, e, _) = drop_while-split p t in
    let (s', e', _) = drop_end_while-split p (drop_while p t) in (s, s', ap (λ u. s ++ u) e' ∙ e)
