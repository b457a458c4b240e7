-- ===== src/Files/Segments.antt =====
-- What a sanitized segment is: one component of safe characters, which is left as it is when it is
-- sanitized again.
use sage_wiki_bridge_wxo.Base.{
  ℕ, suc, ◌≡◌, refl, ap, true, false, [], ◌∷◌, ◌++◌, arith, length, map, all_of, inl, inr,
  Bool-cases, ◌==◌,
}
use sage_wiki_bridge_wxo.Text.{Text, text_eq, text_eq_iff, is_empty, contains_char}
use sage_wiki_bridge_wxo.Error.{ok}
use sage_wiki_bridge_wxo.Files.{
  FilePath, starts_with_path, is_safe, safe_char, is_refused, sanitize_segment,
}

is_safe-safe_char : (c : ℕ) → is_safe (safe_char c) ≡ true
unfolding is_safe safe_char
is_safe-safe_char c = ground arith

safe_char-safe : (c : ℕ) → is_safe c ≡ true → safe_char c ≡ c
unfolding safe_char
safe_char-safe c h = rw h

safe_dot : (c : ℕ) → safe_char c ≡ b'.' → c ≡ b'.'
unfolding safe_char is_safe
safe_dot c h = ground arith

safe_not_separator : (c : ℕ) → is_safe c ≡ true → ((b'/' == c) ≡ false) × ((b'\\' == c) ≡ false)
unfolding is_safe
safe_not_separator c h = (ground arith, ground arith)

all_safe : (s : Text) → all_of is_safe (map safe_char s) ≡ true
all_safe [] = refl
all_safe (c ∷ s) = ground (arith, is_safe-safe_char c, all_safe s)

map-safe_char : (s : Text) → all_of is_safe s ≡ true → map safe_char s ≡ s
map-safe_char [] h = refl
map-safe_char (c ∷ s) h = ground (arith, safe_char-safe c, map-safe_char s)

pub no_separator :
    (s : Text)
    → all_of is_safe s ≡ true
    → (contains_char b'/' s ≡ false) × (contains_char b'\\' s ≡ false)
unfolding contains_char
no_separator [] h = (refl, refl)
no_separator (c ∷ s) h = ground (arith, safe_not_separator c, no_separator s)

-- A segment that is not refused is not refused once it is sanitized.
still_accepted : (s : Text) → is_refused s ≡ false → is_refused (map safe_char s) ≡ false
unfolding is_refused is_empty text_eq
still_accepted [] h = ground arith
still_accepted (c ∷ []) h =
    ground (arith, safe_dot c, no_separator (map safe_char (c ∷ [])) (all_safe (c ∷ [])))
still_accepted (c ∷ d ∷ []) h = ground (
  arith,
  safe_dot c,
  safe_dot d,
  no_separator (map safe_char (c ∷ d ∷ [])) (all_safe (c ∷ d ∷ [])),
)
still_accepted (c ∷ d ∷ e ∷ s) h = ground (
  arith,
  safe_dot c,
  safe_dot d,
  no_separator (map safe_char (c ∷ d ∷ e ∷ s)) (all_safe (c ∷ d ∷ e ∷ s)),
)

length-map_safe : (s : Text) → length (map safe_char s) ≡ length s
length-map_safe [] = refl
length-map_safe (c ∷ s) = ap suc (length-map_safe s)

pub sanitize_safe :
    (s : Text) → is_refused s ≡ false → all_of is_safe s ≡ true → sanitize_segment s ≡ ok s
unfolding sanitize_segment
sanitize_safe s accepted safe = rw (accepted, map-safe_char s safe)

-- One component of a path: safe characters, no separator, and not empty, `.` or `..`.
pub record IsSegment (t : Text) : Type 0 where
  pub safe : all_of is_safe t ≡ true
  pub accepted : is_refused t ≡ false

-- A sanitized segment is one component of safe characters, as long as the segment was, and
-- sanitizing it again changes nothing.
pub sanitize_segment-IsSegment :
    (s t : Text)
    → sanitize_segment s ≡ ok t
    → IsSegment t × (length t ≡ length s) × (sanitize_segment t ≡ ok t)
unfolding sanitize_segment
sanitize_segment-IsSegment s t h = elim (Bool-cases (is_refused s)) [
  | inl r ↦ ground arith
  | inr a ↦
      let q : map safe_char s ≡ t = ground arith in
      let safe = all_safe s in
      let accepted = still_accepted s a in
      let stays = map-safe_char (map safe_char s) safe in
      rw (← q)
        (record { safe = safe; accepted = accepted }, length-map_safe s, rw (accepted, stays))
]

pub starts_with_path-append : (root rest : FilePath) → starts_with_path root (root ++ rest) ≡ true
unfolding starts_with_path
starts_with_path-append [] rest = refl
starts_with_path-append (r ∷ root) rest =
    ground (arith, text_eq_iff r r, starts_with_path-append root rest)
