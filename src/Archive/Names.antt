-- ===== src/Archive/Names.antt =====
-- Which names a saved artifact and its temporary file have.
use sage_wiki_bridge_wxo.Base.{
  ℕ, ◌<◌, ◌≡◌, ◌≢◌, refl, ap, false, [], ◌∷◌, ◌++◌, arith, length, length-append, inl, inr,
  Bool-cases,
}
use sage_wiki_bridge_wxo.Text.{Text, lit, text_eq, is_empty, contains_char}
use sage_wiki_bridge_wxo.Error.{ok}
use sage_wiki_bridge_wxo.Files.{
  is_refused, sanitize_segment, has_later_dot, before_last_dot, behind_last_dot, file_stem,
  extension,
}
use sage_wiki_bridge_wxo.Files.Segments.{sanitize_segment-IsSegment}
use sage_wiki_bridge_wxo.Archive.Atomic.{tmp_name}

-- A name that stands for one file in its directory, wherever it is joined.
pub record IsName (t : Text) : Type 0 where
  pub is_not_empty : t ≢ []
  pub is_not_current : t ≢ lit "."
  pub is_not_parent : t ≢ lit ".."
  pub has_no_slash : contains_char b'/' t ≡ false
  pub has_no_backslash : contains_char b'\\' t ≡ false

accepted-IsName : (t : Text) → is_refused t ≡ false → IsName t
unfolding is_refused is_empty text_eq lit
accepted-IsName t h = record {
  is_not_empty = λ e. let k = rw e at h in absurd (cc k);
  is_not_current = λ e. let k = rw e at h in absurd (cc k);
  is_not_parent = λ e. let k = rw e at h in absurd (cc k);
  has_no_slash = ground arith;
  has_no_backslash = ground arith;
}

pub sanitize_segment-IsName : (s t : Text) → sanitize_segment s ≡ ok t → IsName t
sanitize_segment-IsName s t h =
    let (segment, _, _) = sanitize_segment-IsSegment s t h in accepted-IsName t segment.accepted

module _ (c : ℕ) where
  contains_char-append :
      (s t : Text)
      → contains_char c s ≡ false
      → contains_char c t ≡ false
      → contains_char c (s ++ t) ≡ false
  unfolding contains_char
  contains_char-append [] t h k = k
  contains_char-append (d ∷ s) t h k = ground (arith, contains_char-append s t)

  contains_char-before :
      (t : Text) → contains_char c t ≡ false → contains_char c (before_last_dot t) ≡ false
  unfolding contains_char before_last_dot
  contains_char-before [] h = refl
  contains_char-before (d ∷ t) h = ground (arith, contains_char-before t)

  contains_char-behind :
      (t : Text) → contains_char c t ≡ false → contains_char c (behind_last_dot t) ≡ false
  unfolding contains_char behind_last_dot
  contains_char-behind [] h = refl
  contains_char-behind (d ∷ t) h = ground (arith, contains_char-behind t)

  contains_char-tmp_name :
      (s : Text)
      → contains_char c (lit ".") ≡ false
      → contains_char c (lit "file") ≡ false
      → contains_char c (lit ".tmp") ≡ false
      → contains_char c s ≡ false
      → contains_char c (tmp_name s) ≡ false
  contains_char-tmp_name s dot file tmp h = elim (Bool-cases (has_later_dot s)) [
    | inl d ↦
        unfold file_stem extension in
        rw d (
          contains_char-append (before_last_dot s) _ (contains_char-before s h) (
            contains_char-append (lit ".") _ dot
              (contains_char-append (behind_last_dot s) _ (contains_char-behind s h) tmp)))
    | inr d ↦
        unfold file_stem extension in
        rw d (
          contains_char-append s _ h
            (contains_char-append (lit ".") _ dot (contains_char-append (lit "file") _ file tmp)))
  ]

long_tmp_name : (s : Text) → 2 < length (tmp_name s)
unfolding lit
long_tmp_name s = omega (arith, length-append {0})

pub tmp_name-IsName : (s : Text) → IsName s → IsName (tmp_name s)
unfolding lit contains_char
tmp_name-IsName s is_name = record {
  is_not_empty = λ e. absurd (omega (arith, long_tmp_name s, ap length e));
  is_not_current = λ e. absurd (omega (arith, long_tmp_name s, ap length e));
  is_not_parent = λ e. absurd (omega (arith, long_tmp_name s, ap length e));
  has_no_slash = contains_char-tmp_name b'/' s refl refl refl is_name.has_no_slash;
  has_no_backslash = contains_char-tmp_name b'\\' s refl refl refl is_name.has_no_backslash;
}
