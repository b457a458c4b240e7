-- ===== src/Receiver/Cdata.antt =====
-- A sanitized text in a CDATA section is read back as it was.
use sage_wiki_bridge_wxo.Base.{
  ℕ, zero, suc, ◌≡◌, refl, ap, ◌∙◌, sym, Bool, true, false, [], ◌∷◌, ◌++◌, ◌==◌, arith, ◌≤◌, ◌&&◌,
  length, Bool-cases, inl, inr, drop,
}
use sage_wiki_bridge_wxo.Text.{Text, lit, starts_with, starts_with-split}
use sage_wiki_bridge_wxo.Receiver.Reply.{replace_from, sanitize_cdata}

abbrev close : Text
close = lit "]]>"

abbrev reopen : Text
reopen = lit "]]><![CDATA["

-- What an XML reader makes of the inside of a CDATA section, up to its end: adjacent sections are
-- one text. The number is how many characters of the join of two sections are still to come; the
-- rest of the document follows the closing mark.
abbrev cdata_part : Bool → Bool → ℕ → Text × Text → Text × Text → Text → Text × Text
cdata_part true b c joined inner rest = joined
cdata_part false true c joined inner rest = ([], rest)
cdata_part false false c joined inner rest = (c ∷ inner.0, inner.1)

unfoldable pub read_cdata : ℕ → Text → Text × Text
unfolding starts_with
read_cdata n [] = ([], [])
read_cdata (suc n) (c ∷ t) = read_cdata n t
read_cdata zero (c ∷ t) =
    let joined = read_cdata 11 t in
    let inner = read_cdata 0 t in
    cdata_part (starts_with reopen (c ∷ t)) (starts_with close (c ∷ t)) c joined inner (drop 2 t)

and_mono : (b x y : Bool) → (x ≡ true → y ≡ true) → (b && x) ≡ true → (b && y) ≡ true
and_mono true x y k h = k h
and_mono false x y k h = h

not_reopened : (t : Text) → starts_with close t ≡ false → starts_with reopen t ≡ false
unfolding starts_with lit
not_reopened [] h = refl
not_reopened (a ∷ []) h = ground arith
not_reopened (a ∷ b ∷ []) h = ground arith
not_reopened (a ∷ b ∷ c ∷ t) h = ground arith

cons_one : (c : ℕ) (t u : Text) → starts_with (lit ">") (c ∷ t) ≡ starts_with (lit ">") (c ∷ u)
unfolding starts_with lit
cons_one c t u = refl

cons_two :
    (c : ℕ) (t u : Text)
    → (starts_with (lit ">") t ≡ true → starts_with (lit ">") u ≡ true)
    → starts_with (lit "]>") (c ∷ t) ≡ true
    → starts_with (lit "]>") (c ∷ u) ≡ true
unfolding starts_with lit
cons_two c t u k h = and_mono (b']' == c) _ _ k h

cons_three :
    (c : ℕ) (t u : Text)
    → (starts_with (lit "]>") t ≡ true → starts_with (lit "]>") u ≡ true)
    → starts_with close (c ∷ t) ≡ true
    → starts_with close (c ∷ u) ≡ true
unfolding starts_with lit
cons_three c t u k h = and_mono (b']' == c) _ _ k h

no_bracket_one : (t : Text) → starts_with (lit ">") (b']' ∷ t) ≡ false
unfolding starts_with lit
no_bracket_one t = refl

no_bracket_two : (t : Text) → starts_with (lit "]>") (b']' ∷ b']' ∷ t) ≡ false
unfolding starts_with lit
no_bracket_two t = refl

opened :
    (c : ℕ) (v : Text)
    → starts_with close (c ∷ v) ≡ true
    → (w : Text) × (c ∷ v ≡ b']' ∷ b']' ∷ b'>' ∷ w)
unfolding lit
opened c v marked =
    (drop 3 (c ∷ v), sym (starts_with-split (b']' ∷ b']' ∷ b'>' ∷ []) (c ∷ v) marked))

module _ (rest : Text) where
  -- The sanitized text, the closing mark, and the rest.
  abbrev closed : Text → Text
  closed v = sanitize_cdata v ++ (close ++ rest)

  closed-marked :
      (c : ℕ) (v : Text)
      → starts_with close (c ∷ v) ≡ true
      → (t : Text) × (closed (c ∷ v) ≡ b']' ∷ b']' ∷ t)
  unfolding sanitize_cdata lit
  closed-marked c v marked = (
    b']'
        ∷ b']'
        ∷ b'>'
        ∷ (lit "<![CDATA[>" ++ (replace_from close (lit "]]]]><![CDATA[>") 2 v ++ (close ++ rest))),
    rw marked refl,
  )

  closed-free :
      (c : ℕ) (v : Text) → starts_with close (c ∷ v) ≡ false → closed (c ∷ v) ≡ c ∷ closed v
  unfolding sanitize_cdata
  closed-free c v free = rw free refl

  closed-end : (t : Text) × (closed [] ≡ b']' ∷ b']' ∷ t)
  unfolding sanitize_cdata lit
  closed-end = (b'>' ∷ rest, refl)

  begins_one : (v : Text) → starts_with (lit ">") (closed v) ≡ true → starts_with (lit ">") v ≡ true
  begins_one [] h = let (t, e) = closed-end in absurd (cc (no_bracket_one (b']' ∷ t), e, h))
  begins_one (c ∷ v) h = elim (Bool-cases (starts_with close (c ∷ v))) [
    | inl marked ↦
        let (t, e) = closed-marked c v marked in absurd (cc (no_bracket_one (b']' ∷ t), e, h))
    | inr free ↦
        cons_one c v (closed v) ∙ sym (ap (starts_with (lit ">")) (closed-free c v free)) ∙ h
  ]

  begins_two :
      (v : Text) → starts_with (lit "]>") (closed v) ≡ true → starts_with (lit "]>") v ≡ true
  begins_two [] h = let (t, e) = closed-end in absurd (cc (no_bracket_two t, e, h))
  begins_two (c ∷ v) h = elim (Bool-cases (starts_with close (c ∷ v))) [
    | inl marked ↦ let (t, e) = closed-marked c v marked in absurd (cc (no_bracket_two t, e, h))
    | inr free ↦
        cons_two c (closed v) v (begins_one v)
          (sym (ap (starts_with (lit "]>")) (closed-free c v free)) ∙ h)
  ]

  -- Behind a free character the closing mark does not begin.
  stays_free :
      (c : ℕ) (v : Text)
      → starts_with close (c ∷ v) ≡ false
      → starts_with close (c ∷ closed v) ≡ false
  stays_free c v free = elim (Bool-cases (starts_with close (c ∷ closed v))) [
    | inr e ↦ e
    | inl e ↦ let k = cons_three c (closed v) v (begins_two v) e in absurd (cc)
  ]

  read_free :
      (c : ℕ) (t : Text)
      → starts_with close (c ∷ t) ≡ false
      → read_cdata 0 (c ∷ t) ≡ (c ∷ (read_cdata 0 t).0, (read_cdata 0 t).1)
  unfolding read_cdata
  read_free c t h = rw (not_reopened (c ∷ t) h, h) refl

  read_marked :
      (w : Text)
      → read_cdata 0 (closed w) ≡ (w, rest)
      → read_cdata 0 (closed (b']' ∷ b']' ∷ b'>' ∷ w)) ≡ (b']' ∷ b']' ∷ b'>' ∷ w, rest)
  unfolding read_cdata sanitize_cdata replace_from starts_with lit
  read_marked w h = ap (λ r. (b']' ∷ b']' ∷ b'>' ∷ r.0, r.1)) h

  read_end : starts_with (lit "<![CDATA[") rest ≡ false → read_cdata 0 (closed []) ≡ ([], rest)
  unfolding read_cdata sanitize_cdata replace_from starts_with lit
  read_end h = rw h refl

  read_closed :
      (n : ℕ) (v : Text)
      → length v ≤ n
      → starts_with (lit "<![CDATA[") rest ≡ false
      → read_cdata 0 (closed v) ≡ (v, rest)
  read_closed n [] bound h = read_end h
  read_closed zero (c ∷ v) bound h = absurd (ground arith)
  read_closed (suc n) (c ∷ v) bound h = elim (Bool-cases (starts_with close (c ∷ v))) [
    | inr free ↦
        ap (read_cdata 0) (closed-free c v free)
        ∙ read_free c (closed v) (stays_free c v free)
        ∙ ap (λ r. (c ∷ r.0, r.1)) (read_closed n v (ground arith) h)
    | inl marked ↦
        let (w, e) = opened c v marked in
        let short : length w ≤ n = let size = ap length e in ground arith in
        ap (λ u. read_cdata 0 (closed u)) e
        ∙ read_marked w (read_closed n w short h)
        ∙ ap (λ u. (u, rest)) (sym e)
  ]

-- A sanitized text in a CDATA section is read as the text itself, and the document goes on behind
-- the section's end, if no other section follows there at once.
pub read_cdata-sanitize_cdata :
    (v rest : Text)
    → starts_with (lit "<![CDATA[") rest ≡ false
    → read_cdata 0 (sanitize_cdata v ++ (lit "]]>" ++ rest)) ≡ (v, rest)
read_cdata-sanitize_cdata v rest h = read_closed rest (length v) v (ground arith) h
