-- ===== src/Source/Escape.antt =====
-- The quoted values of the documents are read back.
use sage_wiki_bridge_wxo.Base.{
  ℕ, ◌≡◌, refl, ap, sym, ◌∙◌, inl, inr, Bool, true, false, Option, none, some, [], ◌∷◌, ◌++◌, arith,
  ◌==◌, ==_iff, if◌then◌else◌, Bool-cases,
}
use mathlib.Core.Option
use mathlib.Core.List.{append_assoc}
use sage_wiki_bridge_wxo.Text.{Text}
use sage_wiki_bridge_wxo.Source.Render.{replace_char, escape}

-- The character in front of what is read of the rest.
abbrev onto : ℕ → Option (Text × Text) → Option (Text × Text)
onto c = Option.map (λ r. (c ∷ r.0, r.1))

-- A value in quotes is read up to the first quote without a backslash in front: the value, and what
-- stands behind the quote. The test says whether a backslash stood in front.
pub read_quoted : Bool → Text → Option (Text × Text)
read_quoted after_backslash [] = none
read_quoted true (c ∷ t) = onto c (read_quoted false t)
read_quoted false (c ∷ t) =
    let shielded = read_quoted true t in
    let plain = onto c (read_quoted false t) in
    if c == b'"' then some ([], t) else if c == b'\\' then shielded else plain

-- One character, escaped.
abbrev shield : ℕ → Text
shield c =
    if c == b'\\' then b'\\' ∷ b'\\' ∷ [] else if c == b'"' then b'\\' ∷ b'"' ∷ [] else c ∷ []

escape-cons : (c : ℕ) (t : Text) → escape (c ∷ t) ≡ shield c ++ escape t
unfolding escape replace_char
escape-cons c t = ground arith

read_quoted-shield :
    (c : ℕ) (t : Text) → read_quoted false (shield c ++ t) ≡ onto c (read_quoted false t)
unfolding read_quoted
read_quoted-shield c t = elim (Bool-cases (c == b'\\')) [
  | inl backslash ↦
      rw (backslash, read_quoted)
        (ap (λ d. onto d (read_quoted false t)) (sym ((==_iff c b'\\').0 backslash)))
  | inr other ↦ elim (Bool-cases (c == b'"')) [
    | inl quote ↦
        rw (other, quote, read_quoted)
          (ap (λ d. onto d (read_quoted false t)) (sym ((==_iff c b'"').0 quote)))
    | inr plain ↦ rw (other, plain, read_quoted) (rw (plain, other) refl)
  ]
]

-- A value that is written in quotes is read as the value itself, and the line goes on behind it.
pub read_quoted-escape :
    (value rest : Text) → read_quoted false (escape value ++ b'"' ∷ rest) ≡ some (value, rest)
unfolding read_quoted
read_quoted-escape [] rest = unfold escape replace_char in refl
read_quoted-escape (c ∷ value) rest =
    rw (escape-cons c value, append_assoc (shield c) (escape value) (b'"' ∷ rest))
      (read_quoted-shield c _ ∙ ap (onto c) (read_quoted-escape value rest))
