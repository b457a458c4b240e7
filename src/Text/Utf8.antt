-- ===== src/Text/Utf8.antt =====
-- The UTF-8 bytes of a text (`as_bytes`, `len`) and their validation (`String::from_utf8`).
use mathlib.Core.Option
use sage_wiki_bridge_wxo.Base.{
  ℕ, zero, suc, ◌+◌, ◌-◌, ◌*◌, ◌/◌, ◌%◌, ◌<◌, ◌≡◌, refl, ◌∙◌, Bool, true, ◌&&◌, ◌||◌, List, [], ◌∷◌,
  ◌++◌, Option, none, some, arith, ltb, leb, if◌then◌else◌, inl, inr, Bool-cases, ltb-true,
  ltb-false, leb-true, all_of,
}
use sage_wiki_bridge_wxo.Text.Compare.{Text}

-- A Unicode scalar value: a code point that is no surrogate.
unfoldable pub is_scalar : ℕ → Bool
is_scalar c = ltb c 0xd800 || (leb 0xe000 c && ltb c 0x110000)

abbrev pub IsText : Text → Type 0
IsText t = all_of is_scalar t ≡ true

unfoldable pub utf8_char : ℕ → List ℕ
utf8_char c =
    if ltb c 0x80
    then c ∷ []
    else if ltb c 0x800
    then (0xc0 + c / 64) ∷ (0x80 + c % 64) ∷ []
    else if ltb c 0x10000
    then (0xe0 + c / 4096) ∷ (0x80 + c / 64 % 64) ∷ (0x80 + c % 64) ∷ []
    else (0xf0 + c / 262144) ∷ (0x80 + c / 4096 % 64) ∷ (0x80 + c / 64 % 64) ∷ (0x80 + c % 64) ∷ []

-- `text.as_bytes()`
unfoldable pub utf8 : Text → List ℕ
unfolding utf8_char
utf8 [] = []
utf8 (c ∷ t) = utf8_char c ++ utf8 t

-- A finished value: the shortest encoding of a scalar value.
unfoldable pub is_shortest : ℕ → ℕ → Bool
unfolding is_scalar
is_shortest low v = leb low v && is_scalar v

-- The bytes of one text: how many continuation bytes are still due, the value so far, and the
-- least value that an encoding of this length may have.
unfoldable pub decode : ℕ → ℕ → ℕ → List ℕ → Option Text
unfolding is_shortest
decode zero acc low [] = some []
decode (suc due) acc low [] = none
decode zero acc low (b ∷ t) =
    let one = Option.map (λ r. b ∷ r) (decode 0 0 0 t) in
    let two = decode 1 (b - 0xc0) 0x80 t in
    let three = decode 2 (b - 0xe0) 0x800 t in
    let four = decode 3 (b - 0xf0) 0x10000 t in
    if ltb b 0x80
    then one
    else if ltb b 0xc0
    then none
    else if ltb b 0xe0
    then two
    else if ltb b 0xf0
    then three
    else if ltb b 0xf8
    then four
    else none
decode (suc zero) acc low (b ∷ t) =
    let v = acc * 64 + (b - 0x80) in
    let rest = Option.map (λ r. v ∷ r) (decode 0 0 0 t) in
    if (leb 0x80 b && ltb b 0xc0) && is_shortest low v then rest else none
decode (suc (suc due)) acc low (b ∷ t) =
    let rest = decode (suc due) (acc * 64 + (b - 0x80)) low t in
    if leb 0x80 b && ltb b 0xc0 then rest else none

-- `String::from_utf8`
unfoldable pub from_utf8 : List ℕ → Option Text
unfolding decode
from_utf8 = decode 0 0 0

-- The number that a byte stands for, behind its mark.
unmark : (k d : ℕ) → k + d - k ≡ d
unmark k d = omega arith

module _ (d : ℕ) (t : List ℕ) where
  decode-lead_two : d < 32 → decode 0 0 0 ((0xc0 + d) ∷ t) ≡ decode 1 d 0x80 t
  unfolding decode
  decode-lead_two h = rw (
    ltb-false (0xc0 + d) 0x80 (omega arith),
    ltb-false (0xc0 + d) 0xc0 (omega arith),
    ltb-true (0xc0 + d) 0xe0 (omega arith),
    unmark 0xc0 d,
  )

  decode-lead_three : d < 16 → decode 0 0 0 ((0xe0 + d) ∷ t) ≡ decode 2 d 0x800 t
  unfolding decode
  decode-lead_three h = rw (
    ltb-false (0xe0 + d) 0x80 (omega arith),
    ltb-false (0xe0 + d) 0xc0 (omega arith),
    ltb-false (0xe0 + d) 0xe0 (omega arith),
    ltb-true (0xe0 + d) 0xf0 (omega arith),
    unmark 0xe0 d,
  )

  decode-lead_four : d < 8 → decode 0 0 0 ((0xf0 + d) ∷ t) ≡ decode 3 d 0x10000 t
  unfolding decode
  decode-lead_four h = rw (
    ltb-false (0xf0 + d) 0x80 (omega arith),
    ltb-false (0xf0 + d) 0xc0 (omega arith),
    ltb-false (0xf0 + d) 0xe0 (omega arith),
    ltb-false (0xf0 + d) 0xf0 (omega arith),
    ltb-true (0xf0 + d) 0xf8 (omega arith),
    unmark 0xf0 d,
  )

  decode-continue :
      (due acc low : ℕ)
      → d < 64
      → decode (suc (suc due)) acc low ((0x80 + d) ∷ t) ≡ decode (suc due) (acc * 64 + d) low t
  unfolding decode
  decode-continue due acc low h = ground arith

  decode-last :
      (acc low c : ℕ)
      → d < 64
      → acc * 64 + d ≡ c
      → is_shortest low c ≡ true
      → decode 1 acc low ((0x80 + d) ∷ t) ≡ Option.map (λ r. c ∷ r) (decode 0 0 0 t)
  unfolding decode
  decode-last acc low c h e k = rw (
    leb-true 0x80 (0x80 + d) (omega arith),
    ltb-true (0x80 + d) 0xc0 (omega arith),
    unmark 0x80 d,
    e,
    k,
  )

module _ (c : ℕ) (t : List ℕ) where
  decode-one : c < 0x80 → decode 0 0 0 (c ∷ t) ≡ Option.map (λ r. c ∷ r) (decode 0 0 0 t)
  unfolding decode
  decode-one h = ground arith

  decode-two :
      c < 0x800
      → is_shortest 0x80 c ≡ true
      → decode 0 0 0 ((0xc0 + c / 64) ∷ (0x80 + c % 64) ∷ t)
        ≡ Option.map (λ r. c ∷ r) (decode 0 0 0 t)
  decode-two h k =
      decode-lead_two (c / 64) _ (omega arith)
      ∙ decode-last (c % 64) t (c / 64) 0x80 c (omega arith) (omega arith) k

  decode-three :
      c < 0x10000
      → is_shortest 0x800 c ≡ true
      → decode 0 0 0 ((0xe0 + c / 4096) ∷ (0x80 + c / 64 % 64) ∷ (0x80 + c % 64) ∷ t)
        ≡ Option.map (λ r. c ∷ r) (decode 0 0 0 t)
  decode-three h k =
      decode-lead_three (c / 4096) _ (omega arith)
      ∙ decode-continue (c / 64 % 64) _ 0 (c / 4096) 0x800 (omega arith)
      ∙ decode-last (c % 64) t (c / 4096 * 64 + c / 64 % 64) 0x800 c (omega arith) (omega arith) k

  decode-four :
      c < 0x200000
      → is_shortest 0x10000 c ≡ true
      → decode 0 0 0 (
          (0xf0 + c / 262144) ∷ (0x80 + c / 4096 % 64) ∷ (0x80 + c / 64 % 64) ∷ (0x80 + c % 64) ∷ t)
        ≡ Option.map (λ r. c ∷ r) (decode 0 0 0 t)
  decode-four h k =
      decode-lead_four (c / 262144) _ (omega arith)
      ∙ decode-continue (c / 4096 % 64) _ 1 (c / 262144) 0x10000 (omega arith)
      ∙ decode-continue (c / 64 % 64) _ 0 (c / 262144 * 64 + c / 4096 % 64) 0x10000 (omega arith)
      ∙ decode-last (c % 64) t ((c / 262144 * 64 + c / 4096 % 64) * 64 + c / 64 % 64) 0x10000 c
          (omega arith) (omega arith) k

decode-utf8_char :
    (c : ℕ) (r : List ℕ)
    → is_scalar c ≡ true
    → decode 0 0 0 (utf8_char c ++ r) ≡ Option.map (λ t. c ∷ t) (decode 0 0 0 r)
unfolding utf8_char is_shortest
decode-utf8_char c r h = elim (Bool-cases (ltb c 0x80)) [
  | inl a ↦ rw a (decode-one c r (ground arith))
  | inr a ↦ elim (Bool-cases (ltb c 0x800)) [
    | inl b ↦ rw (a, b) (decode-two c r (ground arith) (ground arith))
    | inr b ↦ elim (Bool-cases (ltb c 0x10000)) [
      | inl d ↦ rw (a, b, d) (decode-three c r (ground arith) (ground arith))
      | inr d ↦ rw (a, b, d) (decode-four c r (ground arith) (ground arith))
    ]
  ]
]

-- Validation gives back the text that was encoded.
pub from_utf8-utf8 : (t : Text) → IsText t → from_utf8 (utf8 t) ≡ some t
unfolding from_utf8 utf8
from_utf8-utf8 [] h = refl
from_utf8-utf8 (c ∷ t) h =
    rw (decode-utf8_char c (utf8 t) (ground arith)) (rw (from_utf8-utf8 t (ground arith)))
