-- ===== src/Text/Number.antt =====
-- `to_string` of a number, and the reading of its digits.
use sage_wiki_bridge_wxo.Base.{
  ℕ, zero, suc, ◌+◌, ◌-◌, ◌*◌, ◌/◌, ◌%◌, ◌<◌, ◌≡◌, ap, ◌∙◌, ◌&&◌, Option, none, some, [], ◌∷◌,
  arith, ltb, leb, if◌then◌else◌, inl, inr, Bool-cases,
}
use sage_wiki_bridge_wxo.Text.Compare.{Text}

-- The digits of `n` in front of `rest`; each round takes one digit, so `n + 1` rounds suffice.
unfoldable pub show_digits : ℕ → ℕ → Text → Text
show_digits zero n rest = rest
show_digits (suc fuel) n rest =
    let more = show_digits fuel (n / 10) ((48 + n % 10) ∷ rest) in
    if ltb n 10 then (48 + n % 10) ∷ rest else more

unfoldable pub show_nat : ℕ → Text
unfolding show_digits
show_nat n = show_digits (suc n) n []

unfoldable pub read_digits : ℕ → Text → Option ℕ
read_digits acc [] = some acc
read_digits acc (c ∷ t) =
    let rest = read_digits (acc * 10 + (c - 48)) t in if leb 48 c && leb c 57 then rest else none

unfoldable pub read_nat : Text → Option ℕ
unfolding read_digits
read_nat = read_digits 0

read_digit :
    (acc d : ℕ) (t : Text) → d < 10 → read_digits acc ((48 + d) ∷ t) ≡ read_digits (acc * 10 + d) t
unfolding read_digits
read_digit acc d t h = ground arith

-- With enough fuel the digits are read as the number, and reading goes on behind them.
read_digits-show_digits :
    (fuel n : ℕ) (t : Text) → n < fuel → read_digits 0 (show_digits fuel n t) ≡ read_digits n t
unfolding show_digits
read_digits-show_digits zero n t h = absurd (omega arith)
read_digits-show_digits (suc fuel) n t h = elim (Bool-cases (ltb n 10)) [
  | inl small ↦
      let e : 0 * 10 + n % 10 ≡ n = ground arith in
      rw small (read_digit 0 (n % 10) t (omega arith) ∙ ap (λ k. read_digits k t) e)
  | inr large ↦
      let e : n / 10 * 10 + n % 10 ≡ n = omega arith in
      rw large (
        read_digits-show_digits fuel (n / 10) ((48 + n % 10) ∷ t) (ground arith)
        ∙ read_digit (n / 10) (n % 10) t (omega arith)
        ∙ ap (λ k. read_digits k t) e)
]

-- A number is read back from its text, so two numbers with one text are equal.
pub read_nat-show_nat : (n : ℕ) → read_nat (show_nat n) ≡ some n
unfolding read_nat show_nat
read_nat-show_nat n = read_digits-show_digits (suc n) n [] (omega arith)
