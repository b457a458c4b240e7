-- ===== src/Config/Numbers.antt =====
-- A number of the configuration is read back from its decimal text.
use sage_wiki_bridge_wxo.Base.{
  ℕ, zero, suc, ◌+◌, ◌/◌, ◌%◌, ◌^◌, ◌<◌, ◌≤◌, ◌≡◌, refl, ap, sym, ◌∙◌, inl, inr, false, some, [],
  ◌∷◌, arith, ltb, ltb-true, ◌==◌, Bool-cases,
}
use sage_wiki_bridge_wxo.Text.{
  Text, is_whitespace, trim, trim_start, trim_end, is_empty, show_nat, read_nat-show_nat,
}
use sage_wiki_bridge_wxo.Text.Number.{show_digits}
use sage_wiki_bridge_wxo.Text.Trim.{drop_while, drop_end_while, keep_end}
use sage_wiki_bridge_wxo.Error.{ok}
use sage_wiki_bridge_wxo.Config.Values.{Lookup, filled, without_plus, parse_uint, get_uint}

-- A digit in front.
record StartsWithDigit (t : Text) : Type 0 where
  digit : ℕ
  rest : Text
  split : t ≡ digit ∷ rest
  low : 48 ≤ digit
  high : digit ≤ 57

show_digits-StartsWithDigit :
    (fuel n : ℕ) (t : Text) → n < fuel → StartsWithDigit (show_digits fuel n t)
unfolding show_digits
show_digits-StartsWithDigit zero n t h = absurd (omega arith)
show_digits-StartsWithDigit (suc fuel) n t h = elim (Bool-cases (ltb n 10)) [
  | inl small ↦ rw small (record {
    digit = 48 + n % 10;
    rest = t;
    split = refl;
    low = omega arith;
    high = omega arith;
  })
  | inr large ↦
      rw large (show_digits-StartsWithDigit fuel (n / 10) ((48 + n % 10) ∷ t) (ground arith))
]

no_whitespace : (c : ℕ) → 48 ≤ c → c ≤ 57 → is_whitespace c ≡ false
unfolding is_whitespace
no_whitespace c low high = ground arith

keep_end-ne-nil :
    (c : ℕ) (r : Text) → is_whitespace c ≡ false → is_empty (keep_end is_whitespace c r) ≡ false
unfolding keep_end is_empty
keep_end-ne-nil c [] h = rw h refl
keep_end-ne-nil c (d ∷ r) h = refl

trim-ne-nil : (c : ℕ) (t : Text) → is_whitespace c ≡ false → is_empty (trim (c ∷ t)) ≡ false
unfolding trim trim_start trim_end drop_while drop_end_while
trim-ne-nil c t h = rw h (keep_end-ne-nil c (drop_end_while is_whitespace t) h)

module _ (n : ℕ) where
  starts : StartsWithDigit (show_nat n)
  unfolding show_nat
  starts = show_digits-StartsWithDigit (suc n) n [] (omega arith)

  filled-show_nat : filled (some (show_nat n)) ≡ some (show_nat n)
  unfolding filled
  filled-show_nat =
      let blank : is_empty (trim (show_nat n)) ≡ false =
        ap (λ t. is_empty (trim t)) starts.split
        ∙ trim-ne-nil starts.digit starts.rest
            (no_whitespace starts.digit starts.low starts.high) in
      rw blank refl

  without_plus-show_nat : without_plus (show_nat n) ≡ show_nat n
  without_plus-show_nat =
      let other : (starts.digit == b'+') ≡ false = let low = starts.low in ground arith in
      let kept : without_plus (starts.digit ∷ starts.rest) ≡ starts.digit ∷ starts.rest =
        unfold without_plus in rw other refl in
      ap without_plus starts.split ∙ kept ∙ sym starts.split

  parse_uint-show_nat : (width : ℕ) → n < 2 ^ width → parse_uint width (show_nat n) ≡ some n
  unfolding parse_uint
  parse_uint-show_nat width h =
      let shown : is_empty (show_nat n) ≡ false =
        ap is_empty starts.split ∙ unfold is_empty in refl in
      rw (without_plus-show_nat, shown, read_nat-show_nat n, ltb-true n (2 ^ width) h) refl

-- The decimal text of a number that fits is read as the number, whatever the default is.
pub get_uint-show_nat :
    (width n default : ℕ) (lookup : Lookup) (key : Text)
    → n < 2 ^ width
    → lookup key ≡ some (show_nat n)
    → get_uint width lookup key default ≡ ok n
unfolding get_uint
get_uint-show_nat width n default lookup key h e =
    let given : filled (lookup key) ≡ some (show_nat n) = ap filled e ∙ filled-show_nat n in
    rw (given, get_uint) (rw (parse_uint-show_nat n width h) refl)
