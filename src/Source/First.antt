-- ===== src/Source/First.antt =====
-- The first place at which a text stands in another one.
use native.Mathlib.Nat.{zero-add, suc-add}
use sage_wiki_bridge_wxo.Base.{
  ℕ, zero, suc, arith, ◌+◌, ◌≤◌, ◌≡◌, ◌≢◌, refl, ap, ◌∙◌, sym, true, none, some, [], ◌∷◌, ◌++◌,
  length, take, drop, drop-add,
}
use sage_wiki_bridge_wxo.Text.{
  Text, starts_with, starts_with-append, starts_with-split, find?, find?-split,
}

-- The needle stands in the text, behind `before` and in front of `rest`, and nowhere before.
pub record IsFirst (needle text before rest : Text) : Type 0 where
  pub is_text : text ≡ before ++ (needle ++ rest)
  pub is_first : (b a : Text) → text ≡ b ++ (needle ++ a) → length before ≤ length b

abbrev pub Lacks : Text → Text → Type 0
Lacks needle text = (before rest : Text) → text ≢ before ++ (needle ++ rest)

starts_with-at : (n t a : Text) → t ≡ n ++ a → starts_with n t ≡ true
starts_with-at n t a e = ap (starts_with n) e ∙ starts_with-append n a

pub find?-Lacks : (n t : Text) → find? n t ≡ none → Lacks n t
unfolding find?
find?-Lacks n [] h [] a e = let k = starts_with-at n [] a e in absurd (ground arith)
find?-Lacks n [] h (x ∷ b) a e = cc
find?-Lacks n (c ∷ t) h [] a e = let k = starts_with-at n (c ∷ t) a e in absurd (ground arith)
find?-Lacks n (c ∷ t) h (x ∷ b) a e = find?-Lacks n t (ground arith) b a (cc e)

starts_with-bound : (n t : Text) → starts_with n t ≡ true → length n ≤ length t
unfolding starts_with
starts_with-bound [] t h = omega arith
starts_with-bound (c ∷ n) [] h = cc
starts_with-bound (c ∷ n) (d ∷ t) h = ground (arith, starts_with-bound n t)

pub drop-append : (i : ℕ) (t rest : Text) → i ≤ length t → drop i (t ++ rest) ≡ drop i t ++ rest
drop-append zero t rest h = refl
drop-append (suc i) [] rest h = absurd (omega arith)
drop-append (suc i) (c ∷ t) rest h = drop-append i t rest (omega arith)

pub take-append : (i : ℕ) (t rest : Text) → i ≤ length t → take i (t ++ rest) ≡ take i t
take-append zero t rest h = refl
take-append (suc i) [] rest h = absurd (omega arith)
take-append (suc i) (c ∷ t) rest h = ap (λ u. c ∷ u) (take-append i t rest (omega arith))

pub take-add : (i k : ℕ) (t : Text) → take (i + k) t ≡ take i t ++ take k (drop i t)
take-add zero k t = rw zero-add
take-add (suc i) zero [] = rw suc-add refl
take-add (suc i) (suc k) [] = rw suc-add refl
take-add (suc i) k (c ∷ t) = rw suc-add (ap (λ u. c ∷ u) (take-add i k t))

find?-least :
    (n t : Text) (i : ℕ) → find? n t ≡ some i → (b a : Text) → t ≡ b ++ (n ++ a) → i ≤ length b
unfolding find?
find?-least n t zero h b a e = omega arith
find?-least n [] (suc i) h b a e = absurd (ground arith)
find?-least n (c ∷ t) (suc i) h [] a e =
    let k = starts_with-at n (c ∷ t) a e in absurd (ground arith)
find?-least n (c ∷ t) (suc i) h (x ∷ b) a e =
    let k = find?-least n t i (ground arith) b a (cc e) in omega (arith, k)

length-take : (i : ℕ) (t : Text) → length (take i t) ≤ i
length-take zero t = omega arith
length-take (suc i) [] = omega arith
length-take (suc i) (c ∷ t) = let k = length-take i t in omega (arith, k)

pub find?-starts : (n t : Text) (i : ℕ) → find? n t ≡ some i → starts_with n (drop i t) ≡ true
unfolding find?
find?-starts n [] zero h = ground arith
find?-starts n [] (suc i) h = absurd (ground arith)
find?-starts n (c ∷ t) zero h = ground arith
find?-starts n (c ∷ t) (suc i) h = find?-starts n t i (ground arith)

pub find?-bound : (n t : Text) (i : ℕ) → find? n t ≡ some i → i ≤ length t
unfolding find?
find?-bound n [] zero h = omega arith
find?-bound n [] (suc i) h = absurd (ground arith)
find?-bound n (c ∷ t) zero h = omega arith
find?-bound n (c ∷ t) (suc i) h = let k = find?-bound n t i (ground arith) in omega (arith, k)

-- The text behind the needle.
abbrev pub behind : Text → Text → ℕ → Text
behind n t i = drop (length n) (drop i t)

module _ (n t : Text) (i : ℕ) (found : find? n t ≡ some i) where
  pub find?-IsFirst : IsFirst n t (take i t) (behind n t i)
  find?-IsFirst = record {
    is_text = sym (find?-split n t i found);
    is_first = λ b a e.
        let k = find?-least n t i found b a e in let l = length-take i t in omega (arith, k, l);
  }

  pub find?-drop : drop i t ≡ n ++ behind n t i
  find?-drop = sym (starts_with-split n (drop i t) (find?-starts n t i found))

  -- The place behind the needle, where the text goes on.
  pub find?-behind : (rest : Text) → drop (i + length n) (t ++ rest) ≡ behind n t i ++ rest
  find?-behind rest =
      let fits = starts_with-bound n (drop i t) (find?-starts n t i found) in
      drop-add i (length n) (t ++ rest)
      ∙ ap (drop (length n)) (drop-append i t rest (find?-bound n t i found))
      ∙ drop-append (length n) (drop i t) rest fits
