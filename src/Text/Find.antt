-- ===== src/Text/Find.antt =====
-- `starts_with`, `find` with a text, and `contains` with a character. Positions count characters
-- here and bytes in Rust; the bridge uses a position only to cut the text where it was found.
use sage_wiki_bridge_wxo.Base.{
  ℕ, zero, suc, ◌≡◌, refl, ap, Bool, true, false, ◌&&◌, ◌||◌, [], ◌∷◌, ◌++◌, Option, none, some,
  arith, ◌==◌, if◌then◌else◌, take, drop, length,
}
use sage_wiki_bridge_wxo.Text.Compare.{Text, text_eq}
use mathlib.Core.Option

-- `t.starts_with(needle)`
unfoldable pub starts_with : Text → Text → Bool
starts_with [] t = true
starts_with (n ∷ ns) [] = false
starts_with (n ∷ ns) (c ∷ t) = n == c && starts_with ns t

-- `t.find(needle)`: the first position at which the needle stands.
unfoldable pub find? : Text → Text → Option ℕ
unfolding starts_with
find? needle [] = if starts_with needle [] then some 0 else none
find? needle (c ∷ t) =
    let rest = find? needle t in if starts_with needle (c ∷ t) then some 0 else Option.map suc rest

-- `t.contains(char)`
unfoldable pub contains_char : ℕ → Text → Bool
contains_char c [] = false
contains_char c (d ∷ t) = c == d || contains_char c t

-- `t.ends_with(suffix)`
unfoldable pub ends_with : Text → Text → Bool
ends_with suffix [] = text_eq suffix []
ends_with suffix (c ∷ t) = text_eq suffix (c ∷ t) || ends_with suffix t

pub starts_with-append : (n t : Text) → starts_with n (n ++ t) ≡ true
unfolding starts_with
starts_with-append [] t = refl
starts_with-append (c ∷ n) t = ground (arith, starts_with-append n t)

pub starts_with-split : (n t : Text) → starts_with n t ≡ true → n ++ drop (length n) t ≡ t
unfolding starts_with
starts_with-split [] t h = refl
starts_with-split (c ∷ n) [] h = cc
starts_with-split (c ∷ n) (d ∷ t) h = ground (arith, starts_with-split n t)

-- Where the needle is found, the text is what stands before, the needle, and what stands after.
pub find?-split :
    (n t : Text) (i : ℕ) → find? n t ≡ some i → take i t ++ (n ++ drop (length n) (drop i t)) ≡ t
unfolding find?
find?-split n [] zero h = starts_with-split n [] (ground arith)
find?-split n [] (suc i) h = absurd (ground arith)
find?-split n (c ∷ t) zero h = starts_with-split n (c ∷ t) (ground arith)
find?-split n (c ∷ t) (suc i) h = ap (λ u. c ∷ u) (find?-split n t i (ground arith))

-- The last character, or the one in front.
unfoldable pub last_of : ℕ → Text → ℕ
last_of d [] = d
last_of d (c ∷ t) = last_of c t

pub last_of-append : (d c : ℕ) (s t : Text) → last_of d (s ++ c ∷ t) ≡ last_of c t
unfolding last_of
last_of-append d c [] t = refl
last_of-append d c (e ∷ s) t = last_of-append e c s t
