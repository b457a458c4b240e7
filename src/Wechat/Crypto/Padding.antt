-- ===== src/Wechat/Crypto/Padding.antt =====
-- The padding: whole blocks, and removal undoes it and accepts nothing else.
use sage_wiki_bridge_wxo.Base.{
  ℕ, zero, suc, ◌+◌, ◌-◌, ◌%◌, ◌≤◌, ◌≡◌, refl, Bool, false, not, some, List, [], ◌∷◌, ◌++◌, ◌==◌,
  arith, length, take, drop, replicate, any_of, length-append, length-replicate, take-length-append,
  drop-length-append, take-append-drop, length-drop, leb-true,
}
use sage_wiki_bridge_wxo.Error.{ok, ok_or, >>=-eq-ok}
use sage_wiki_bridge_wxo.Wechat.Crypto.{
  last?, strip_padding, add_wechat_pkcs7_padding, remove_wechat_pkcs7_padding,
}

last?-append : (xs : List ℕ) (k x : ℕ) → last? (xs ++ replicate (suc k) x) ≡ some x
unfolding last?
last?-append [] zero x = refl
last?-append [] (suc k) x = last?-append [] k x
last?-append (a ∷ []) k x = last?-append [] k x
last?-append (a ∷ b ∷ xs) k x = last?-append (b ∷ xs) k x

any_of-replicate : (p : ℕ → Bool) (k x : ℕ) → p x ≡ false → any_of p (replicate k x) ≡ false
any_of-replicate p zero x h = refl
any_of-replicate p (suc k) x h = ground (arith, any_of-replicate p k x)

add-sub_self : (a n : ℕ) → a + n - n ≡ a
add-sub_self a n = omega arith

same_byte : (x : ℕ) → not (x == x) ≡ false
same_byte x = ground arith

strip_padded :
    (xs : List ℕ) (n : ℕ) → 1 ≤ n → n ≤ 32 → strip_padding (xs ++ replicate n n) n ≡ ok xs
unfolding strip_padding
strip_padded xs n h k = rw (
  length-append xs (replicate n n),
  length-replicate n n,
  leb-true 1 n h,
  leb-true n 32 k,
  leb-true n (length xs + n) (omega arith),
  add-sub_self (length xs) n,
  drop-length-append xs (replicate n n),
  take-length-append xs (replicate n n),
  any_of-replicate (λ byte. not (byte == n)) n n (same_byte n),
)

-- Padding that is right is taken off.
remove_padded :
    (xs : List ℕ) (n : ℕ)
    → 1 ≤ n
    → n ≤ 32
    → remove_wechat_pkcs7_padding (xs ++ replicate n n) ≡ ok xs
unfolding remove_wechat_pkcs7_padding
remove_padded xs zero h k = absurd (omega arith)
remove_padded xs (suc n) h k = rw (last?-append xs n (suc n)) (strip_padded xs (suc n) h k)

-- The padded text fills whole blocks.
pub length-add_wechat_pkcs7_padding : (xs : List ℕ) → length (add_wechat_pkcs7_padding xs) % 32 ≡ 0
unfolding add_wechat_pkcs7_padding
length-add_wechat_pkcs7_padding xs =
    let n = 32 - length xs % 32 in
    omega (arith, length-append xs (replicate n (n % 256)), length-replicate n (n % 256))

-- What is padded is restored.
pub remove-add_wechat_pkcs7_padding :
    (xs : List ℕ) → remove_wechat_pkcs7_padding (add_wechat_pkcs7_padding xs) ≡ ok xs
unfolding add_wechat_pkcs7_padding
remove-add_wechat_pkcs7_padding xs =
    let n = 32 - length xs % 32 in
    let e : n % 256 ≡ n = omega arith in rw e (remove_padded xs n (omega arith) (omega arith))

same_bytes :
    (n : ℕ) (l : List ℕ) → any_of (λ byte. not (byte == n)) l ≡ false → l ≡ replicate (length l) n
same_bytes n [] h = refl
same_bytes n (x ∷ l) h = ground (arith, same_bytes n l)

strip_padding-facts :
    (d xs : List ℕ) (n : ℕ)
    → strip_padding d n ≡ ok xs
    → (1 ≤ n)
      × (n ≤ 32)
      × (n ≤ length d)
      × (any_of (λ byte. not (byte == n)) (drop (length d - n) d) ≡ false)
      × (take (length d - n) d ≡ xs)
unfolding strip_padding
strip_padding-facts d xs n h = ground arith

-- Only bytes that end with k bytes k, with k between 1 and 32, are accepted.
pub remove_wechat_pkcs7_padding_sound :
    (d xs : List ℕ)
    → remove_wechat_pkcs7_padding d ≡ ok xs
    → (k : ℕ) × (1 ≤ k) × (k ≤ 32) × (d ≡ xs ++ replicate k k)
unfolding remove_wechat_pkcs7_padding
remove_wechat_pkcs7_padding_sound d xs h =
    let (n, last, stripped) = >>=-eq-ok (ok_or (last? d) _) (strip_padding d) h in
    let (lo, hi, fits, same, kept) = strip_padding-facts d xs n stripped in
    let start = length d - n in
    let whole = take-append-drop start d in
    let filled = same_bytes n (drop start d) same in
    let e : length (drop start d) ≡ n = omega (arith, length-drop start d) in
    (n, lo, hi, cc (whole, filled, e, kept))
