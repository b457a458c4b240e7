-- ===== src/Wechat/Crypto/Frame.antt =====
-- The frame around the XML: splitting undoes framing.
use sage_wiki_bridge_wxo.Base.{
  ℕ, ◌+◌, ◌%◌, ◌≤◌, ◌<◌, ◌^◌, ◌≡◌, refl, ap, ◌∙◌, some, List, ◌++◌, arith, length, take, drop,
  length-append, take-length-append, drop-length-append, leb-true, drop-add,
}
use sage_wiki_bridge_wxo.Text.{Text, lit}
use sage_wiki_bridge_wxo.Text.Utf8.{IsText, utf8, from_utf8, from_utf8-utf8}
use sage_wiki_bridge_wxo.Error.{ok}
use sage_wiki_bridge_wxo.Wechat.Crypto.{
  to_be_bytes, from_be_bytes, frame_plaintext, split_plaintext,
}

from_be_bytes-to_be_bytes : (n : ℕ) → n < 2 ^ 32 → from_be_bytes (to_be_bytes n) ≡ some n
unfolding from_be_bytes to_be_bytes
from_be_bytes-to_be_bytes n h = ap some (omega arith)

-- The header has 20 bytes, the last four of which are the length.
module _ (n : ℕ) (body : List ℕ) where
  header : List ℕ
  header = utf8 (lit "0123456789abcdef") ++ (to_be_bytes n ++ body)

  take-header : take 4 (drop 16 header) ≡ to_be_bytes n
  unfolding header utf8 lit to_be_bytes
  take-header = refl

  drop-header : (k : ℕ) → drop (20 + k) header ≡ drop k body
  drop-header k = drop-add 20 k header ∙ unfold header utf8 lit to_be_bytes in refl

  length-header : length header ≡ 20 + length body
  unfolding header utf8 lit to_be_bytes
  length-header = omega arith

  split_plaintext-header :
      (xml app_id : Text)
      → n < 2 ^ 32
      → n ≤ length body
      → from_utf8 (take n body) ≡ some xml
      → from_utf8 (drop n body) ≡ some app_id
      → split_plaintext header ≡ ok (xml, app_id)
  unfolding split_plaintext
  split_plaintext-header xml app_id small fits x a = rw (
    length-header,
    leb-true 20 (20 + length body) (omega arith),
    take-header,
    from_be_bytes-to_be_bytes n small,
    leb-true (20 + n) (20 + length body) (omega arith),
    drop-header 0,
    x,
    drop-header n,
    a,
  )

-- What is framed is split into the same XML and id, for an XML below 4 GiB.
pub split_plaintext-frame_plaintext :
    (xml app_id : Text)
    → IsText xml
    → IsText app_id
    → length (utf8 xml) < 2 ^ 32
    → split_plaintext (frame_plaintext xml app_id) ≡ ok (xml, app_id)
unfolding frame_plaintext header
split_plaintext-frame_plaintext xml app_id hx ha small =
    let n = length (utf8 xml) in
    let e : n % 2 ^ 32 ≡ n = omega arith in
    let body = utf8 xml ++ utf8 app_id in
    rw e (
      split_plaintext-header n body xml app_id small
        (omega (arith, length-append (utf8 xml) (utf8 app_id)))
        (rw (take-length-append (utf8 xml) (utf8 app_id)) (from_utf8-utf8 xml hx))
        (rw (drop-length-append (utf8 xml) (utf8 app_id)) (from_utf8-utf8 app_id ha)))
