-- ===== src/Wechat/Signature/Order.antt =====
-- The signature does not depend on the order in which its parts are given.
use sage_wiki_bridge_wxo.Base.{◌≡◌, refl, ap, ◌∙◌, List, [], ◌∷◌, arith}
use mathlib.Core.List.{Permᴰ}
use sage_wiki_bridge_wxo.Text.{Text, text_le_trans, text_le-total, text_le-antisym}
use sage_wiki_bridge_wxo.Wechat.Primitives.{Primitives}
use sage_wiki_bridge_wxo.Wechat.Signature.{
  insert_sorted, sort_parts, hashed_bytes, calculate_signature, calculate_encrypted_signature,
}

insert_sorted_comm :
    (a b : Text) (l : List Text)
    → insert_sorted a (insert_sorted b l) ≡ insert_sorted b (insert_sorted a l)
unfolding insert_sorted
insert_sorted_comm a b [] = ground (arith, text_le-total a b, text_le-antisym a b)
insert_sorted_comm a b (c ∷ l) = ground (
  arith,
  insert_sorted_comm a b l,
  text_le-total a b,
  text_le-total a c,
  text_le-total b c,
  text_le-antisym a b,
  text_le_trans a b c,
  text_le_trans b a c,
  text_le_trans a c b,
  text_le_trans b c a,
)

sort_parts-perm : {l m : List Text} → Permᴰ l m → sort_parts l ≡ sort_parts m
unfolding sort_parts
sort_parts-perm Permᴰ.nil = refl
sort_parts-perm (Permᴰ.cons {a} {b} e h) = cc (sort_parts-perm h)
sort_parts-perm (Permᴰ.swap {a} {b} {a'} {b'} {l} e f) = cc (insert_sorted_comm a b (sort_parts l))
sort_parts-perm (Permᴰ.trans h k) = sort_parts-perm h ∙ sort_parts-perm k

-- The four parts of an encrypted callback's signature may come in any order.
pub calculate_encrypted_signature-perm :
    (p : Primitives) (a b c d a' b' c' d' : Text)
    → Permᴰ (a ∷ b ∷ c ∷ d ∷ []) (a' ∷ b' ∷ c' ∷ d' ∷ [])
    → calculate_encrypted_signature p a b c d ≡ calculate_encrypted_signature p a' b' c' d'
unfolding calculate_encrypted_signature
calculate_encrypted_signature-perm p a b c d a' b' c' d' h =
    ap (λ l. p.sha1_hex (hashed_bytes l)) (sort_parts-perm h)

-- The three parts of a plain callback's signature may come in any order.
pub calculate_signature-perm :
    (p : Primitives) (a b c a' b' c' : Text)
    → Permᴰ (a ∷ b ∷ c ∷ []) (a' ∷ b' ∷ c' ∷ [])
    → calculate_signature p a b c ≡ calculate_signature p a' b' c'
unfolding calculate_signature
calculate_signature-perm p a b c a' b' c' h =
    ap (λ l. p.sha1_hex (hashed_bytes l)) (sort_parts-perm h)
