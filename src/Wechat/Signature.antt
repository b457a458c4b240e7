-- ===== src/Wechat/Signature.antt =====
-- src/wechat/signature.rs
pub mod Order
use sage_wiki_bridge_wxo.Base.{ℕ, Bool, List, [], ◌∷◌, ◌++◌, if◌then◌else◌}
use sage_wiki_bridge_wxo.Text.{Text, text_le}
use sage_wiki_bridge_wxo.Text.Utf8.{utf8}
use sage_wiki_bridge_wxo.Wechat.Primitives.{Primitives}

unfoldable pub insert_sorted : Text → List Text → List Text
insert_sorted a [] = a ∷ []
insert_sorted a (b ∷ l) = if text_le a b then a ∷ b ∷ l else b ∷ insert_sorted a l

-- `parts.sort_unstable()`: equal texts cannot be told apart, so any sort gives this list.
unfoldable pub sort_parts : List Text → List Text
unfolding insert_sorted
sort_parts [] = []
sort_parts (a ∷ l) = insert_sorted a (sort_parts l)

-- What the hasher is fed, part by part.
unfoldable pub hashed_bytes : List Text → List ℕ
hashed_bytes [] = []
hashed_bytes (a ∷ l) = utf8 a ++ hashed_bytes l

module _ (p : Primitives) where
  unfoldable pub calculate_signature : Text → Text → Text → Text
  unfolding sort_parts hashed_bytes
  calculate_signature token timestamp nonce =
      p.sha1_hex (hashed_bytes (sort_parts (token ∷ timestamp ∷ nonce ∷ [])))

  unfoldable pub calculate_encrypted_signature : Text → Text → Text → Text → Text
  unfolding sort_parts hashed_bytes
  calculate_encrypted_signature token timestamp nonce encrypted_payload =
      p.sha1_hex (hashed_bytes (sort_parts (token ∷ timestamp ∷ nonce ∷ encrypted_payload ∷ [])))

  unfoldable pub verify_signature : Text → Text → Text → Text → Bool
  unfolding calculate_signature
  verify_signature token timestamp nonce signature =
      p.constant_time_eq (utf8 (calculate_signature token timestamp nonce)) (utf8 signature)

  unfoldable pub verify_encrypted_signature : Text → Text → Text → Text → Text → Bool
  unfolding calculate_encrypted_signature
  verify_encrypted_signature token timestamp nonce encrypted_payload signature =
      p.constant_time_eq
        (utf8 (calculate_encrypted_signature token timestamp nonce encrypted_payload))
        (utf8 signature)
