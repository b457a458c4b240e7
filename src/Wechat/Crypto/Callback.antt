-- ===== src/Wechat/Crypto/Callback.antt =====
-- The whole callback: decryption undoes encryption, and accepts only what is signed for this
-- application.
use sage_wiki_bridge_wxo.Base.{ℕ, ◌<◌, ◌^◌, ◌≡◌, refl, true, List, arith, length, take}
use sage_wiki_bridge_wxo.Text.{Text, text_eq_iff, text_eq_refl}
use sage_wiki_bridge_wxo.Text.Utf8.{IsText, utf8}
use sage_wiki_bridge_wxo.Error.{ok, guard, guard-eq-ok, >>=-eq-ok}
use sage_wiki_bridge_wxo.Wechat.Primitives.{Primitives, IsLawful}
use sage_wiki_bridge_wxo.Wechat.Signature.{
  calculate_encrypted_signature, verify_encrypted_signature,
}
use sage_wiki_bridge_wxo.Wechat.Crypto.{
  DecryptedMessage, add_wechat_pkcs7_padding, frame_plaintext, split_plaintext,
  decode_encoding_aes_key, decrypt_payload, encrypt_payload, decrypt_callback_message,
  encrypt_callback_message_for_test,
}
use sage_wiki_bridge_wxo.Wechat.Crypto.Padding.{
  length-add_wechat_pkcs7_padding, remove-add_wechat_pkcs7_padding,
}
use sage_wiki_bridge_wxo.Wechat.Crypto.Frame.{split_plaintext-frame_plaintext}

module _ (p : Primitives) (law : IsLawful p) where
  decrypt_payload-encrypt_payload :
      (key : List ℕ) (xml app_id : Text)
      → decrypt_payload p key (encrypt_payload p key xml app_id) ≡ ok (frame_plaintext xml app_id)
  unfolding decrypt_payload encrypt_payload
  decrypt_payload-encrypt_payload key xml app_id =
      let b = add_wechat_pkcs7_padding (frame_plaintext xml app_id) in
      let whole = length-add_wechat_pkcs7_padding (frame_plaintext xml app_id) in
      rw (
        law.decode-encode (p.cbc_encrypt key (take 16 key) b),
        law.decrypt-encrypt key (take 16 key) b (omega arith),
        remove-add_wechat_pkcs7_padding (frame_plaintext xml app_id),
      )

  -- The signature that the encryption makes passes the test of the decryption.
  verify_encrypted_signature-calculate :
      (token timestamp nonce payload : Text)
      → verify_encrypted_signature p token timestamp nonce payload
          (calculate_encrypted_signature p token timestamp nonce payload)
        ≡ true
  unfolding verify_encrypted_signature
  verify_encrypted_signature-calculate token timestamp nonce payload =
      (law.constant_time_eq_iff _ _).1 refl

  decrypts :
      (token aes_key app_id timestamp nonce xml : Text) (key : List ℕ)
      → decode_encoding_aes_key p aes_key ≡ ok key
      → IsText xml
      → IsText app_id
      → length (utf8 xml) < 2 ^ 32
      → let payload = encrypt_payload p key xml app_id in
        decrypt_callback_message p token aes_key app_id timestamp nonce
          (calculate_encrypted_signature p token timestamp nonce payload)
          payload
        ≡ ok (record { xml = xml; app_id = app_id })
  unfolding decrypt_callback_message
  decrypts token aes_key app_id timestamp nonce xml key k hx ha small = rw (
    verify_encrypted_signature-calculate token timestamp nonce (encrypt_payload p key xml app_id),
    k,
    decrypt_payload-encrypt_payload key xml app_id,
    split_plaintext-frame_plaintext xml app_id hx ha small,
    text_eq_refl app_id,
  )

  -- What the encryption returns, payload and signature, is decrypted to the same XML and
  -- application id, for texts of scalar values and an XML below 4 GiB.
  pub decrypt-encrypt_callback_message :
      (token aes_key app_id timestamp nonce xml payload signature : Text)
      → IsText xml
      → IsText app_id
      → length (utf8 xml) < 2 ^ 32
      → encrypt_callback_message_for_test p token aes_key app_id timestamp nonce xml
        ≡ ok (payload, signature)
      → decrypt_callback_message p token aes_key app_id timestamp nonce signature payload
        ≡ ok (record { xml = xml; app_id = app_id })
  unfolding encrypt_callback_message_for_test
  decrypt-encrypt_callback_message token aes_key app_id timestamp nonce xml payload signature hx ha
        small h =
      let (key, k, e) = >>=-eq-ok (decode_encoding_aes_key p aes_key) _ h in
      cc (decrypts token aes_key app_id timestamp nonce xml key k hx ha small, e)

  verify_encrypted_signature_sound :
      (token timestamp nonce payload signature : Text)
      → verify_encrypted_signature p token timestamp nonce payload signature ≡ true
      → utf8 (calculate_encrypted_signature p token timestamp nonce payload) ≡ utf8 signature
  unfolding verify_encrypted_signature
  verify_encrypted_signature_sound token timestamp nonce payload signature h =
      (law.constant_time_eq_iff _ _).0 h

  -- What is decrypted bears the right signature and the expected application id, and comes from a
  -- payload whose plaintext splits into it.
  pub decrypt_callback_message_sound :
      (token aes_key app_id timestamp nonce signature payload : Text) (m : DecryptedMessage)
      → decrypt_callback_message p token aes_key app_id timestamp nonce signature payload ≡ ok m
      → (utf8 (calculate_encrypted_signature p token timestamp nonce payload) ≡ utf8 signature)
        × (m.app_id ≡ app_id)
        × ((key : List ℕ) × (plaintext : List ℕ) × (decode_encoding_aes_key p aes_key ≡ ok key)
            × (decrypt_payload p key payload ≡ ok plaintext)
            × (split_plaintext plaintext ≡ ok (m.xml, app_id)))
  unfolding decrypt_callback_message
  decrypt_callback_message_sound token aes_key app_id timestamp nonce signature payload m h =
      let (_, signed, h₁) = >>=-eq-ok (guard _ _) _ h in
      let (key, k, h₂) = >>=-eq-ok (decode_encoding_aes_key p aes_key) _ h₁ in
      let (plaintext, d, h₃) = >>=-eq-ok (decrypt_payload p key payload) _ h₂ in
      let (parts, s, h₄) = >>=-eq-ok (split_plaintext plaintext) _ h₃ in
      let (_, same, h₅) = >>=-eq-ok (guard _ _) _ h₄ in
      let e = (text_eq_iff parts.1 app_id).0 (guard-eq-ok _ _ same) in
      (
        verify_encrypted_signature_sound token timestamp nonce payload signature
            (guard-eq-ok _ _ signed),
        cc (h₅, e),
        (key, plaintext, k, d, cc (s, h₅, e)),
      )
