-- ===== src/Wechat/Crypto.antt =====
-- src/wechat/crypto.rs
pub mod Padding
pub mod Frame
pub mod Callback
use sage_wiki_bridge_wxo.Base.{
  ℕ, ◌+◌, ◌-◌, ◌/◌, ◌%◌, ◌*◌, ◌^◌, Bool, not, ◌&&◌, Option, none, some, List, [], ◌∷◌, ◌++◌, ltb,
  leb, ◌==◌, if◌then◌else◌, length, take, drop, replicate, any_of, inl, inr,
}
use sage_wiki_bridge_wxo.Text.{Text, lit, text_eq}
use sage_wiki_bridge_wxo.Text.Utf8.{utf8, from_utf8}
use sage_wiki_bridge_wxo.Error.{
  BridgeError, config, wechat_signature_invalid, wechat_xml_invalid, external_payload_invalid,
  Result, ok, err, ◌>>=◌, ◌>>◌, guard, ok_or,
}
use sage_wiki_bridge_wxo.Wechat.Message.{XmlReader}
use sage_wiki_bridge_wxo.Wechat.Primitives.{Primitives}
use sage_wiki_bridge_wxo.Wechat.Signature.{
  calculate_encrypted_signature, verify_encrypted_signature,
}

pub record EncryptedEnvelope : Type 0 where
  pub encrypted_payload : Text

pub record DecryptedMessage : Type 0 where
  pub xml : Text
  pub app_id : Text

-- `EncryptedEnvelopeXml` has the one field `Encrypt`, so its reader returns that text.
unfoldable pub parse_encrypted_envelope : XmlReader Text → Text → Result EncryptedEnvelope
parse_encrypted_envelope from_str xml = elim (from_str xml) [
  | inl e ↦ err (wechat_xml_invalid e)
  | inr encrypt ↦ ok (record { encrypted_payload = encrypt })
]

abbrev pub wechat_pkcs7_block_size : ℕ
wechat_pkcs7_block_size = 32

unfoldable pub add_wechat_pkcs7_padding : List ℕ → List ℕ
add_wechat_pkcs7_padding plaintext =
    let padding = wechat_pkcs7_block_size - length plaintext % wechat_pkcs7_block_size in
    plaintext ++ replicate padding (padding % 256)

-- `slice::last`
unfoldable pub last? : List ℕ → Option ℕ
last? [] = none
last? (x ∷ []) = some x
last? (x ∷ y ∷ l) = last? (y ∷ l)

-- The checks behind `let Some(&padding) = decrypted.last()`.
unfoldable pub strip_padding : List ℕ → ℕ → Result (List ℕ)
strip_padding decrypted padding = do
  guard (leb 1 padding && leb padding 32 && leb padding (length decrypted))
      (external_payload_invalid (lit "invalid wechat pkcs7 padding"))
  let padding_start = length decrypted - padding
  guard (not (any_of (λ byte. not (byte == padding)) (drop padding_start decrypted)))
      (external_payload_invalid (lit "invalid wechat pkcs7 padding bytes"))
  ok (take padding_start decrypted)

unfoldable pub remove_wechat_pkcs7_padding : List ℕ → Result (List ℕ)
unfolding last? strip_padding
remove_wechat_pkcs7_padding decrypted = do
  padding ← ok_or (last? decrypted) (external_payload_invalid (lit "decrypted payload is empty"))
  strip_padding decrypted padding

-- `u32::to_be_bytes` and `u32::from_be_bytes`
unfoldable pub to_be_bytes : ℕ → List ℕ
to_be_bytes n = (n / 16777216 % 256) ∷ (n / 65536 % 256) ∷ (n / 256 % 256) ∷ (n % 256) ∷ []

unfoldable pub from_be_bytes : List ℕ → Option ℕ
from_be_bytes (a ∷ b ∷ c ∷ d ∷ []) = some (((a * 256 + b) * 256 + c) * 256 + d)
from_be_bytes _ = none

-- The plaintext before its padding: 16 bytes of filling, the length of the XML, the XML, the
-- application's id.
unfoldable pub frame_plaintext : Text → Text → List ℕ
frame_plaintext xml app_id =
    utf8 (lit "0123456789abcdef")
    ++ (to_be_bytes (length (utf8 xml) % 2 ^ 32) ++ (utf8 xml ++ utf8 app_id))

-- Stands for the text of the standard library's `FromUtf8Error`.
abbrev pub utf8_error : Text
utf8_error = lit "invalid utf-8 sequence"

unfoldable pub split_plaintext : List ℕ → Result (Text × Text)
split_plaintext plaintext = do
  guard (leb 20 (length plaintext)) (external_payload_invalid (lit "decrypted payload too short"))
  msg_len ←
      ok_or (from_be_bytes (take 4 (drop 16 plaintext)))
        (external_payload_invalid (lit "message length missing"))
  guard (leb (20 + msg_len) (length plaintext))
      (external_payload_invalid (lit "decrypted message length exceeds payload"))
  xml ← ok_or (from_utf8 (take msg_len (drop 20 plaintext))) (external_payload_invalid utf8_error)
  app_id ← ok_or (from_utf8 (drop (20 + msg_len) plaintext)) (external_payload_invalid utf8_error)
  ok (xml, app_id)

module _ (p : Primitives) where
  unfoldable pub decode_encoding_aes_key : Text → Result (List ℕ)
  decode_encoding_aes_key encoding_aes_key = do
    guard (length (utf8 encoding_aes_key) == 43)
        (config (lit "WECHAT_ENCODING_AES_KEY must be 43 characters"))
    decoded ← elim (p.base64_decode_trailing (encoding_aes_key ++ lit "=")) [
      | inl e ↦ err (config (lit "invalid WECHAT_ENCODING_AES_KEY: " ++ e))
      | inr b ↦ ok b
    ]
    guard (length decoded == 32) (config (lit "WECHAT_ENCODING_AES_KEY must decode to 32 bytes"))
    ok decoded

  unfoldable pub decrypt_payload : List ℕ → Text → Result (List ℕ)
  decrypt_payload key encrypted_payload = do
    encrypted ← elim (p.base64_decode encrypted_payload) [
      | inl e ↦ err (external_payload_invalid e)
      | inr b ↦ ok b
    ]
    decrypted ← elim (p.cbc_decrypt key (take 16 key) encrypted) [
      | inl e ↦ err (external_payload_invalid (lit "decrypt failed: " ++ e))
      | inr b ↦ ok b
    ]
    remove_wechat_pkcs7_padding decrypted

  unfoldable pub encrypt_payload : List ℕ → Text → Text → Text
  encrypt_payload key xml app_id =
      p.base64_encode
        (p.cbc_encrypt key (take 16 key) (add_wechat_pkcs7_padding (frame_plaintext xml app_id)))

  unfoldable pub decrypt_callback_message :
      Text → Text → Text → Text → Text → Text → Text → Result DecryptedMessage
  decrypt_callback_message token encoding_aes_key expected_app_id timestamp nonce msg_signature
        encrypted_payload =
      do
        guard (verify_encrypted_signature p token timestamp nonce encrypted_payload msg_signature)
            wechat_signature_invalid
        key ← decode_encoding_aes_key encoding_aes_key
        plaintext ← decrypt_payload key encrypted_payload
        (xml, app_id) ← split_plaintext plaintext
        guard (text_eq app_id expected_app_id) (
            config (
              lit "decrypted appid mismatch: expected "
              ++ (expected_app_id ++ (lit ", got " ++ app_id))))
        ok (record { xml = xml; app_id = app_id })

  unfoldable pub encrypt_callback_message_for_test :
      Text → Text → Text → Text → Text → Text → Result (Text × Text)
  encrypt_callback_message_for_test token encoding_aes_key app_id timestamp nonce xml = do
    key ← decode_encoding_aes_key encoding_aes_key
    let encrypted_payload = encrypt_payload key xml app_id
    ok (encrypted_payload, calculate_encrypted_signature p token timestamp nonce encrypted_payload)

  unfoldable pub encrypt_reply_message : Text → Text → Text → Text → Text → Text → Result Text
  encrypt_reply_message token encoding_aes_key app_id timestamp nonce xml = do
    (encrypted_payload, signature) ←
        encrypt_callback_message_for_test token encoding_aes_key app_id timestamp nonce xml
    ok (
        lit "<xml><Encrypt><![CDATA["
        ++ (encrypted_payload
            ++ (lit "]]></Encrypt><MsgSignature><![CDATA["
                ++ (signature
                    ++ (lit "]]></MsgSignature><TimeStamp>"
                        ++ (timestamp
                            ++ (lit "</TimeStamp><Nonce><![CDATA["
                                ++ (nonce ++ lit "]]></Nonce></xml>"))))))))
