-- ===== src/Examples/Callbacks.antt =====
-- The theorems on the callbacks of WeChat at concrete inputs.
use mathlib.Core.List.{Permᴰ}
use sage_wiki_bridge_wxo.Base.{ℕ, ◌<◌, ◌≡◌, ◌^◌, refl, List, [], ◌∷◌, arith, length, take}
use sage_wiki_bridge_wxo.Text.{Text, lit, text_eq}
use sage_wiki_bridge_wxo.Text.Utf8.{utf8, is_scalar, IsText}
use sage_wiki_bridge_wxo.Error.{ok}
use sage_wiki_bridge_wxo.Wechat.Message.{IncomingMessage, try_from, common, raw_common}
use sage_wiki_bridge_wxo.Wechat.Message.Convert.{IsNamed, to_raw, try_from-common, try_from-to_raw}
use sage_wiki_bridge_wxo.Wechat.Primitives.{plain, plain-IsLawful}
use sage_wiki_bridge_wxo.Wechat.Signature.{calculate_encrypted_signature}
use sage_wiki_bridge_wxo.Wechat.Crypto.{
  split_plaintext, decode_encoding_aes_key, decrypt_payload, encrypt_payload,
  decrypt_callback_message, encrypt_callback_message_for_test,
}
use sage_wiki_bridge_wxo.Wechat.Crypto.Callback.{
  decrypt-encrypt_callback_message, decrypt_callback_message_sound,
}
use sage_wiki_bridge_wxo.Examples.{alice_common, alice_says, raw_text}

abbrev aes_key : Text
aes_key = lit "0123456789012345678901234567890123456789012"

-- The key that the stand-in decodes it to.
abbrev key_bytes : List ℕ
key_bytes = take 32 aes_key

abbrev xml : Text
xml = lit "<xml/>"

abbrev sealed : Text
sealed = encrypt_payload plain key_bytes xml (lit "app")

abbrev seal_signature : Text
seal_signature = calculate_encrypted_signature plain (lit "t") (lit "1") (lit "2") sealed

encrypts :
    encrypt_callback_message_for_test plain (lit "t") aes_key (lit "app") (lit "1") (lit "2") xml
    ≡ ok (sealed, seal_signature)
unfolding encrypt_callback_message_for_test decode_encoding_aes_key utf8 lit
encrypts = refl

xml-IsText : IsText xml
unfolding is_scalar lit
xml-IsText = refl

app-IsText : IsText (lit "app")
unfolding is_scalar lit
app-IsText = refl

xml-small : length (utf8 xml) < 2 ^ 32
unfolding utf8 lit
xml-small = omega arith

decrypt-encrypt_callback_message_example :
    decrypt_callback_message plain
      (lit "t")
      aes_key
      (lit "app")
      (lit "1")
      (lit "2")
      seal_signature
      sealed
    ≡ ok (record { xml = xml; app_id = lit "app" })
decrypt-encrypt_callback_message_example =
    decrypt-encrypt_callback_message plain plain-IsLawful (lit "t") aes_key (lit "app") (lit "1")
      (lit "2") xml sealed seal_signature xml-IsText app-IsText xml-small encrypts

decrypt_callback_message_sound_example :
    (utf8 (calculate_encrypted_signature plain (lit "t") (lit "1") (lit "2") sealed)
      ≡ utf8 seal_signature)
    × (lit "app" ≡ lit "app")
    × ((key : List ℕ) × (plaintext : List ℕ) × (decode_encoding_aes_key plain aes_key ≡ ok key)
        × (decrypt_payload plain key sealed ≡ ok plaintext)
        × (split_plaintext plaintext ≡ ok (xml, lit "app")))
decrypt_callback_message_sound_example =
    decrypt_callback_message_sound plain plain-IsLawful (lit "t") aes_key (lit "app") (lit "1")
      (lit "2") seal_signature sealed (record { xml = xml; app_id = lit "app" })
      decrypt-encrypt_callback_message_example

reordered : Permᴰ (lit "t" ∷ lit "1" ∷ lit "2" ∷ []) (lit "1" ∷ lit "t" ∷ lit "2" ∷ [])
reordered = Permᴰ.swap refl refl

reordered_four :
    Permᴰ (lit "t" ∷ lit "1" ∷ lit "2" ∷ lit "x" ∷ []) (lit "1" ∷ lit "t" ∷ lit "2" ∷ lit "x" ∷ [])
reordered_four = Permᴰ.swap refl refl

converts : try_from (raw_text (lit "hello")) ≡ ok (alice_says (lit "hello"))
unfolding try_from text_eq lit
converts = refl

try_from-common_example : common (alice_says (lit "hello")) ≡ raw_common (raw_text (lit "hello"))
try_from-common_example =
    try_from-common (raw_text (lit "hello")) (alice_says (lit "hello")) converts

-- An event, which is of no known type.
abbrev event : IncomingMessage
event = IncomingMessage.unsupported (record { common = alice_common; msg_type = lit "event" })

event-IsNamed : IsNamed event
unfolding text_eq lit
event-IsNamed = refl

try_from-to_raw_example : try_from (to_raw event) ≡ ok event
try_from-to_raw_example = try_from-to_raw event event-IsNamed
