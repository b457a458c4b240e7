-- ===== src/Receiver/Refuses.antt =====
-- Requests without a valid signature.
use sage_wiki_bridge_wxo.Base.{
  ◌≡◌, ◌≢◌, refl, Bool, true, false, Option, none, some, ◌&&◌, inl, inr, Option-cases,
}
use sage_wiki_bridge_wxo.Text.{Text}
use sage_wiki_bridge_wxo.Error.{BridgeError, wechat_signature_invalid, Result, ok, err, ok_or-eq-ok}
use sage_wiki_bridge_wxo.Exec.{Exec, ◌>>=◌, ◌>>◌, proceed, lift}
use sage_wiki_bridge_wxo.Files.{FileSystem}
use sage_wiki_bridge_wxo.Wechat.Message.{RawWechatMessage, XmlReader}
use sage_wiki_bridge_wxo.Wechat.Primitives.{Primitives}
use sage_wiki_bridge_wxo.Wechat.Signature.{verify_signature, verify_encrypted_signature}
use sage_wiki_bridge_wxo.Wechat.Crypto.{
  EncryptedEnvelope, parse_encrypted_envelope, decrypt_callback_message,
}
use sage_wiki_bridge_wxo.Receiver.Process.{ReceiverConfig, Surroundings, World, on_files}
use sage_wiki_bridge_wxo.Receiver.Callback.{
  CallbackQuery, okay, forbidden, is_aes, receive_plain_message, receive_encrypted_message,
  receive_message, response_of, receive_callback,
}

abbrev is_ok : {A : Type 0} → Result A → Bool
is_ok (ok a) = true
is_ok (err e) = false

-- The block ends in an error and leaves the database as it was.
record Refuses {A : Type 0} (m : Exec World A) : Type 0 where
  pub refused : (w : World) → (is_ok (m w).0 ≡ false) × ((m w).1.db ≡ w.db)

lift-Refuses :
    {A B : Type 0} (r : Result A) (f : A → Exec World B)
    → ((a : A) → r ≡ ok a → Refuses (f a))
    → Refuses (lift r >>= f)
unfolding ◌>>=◌ proceed lift
lift-Refuses (ok a) f k = record { refused = (k a refl).refused }
lift-Refuses (err e) f k = record { refused = λ w. (refl, refl) }

proceed-refused :
    {A B : Type 0} (r : Result A) (f : A → Exec World B)
    → ((a : A) → Refuses (f a))
    → (w : World) → (is_ok (proceed r f w).0 ≡ false) × ((proceed r f w).1.db ≡ w.db)
unfolding proceed
proceed-refused (ok a) f k w = (k a).refused w
proceed-refused (err e) f k w = (refl, refl)

on_files-Refuses :
    {A B : Type 0} (write : Exec FileSystem A) (f : A → Exec World B)
    → ((a : A) → Refuses (f a))
    → Refuses (on_files write >>= f)
unfolding ◌>>=◌ on_files
on_files-Refuses write f k = record {
  refused = λ w. proceed-refused (write w.files).0 f k (record w { files = (write w.files).1 });
}

error_response :
    (r : Result (Option Text)) → is_ok r ≡ false → (reply : Text) → response_of r ≢ okay reply
unfolding response_of
error_response (ok a) h reply e = cc
error_response (err wechat_signature_invalid) h reply e = cc
error_response (err (BridgeError.config t)) h reply e = cc
error_response (err (BridgeError.wechat_xml_invalid t)) h reply e = cc
error_response (err (BridgeError.message_unsupported t)) h reply e = cc
error_response (err (BridgeError.url_not_allowed t)) h reply e = cc
error_response (err (BridgeError.external_payload_invalid t)) h reply e = cc
error_response (err (BridgeError.external_request t)) h reply e = cc
error_response (err (BridgeError.database t)) h reply e = cc
error_response (err (BridgeError.io t)) h reply e = cc
error_response (err (BridgeError.path_outside_root t)) h reply e = cc

module _ (p : Primitives) where
  -- Whether there is a signature and it is the right one.
  abbrev pub has_signature : ReceiverConfig → CallbackQuery → Bool
  has_signature config query = elim query.signature [
    | none ↦ false
    | some s ↦ verify_signature p config.wechat_token query.timestamp query.nonce s
  ]

  abbrev pub has_msg_signature : ReceiverConfig → CallbackQuery → EncryptedEnvelope → Bool
  has_msg_signature config query envelope = elim query.msg_signature [
    | none ↦ false
    | some s ↦
        verify_encrypted_signature p config.wechat_token query.timestamp query.nonce
          envelope.encrypted_payload s
  ]

  decrypt-forged :
      (token key app_id timestamp nonce s payload : Text)
      → verify_encrypted_signature p token timestamp nonce payload s ≡ false
      → decrypt_callback_message p token key app_id timestamp nonce s payload
        ≡ err wechat_signature_invalid
  unfolding decrypt_callback_message
  decrypt-forged token key app_id timestamp nonce s payload h = rw h

  module _ (from_str : XmlReader RawWechatMessage) (envelope_from_str : XmlReader Text) where
    -- A plain request without a signature, or with a wrong one, is answered with 403 and changes
    -- nothing, neither in the database nor in the files.
    pub receive_callback-forged :
        (config : ReceiverConfig) (out : Surroundings) (query : CallbackQuery) (body : Text)
        (w : World)
        → (config.encrypted_callback_enabled && is_aes query.encrypt_type) ≡ false
        → has_signature config query ≡ false
        → receive_callback p from_str envelope_from_str config out query body w ≡ (forbidden, w)
    unfolding receive_callback receive_message receive_plain_message response_of ◌>>=◌ ◌>>◌ proceed
        lift
    receive_callback-forged config out query body w plain_path h =
        elim (Option-cases query.signature) [
          | inl e ↦ rw (plain_path, e)
          | inr (s, e) ↦
              let wrong : verify_signature p config.wechat_token query.timestamp query.nonce s
                  ≡ false =
                rw (← h, e) in
              rw (plain_path, e, wrong)
        ]

    receive_encrypted_message-Refuses :
        (config : ReceiverConfig) (out : Surroundings) (query : CallbackQuery) (body : Text)
        → ((envelope : EncryptedEnvelope)
            → parse_encrypted_envelope envelope_from_str body ≡ ok envelope
            → has_msg_signature config query envelope ≡ false)
        → Refuses (receive_encrypted_message p from_str envelope_from_str config out query body)
    unfolding receive_encrypted_message
    receive_encrypted_message-Refuses config out query body forged =
        lift-Refuses _ _ (λ (app_id : Text) a. lift-Refuses _ _ (λ (key : Text) k.
          lift-Refuses _ _ (λ (signature : Text) s. on_files-Refuses _ _ (λ archived.
            lift-Refuses _ _ (λ (envelope : EncryptedEnvelope) parsed.
              lift-Refuses _ _ (λ decrypted d.
                let given : query.msg_signature ≡ some signature = ok_or-eq-ok _ _ s in
                let wrong : verify_encrypted_signature p config.wechat_token query.timestamp
                      query.nonce envelope.encrypted_payload signature
                    ≡ false =
                  rw (← forged envelope parsed, given) in
                let rejected = decrypt-forged _ key app_id _ _ signature _ wrong in
                absurd (cc)))))))

    -- An encrypted request whose body has no envelope, or one that the message signature does not
    -- fit, is not answered with 200 and leaves the database as it was.
    pub receive_callback-forged_encrypted :
        (config : ReceiverConfig) (out : Surroundings) (query : CallbackQuery) (body : Text)
        (w : World)
        → (config.encrypted_callback_enabled && is_aes query.encrypt_type) ≡ true
        → ((envelope : EncryptedEnvelope)
            → parse_encrypted_envelope envelope_from_str body ≡ ok envelope
            → has_msg_signature config query envelope ≡ false)
        → let (response, w') =
            receive_callback p from_str envelope_from_str config out query body w in
          ((reply : Text) → response ≢ okay reply) × (w'.db ≡ w.db)
    unfolding receive_callback receive_message
    receive_callback-forged_encrypted config out query body w path forged =
        let (refused, same) =
          (receive_encrypted_message-Refuses config out query body forged).refused w in
        rw path (error_response _ refused, same)
