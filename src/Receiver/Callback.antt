-- ===== src/Receiver/Callback.antt =====
-- The two routes of src/receiver/mod.rs, from the query and the body of a request to its response.
use mathlib.Core.Option
use sage_wiki_bridge_wxo.Base.{
  Bool, false, ◌&&◌, Option, none, some, ◌++◌, if◌then◌else◌, unwrap_or,
}
use sage_wiki_bridge_wxo.Text.{Text, lit, text_eq, non_empty}
use sage_wiki_bridge_wxo.Text.Utf8.{utf8}
use sage_wiki_bridge_wxo.Error.{
  BridgeError, wechat_signature_invalid, Result, ok, err, guard, ok_or,
}
use sage_wiki_bridge_wxo.Exec.{Exec, ◌>>=◌, ◌>>◌, lift}
use sage_wiki_bridge_wxo.Files.{display, parent}
use sage_wiki_bridge_wxo.Archive.{ArchiveRecord, archive_bytes}
use sage_wiki_bridge_wxo.Wechat.Message.{RawWechatMessage, XmlReader}
use sage_wiki_bridge_wxo.Wechat.Primitives.{Primitives}
use sage_wiki_bridge_wxo.Wechat.Signature.{verify_signature}
use sage_wiki_bridge_wxo.Wechat.Crypto.{
  parse_encrypted_envelope, decrypt_callback_message, encrypt_reply_message,
}
use sage_wiki_bridge_wxo.Receiver.Process.{
  ReceiverConfig, Surroundings, World, on_files, process_plain_xml,
}

pub record VerifyQuery : Type 0 where
  pub signature : Text
  pub timestamp : Text
  pub nonce : Text
  pub echostr : Text

pub record CallbackQuery : Type 0 where
  pub signature : Option Text
  pub msg_signature : Option Text
  pub timestamp : Text
  pub nonce : Text
  pub encrypt_type : Option Text

-- A text with status 200, or a status without a text.
pub data Response : Type 0 where
  okay : Text → Response
  forbidden bad_request : Response

unfoldable pub request_id : Text → Text → Text
request_id timestamp nonce = lit "req_" ++ (timestamp ++ (lit "_" ++ nonce))

-- The directory of an archived body, or a text for one that is not saved.
unfoldable pub raw_dir_of : Text → ArchiveRecord → Text
unfolding display parent
raw_dir_of id archived =
    unwrap_or (lit "raw://" ++ id) (Option.map (λ path. display (parent path)) archived.path)

-- `query.encrypt_type.as_deref() == Some("aes")`
unfoldable pub is_aes : Option Text → Bool
is_aes none = false
is_aes (some t) = text_eq t (lit "aes")

unfoldable pub response_of : Result (Option Text) → Response
response_of (ok (some reply_xml)) = okay reply_xml
response_of (ok none) = okay (lit "")
response_of (err wechat_signature_invalid) = forbidden
response_of (err _) = bad_request

module _ (p : Primitives) where
  unfoldable pub verify_callback : ReceiverConfig → VerifyQuery → Response
  verify_callback config query =
      if verify_signature p config.wechat_token query.timestamp query.nonce query.signature
      then okay query.echostr
      else forbidden

  -- The reply of the plain path, encrypted.
  unfoldable pub encrypt_reply :
      ReceiverConfig → CallbackQuery → Text → Text → Option Text → Result (Option Text)
  encrypt_reply config query encoding_aes_key app_id none = ok none
  encrypt_reply config query encoding_aes_key app_id (some reply_xml) =
      elim (encrypt_reply_message p config.wechat_token encoding_aes_key app_id query.timestamp
        query.nonce reply_xml) [ ok xml ↦ ok (some xml) | err e ↦ err e ]

  module _ (from_str : XmlReader RawWechatMessage) (envelope_from_str : XmlReader Text) where
    unfoldable pub receive_plain_message :
        ReceiverConfig → Surroundings → CallbackQuery → Text → Exec World (Option Text)
    unfolding on_files request_id raw_dir_of
    receive_plain_message config out query body = do
      signature ← lift (ok_or query.signature wechat_signature_invalid)
      lift (
          guard (verify_signature p config.wechat_token query.timestamp query.nonce signature)
            wechat_signature_invalid)
      let id = request_id query.timestamp query.nonce
      archived ←
          on_files
            (archive_bytes p out.fault config.raw_archive id (lit "callback.xml") (utf8 body))
      process_plain_xml p from_str config out id (raw_dir_of id archived) body

    unfoldable pub receive_encrypted_message :
        ReceiverConfig → Surroundings → CallbackQuery → Text → Exec World (Option Text)
    unfolding on_files request_id raw_dir_of encrypt_reply
    receive_encrypted_message config out query body = do
      app_id ← lift (
          ok_or (non_empty config.wechat_app_id)
            (BridgeError.config (lit "WECHAT_APP_ID is required for encrypted callback")))
      encoding_aes_key ← lift (
          ok_or (non_empty config.wechat_encoding_aes_key)
            (BridgeError.config (lit "WECHAT_ENCODING_AES_KEY is required for encrypted callback")))
      msg_signature ← lift (ok_or query.msg_signature wechat_signature_invalid)
      let id = request_id query.timestamp query.nonce
      archived ← on_files (
          archive_bytes p out.fault config.raw_archive id (lit "callback.encrypted.xml")
            (utf8 body))
      envelope ← lift (parse_encrypted_envelope envelope_from_str body)
      decrypted ← lift (
          decrypt_callback_message p config.wechat_token encoding_aes_key app_id query.timestamp
            query.nonce msg_signature envelope.encrypted_payload)
      reply ← process_plain_xml p from_str config out id (raw_dir_of id archived) decrypted.xml
      lift (encrypt_reply config query encoding_aes_key app_id reply)

    unfoldable pub receive_message :
        ReceiverConfig → Surroundings → CallbackQuery → Text → Exec World (Option Text)
    unfolding is_aes receive_plain_message receive_encrypted_message
    receive_message config out query body =
        if config.encrypted_callback_enabled && is_aes query.encrypt_type
        then receive_encrypted_message config out query body
        else receive_plain_message config out query body

    unfoldable pub receive_callback :
        ReceiverConfig → Surroundings → CallbackQuery → Text → World → Response × World
    unfolding receive_message response_of
    receive_callback config out query body w = (
      response_of (receive_message config out query body w).0,
      (receive_message config out query body w).1,
    )
