-- ===== src/Receiver/Process.antt =====
-- `process_plain_xml` of src/receiver/mod.rs.
use sage_wiki_bridge_wxo.Base.{
  ℕ, Bool, not, ◌&&◌, ◌||◌, Option, none, some, ◌++◌, if◌then◌else◌, is_some, unwrap_or,
}
use sage_wiki_bridge_wxo.Text.{Text, lit}
use sage_wiki_bridge_wxo.Text.Utf8.{utf8}
use sage_wiki_bridge_wxo.Exec.{Exec, ◌>>=◌, ◌>>◌, pure, lift, gets}
use sage_wiki_bridge_wxo.Files.{FileSystem, Fault}
use sage_wiki_bridge_wxo.Archive.{RawArchive}
use sage_wiki_bridge_wxo.Wechat.Message.{
  IncomingMessage, RawWechatMessage, common, msg_type, is_supported, content_text, XmlReader,
  parse_plain_message,
}
use sage_wiki_bridge_wxo.Wechat.Primitives.{Primitives}
use sage_wiki_bridge_wxo.Store.Schema.{MessageStatus, MessageInsert, Db}
use sage_wiki_bridge_wxo.Store.Messages.{
  upsert_whitelist, is_openid_whitelisted, insert_message_idempotent,
}
use sage_wiki_bridge_wxo.Store.Jobs.{create_job_once}
use sage_wiki_bridge_wxo.Receiver.Fields.{
  media_id, thumb_media_id, pic_url, voice_format, voice_recognition, location_lat, location_lng,
  location_scale, location_label, link_title, link_description, link_url, UserCommand,
  detect_user_command, is_whitelist_join_command,
}
use sage_wiki_bridge_wxo.Receiver.Reply.{passive_text_reply, command_reply}

pub record ReceiverConfig : Type 0 where
  pub wechat_token : Text
  pub encrypted_callback_enabled : Bool
  pub wechat_app_id : Option Text
  pub wechat_encoding_aes_key : Option Text
  pub honeypot_reply_enabled : Bool
  pub honeypot_reply_text : Text
  pub whitelist_join_command : Option Text
  pub raw_archive : RawArchive

-- What a request meets outside the program: the clock (`format` of `now_utc()`, and the seconds),
-- the connection that the pool lends for each query, the archive's fault, and the sizes of files.
pub record Surroundings : Type 0 where
  pub now : Option Text
  pub unix_timestamp : ℕ
  pub insert_connection : ℕ
  pub id_connection : ℕ
  pub whitelist_connection : ℕ
  pub job_connection : ℕ
  pub fault : Fault
  pub metadata_len : Text → Option ℕ

pub record World : Type 0 where
  pub db : Db
  pub files : FileSystem

unfoldable pub on_db : {A : Type 0} → Exec Db A → Exec World A
on_db query w = ((query w.db).0, record w { db = (query w.db).1 })

unfoldable pub on_files : {A : Type 0} → Exec FileSystem A → Exec World A
on_files write w = ((write w.files).0, record w { files = (write w.files).1 })

unfoldable pub received_at : Surroundings → Text
received_at out = unwrap_or (lit "1970-01-01T00:00:00Z") out.now

-- The status of a message, by: it joins the whitelist, its sender is on it, it is a command, it is
-- of a supported type.
unfoldable pub message_status : Bool → Bool → Bool → Bool → MessageStatus
message_status join authorized is_user_command supported =
    if join
    then MessageStatus.whitelisted
    else if authorized && is_user_command
    then MessageStatus.command
    else if authorized && supported
    then MessageStatus.queued
    else MessageStatus.ignored

unfoldable pub is_join : ReceiverConfig → IncomingMessage → Bool
unfolding is_whitelist_join_command
is_join config message = is_whitelist_join_command message config.whitelist_join_command

unfoldable pub user_command : Bool → IncomingMessage → Option UserCommand
unfolding detect_user_command
user_command authorized message = if authorized then detect_user_command message else none

-- `if authorized && supported { create_job_once }`
unfoldable pub queue_job : Surroundings → Bool → IncomingMessage → ℕ → Exec World (Unit {0})
unfolding on_db received_at
queue_job out authorized message message_id =
    if authorized && is_supported message
    then (do
      job_id ←
          on_db (
            create_job_once out.job_connection message_id (lit "process_message") (received_at out))
      pure tt)
    else pure tt

-- `if let Some(command) = user_command`
unfoldable pub run_command : Surroundings → IncomingMessage → UserCommand → Exec World (Option Text)
unfolding command_reply
run_command out message command = do
  content ← gets (λ w. command_reply out.metadata_len w.db command)
  pure (
      some (
        passive_text_reply out.unix_timestamp (common message).from_user_name
          (common message).to_user_name content))

-- What is left for a message that is no command.
unfoldable pub queue_or_answer :
    ReceiverConfig → Surroundings → Bool → IncomingMessage → ℕ → Exec World (Option Text)
unfolding queue_job
queue_or_answer config out authorized message message_id = do
  queue_job out authorized message message_id
  if not authorized && config.honeypot_reply_enabled
      then pure (
          some (
            passive_text_reply out.unix_timestamp (common message).from_user_name
              (common message).to_user_name config.honeypot_reply_text))
      else pure none

module _ (p : Primitives) where
  -- `OpenIdHash::sha256_for_display`
  unfoldable pub sha256_for_display : Text → Text
  sha256_for_display openid = lit "sha256:" ++ p.sha256_hex (utf8 openid)

  unfoldable pub message_insert :
      ReceiverConfig → Surroundings → Text → Text → Bool → IncomingMessage → MessageInsert
  unfolding sha256_for_display received_at message_status is_join
  message_insert config out request_id raw_dir authorized message = record {
    request_id = request_id;
    wechat_msg_id = (common message).msg_id;
    to_user_name = (common message).to_user_name;
    from_openid = (common message).from_user_name;
    from_openid_hash = sha256_for_display (common message).from_user_name;
    create_time = some (common message).create_time;
    received_at = received_at out;
    message_type = msg_type message;
    content_text = content_text message;
    media_id = media_id message;
    thumb_media_id = thumb_media_id message;
    pic_url = pic_url message;
    voice_format = voice_format message;
    voice_recognition = voice_recognition message;
    location_lat = location_lat message;
    location_lng = location_lng message;
    location_scale = location_scale message;
    location_label = location_label message;
    link_title = link_title message;
    link_description = link_description message;
    link_url = link_url message;
    authorized = authorized || is_join config message;
    status =
        message_status (is_join config message) authorized (is_some (detect_user_command message))
          (is_supported message);
    raw_dir = raw_dir;
  }

  -- `if whitelist_join_requested`
  unfoldable pub join_whitelist : Surroundings → IncomingMessage → Exec World (Option Text)
  unfolding on_db sha256_for_display
  join_whitelist out message = do
    on_db (
        upsert_whitelist out.whitelist_connection (common message).from_user_name
          (sha256_for_display (common message).from_user_name) (lit "wechat-magic-command"))
    pure none

  -- What follows the insertion of a message.
  unfoldable pub react :
      ReceiverConfig → Surroundings → Bool → IncomingMessage → ℕ → Exec World (Option Text)
  unfolding is_join user_command join_whitelist run_command queue_or_answer
  react config out authorized message message_id =
      if is_join config message
      then join_whitelist out message
      else elim (user_command authorized message) [
        | some command ↦ run_command out message command
        | none ↦ queue_or_answer config out authorized message message_id
      ]

  module _ (from_str : XmlReader RawWechatMessage) where
    -- The encryption type of the source's last argument goes to the log only.
    unfoldable pub process_plain_xml :
        ReceiverConfig → Surroundings → Text → Text → Text → Exec World (Option Text)
    unfolding on_db message_insert react
    process_plain_xml config out request_id raw_dir plain_xml = do
      message ← lift (parse_plain_message from_str plain_xml)
      authorized ← gets (λ w. is_openid_whitelisted (common message).from_user_name w.db)
      message_id ← on_db (
          insert_message_idempotent out.insert_connection out.id_connection
            (message_insert config out request_id raw_dir authorized message))
      react config out authorized message message_id
