-- ===== src/Examples.antt =====
-- Data that the examples of the children share, and the theorems at concrete inputs.
mod Requests
mod Queries
mod Callbacks
mod Others
mod Workers
mod Links
mod Sources
mod Configs
mod Media
use sage_wiki_bridge_wxo.Base.{ℕ, Bool, true, false, Option, none, some, [], ◌∷◌, inr}
use sage_wiki_bridge_wxo.Text.{Text, lit}
use sage_wiki_bridge_wxo.Files.{Fault}
use sage_wiki_bridge_wxo.Wechat.Message.{
  CommonFields, TextMessage, IncomingMessage, RawWechatMessage, XmlReader,
}
use sage_wiki_bridge_wxo.Store.Schema.{MessageStatus, MessageInsert, Db, empty_db}
use sage_wiki_bridge_wxo.Store.Messages.{upsert_whitelist}
use sage_wiki_bridge_wxo.Receiver.Process.{ReceiverConfig, Surroundings, World}
use sage_wiki_bridge_wxo.Receiver.Callback.{CallbackQuery}

-- A text message of Alice with the given content.
abbrev raw_text : Text → RawWechatMessage
raw_text content = record {
  to_user_name = lit "bot";
  from_user_name = lit "alice";
  create_time = 7;
  msg_type = lit "text";
  msg_id = some (lit "m1");
  content = some content;
  pic_url = none;
  media_id = none;
  format = none;
  recognition = none;
  thumb_media_id = none;
  location_x = none;
  location_y = none;
  scale = none;
  label = none;
  title = none;
  description = none;
  url = none;
}

abbrev alice_common : CommonFields
alice_common = record {
  to_user_name = lit "bot";
  from_user_name = lit "alice";
  create_time = 7;
  msg_id = some (lit "m1");
}

abbrev alice_text : Text → TextMessage
alice_text content = record { common = alice_common; content = content }

abbrev alice_says : Text → IncomingMessage
alice_says content = IncomingMessage.text (alice_text content)

-- A reader for which a document is the content of such a message, and one of envelopes.
abbrev reader : XmlReader RawWechatMessage
reader xml = inr (raw_text xml)

abbrev envelope_reader : XmlReader Text
envelope_reader xml = inr xml

abbrev settings : Bool → ReceiverConfig
settings encrypted = record {
  wechat_token = lit "t";
  encrypted_callback_enabled = encrypted;
  wechat_app_id = some (lit "app");
  wechat_encoding_aes_key = some (lit "key");
  honeypot_reply_enabled = true;
  honeypot_reply_text = lit "hi";
  whitelist_join_command = some (lit "/join");
  raw_archive = record { root = lit "" ∷ lit "raw" ∷ []; save_full_payload = true };
}

abbrev surroundings : Surroundings
surroundings = record {
  now = some (lit "2026-01-01T00:00:00Z");
  unix_timestamp = 1767225600;
  insert_connection = 0;
  id_connection = 0;
  whitelist_connection = 0;
  job_connection = 0;
  fault = Fault.no_fault;
  metadata_len = λ path. none;
}

abbrev forged_query : CallbackQuery
forged_query = record {
  signature = some (lit "0");
  msg_signature = some (lit "0");
  timestamp = lit "1";
  nonce = lit "2";
  encrypt_type = some (lit "aes");
}

-- The database with Alice on the whitelist.
abbrev alice_db : Db
alice_db =
    (upsert_whitelist 0 (lit "alice") (lit "sha256:alice") (lit "wechat-magic-command") empty_db).1

abbrev alice_world : World
alice_world = record { db = alice_db; files = λ path. none }

abbrev empty_world : World
empty_world = record { db = empty_db; files = λ path. none }

abbrev hello : MessageInsert
hello = record {
  request_id = lit "req_1_2";
  wechat_msg_id = some (lit "m1");
  to_user_name = lit "bot";
  from_openid = lit "alice";
  from_openid_hash = lit "sha256:alice";
  create_time = some 7;
  received_at = lit "2026-01-01T00:00:00Z";
  message_type = lit "text";
  content_text = some (lit "hello");
  media_id = none;
  thumb_media_id = none;
  pic_url = none;
  voice_format = none;
  voice_recognition = none;
  location_lat = none;
  location_lng = none;
  location_scale = none;
  location_label = none;
  link_title = none;
  link_description = none;
  link_url = none;
  authorized = true;
  status = MessageStatus.queued;
  raw_dir = lit "raw://req_1_2";
}
