-- ===== src/Wechat/Message.antt =====
-- src/wechat/message.rs, with the string newtypes of src/wechat/types.rs as texts. `f64` and the
-- signed integers are only passed on: an `f64` is its bit pattern, and `i64` and `i32` are the
-- two's complement patterns, all as numbers.
pub mod Convert
use sage_wiki_bridge_wxo.Base.{
  ℕ, ◌≡◌, refl, ◌⊎◌, inl, inr, Bool, true, false, Option, none, some, ◌++◌, if◌then◌else◌,
}
use sage_wiki_bridge_wxo.Text.{Text, lit, text_eq}
use sage_wiki_bridge_wxo.Error.{BridgeError, wechat_xml_invalid, Result, ok, err, ◌>>=◌, ok_or}

pub record CommonFields : Type 0 where
  pub to_user_name : Text
  pub from_user_name : Text
  pub create_time : ℕ
  pub msg_id : Option Text

pub record TextMessage : Type 0 where
  pub common : CommonFields
  pub content : Text

pub record ImageMessage : Type 0 where
  pub common : CommonFields
  pub pic_url : Option Text
  pub media_id : Text

pub record VoiceMessage : Type 0 where
  pub common : CommonFields
  pub media_id : Text
  pub format : Option Text
  pub recognition : Option Text

pub record VideoMessage : Type 0 where
  pub common : CommonFields
  pub media_id : Text
  pub thumb_media_id : Option Text

pub record LocationMessage : Type 0 where
  pub common : CommonFields
  pub latitude : ℕ
  pub longitude : ℕ
  pub scale : Option ℕ
  pub label : Option Text

pub record LinkMessage : Type 0 where
  pub common : CommonFields
  pub title : Option Text
  pub description : Option Text
  pub url : Text

pub record UnsupportedMessage : Type 0 where
  pub common : CommonFields
  pub msg_type : Text

pub data IncomingMessage : Type 0 where
  text : TextMessage → IncomingMessage
  image : ImageMessage → IncomingMessage
  voice : VoiceMessage → IncomingMessage
  video : VideoMessage → IncomingMessage
  short_video : VideoMessage → IncomingMessage
  location : LocationMessage → IncomingMessage
  link : LinkMessage → IncomingMessage
  unsupported : UnsupportedMessage → IncomingMessage

-- What quick-xml and serde deserialize a callback into.
pub record RawWechatMessage : Type 0 where
  pub to_user_name : Text
  pub from_user_name : Text
  pub create_time : ℕ
  pub msg_type : Text
  pub msg_id : Option Text
  pub content : Option Text
  pub pic_url : Option Text
  pub media_id : Option Text
  pub format : Option Text
  pub recognition : Option Text
  pub thumb_media_id : Option Text
  pub location_x : Option ℕ
  pub location_y : Option ℕ
  pub scale : Option ℕ
  pub label : Option Text
  pub title : Option Text
  pub description : Option Text
  pub url : Option Text

unfoldable pub common : IncomingMessage → CommonFields
common (text m) = m.common
common (image m) = m.common
common (voice m) = m.common
common (video m) = m.common
common (short_video m) = m.common
common (location m) = m.common
common (link m) = m.common
common (unsupported m) = m.common

unfoldable pub msg_type : IncomingMessage → Text
msg_type (text m) = lit "text"
msg_type (image m) = lit "image"
msg_type (voice m) = lit "voice"
msg_type (video m) = lit "video"
msg_type (short_video m) = lit "shortvideo"
msg_type (location m) = lit "location"
msg_type (link m) = lit "link"
msg_type (unsupported m) = lit "unsupported"

unfoldable pub is_supported : IncomingMessage → Bool
is_supported (unsupported m) = false
is_supported _ = true

unfoldable pub content_text : IncomingMessage → Option Text
content_text (text m) = some m.content
content_text _ = none

unfoldable pub required {ℓ} : {A : Type ℓ} → Option A → Text → Result A
required value field = ok_or value (wechat_xml_invalid (lit "missing required field " ++ field))

unfoldable pub raw_common : RawWechatMessage → CommonFields
raw_common raw = record {
  to_user_name = raw.to_user_name;
  from_user_name = raw.from_user_name;
  create_time = raw.create_time;
  msg_id = raw.msg_id;
}

-- The `"video"` and the `"shortvideo"` case, which build the same record.
unfoldable pub try_video : RawWechatMessage → Result VideoMessage
unfolding raw_common required
try_video raw = do
  media_id ← required raw.media_id (lit "MediaId")
  ok (record { common = raw_common raw; media_id = media_id; thumb_media_id = raw.thumb_media_id })

unfoldable pub try_from : RawWechatMessage → Result IncomingMessage
unfolding raw_common required try_video
try_from raw =
    if text_eq raw.msg_type (lit "text")
    then (do
      content ← required raw.content (lit "Content")
      ok (text (record { common = raw_common raw; content = content })))
    else if text_eq raw.msg_type (lit "image")
    then (do
      media_id ← required raw.media_id (lit "MediaId")
      ok (image (record { common = raw_common raw; pic_url = raw.pic_url; media_id = media_id })))
    else if text_eq raw.msg_type (lit "voice")
    then (do
      media_id ← required raw.media_id (lit "MediaId")
      ok (
          voice (record {
            common = raw_common raw;
            media_id = media_id;
            format = raw.format;
            recognition = raw.recognition;
          })))
    else if text_eq raw.msg_type (lit "video")
    then (do m ← try_video raw; ok (video m))
    else if text_eq raw.msg_type (lit "shortvideo")
    then (do m ← try_video raw; ok (short_video m))
    else if text_eq raw.msg_type (lit "location")
    then (do
      latitude ← required raw.location_x (lit "Location_X")
      longitude ← required raw.location_y (lit "Location_Y")
      ok (
          location (record {
            common = raw_common raw;
            latitude = latitude;
            longitude = longitude;
            scale = raw.scale;
            label = raw.label;
          })))
    else if text_eq raw.msg_type (lit "link")
    then (do
      url ← required raw.url (lit "Url")
      ok (
          link (record {
            common = raw_common raw;
            title = raw.title;
            description = raw.description;
            url = url;
          })))
    else ok (unsupported (record { common = raw_common raw; msg_type = raw.msg_type }))

-- `from_str` of quick-xml, with the text of its error.
abbrev pub XmlReader : Type 0 → Type 0
XmlReader A = Text → Text ⊎ A

unfoldable pub parse_plain_message : XmlReader RawWechatMessage → Text → Result IncomingMessage
unfolding try_from
parse_plain_message from_str xml = elim (from_str xml) [
  | inl e ↦ err (wechat_xml_invalid e)
  | inr raw ↦ try_from raw
]
