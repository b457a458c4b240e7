-- ===== src/Wechat/Message/Convert.antt =====
-- What the conversion of a raw callback keeps and when it fails.
use sage_wiki_bridge_wxo.Base.{◌≡◌, refl, any_of, List, [], ◌∷◌, none, some, arith, false}
use sage_wiki_bridge_wxo.Text.{Text, lit, text_eq}
use sage_wiki_bridge_wxo.Error.{ok}
use sage_wiki_bridge_wxo.Wechat.Message.{
  RawWechatMessage, IncomingMessage, CommonFields, text, image, voice, video, short_video, location,
  link, unsupported, common, raw_common, try_from,
}

-- A conversion that succeeds keeps the common fields.
pub try_from-common :
    (raw : RawWechatMessage) (m : IncomingMessage) → try_from raw ≡ ok m → common m ≡ raw_common raw
unfolding try_from common
try_from-common raw m h = ground arith

abbrev no_fields : CommonFields → Text → RawWechatMessage
no_fields c t = record {
  to_user_name = c.to_user_name;
  from_user_name = c.from_user_name;
  create_time = c.create_time;
  msg_type = t;
  msg_id = c.msg_id;
  content = none;
  pic_url = none;
  media_id = none;
  format = none;
  recognition = none;
  thumb_media_id = none;
  location_x = none;
  location_y = none;
  scale = none;
  label = none;
  title = none;
  description = none;
  url = none;
}

-- The callback that carries a message: the fields of its type, and no others.
pub to_raw : IncomingMessage → RawWechatMessage
to_raw (text m) = record (no_fields m.common (lit "text")) { content = some m.content }
to_raw (image m) = record (no_fields m.common (lit "image")) {
  pic_url = m.pic_url;
  media_id = some m.media_id;
}
to_raw (voice m) = record (no_fields m.common (lit "voice")) {
  media_id = some m.media_id;
  format = m.format;
  recognition = m.recognition;
}
to_raw (video m) = record (no_fields m.common (lit "video")) {
  media_id = some m.media_id;
  thumb_media_id = m.thumb_media_id;
}
to_raw (short_video m) = record (no_fields m.common (lit "shortvideo")) {
  media_id = some m.media_id;
  thumb_media_id = m.thumb_media_id;
}
to_raw (location m) = record (no_fields m.common (lit "location")) {
  location_x = some m.latitude;
  location_y = some m.longitude;
  scale = m.scale;
  label = m.label;
}
to_raw (link m) = record (no_fields m.common (lit "link")) {
  title = m.title;
  description = m.description;
  url = some m.url;
}
to_raw (unsupported m) = no_fields m.common m.msg_type

abbrev pub known_types : List Text
known_types =
    lit "text"
    ∷ lit "image"
    ∷ lit "voice"
    ∷ lit "video"
    ∷ lit "shortvideo"
    ∷ lit "location"
    ∷ lit "link"
    ∷ []

-- An unsupported message does not bear the name of a supported type.
abbrev pub IsNamed : IncomingMessage → Type 0
IsNamed (unsupported m) = any_of (text_eq m.msg_type) known_types ≡ false
IsNamed _ = Unit

-- Converting the callback of a message gives the message back: of each of the seven types, and of an
-- unsupported message whose type is none of these.
pub try_from-to_raw : (m : IncomingMessage) → IsNamed m → try_from (to_raw m) ≡ ok m
unfolding try_from to_raw lit text_eq
try_from-to_raw (unsupported m) h = ground arith
try_from-to_raw (text m) h = refl
try_from-to_raw _ h = refl
