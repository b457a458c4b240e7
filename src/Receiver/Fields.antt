-- ===== src/Receiver/Fields.antt =====
-- The columns that src/receiver/mod.rs takes from a message, and the commands it recognizes.
use mathlib.Core.Option
use sage_wiki_bridge_wxo.Base.{ℕ, Bool, false, Option, none, some, if◌then◌else◌}
use sage_wiki_bridge_wxo.Text.{Text, lit, text_eq, trim, non_empty}
use sage_wiki_bridge_wxo.Wechat.Message.{
  IncomingMessage, text, image, voice, video, short_video, location, link,
}

unfoldable pub media_id : IncomingMessage → Option Text
media_id (image m) = some m.media_id
media_id (voice m) = some m.media_id
media_id (video m) = some m.media_id
media_id (short_video m) = some m.media_id
media_id _ = none

unfoldable pub thumb_media_id : IncomingMessage → Option Text
thumb_media_id (video m) = m.thumb_media_id
thumb_media_id (short_video m) = m.thumb_media_id
thumb_media_id _ = none

unfoldable pub pic_url : IncomingMessage → Option Text
pic_url (image m) = m.pic_url
pic_url _ = none

unfoldable pub voice_format : IncomingMessage → Option Text
voice_format (voice m) = m.format
voice_format _ = none

unfoldable pub voice_recognition : IncomingMessage → Option Text
voice_recognition (voice m) = m.recognition
voice_recognition _ = none

unfoldable pub location_lat : IncomingMessage → Option ℕ
location_lat (location m) = some m.latitude
location_lat _ = none

unfoldable pub location_lng : IncomingMessage → Option ℕ
location_lng (location m) = some m.longitude
location_lng _ = none

unfoldable pub location_scale : IncomingMessage → Option ℕ
location_scale (location m) = m.scale
location_scale _ = none

unfoldable pub location_label : IncomingMessage → Option Text
location_label (location m) = m.label
location_label _ = none

unfoldable pub link_title : IncomingMessage → Option Text
link_title (link m) = m.title
link_title _ = none

unfoldable pub link_description : IncomingMessage → Option Text
link_description (link m) = m.description
link_description _ = none

unfoldable pub link_url : IncomingMessage → Option Text
link_url (link m) = some m.url
link_url _ = none

pub data UserCommand : Type 0 where
  new status help : UserCommand

unfoldable pub user_command_of : Text → Option UserCommand
user_command_of content =
    if text_eq content (lit "/new")
    then some UserCommand.new
    else if text_eq content (lit "/status")
    then some UserCommand.status
    else if text_eq content (lit "/help")
    then some UserCommand.help
    else none

unfoldable pub detect_user_command : IncomingMessage → Option UserCommand
unfolding trim user_command_of
detect_user_command (text m) = user_command_of (trim m.content)
detect_user_command _ = none

-- The text of a message against a command that is not empty.
unfoldable pub is_text_of : Text → IncomingMessage → Bool
unfolding trim
is_text_of command (text m) = text_eq (trim m.content) command
is_text_of command _ = false

unfoldable pub is_whitelist_join_command : IncomingMessage → Option Text → Bool
unfolding trim is_text_of
is_whitelist_join_command message command = elim (non_empty (Option.map trim command)) [
  | none ↦ false
  | some value ↦ is_text_of value message
]
