-- ===== src/Receiver/Boundary.antt =====
-- The two tests for the command `/new`: the receiver's, and the one in the query for a thread.
use sage_wiki_bridge_wxo.Base.{
  ℕ, ◌≡◌, refl, ap, ◌∙◌, true, false, some, [], ◌∷◌, ◌++◌, arith, ◌==◌, unwrap_or,
}
use sage_wiki_bridge_wxo.Text.{Text, lit, text_eq, trim, trim_spaces, is_whitespace}
use sage_wiki_bridge_wxo.Text.Trim.{trim_start, trim_end, drop_while, drop_end_while, keep_end}
use sage_wiki_bridge_wxo.Wechat.Message.{TextMessage, IncomingMessage}
use sage_wiki_bridge_wxo.Store.Schema.{MessageRow}
use sage_wiki_bridge_wxo.Store.Messages.{is_boundary}
use sage_wiki_bridge_wxo.Receiver.Fields.{UserCommand, detect_user_command, user_command_of}

trim-new : (c : ℕ) → is_whitespace c ≡ true → trim (lit "/new" ++ c ∷ []) ≡ lit "/new"
unfolding lit trim trim_start trim_end drop_while drop_end_while keep_end is_whitespace
trim-new c h = rw h refl

trim_spaces-new :
    (c : ℕ)
    → (c == 0x20) ≡ false
    → text_eq (trim_spaces (lit "/new" ++ c ∷ [])) (lit "/new") ≡ false
unfolding lit trim_spaces text_eq drop_while drop_end_while keep_end
trim_spaces-new c h = rw h refl

-- A text `/new` with a white space behind it that is not the space is answered as the command, but
-- does not separate two threads, whatever the status and the place of its row are.
pub detect_user_command-is_boundary :
    (c : ℕ) (m : TextMessage) (from_openid_hash : Text) (current_id candidate_id : ℕ)
    (row : MessageRow)
    → is_whitespace c ≡ true
    → (c == 0x20) ≡ false
    → m.content ≡ lit "/new" ++ c ∷ []
    → row.content_text ≡ some m.content
    → (detect_user_command (IncomingMessage.text m) ≡ some UserCommand.new)
      × (is_boundary from_openid_hash current_id candidate_id row ≡ false)
unfolding detect_user_command is_boundary
detect_user_command-is_boundary c m hash current_id candidate_id row white other content stored =
    let trimmed = ap trim content ∙ trim-new c white in
    let kept : text_eq (trim_spaces (unwrap_or [] row.content_text)) (lit "/new") ≡ false =
      rw (stored, content) (trim_spaces-new c other) in
    (rw trimmed (unfold user_command_of text_eq lit in refl), ground (arith, kept))
