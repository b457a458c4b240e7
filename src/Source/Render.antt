-- ===== src/Source/Render.antt =====
-- How src/source/mod.rs renders the documents and their items.
use sage_wiki_bridge_wxo.Base.{ℕ, Option, none, some, [], ◌∷◌, ◌++◌, ◌==◌, if◌then◌else◌}
use sage_wiki_bridge_wxo.Text.{Text, lit, trim}
use sage_wiki_bridge_wxo.Preprocess.{ProcessedArtifact, show_i64}
use sage_wiki_bridge_wxo.Source.{
  daily_start_marker, daily_end_marker, item_start_marker, item_end_marker,
}

pub record SourceMetadata : Type 0 where
  pub wechat_msg_id : Option Text
  pub thread_id : Option Text
  pub message_type : Text
  pub received_at : Text
  pub wechat_create_time : Option ℕ
  pub openid_hash : Text
  pub raw_dir : Option Text
  pub provider : Option Text
  pub model : Option Text
  pub external_service : Option Text
  pub bridge_version : Text

-- `value.replace(char, to)`
unfoldable pub replace_char : ℕ → Text → Text → Text
replace_char char to [] = []
replace_char char to (c ∷ t) =
    let rest = replace_char char to t in if c == char then to ++ rest else c ∷ rest

-- `value.replace('\\', "\\\\").replace('"', "\\\"")`
unfoldable pub escape : Text → Text
unfolding replace_char
escape value = replace_char b'"' (b'\\' ∷ b'"' ∷ []) (replace_char b'\\' (b'\\' ∷ b'\\' ∷ []) value)

-- What `push_yaml_str` adds.
unfoldable pub yaml_str : Text → Text → Text
yaml_str key value = key ++ (lit ": \"" ++ (escape value ++ lit "\"\n"))

-- What `push_bullet_str` adds.
unfoldable pub bullet_str : Text → Text → Text
bullet_str key value = lit "- " ++ (key ++ (lit ": \"" ++ (escape value ++ lit "\"\n")))

-- `if let Some(value) = value { push_bullet_str(&mut entry, key, value) }`
unfoldable pub bullet_opt : Text → Option Text → Text
unfolding bullet_str
bullet_opt key none = []
bullet_opt key (some value) = bullet_str key value

unfoldable pub render_ai_document_header : Text → Text
unfolding yaml_str
render_ai_document_header capture_date =
    lit "---\n"
    ++ (yaml_str (lit "source") (lit "wechat-official-account")
        ++ (yaml_str (lit "source_type") (lit "wechat_ai_messages")
            ++ (yaml_str (lit "capture_date") capture_date
                ++ (lit "---\n\n# WeChat Knowledge " ++ (capture_date ++ lit "\n")))))

unfoldable pub render_daily_log_document_header : Text → SourceMetadata → Text
unfolding yaml_str
render_daily_log_document_header capture_date metadata =
    lit "---\n"
    ++ (yaml_str (lit "source") (lit "wechat-official-account")
        ++ (yaml_str (lit "source_type") (lit "wechat_daily_messages")
            ++ (yaml_str (lit "capture_date") capture_date
                ++ (yaml_str (lit "bridge_version") metadata.bridge_version
                    ++ (lit "---\n\n# WeChat captures " ++ (capture_date ++ lit "\n"))))))

-- `if let Some(service) = &metadata.external_service`
unfoldable pub via_service : Option Text → Text
via_service none = []
via_service (some service) = lit "_via " ++ (service ++ lit "_\n\n")

unfoldable pub render_ai_item : Text → ProcessedArtifact → SourceMetadata → Text
unfolding via_service
render_ai_item message_key artifact metadata =
    item_start_marker message_key
    ++ (lit "\n["
        ++ (metadata.received_at
            ++ (lit " "
                ++ (metadata.message_type
                    ++ (lit "]\n\n"
                        ++ (trim artifact.markdown_body
                            ++ (lit "\n\n"
                                ++ (via_service metadata.external_service
                                    ++ (item_end_marker message_key ++ lit "\n")))))))))

-- `if let Some(create_time) = metadata.wechat_create_time`
unfoldable pub create_time_bullet : Option ℕ → Text
unfolding show_i64
create_time_bullet none = []
create_time_bullet (some create_time) =
    lit "- wechat_create_time: `" ++ (show_i64 create_time ++ lit "`\n")

-- The lines under `### Metadata`.
unfoldable pub metadata_bullets : Text → SourceMetadata → Text
unfolding bullet_str bullet_opt create_time_bullet
metadata_bullets message_key metadata =
    bullet_opt (lit "wechat_msg_id") metadata.wechat_msg_id
    ++ (bullet_str (lit "message_key") message_key
        ++ (bullet_str (lit "message_type") metadata.message_type
            ++ (bullet_str (lit "received_at") metadata.received_at
                ++ (create_time_bullet metadata.wechat_create_time
                    ++ (bullet_str (lit "openid_hash") metadata.openid_hash
                        ++ (bullet_opt (lit "provider") metadata.provider
                            ++ (bullet_opt (lit "model") metadata.model
                                ++ (bullet_opt (lit "external_service") metadata.external_service
                                    ++ (bullet_opt (lit "raw_dir") metadata.raw_dir
                                        ++ bullet_str (lit "bridge_version")
                                            metadata.bridge_version)))))))))

unfoldable pub render_daily_log_entry : Text → ProcessedArtifact → SourceMetadata → Text
unfolding metadata_bullets
render_daily_log_entry message_key artifact metadata =
    daily_start_marker message_key
    ++ (lit "\n\n## "
        ++ (metadata.received_at
            ++ (lit " "
                ++ (metadata.message_type
                    ++ (lit "\n\n### Metadata\n\n"
                        ++ (metadata_bullets message_key metadata
                            ++ (lit "\n### Processed Content\n\n"
                                ++ (trim artifact.markdown_body
                                    ++ (lit "\n\n"
                                        ++ (daily_end_marker message_key ++ lit "\n"))))))))))
