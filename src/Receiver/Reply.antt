-- ===== src/Receiver/Reply.antt =====
-- The replies of src/receiver/mod.rs.
use sage_wiki_bridge_wxo.Base.{
  ℕ, zero, suc, ◌-◌, Option, List, [], ◌∷◌, ◌++◌, if◌then◌else◌, length,
}
use sage_wiki_bridge_wxo.Text.{Text, lit, text_eq, starts_with, show_nat}
use sage_wiki_bridge_wxo.Store.Schema.{Db}
use sage_wiki_bridge_wxo.Store.Status.{StatusSnapshot, status_snapshot}
use sage_wiki_bridge_wxo.Receiver.Fields.{UserCommand}

-- `value.replace(from, to)` for a `from` that is not empty; the number is how many characters of an
-- occurrence are still to be passed over.
unfoldable pub replace_from : Text → Text → ℕ → Text → Text
unfolding starts_with
replace_from from to n [] = []
replace_from from to (suc n) (c ∷ t) = replace_from from to n t
replace_from from to zero (c ∷ t) =
    let rest = replace_from from to 0 t in
    let behind = replace_from from to (length from - 1) t in
    if starts_with from (c ∷ t) then to ++ behind else c ∷ rest

unfoldable pub sanitize_cdata : Text → Text
unfolding replace_from
sanitize_cdata = replace_from (lit "]]>") (lit "]]]]><![CDATA[>") 0

-- The clock's time is not before 1970.
unfoldable pub passive_text_reply : ℕ → Text → Text → Text → Text
passive_text_reply unix_timestamp to_user from_user content =
    lit "<xml><ToUserName><![CDATA["
    ++ (to_user
        ++ (lit "]]></ToUserName><FromUserName><![CDATA["
            ++ (from_user
                ++ (lit "]]></FromUserName><CreateTime>"
                    ++ (show_nat unix_timestamp
                        ++ (lit "</CreateTime><MsgType><![CDATA[text]]></MsgType><Content><![CDATA["
                            ++ (sanitize_cdata content ++ lit "]]></Content></xml>")))))))

unfoldable pub grouped_count : List (Text × ℕ) → Text → ℕ
grouped_count [] key = 0
grouped_count ((name, count) ∷ counts) key =
    let rest = grouped_count counts key in if text_eq name key then count else rest

unfoldable pub render_status_reply : StatusSnapshot → Text
unfolding grouped_count
render_status_reply snapshot =
    lit "已接收 "
    ++ (show_nat snapshot.total_messages
        ++ (lit " 条，已写入 "
            ++ (show_nat snapshot.source_written_messages
                ++ (lit " 条，失败 "
                    ++ (show_nat snapshot.failed_messages
                        ++ (lit " 条，待处理 "
                            ++ (show_nat (grouped_count snapshot.jobs_by_status (lit "pending"))
                                ++ (lit " 条，处理中 "
                                    ++ (show_nat
                                          (grouped_count snapshot.jobs_by_status (lit "processing"))
                                        ++ (lit " 条，重试 "
                                            ++ (show_nat snapshot.retry_attempts
                                                ++ lit " 次。")))))))))))

unfoldable pub command_reply : (Text → Option ℕ) → Db → UserCommand → Text
unfolding render_status_reply status_snapshot
command_reply metadata_len db UserCommand.new = lit "已开始新的话题。"
command_reply metadata_len db UserCommand.help = lit "可用命令：/new 开启新话题；/status 查看处理状态；/help 查看帮助。"
command_reply metadata_len db UserCommand.status =
    render_status_reply (status_snapshot metadata_len db)
