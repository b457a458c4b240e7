-- ===== src/Receiver/Joins.antt =====
-- Messages that put their sender on the whitelist.
use sage_wiki_bridge_wxo.Base.{
  ℕ, ◌≡◌, refl, inl, inr, ap, true, ◌&&◌, none, List, [], ◌∷◌, ◌++◌, is_some, arith, Bool-cases,
  ltb,
}
use sage_wiki_bridge_wxo.Text.{Text, lit, text_eq, text_eq_refl}
use sage_wiki_bridge_wxo.Error.{ok}
use sage_wiki_bridge_wxo.Exec.{◌>>=◌, ◌>>◌, proceed, pure}
use sage_wiki_bridge_wxo.Table.{first_where, count_where, update_where}
use sage_wiki_bridge_wxo.Wechat.Message.{
  IncomingMessage, RawWechatMessage, common, XmlReader, parse_plain_message,
}
use sage_wiki_bridge_wxo.Wechat.Primitives.{Primitives}
use sage_wiki_bridge_wxo.Store.Schema.{WhitelistRow, Db}
use sage_wiki_bridge_wxo.Store.Messages.{has_openid, upsert_whitelist, is_openid_whitelisted}
use sage_wiki_bridge_wxo.Receiver.Process.{
  ReceiverConfig, Surroundings, World, on_db, is_join, sha256_for_display, join_whitelist,
  process_plain_xml,
}
use sage_wiki_bridge_wxo.Receiver.Queues.{inserted, process_plain_xml-react}
use sage_wiki_bridge_wxo.Receiver.Effects.{react-join}

count_where-updated :
    (openid openid_hash source : Text) (rows : List WhitelistRow)
    → is_some (first_where (has_openid openid) rows) ≡ true
    → ltb 0 (
        count_where
          (λ row. text_eq row.openid openid && row.enabled)
          (update_where
            (has_openid openid)
            (λ row. record row { openid_hash = openid_hash; source = source; enabled = true })
            rows))
      ≡ true
unfolding first_where count_where update_where has_openid
count_where-updated openid openid_hash source [] h = cc
count_where-updated openid openid_hash source (row ∷ rows) h =
    ground (arith, count_where-updated openid openid_hash source rows)

openid_appended :
    (openid openid_hash source : Text) (id : ℕ) (rows : List WhitelistRow)
    → ltb 0 (
        count_where
          (λ row. text_eq row.openid openid && row.enabled)
          (rows
            ++ record {
              id = id;
              openid = openid;
              openid_hash = openid_hash;
              source = source;
              enabled = true;
            }
              ∷ []))
      ≡ true
unfolding count_where
openid_appended openid openid_hash source id [] = rw (text_eq_refl openid) refl
openid_appended openid openid_hash source id (row ∷ rows) =
    ground (arith, openid_appended openid openid_hash source id rows)

-- An openid that is put on the whitelist, or was on it and even disabled, is whitelisted.
pub upsert_whitelist-is_openid_whitelisted :
    (connection : ℕ) (openid openid_hash source : Text) (db : Db)
    → is_openid_whitelisted openid (upsert_whitelist connection openid openid_hash source db).1
      ≡ true
unfolding is_openid_whitelisted upsert_whitelist
upsert_whitelist-is_openid_whitelisted connection openid openid_hash source db =
    elim (Bool-cases (is_some (first_where (has_openid openid) db.whitelist))) [
      | inl old ↦
          rw (old, upsert_whitelist)
            (count_where-updated openid openid_hash source db.whitelist old)
      | inr new ↦
          rw (new, upsert_whitelist)
            (openid_appended openid openid_hash source db.next_whitelist_id db.whitelist)
    ]

upsert_whitelist-ok :
    (connection : ℕ) (openid openid_hash source : Text) (db : Db)
    → (upsert_whitelist connection openid openid_hash source db).0 ≡ ok tt
unfolding upsert_whitelist
upsert_whitelist-ok connection openid openid_hash source db =
    elim (Bool-cases (is_some (first_where (has_openid openid) db.whitelist))) [
      | inl old ↦ rw (old, upsert_whitelist) refl
      | inr new ↦ rw (new, upsert_whitelist) refl
    ]

join_whitelist-joins :
    (p : Primitives) (out : Surroundings) (message : IncomingMessage) (w : World)
    → let (answer, w') = join_whitelist p out message w in
      (answer ≡ ok none) × (is_openid_whitelisted (common message).from_user_name w'.db ≡ true)
join_whitelist-joins p out message w =
    let openid = (common message).from_user_name in
    let source = lit "wechat-magic-command" in
    let fine =
      upsert_whitelist-ok out.whitelist_connection openid (sha256_for_display p openid) source
        w.db in
    unfold join_whitelist ◌>>◌ ◌>>=◌ proceed on_db pure in
    rw fine (
      refl,
      upsert_whitelist-is_openid_whitelisted out.whitelist_connection openid
          (sha256_for_display p openid) source w.db,
    )

module _ (p : Primitives) (from_str : XmlReader RawWechatMessage) where
  module _ (config : ReceiverConfig) (out : Surroundings)
      (request_id raw_dir plain_xml : Text) where
    -- A text message that is the join command is answered with an empty reply, and its sender is
    -- on the whitelist afterwards.
    pub process_plain_xml-joins :
        (message : IncomingMessage) (w : World)
        → parse_plain_message from_str plain_xml ≡ ok message
        → is_join config message ≡ true
        → let (answer, w') =
            process_plain_xml p from_str config out request_id raw_dir plain_xml w in
          (answer ≡ ok none) × (is_openid_whitelisted (common message).from_user_name w'.db ≡ true)
    process_plain_xml-joins message w parsed join =
        let (id, given, same) =
          process_plain_xml-react p from_str config out request_id raw_dir plain_xml message w
            parsed in
        let w₁ = record w { db = inserted p config out request_id raw_dir w.db message } in
        let authorized = is_openid_whitelisted (common message).from_user_name w.db in
        rw (same, ap (λ r. r w₁) (react-join p config out authorized message id join))
          (join_whitelist-joins p out message w₁)
