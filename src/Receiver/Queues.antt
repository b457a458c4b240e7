-- ===== src/Receiver/Queues.antt =====
-- Which messages are queued for the workers.
use sage_wiki_bridge_wxo.Base.{
  ℕ, ◌≡◌, refl, ap, ◌∙◌, ◌⊎◌, inl, inr, true, false, none, [], ◌∷◌, ◌++◌,
}
use sage_wiki_bridge_wxo.Text.{Text}
use sage_wiki_bridge_wxo.Error.{Result, ok, Result-cases}
use sage_wiki_bridge_wxo.Exec.{◌>>=◌, proceed, lift, gets}
use sage_wiki_bridge_wxo.Wechat.Message.{
  IncomingMessage, RawWechatMessage, common, is_supported, XmlReader, parse_plain_message,
}
use sage_wiki_bridge_wxo.Wechat.Primitives.{Primitives}
use sage_wiki_bridge_wxo.Store.Schema.{Db}
use sage_wiki_bridge_wxo.Store.Messages.{is_openid_whitelisted, insert_message_idempotent}
use sage_wiki_bridge_wxo.Receiver.Fields.{detect_user_command}
use sage_wiki_bridge_wxo.Receiver.Process.{
  ReceiverConfig, Surroundings, World, on_db, is_join, message_insert, react, process_plain_xml,
}
use sage_wiki_bridge_wxo.Receiver.Inserts.{
  insert_message_idempotent-tables, insert_message_idempotent-ok,
}
use sage_wiki_bridge_wxo.Receiver.Effects.{job_now, command_of_authorized, react-jobs}

-- The message is of a supported type, its sender is on the whitelist, and it is no command.
pub record MayQueue (config : ReceiverConfig) (db : Db) (message : IncomingMessage) : Type 0 where
  pub whitelisted : is_openid_whitelisted (common message).from_user_name db ≡ true
  pub supported : is_supported message ≡ true
  pub no_command : detect_user_command message ≡ none
  pub no_join : is_join config message ≡ false

module _ (p : Primitives) where
  module _ (config : ReceiverConfig) (out : Surroundings) (request_id raw_dir : Text) where
    -- The insertion of a message, with its result.
    abbrev pub insertion : Db → IncomingMessage → Result ℕ × Db
    insertion db message =
        insert_message_idempotent out.insert_connection out.id_connection
          (message_insert p config out request_id raw_dir
            (is_openid_whitelisted (common message).from_user_name db) message)
          db

    -- The database once the message is inserted.
    abbrev pub inserted : Db → IncomingMessage → Db
    inserted db message = (insertion db message).1

    inserted_tables :
        (db : Db) (message : IncomingMessage)
        → ((inserted db message).jobs ≡ db.jobs)
          × ((inserted db message).whitelist ≡ db.whitelist)
          × ((inserted db message).next_job_id ≡ db.next_job_id)
    inserted_tables db message =
        insert_message_idempotent-tables out.insert_connection out.id_connection
          (message_insert p config out request_id raw_dir
            (is_openid_whitelisted (common message).from_user_name db) message)
          db

  module _ (from_str : XmlReader RawWechatMessage) where
    module _ (config : ReceiverConfig) (out : Surroundings)
        (request_id raw_dir plain_xml : Text) where
      -- The handler of a text that is a message: the insertion gives an id, and the rest follows.
      pub process_plain_xml-react :
          (message : IncomingMessage) (w : World)
          → parse_plain_message from_str plain_xml ≡ ok message
          → let authorized = is_openid_whitelisted (common message).from_user_name w.db in
            (message_id : ℕ) × ((insert_message_idempotent out.insert_connection out.id_connection
                (message_insert p config out request_id raw_dir authorized message)
                w.db).0
              ≡ ok message_id)
            × (process_plain_xml p from_str config out request_id raw_dir plain_xml w
                ≡ react p config out authorized message message_id
                    (record w { db = inserted config out request_id raw_dir w.db message }))
      unfolding process_plain_xml ◌>>=◌ proceed lift gets on_db
      process_plain_xml-react message w parsed =
          let authorized = is_openid_whitelisted (common message).from_user_name w.db in
          let (id, given) =
            insert_message_idempotent-ok out.insert_connection out.id_connection
              (message_insert p config out request_id raw_dir authorized message) w.db in
          (id, given, rw (parsed, given))

      -- A received text leaves the jobs as they are, or it is a message that may be queued and the
      -- jobs get one more at their end: a pending one, due at once, for the id that the message's
      -- insertion gave.
      pub process_plain_xml-jobs :
          (w : World)
          → let w' = (process_plain_xml p from_str config out request_id raw_dir plain_xml w).1 in
            (w'.db.jobs ≡ w.db.jobs)
            ⊎ ((message : IncomingMessage) × (message_id : ℕ) × (parse_plain_message from_str
                    plain_xml
                  ≡ ok message)
                × MayQueue config w.db message
                × ((insertion config out request_id raw_dir w.db message).0 ≡ ok message_id)
                × (w'.db.jobs ≡ w.db.jobs ++ job_now out w.db message_id ∷ []))
      process_plain_xml-jobs w = elim (Result-cases (parse_plain_message from_str plain_xml)) [
        | inr (e, failed) ↦ inl (unfold process_plain_xml ◌>>=◌ proceed lift in rw failed)
        | inl (message, parsed) ↦
            let (id, given, same) = process_plain_xml-react message w parsed in
            let after = inserted config out request_id raw_dir w.db message in
            let (jobs, _, next) = inserted_tables config out request_id raw_dir w.db message in
            let kept = ap (λ r. r.1.db.jobs) same in
            elim (react-jobs p config out
              (is_openid_whitelisted (common message).from_user_name w.db) message id
              (record w { db = after })) [
                | inl stay ↦ inl (kept ∙ stay ∙ jobs)
                | inr (a, supported, c, no_join, added) ↦
                    let may : MayQueue config w.db message = record {
                      whitelisted = a;
                      supported = supported;
                      no_command = command_of_authorized _ message a c;
                      no_join = no_join;
                    } in
                    let more : after.jobs ++ job_now out after id ∷ []
                        ≡ w.db.jobs ++ job_now out w.db id ∷ [] =
                      rw (jobs, next) refl in
                    inr (message, id, parsed, may, given, kept ∙ added ∙ more)
              ]
      ]
