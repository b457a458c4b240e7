-- ===== src/Receiver/Runs.antt =====
-- What one request does to the database, exactly.
use sage_wiki_bridge_wxo.Base.{
  ℕ, ◌≡◌, refl, ap, ◌∙◌, ◌⊎◌, inl, inr, Bool, true, false, ◌&&◌, none, Bool-cases, Option-cases,
}
use sage_wiki_bridge_wxo.Text.{Text, lit}
use sage_wiki_bridge_wxo.Error.{Result, ok, Result-cases}
use sage_wiki_bridge_wxo.Exec.{Exec, ◌>>=◌, ◌>>◌, proceed, pure, lift, gets}
use sage_wiki_bridge_wxo.Wechat.Message.{
  IncomingMessage, RawWechatMessage, common, is_supported, XmlReader, parse_plain_message,
}
use sage_wiki_bridge_wxo.Wechat.Primitives.{Primitives}
use sage_wiki_bridge_wxo.Store.Schema.{Db}
use sage_wiki_bridge_wxo.Store.Messages.{
  upsert_whitelist, is_openid_whitelisted, insert_message_idempotent,
}
use sage_wiki_bridge_wxo.Store.Jobs.{create_job_once}
use sage_wiki_bridge_wxo.Receiver.Fields.{detect_user_command}
use sage_wiki_bridge_wxo.Receiver.Process.{
  ReceiverConfig, Surroundings, World, on_db, received_at, is_join, user_command, queue_job,
  sha256_for_display, message_insert, join_whitelist, react, process_plain_xml,
}
use sage_wiki_bridge_wxo.Receiver.Callback.{
  CallbackQuery, is_aes, receive_plain_message, receive_encrypted_message, receive_message,
  receive_callback,
}
use sage_wiki_bridge_wxo.Receiver.Keeps.{lift-Keeps, on_files-Keeps}
use sage_wiki_bridge_wxo.Receiver.Effects.{
  pure-IsPassive, bind-same, queue_or_answer-same, command_of_authorized, run_command-same,
  react-join, react-command, react-rest,
}
use sage_wiki_bridge_wxo.Receiver.Goes.{Goes, then-Goes, lift-Goes, if-Goes}

module _ (p : Primitives) (config : ReceiverConfig) (out : Surroundings) where
  abbrev sender : IncomingMessage → Text
  sender message = (common message).from_user_name

  -- The insertion of a message, with the status that the whitelist gives it.
  abbrev insertion : IncomingMessage → Text → Text → Exec Db ℕ
  insertion message request_id raw_dir db =
      insert_message_idempotent out.insert_connection out.id_connection
        (message_insert p config out request_id raw_dir (is_openid_whitelisted (sender message) db)
          message)
        db

  abbrev joining : IncomingMessage → Exec Db (Unit {0})
  joining message =
      upsert_whitelist out.whitelist_connection (sender message)
        (sha256_for_display p (sender message)) (lit "wechat-magic-command")

  abbrev queueing : ℕ → Exec Db ℕ
  queueing message_id =
      create_job_once out.job_connection message_id (lit "process_message") (received_at out)

  -- What a request makes of the database.
  pub data RequestRun (db db' : Db) : Type 0 where
    -- It stays as it is,
    nothing : db' ≡ db → RequestRun db db'
    -- or one message is inserted,
    stored :
        (message : IncomingMessage) (request_id raw_dir : Text)
        → db' ≡ (insertion message request_id raw_dir db).1
        → RequestRun db db'
    -- and its sender put on the whitelist, where it is the command to join,
    joined :
        (message : IncomingMessage) (request_id raw_dir : Text)
        → is_join config message ≡ true
        → db' ≡ (joining message (insertion message request_id raw_dir db).1).1
        → RequestRun db db'
    -- or a job created for it, where its sender was on the whitelist, its type is supported and it
    -- is no command.
    queued :
        (message : IncomingMessage) (request_id raw_dir : Text) (message_id : ℕ)
        → (insertion message request_id raw_dir db).0 ≡ ok message_id
        → is_openid_whitelisted (sender message) db ≡ true
        → is_supported message ≡ true
        → is_join config message ≡ false
        → detect_user_command message ≡ none
        → db' ≡ (queueing message_id (insertion message request_id raw_dir db).1).1
        → RequestRun db db'

  queue_job-same :
      (authorized : Bool) (message : IncomingMessage) (message_id : ℕ) (w : World)
      → ((queue_job out authorized message message_id w).1 ≡ w)
        ⊎ ((authorized ≡ true)
            × (is_supported message ≡ true)
            × ((queue_job out authorized message message_id w).1.db ≡ (queueing message_id w.db).1))
  unfolding queue_job
  queue_job-same authorized message message_id w =
      elim (Bool-cases (authorized && is_supported message)) [
        | inr bad ↦ inl (unfold pure in rw bad refl)
        | inl good ↦
            let (allowed, supported) = both authorized (is_supported message) good in
            inr (
              allowed,
              supported,
              rw good (
                  ap (λ u. u.db)
                    (bind-same (on_db (queueing message_id)) (λ job_id. pure tt)
                      (λ job_id. pure-IsPassive tt) w)
                  ∙ unfold on_db in refl),
            )
      ]
    where
      both : (a b : Bool) → a && b ≡ true → (a ≡ true) × (b ≡ true)
      both true b h = (refl, h)
      both false b h = cc

  react-RequestRun :
      (db : Db) (message : IncomingMessage) (request_id raw_dir : Text) (message_id : ℕ) (w : World)
      → (insertion message request_id raw_dir db).0 ≡ ok message_id
      → w.db ≡ (insertion message request_id raw_dir db).1
      → RequestRun db
          (react p config out (is_openid_whitelisted (sender message) db) message message_id w).1.db
  react-RequestRun db message request_id raw_dir message_id w inserted same =
      let authorized = is_openid_whitelisted (sender message) db in
      elim (Bool-cases (is_join config message)) [
        | inl join ↦ joined message request_id raw_dir join (
            ap (λ r. (r w).1.db) (react-join p config out authorized message message_id join)
            ∙ unfold join_whitelist ◌>>◌ in
              ap (λ u. u.db)
                (bind-same (on_db (joining message)) (λ u. pure none) (λ u. pure-IsPassive none) w)
              ∙ unfold on_db in ap (λ d. (joining message d).1) same)
        | inr no_join ↦ elim (Option-cases (user_command authorized message)) [
          | inr (command, c) ↦ stored message request_id raw_dir (
              ap (λ r. (r w).1.db)
                (react-command p config out authorized message message_id command no_join c)
              ∙ ap (λ u. u.db) (run_command-same p out message command w)
              ∙ same)
          | inl c ↦
              let rest : (react p config out authorized message message_id w).1
                  ≡ (queue_job out authorized message message_id w).1 =
                ap (λ r. (r w).1) (react-rest p config out authorized message message_id no_join c)
                ∙ queue_or_answer-same config out authorized message message_id w in
              elim (queue_job-same authorized message message_id w) [
                | inl kept ↦ stored message request_id raw_dir (ap (λ u. u.db) (rest ∙ kept) ∙ same)
                | inr (allowed, supported, added) ↦
                    queued message request_id raw_dir message_id inserted allowed supported no_join
                      (command_of_authorized authorized message allowed c)
                      (ap (λ u. u.db) rest ∙ added ∙ ap (λ d. (queueing message_id d).1) same)
              ]
        ]
      ]

  module _ (from_str : XmlReader RawWechatMessage) where
    process_plain_xml-RequestRun :
        (request_id raw_dir plain_xml : Text) (w : World)
        → RequestRun w.db
            (process_plain_xml p from_str config out request_id raw_dir plain_xml w).1.db
    unfolding process_plain_xml ◌>>=◌ lift gets on_db proceed
    process_plain_xml-RequestRun request_id raw_dir plain_xml w =
        elim (Result-cases (parse_plain_message from_str plain_xml)) [
          | inr (e, bad) ↦ rw bad (nothing refl)
          | inl (message, fine) ↦
              elim (Result-cases (insertion message request_id raw_dir w.db).0) [
                | inr (e, bad) ↦ rw (fine, bad) (stored message request_id raw_dir refl)
                | inl (message_id, inserted) ↦
                    rw (fine, inserted)
                      (react-RequestRun w.db message request_id raw_dir message_id
                        (record w { db = (insertion message request_id raw_dir w.db).1 }) inserted
                        refl)
              ]
        ]

    module _ (envelope_from_str : XmlReader Text) (query : CallbackQuery) (body : Text)
        (db : Db) where
      abbrev Before : Db → Type 0
      Before db' = db' ≡ db

      processing-Goes :
          (request_id raw_dir plain_xml : Text)
          → Goes Before
              (RequestRun db)
              (process_plain_xml p from_str config out request_id raw_dir plain_xml)
      processing-Goes request_id raw_dir plain_xml = record {
        goes = λ w h. rw (← h) (process_plain_xml-RequestRun request_id raw_dir plain_xml w);
      }

      lift-then :
          {A B : Type 0} (r : Result A) (f : A → Exec World B)
          → ((a : A) → Goes Before (RequestRun db) (f a))
          → Goes Before (RequestRun db) (lift r >>= f)
      lift-then r f k = then-Goes (λ db' h. nothing h) _ f (lift-Keeps Before r) k

      receive_plain_message-Goes :
          Goes Before
            (RequestRun db)
            (receive_plain_message p from_str envelope_from_str config out query body)
      unfolding receive_plain_message ◌>>◌
      receive_plain_message-Goes = lift-then _ _ (λ signature. lift-then _ _ (λ u.
          then-Goes (λ db' h. nothing h) _ _ (on_files-Keeps Before _)
            (λ archived. processing-Goes _ _ _)))

      receive_encrypted_message-Goes :
          Goes Before
            (RequestRun db)
            (receive_encrypted_message p from_str envelope_from_str config out query body)
      unfolding receive_encrypted_message
      receive_encrypted_message-Goes = lift-then _ _ (λ app_id. lift-then _ _ (λ key.
          lift-then _ _ (λ signature.
            then-Goes (λ db' h. nothing h) _ _ (on_files-Keeps Before _)
              (λ archived.
                lift-then _ _ (λ envelope.
                  lift-then _ _ (λ decrypted. lift-Goes _ _ (processing-Goes _ _ _)))))))

    -- Whatever a request is, and whatever the answer, it leaves the database as it is, or inserts
    -- one message, and after that at most puts the sender on the whitelist, where the message is the
    -- command to join, or creates a job for the id that the insertion returned, where the sender was
    -- on the whitelist, the type is supported and the message is no command.
    pub receive_callback-RequestRun :
        (envelope_from_str : XmlReader Text) (query : CallbackQuery) (body : Text) (w : World)
        → RequestRun w.db
            (receive_callback p from_str envelope_from_str config out query body w).1.db
    unfolding receive_callback receive_message
    receive_callback-RequestRun envelope_from_str query body w =
        (if-Goes (config.encrypted_callback_enabled && is_aes query.encrypt_type) _ _
            (receive_encrypted_message-Goes envelope_from_str query body w.db)
            (receive_plain_message-Goes envelope_from_str query body w.db)).goes
          w refl
