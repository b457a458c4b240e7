-- ===== src/Receiver/Delivers.antt =====
-- What a message that may be queued is sure to bring about.
use sage_wiki_bridge_wxo.Base.{
  ℕ, ◌≡◌, refl, ◌⊎◌, inl, inr, ap, ◌∙◌, Bool, true, false, none, some, is_some, arith, Option-cases,
}
use sage_wiki_bridge_wxo.Text.{Text, lit, is_empty}
use sage_wiki_bridge_wxo.Error.{ok}
use sage_wiki_bridge_wxo.Exec.{◌>>=◌, ◌>>◌, proceed, pure, lift, gets}
use sage_wiki_bridge_wxo.Table.{first_where}
use sage_wiki_bridge_wxo.Wechat.Message.{
  IncomingMessage, RawWechatMessage, common, is_supported, XmlReader, parse_plain_message,
}
use sage_wiki_bridge_wxo.Wechat.Primitives.{Primitives}
use sage_wiki_bridge_wxo.Store.Schema.{MessageInsert, MessageRow, Db}
use sage_wiki_bridge_wxo.Store.Messages.{
  is_openid_whitelisted, has_msg_id, conflicts, insert_or_ignore, inserted_id,
  insert_message_idempotent,
}
use sage_wiki_bridge_wxo.Store.Jobs.{is_job_of, create_job_once}
use sage_wiki_bridge_wxo.Store.Repeat.{queued_job}
use sage_wiki_bridge_wxo.Receiver.Fields.{detect_user_command}
use sage_wiki_bridge_wxo.Receiver.Process.{
  ReceiverConfig, Surroundings, World, on_db, received_at, user_command, message_insert, queue_job,
  queue_or_answer, react, process_plain_xml,
}
use sage_wiki_bridge_wxo.Receiver.Queues.{MayQueue, insertion, inserted, process_plain_xml-react}
use sage_wiki_bridge_wxo.Receiver.Effects.{react-rest}
use sage_wiki_bridge_wxo.Receiver.Rows.{HasRow, insert_message_idempotent-HasRow}

create_job_once-ok :
    (connection message_id : ℕ) (job_type next_run_at : Text) (db : Db)
    → HasRow db message_id
    → (job_id : ℕ) × ((create_job_once connection message_id job_type next_run_at db).0 ≡ ok job_id)
create_job_once-ok connection message_id job_type next_run_at db there =
    elim (Option-cases (first_where (is_job_of message_id job_type) db.jobs)) [
      | inr (row, found) ↦ (row.id, unfold create_job_once in rw (found, create_job_once) refl)
      | inl missing ↦
          (db.next_job_id, unfold create_job_once in rw (missing, there, create_job_once) refl)
    ]

-- The job of a message stands in the table.
abbrev pub HasJob : Db → ℕ → Type 0
HasJob db message_id =
    is_some (first_where (is_job_of message_id (lit "process_message")) db.jobs) ≡ true

queue_job-queues :
    (out : Surroundings) (message : IncomingMessage) (message_id : ℕ) (w : World)
    → is_supported message ≡ true
    → HasRow w.db message_id
    → ((queue_job out true message message_id w).0 ≡ ok tt)
      × HasJob (queue_job out true message message_id w).1.db message_id
queue_job-queues out message message_id w supported there =
    let kind = lit "process_message" in
    let made = create_job_once out.job_connection message_id kind (received_at out) w.db in
    let (job_id, e) =
      create_job_once-ok out.job_connection message_id kind (received_at out) w.db there in
    let (row, found, same) =
      queued_job message_id kind out.job_connection (received_at out) w.db made.1 job_id
        (ap (λ r. (r, made.1)) e) in
    unfold queue_job ◌>>=◌ proceed pure on_db in rw (supported, e) (refl, rw found)

queue_or_answer-queues :
    (config : ReceiverConfig) (out : Surroundings) (message : IncomingMessage) (message_id : ℕ)
    (w : World)
    → is_supported message ≡ true
    → HasRow w.db message_id
    → ((queue_or_answer config out true message message_id w).0 ≡ ok none)
      × HasJob (queue_or_answer config out true message message_id w).1.db message_id
queue_or_answer-queues config out message message_id w supported there =
    let (fine, job) = queue_job-queues out message message_id w supported there in
    unfold queue_or_answer ◌>>◌ ◌>>=◌ proceed pure in rw fine (refl, job)

command_none :
    (authorized : Bool) (message : IncomingMessage)
    → detect_user_command message ≡ none
    → user_command authorized message ≡ none
unfolding user_command
command_none true message h = h
command_none false message h = refl

insert_known :
    (first second : ℕ) (m : MessageInsert) (db : Db) (k : Text) (row : MessageRow)
    → m.wechat_msg_id ≡ some k
    → is_empty k ≡ false
    → first_where (has_msg_id k) db.messages ≡ some row
    → insert_message_idempotent first second m db ≡ (ok row.id, db)
insert_known first second m db k row e full found =
    let conflict : conflicts m.wechat_msg_id db.messages ≡ true =
      rw e (unfold conflicts in rw (full, found) refl) in
    let ignored : insert_or_ignore first m db ≡ db = unfold insert_or_ignore in rw conflict refl in
    let id : inserted_id second m.wechat_msg_id db ≡ ok row.id =
      rw e (unfold inserted_id in rw (found, inserted_id) refl) in
    unfold insert_message_idempotent in rw (ignored, id) refl

queue_or_answer-known :
    (config : ReceiverConfig) (out : Surroundings) (message : IncomingMessage) (message_id : ℕ)
    (w : World)
    → is_supported message ≡ true
    → HasJob w.db message_id
    → queue_or_answer config out true message message_id w ≡ (ok none, w)
queue_or_answer-known config out message message_id w supported job =
    elim (Option-cases (first_where (is_job_of message_id (lit "process_message")) w.db.jobs)) [
      | inl missing ↦ absurd (ground (arith, missing))
      | inr (row, found) ↦
          let made : create_job_once out.job_connection message_id (lit "process_message")
                (received_at out) w.db
              ≡ (ok row.id, w.db) =
            unfold create_job_once in rw (found, create_job_once) refl in
          unfold queue_or_answer queue_job ◌>>◌ ◌>>=◌ proceed pure on_db in
          rw (supported, made) refl
    ]

module _ (p : Primitives) (from_str : XmlReader RawWechatMessage) where
  module _ (config : ReceiverConfig) (out : Surroundings)
      (request_id raw_dir plain_xml : Text) where
    -- A message that may be queued is answered without a reply, and the id that its insertion gives
    -- has a row and a job, if the message has a message id or the queries of its insertion run on
    -- one connection.
    pub process_plain_xml-queues :
        (message : IncomingMessage) (w : World)
        → parse_plain_message from_str plain_xml ≡ ok message
        → MayQueue config w.db message
        → (is_some (common message).msg_id ≡ true) ⊎ (out.id_connection ≡ out.insert_connection)
        → let (answer, w') =
            process_plain_xml p from_str config out request_id raw_dir plain_xml w in
          (answer ≡ ok none)
          × ((message_id : ℕ) × ((insertion p config out request_id raw_dir w.db message).0
                ≡ ok message_id)
              × HasRow (inserted p config out request_id raw_dir w.db message) message_id
              × HasJob w'.db message_id)
    process_plain_xml-queues message w parsed may how =
        let authorized = is_openid_whitelisted (common message).from_user_name w.db in
        let (id, given, same) =
          process_plain_xml-react p from_str config out request_id raw_dir plain_xml message w
            parsed in
        let after = inserted p config out request_id raw_dir w.db message in
        let row : HasRow after id =
          insert_message_idempotent-HasRow out.insert_connection out.id_connection
            (message_insert p config out request_id raw_dir authorized message) w.db id
            (unfold message_insert in how) given in
        let w₁ = record w { db = after } in
        let rest : react p config out authorized message id w₁
            ≡ queue_or_answer config out true message id w₁ =
          ap (λ r. r w₁)
            (react-rest p config out authorized message id may.no_join
              (command_none authorized message may.no_command))
          ∙ ap (λ b. queue_or_answer config out b message id w₁) may.whitelisted in
        let (fine, job) = queue_or_answer-queues config out message id w₁ may.supported row in
        rw (same, rest) (fine, (id, given, row, job))

    -- A message that may be queued, whose message id is not empty and whose row and job are already
    -- there, changes nothing when it is received again, whatever else is in the new request.
    pub process_plain_xml-known :
        (message : IncomingMessage) (w : World) (k : Text) (row : MessageRow)
        → parse_plain_message from_str plain_xml ≡ ok message
        → MayQueue config w.db message
        → (common message).msg_id ≡ some k
        → is_empty k ≡ false
        → first_where (has_msg_id k) w.db.messages ≡ some row
        → HasJob w.db row.id
        → process_plain_xml p from_str config out request_id raw_dir plain_xml w ≡ (ok none, w)
    process_plain_xml-known message w k row parsed may id_given full found job =
        let authorized = is_openid_whitelisted (common message).from_user_name w.db in
        let m = message_insert p config out request_id raw_dir authorized message in
        let known : insert_message_idempotent out.insert_connection out.id_connection m w.db
            ≡ (ok row.id, w.db) =
          insert_known out.insert_connection out.id_connection m w.db k row
            (unfold message_insert in id_given) full found in
        let rest : react p config out authorized message row.id
            ≡ queue_or_answer config out true message row.id =
          react-rest p config out authorized message row.id may.no_join
            (command_none authorized message may.no_command)
          ∙ ap (λ b. queue_or_answer config out b message row.id) may.whitelisted in
        unfold process_plain_xml ◌>>=◌ proceed lift gets on_db in
        rw (parsed, known, rest)
          (queue_or_answer-known config out message row.id w may.supported job)
