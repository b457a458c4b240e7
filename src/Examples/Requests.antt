-- ===== src/Examples/Requests.antt =====
-- The theorems on the receiver at concrete requests.
use sage_wiki_bridge_wxo.Base.{
  ℕ, ◌≡◌, ◌≢◌, refl, ◌⊎◌, inr, true, false, none, some, ◌&&◌, [], ◌∷◌, ◌++◌,
}
use sage_wiki_bridge_wxo.Text.{
  Text, lit, text_eq, text_le, trim, trim_start, trim_end, non_empty, is_empty, is_whitespace,
}
use sage_wiki_bridge_wxo.Text.Trim.{drop_while, drop_end_while, keep_end}
use sage_wiki_bridge_wxo.Text.Utf8.{utf8}
use sage_wiki_bridge_wxo.Error.{ok}
use sage_wiki_bridge_wxo.Table.{first_where, count_where}
use sage_wiki_bridge_wxo.Wechat.Message.{
  IncomingMessage, common, is_supported, parse_plain_message, try_from, required, raw_common,
}
use sage_wiki_bridge_wxo.Wechat.Primitives.{plain}
use sage_wiki_bridge_wxo.Wechat.Signature.{
  verify_signature, calculate_signature, verify_encrypted_signature, calculate_encrypted_signature,
  sort_parts, insert_sorted, hashed_bytes,
}
use sage_wiki_bridge_wxo.Wechat.Crypto.{EncryptedEnvelope, parse_encrypted_envelope}
use sage_wiki_bridge_wxo.Store.Schema.{empty_db}
use sage_wiki_bridge_wxo.Store.Messages.{
  has_openid, upsert_whitelist, is_openid_whitelisted, has_msg_id, new_row,
}
use sage_wiki_bridge_wxo.Store.Jobs.{is_job_of, new_job}
use sage_wiki_bridge_wxo.Receiver.Fields.{
  detect_user_command, user_command_of, is_whitelist_join_command, is_text_of,
}
use sage_wiki_bridge_wxo.Receiver.Process.{World, is_join, process_plain_xml}
use sage_wiki_bridge_wxo.Receiver.Callback.{
  CallbackQuery, is_aes, okay, forbidden, receive_callback,
}
use sage_wiki_bridge_wxo.Receiver.Effects.{job_now}
use sage_wiki_bridge_wxo.Receiver.Queues.{MayQueue, insertion, inserted, process_plain_xml-jobs}
use sage_wiki_bridge_wxo.Receiver.Rows.{HasRow}
use sage_wiki_bridge_wxo.Receiver.Delivers.{
  HasJob, process_plain_xml-queues, process_plain_xml-known,
}
use sage_wiki_bridge_wxo.Receiver.Refuses.{
  has_signature, has_msg_signature, receive_callback-forged, receive_callback-forged_encrypted,
}
use sage_wiki_bridge_wxo.Receiver.Runs.{RequestRun, receive_callback-RequestRun}
use sage_wiki_bridge_wxo.Examples.{
  hello, alice_says, reader, envelope_reader, settings, surroundings, forged_query, alice_world,
}

wrong_signature : has_signature plain (settings false) forged_query ≡ false
unfolding verify_signature calculate_signature sort_parts insert_sorted hashed_bytes utf8 text_eq
    text_le lit
wrong_signature = refl

receive_callback-forged_example :
    receive_callback plain reader envelope_reader
      (settings false)
      surroundings
      forged_query
      (lit "hello")
      alice_world
    ≡ (forbidden, alice_world)
receive_callback-forged_example =
    receive_callback-forged plain reader envelope_reader (settings false) surroundings forged_query
      (lit "hello") alice_world refl wrong_signature

parsed : (content : Text) → parse_plain_message reader content ≡ ok (alice_says content)
unfolding parse_plain_message try_from required raw_common common text_eq lit
parsed content = refl

may_queue : MayQueue (settings false) alice_world.db (alice_says (lit "hello"))
unfolding is_openid_whitelisted upsert_whitelist empty_db first_where count_where has_openid common
    is_supported detect_user_command user_command_of is_join is_whitelist_join_command is_text_of
    trim trim_start trim_end drop_while drop_end_while keep_end is_whitespace non_empty is_empty
    text_eq lit
may_queue = record { whitelisted = refl; supported = refl; no_command = refl; no_join = refl }

process_plain_xml-jobs_example :
    let w' =
      (process_plain_xml plain reader
        (settings false)
        surroundings
        (lit "req_1_2")
        (lit "raw://req_1_2")
        (lit "hello")
        alice_world).1 in
    (w'.db.jobs ≡ alice_world.db.jobs)
    ⊎ ((message : IncomingMessage) × (message_id : ℕ) × (parse_plain_message reader (lit "hello")
          ≡ ok message)
        × MayQueue (settings false) alice_world.db message
        × ((insertion plain
              (settings false)
              surroundings
              (lit "req_1_2")
              (lit "raw://req_1_2")
              alice_world.db
              message).0
            ≡ ok message_id)
        × (w'.db.jobs ≡ alice_world.db.jobs ++ job_now surroundings alice_world.db message_id ∷ []))
process_plain_xml-jobs_example =
    process_plain_xml-jobs plain reader (settings false) surroundings (lit "req_1_2")
      (lit "raw://req_1_2") (lit "hello") alice_world

process_plain_xml-queues_example :
    let (answer, w') =
      process_plain_xml plain reader
        (settings false)
        surroundings
        (lit "req_1_2")
        (lit "raw://req_1_2")
        (lit "hello")
        alice_world in
    (answer ≡ ok none)
    × ((message_id : ℕ) × ((insertion plain
            (settings false)
            surroundings
            (lit "req_1_2")
            (lit "raw://req_1_2")
            alice_world.db
            (alice_says (lit "hello"))).0
          ≡ ok message_id)
        × HasRow
            (inserted plain
              (settings false)
              surroundings
              (lit "req_1_2")
              (lit "raw://req_1_2")
              alice_world.db
              (alice_says (lit "hello")))
            message_id
        × HasJob w'.db message_id)
process_plain_xml-queues_example =
    process_plain_xml-queues plain reader (settings false) surroundings (lit "req_1_2")
      (lit "raw://req_1_2") (lit "hello") (alice_says (lit "hello")) alice_world
      (parsed (lit "hello")) may_queue (inr refl)

-- Alice's message and its job are there.
abbrev known_world : World
known_world = record alice_world {
  db = record alice_world.db {
    messages = new_row 1 hello ∷ [];
    jobs = new_job 1 1 (lit "process_message") (lit "2026-01-01T00:00:00Z") ∷ [];
    next_message_id = 2;
    next_job_id = 2;
  };
}

known-MayQueue : MayQueue (settings false) known_world.db (alice_says (lit "hello"))
unfolding is_openid_whitelisted
known-MayQueue = record {
  whitelisted = may_queue.whitelisted;
  supported = may_queue.supported;
  no_command = may_queue.no_command;
  no_join = may_queue.no_join;
}

known_row : first_where (has_msg_id (lit "m1")) known_world.db.messages ≡ some (new_row 1 hello)
unfolding first_where has_msg_id new_row text_eq lit
known_row = refl

not_empty : is_empty (lit "m1") ≡ false
unfolding is_empty lit
not_empty = refl

known_job : HasJob known_world.db 1
unfolding first_where is_job_of new_job text_eq lit
known_job = refl

process_plain_xml-known_example :
    process_plain_xml plain reader
      (settings false)
      surroundings
      (lit "req_3_4")
      (lit "raw://req_3_4")
      (lit "hello")
      known_world
    ≡ (ok none, known_world)
unfolding new_row common
process_plain_xml-known_example =
    process_plain_xml-known plain reader (settings false) surroundings (lit "req_3_4")
      (lit "raw://req_3_4") (lit "hello") (alice_says (lit "hello")) known_world (lit "m1")
      (new_row 1 hello) (parsed (lit "hello")) known-MayQueue refl not_empty known_row known_job

joins : is_join (settings false) (alice_says (lit "/join ")) ≡ true
unfolding is_join is_whitelist_join_command is_text_of trim trim_start trim_end drop_while
    drop_end_while keep_end is_whitespace non_empty is_empty text_eq lit
joins = refl

aes : ((settings true).encrypted_callback_enabled && is_aes forged_query.encrypt_type) ≡ true
unfolding is_aes text_eq lit
aes = refl

wrong_msg_signature :
    (envelope : EncryptedEnvelope)
    → parse_encrypted_envelope envelope_reader (lit "hello") ≡ ok envelope
    → has_msg_signature plain (settings true) forged_query envelope ≡ false
unfolding parse_encrypted_envelope verify_encrypted_signature calculate_encrypted_signature
    sort_parts insert_sorted hashed_bytes utf8 text_eq text_le lit
wrong_msg_signature envelope e =
    let same : record { encrypted_payload = lit "hello" } ≡ envelope = cc in rw (← same) refl

receive_callback-forged_encrypted_example :
    let (response, w') =
      receive_callback plain reader envelope_reader
        (settings true)
        surroundings
        forged_query
        (lit "hello")
        alice_world in
    ((reply : Text) → response ≢ okay reply) × (w'.db ≡ alice_world.db)
receive_callback-forged_encrypted_example =
    receive_callback-forged_encrypted plain reader envelope_reader (settings true) surroundings
      forged_query (lit "hello") alice_world aes wrong_msg_signature

-- A request with its signature.
abbrev signed_query : CallbackQuery
signed_query = record forged_query {
  signature = some (
      calculate_signature plain (settings false).wechat_token forged_query.timestamp
        forged_query.nonce);
}

receive_callback-RequestRun_example :
    RequestRun plain
      (settings false)
      surroundings
      alice_world.db
      (receive_callback plain reader envelope_reader
        (settings false)
        surroundings
        signed_query
        (lit "hello")
        alice_world).1.db
receive_callback-RequestRun_example =
    receive_callback-RequestRun plain (settings false) surroundings reader envelope_reader
      signed_query (lit "hello") alice_world
