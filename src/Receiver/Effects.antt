-- ===== src/Receiver/Effects.antt =====
-- What the parts of `process_plain_xml` behind the insertion change.
use sage_wiki_bridge_wxo.Base.{
  ℕ, ◌≡◌, refl, ap, ◌∙◌, ◌⊎◌, inl, inr, Bool, true, false, not, ◌&&◌, none, some, [], ◌∷◌, ◌++◌,
  Bool-cases, Option-cases, if◌then◌else◌,
}
use sage_wiki_bridge_wxo.Text.{lit}
use sage_wiki_bridge_wxo.Error.{Result, ok, err}
use sage_wiki_bridge_wxo.Exec.{Exec, ◌>>=◌, ◌>>◌, proceed, pure, gets}
use sage_wiki_bridge_wxo.Wechat.Message.{IncomingMessage, common, is_supported}
use sage_wiki_bridge_wxo.Wechat.Primitives.{Primitives}
use sage_wiki_bridge_wxo.Store.Schema.{JobRow, Db}
use sage_wiki_bridge_wxo.Store.Messages.{upsert_whitelist}
use sage_wiki_bridge_wxo.Store.Jobs.{new_job, create_job_once}
use sage_wiki_bridge_wxo.Receiver.Fields.{UserCommand, detect_user_command}
use sage_wiki_bridge_wxo.Receiver.Reply.{command_reply}
use sage_wiki_bridge_wxo.Receiver.Process.{
  ReceiverConfig, Surroundings, World, on_db, received_at, is_join, user_command, queue_job,
  sha256_for_display, run_command, queue_or_answer, join_whitelist, react,
}
use sage_wiki_bridge_wxo.Receiver.Inserts.{create_job_once-jobs, upsert_whitelist-jobs}

-- The job of a message that is received now.
abbrev pub job_now : Surroundings → Db → ℕ → JobRow
job_now out db message_id =
    new_job db.next_job_id message_id (lit "process_message") (received_at out)

-- The block leaves the world as it is.
pub record IsPassive {A : Type 0} (m : Exec World A) : Type 0 where
  pub same : (w : World) → (m w).1 ≡ w

pub pure-IsPassive : {A : Type 0} (a : A) → IsPassive (pure a)
unfolding pure
pure-IsPassive a = record { same = λ w. refl }

if-IsPassive :
    {A : Type 0} (b : Bool) (m n : Exec World A)
    → IsPassive m
    → IsPassive n
    → IsPassive (if b then m else n)
if-IsPassive true m n g h = g
if-IsPassive false m n g h = h

proceed-same :
    {A B : Type 0} (r : Result A) (f : A → Exec World B) (w : World)
    → ((a : A) → IsPassive (f a))
    → (proceed r f w).1 ≡ w
unfolding proceed
proceed-same (ok a) f w h = (h a).same w
proceed-same (err e) f w h = refl

pub bind-same :
    {A B : Type 0} (m : Exec World A) (f : A → Exec World B)
    → ((a : A) → IsPassive (f a))
    → (w : World) → ((m >>= f) w).1 ≡ (m w).1
unfolding ◌>>=◌
bind-same m f h w = proceed-same (m w).0 f (m w).1 h

queue_job-jobs :
    (out : Surroundings) (authorized : Bool) (message : IncomingMessage) (message_id : ℕ)
    (w : World)
    → let w' = (queue_job out authorized message message_id w).1 in
      (w'.db.jobs ≡ w.db.jobs)
      ⊎ ((authorized ≡ true)
          × (is_supported message ≡ true)
          × (w'.db.jobs ≡ w.db.jobs ++ job_now out w.db message_id ∷ []))
unfolding queue_job
queue_job-jobs out false message message_id w = inl (unfold pure in refl)
queue_job-jobs out true message message_id w = elim (Bool-cases (is_supported message)) [
  | inr bad ↦ inl (unfold pure in rw bad)
  | inl good ↦
      let query =
        on_db (
          create_job_once out.job_connection message_id (lit "process_message")
            (received_at out)) in
      let same : (queue_job out true message message_id w).1 ≡ (query w).1 =
        rw good (bind-same query (λ job_id. pure tt) (λ job_id. pure-IsPassive tt) w) in
      elim (create_job_once-jobs out.job_connection message_id (lit "process_message")
        (received_at out) w.db) [
          | inl kept ↦ inl (ap (λ u. u.db.jobs) same ∙ kept)
          | inr added ↦ inr (refl, good, ap (λ u. u.db.jobs) same ∙ added)
        ]
]

pub queue_or_answer-same :
    (config : ReceiverConfig) (out : Surroundings) (authorized : Bool) (message : IncomingMessage)
    (message_id : ℕ) (w : World)
    → (queue_or_answer config out authorized message message_id w).1
      ≡ (queue_job out authorized message message_id w).1
unfolding queue_or_answer ◌>>◌
queue_or_answer-same config out authorized message message_id w =
    bind-same (queue_job out authorized message message_id) _
      (λ u.
        if-IsPassive (not authorized && config.honeypot_reply_enabled) _ _ (pure-IsPassive _)
          (pure-IsPassive _))
      w

pub command_of_authorized :
    (authorized : Bool) (message : IncomingMessage)
    → authorized ≡ true
    → user_command authorized message ≡ none
    → detect_user_command message ≡ none
unfolding user_command
command_of_authorized true message a c = c
command_of_authorized false message a c = cc

module _ (p : Primitives) where
  join_whitelist-jobs :
      (out : Surroundings) (message : IncomingMessage) (w : World)
      → (join_whitelist p out message w).1.db.jobs ≡ w.db.jobs
  unfolding join_whitelist ◌>>◌
  join_whitelist-jobs out message w =
      let query = on_db (
        upsert_whitelist out.whitelist_connection (common message).from_user_name
          (sha256_for_display p (common message).from_user_name) (lit "wechat-magic-command")) in
      ap (λ u. u.db.jobs) (bind-same query (λ u. pure none) (λ u. pure-IsPassive none) w)
      ∙ upsert_whitelist-jobs out.whitelist_connection (common message).from_user_name
          (sha256_for_display p (common message).from_user_name) (lit "wechat-magic-command") w.db

  pub run_command-same :
      (out : Surroundings) (message : IncomingMessage) (command : UserCommand) (w : World)
      → (run_command out message command w).1 ≡ w
  unfolding run_command
  run_command-same out message command w =
      bind-same (gets (λ w. command_reply out.metadata_len w.db command)) _
        (λ content. pure-IsPassive _) w
      ∙ unfold gets in refl

  module _ (config : ReceiverConfig) (out : Surroundings) (authorized : Bool)
      (message : IncomingMessage) (message_id : ℕ) where
    pub react-join :
        is_join config message ≡ true
        → react p config out authorized message message_id ≡ join_whitelist p out message
    unfolding react
    react-join join = rw join

    pub react-command :
        (command : UserCommand)
        → is_join config message ≡ false
        → user_command authorized message ≡ some command
        → react p config out authorized message message_id ≡ run_command out message command
    unfolding react
    react-command command no_join c = rw (no_join, c)

    pub react-rest :
        is_join config message ≡ false
        → user_command authorized message ≡ none
        → react p config out authorized message message_id
          ≡ queue_or_answer config out authorized message message_id
    unfolding react
    react-rest no_join c = rw (no_join, c)

    pub react-jobs :
        (w : World)
        → let w' = (react p config out authorized message message_id w).1 in
          (w'.db.jobs ≡ w.db.jobs)
          ⊎ ((authorized ≡ true)
              × (is_supported message ≡ true)
              × (user_command authorized message ≡ none)
              × (is_join config message ≡ false)
              × (w'.db.jobs ≡ w.db.jobs ++ job_now out w.db message_id ∷ []))
    react-jobs w = elim (Bool-cases (is_join config message)) [
      | inl join ↦
          inl (ap (λ r. (r w).1.db.jobs) (react-join join) ∙ join_whitelist-jobs out message w)
      | inr no_join ↦ elim (Option-cases (user_command authorized message)) [
        | inr (command, c) ↦ inl (
            ap (λ r. (r w).1.db.jobs) (react-command command no_join c)
            ∙ ap (λ u. u.db.jobs) (run_command-same out message command w))
        | inl c ↦
            let same : (react p config out authorized message message_id w).1
                ≡ (queue_job out authorized message message_id w).1 =
              ap (λ r. (r w).1) (react-rest no_join c)
              ∙ queue_or_answer-same config out authorized message message_id w in
            elim (queue_job-jobs out authorized message message_id w) [
              | inl kept ↦ inl (ap (λ u. u.db.jobs) same ∙ kept)
              | inr (a, supported, added) ↦
                  inr (a, supported, c, no_join, ap (λ u. u.db.jobs) same ∙ added)
            ]
      ]
    ]
