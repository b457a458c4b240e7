-- ===== src/Store/Schema.antt =====
-- The tables of migrations/0001_init.sql and the records of src/store/mod.rs. Columns that no query
-- reads (created_at, updated_at, unionid, label, ...) are left out. Statuses are the texts that the
-- program writes, each a constructor.
use sage_wiki_bridge_wxo.Base.{ℕ, Bool, true, false, Option, List, []}
use sage_wiki_bridge_wxo.Text.{Text, lit}

pub data MessageStatus : Type 0 where
  whitelisted command queued ignored source_written failed : MessageStatus

pub data JobStatus : Type 0 where
  pending processing done failed : JobStatus

unfoldable pub message_status_text : MessageStatus → Text
message_status_text MessageStatus.whitelisted = lit "whitelisted"
message_status_text MessageStatus.command = lit "command"
message_status_text MessageStatus.queued = lit "queued"
message_status_text MessageStatus.ignored = lit "ignored"
message_status_text MessageStatus.source_written = lit "source_written"
message_status_text MessageStatus.failed = lit "failed"

unfoldable pub job_status_text : JobStatus → Text
job_status_text JobStatus.pending = lit "pending"
job_status_text JobStatus.processing = lit "processing"
job_status_text JobStatus.done = lit "done"
job_status_text JobStatus.failed = lit "failed"

abbrev pub is_pending : JobStatus → Bool
is_pending JobStatus.pending = true
is_pending _ = false

abbrev pub is_processing : JobStatus → Bool
is_processing JobStatus.processing = true
is_processing _ = false

abbrev pub is_job_failed : JobStatus → Bool
is_job_failed JobStatus.failed = true
is_job_failed _ = false

abbrev pub is_source_written : MessageStatus → Bool
is_source_written MessageStatus.source_written = true
is_source_written _ = false

abbrev pub is_command : MessageStatus → Bool
is_command MessageStatus.command = true
is_command _ = false

abbrev pub is_message_failed : MessageStatus → Bool
is_message_failed MessageStatus.failed = true
is_message_failed _ = false

pub record MessageInsert : Type 0 where
  pub request_id : Text
  pub wechat_msg_id : Option Text
  pub to_user_name : Text
  pub from_openid : Text
  pub from_openid_hash : Text
  pub create_time : Option ℕ
  pub received_at : Text
  pub message_type : Text
  pub content_text : Option Text
  pub media_id : Option Text
  pub thumb_media_id : Option Text
  pub pic_url : Option Text
  pub voice_format : Option Text
  pub voice_recognition : Option Text
  pub location_lat : Option ℕ
  pub location_lng : Option ℕ
  pub location_scale : Option ℕ
  pub location_label : Option Text
  pub link_title : Option Text
  pub link_description : Option Text
  pub link_url : Option Text
  pub authorized : Bool
  pub status : MessageStatus
  pub raw_dir : Text

-- A row of `messages`: the inserted columns, and those that processing fills.
pub record MessageRow : Type 0 where
  pub id : ℕ
  pub values : MessageInsert
  pub open values use *
  pub source_path : Option Text
  pub processed_text : Option Text
  pub error_kind : Option Text
  pub error_message : Option Text
  pub processed_at : Option Text

pub record JobRow : Type 0 where
  pub id : ℕ
  pub message_id : ℕ
  pub job_type : Text
  pub status : JobStatus
  pub attempts : ℕ
  pub max_attempts : ℕ
  pub next_run_at : Text
  pub locked_at : Option Text
  pub locked_by : Option Text
  pub last_error : Option Text

pub record WhitelistRow : Type 0 where
  pub id : ℕ
  pub openid : Text
  pub openid_hash : Text
  pub source : Text
  pub enabled : Bool

-- The database. The ids of `AUTOINCREMENT` are never given twice; `last_rowid` is the
-- `last_insert_rowid()` of each connection of the pool.
pub record Db : Type 0 where
  pub messages : List MessageRow
  pub jobs : List JobRow
  pub whitelist : List WhitelistRow
  pub next_message_id : ℕ
  pub next_job_id : ℕ
  pub next_whitelist_id : ℕ
  pub last_rowid : ℕ → ℕ

unfoldable pub empty_db : Db
empty_db = record {
  messages = [];
  jobs = [];
  whitelist = [];
  next_message_id = 1;
  next_job_id = 1;
  next_whitelist_id = 1;
  last_rowid = λ connection. 0;
}

-- The record that a claim returns.
pub record Job : Type 0 where
  pub id : ℕ
  pub message_id : ℕ
  pub job_type : Text
  pub status : JobStatus
  pub attempts : ℕ

pub record ThreadAnchor : Type 0 where
  pub message_key : Text
  pub received_at : Text
