-- ===== src/Store/Status.antt =====
-- `status_snapshot` of src/store/mod.rs and its grouped counts.
use sage_wiki_bridge_wxo.Base.{
  ℕ, ◌+◌, ◌-◌, Option, none, some, List, [], ◌∷◌, map, ◌==◌, if◌then◌else◌, length,
}
use sage_wiki_bridge_wxo.Text.{Text, text_eq, text_le, is_empty}
use sage_wiki_bridge_wxo.Table.{count_where}
use sage_wiki_bridge_wxo.Store.Schema.{
  is_message_failed, is_source_written, message_status_text, job_status_text, MessageRow, Db,
}

pub record StatusSnapshot : Type 0 where
  pub total_messages : ℕ
  pub authorized_messages : ℕ
  pub failed_messages : ℕ
  pub source_written_messages : ℕ
  pub messages_by_status : List (Text × ℕ)
  pub messages_by_type : List (Text × ℕ)
  pub total_jobs : ℕ
  pub jobs_by_status : List (Text × ℕ)
  pub total_job_attempts : ℕ
  pub retry_attempts : ℕ
  pub processed_text_bytes : ℕ
  pub source_bytes_written : ℕ

-- One more row of a key, in groups that stand in the order of their keys.
unfoldable pub add_to_group : Text → List (Text × ℕ) → List (Text × ℕ)
add_to_group key [] = (key, 1) ∷ []
add_to_group key ((name, count) ∷ groups) =
    let rest = add_to_group key groups in
    if text_eq name key
    then (name, count + 1) ∷ groups
    else if text_le key name
    then (key, 1) ∷ (name, count) ∷ groups
    else (name, count) ∷ rest

-- `SELECT key, COUNT(*) ... GROUP BY key ORDER BY key`
unfoldable pub grouped_counts : List Text → List (Text × ℕ)
unfolding add_to_group
grouped_counts [] = []
grouped_counts (key ∷ keys) = add_to_group key (grouped_counts keys)

-- `COALESCE(SUM(f), 0)`
unfoldable pub sum_of {ℓ} : {A : Type ℓ} → (A → ℕ) → List A → ℕ
sum_of f [] = 0
sum_of f (x ∷ xs) = f x + sum_of f xs

-- `LENGTH` of a text: its characters before the first NUL.
unfoldable pub sql_length : Text → ℕ
sql_length [] = 0
sql_length (c ∷ t) = let rest = sql_length t in if c == 0 then 0 else 1 + rest

-- Zero for NULL, which `SUM` passes over.
unfoldable pub processed_length : MessageRow → ℕ
unfolding sql_length
processed_length row = elim row.processed_text [ none ↦ 0 | some t ↦ sql_length t ]

-- The size of a row's source file, zero where there is no path or no file.
unfoldable pub source_bytes : (Text → Option ℕ) → MessageRow → ℕ
source_bytes metadata_len row = elim row.source_path [
  | none ↦ 0
  | some path ↦ if is_empty path then 0 else elim (metadata_len path) [ none ↦ 0 | some n ↦ n ]
]

-- `metadata_len` is the length that `fs::metadata` reports.
unfoldable pub status_snapshot : (Text → Option ℕ) → Db → StatusSnapshot
unfolding grouped_counts sum_of processed_length source_bytes
status_snapshot metadata_len db = record {
  total_messages = length db.messages;
  authorized_messages = count_where (λ row. row.authorized) db.messages;
  failed_messages = count_where (λ row. is_message_failed row.status) db.messages;
  source_written_messages = count_where (λ row. is_source_written row.status) db.messages;
  messages_by_status = grouped_counts (map (λ row. message_status_text row.status) db.messages);
  messages_by_type = grouped_counts (map (λ row. row.message_type) db.messages);
  total_jobs = length db.jobs;
  jobs_by_status = grouped_counts (map (λ row. job_status_text row.status) db.jobs);
  total_job_attempts = sum_of (λ row. row.attempts) db.jobs;
  retry_attempts = sum_of (λ row. row.attempts - 1) db.jobs;
  processed_text_bytes = sum_of processed_length db.messages;
  source_bytes_written = sum_of (source_bytes metadata_len) db.messages;
}
