-- ===== src/Lib.antt =====
-- A WeChat bridge that receives messages over HTTP, keeps them in an SQLite database and turns them into
-- Markdown sources.
--
-- The receiver answers WeChat's callbacks: it checks the signature, archives the body, decrypts an
-- encrypted body, stores the message, and queues a job for it if its sender is on the whitelist. Workers
-- claim jobs from the same database, process their messages, and mark them done, to be tried again or
-- failed. The receiver and any number of workers run at the same time and meet only in the database, so
-- the store is modelled one query at a time and Store.Steps lets the queries follow each other in any
-- order; `mark_job_retry_or_failed` is two queries there, as it has no transaction. A whole request and a
-- whole run of a worker (`receive_callback`, `process_next`) are modelled as they run when no query of
-- another one comes in between: Receiver.Runs and Worker.Runs are about these.
--
-- Files of this library and what they are about (paths from the repository's root):
-- - Base, Table, Exec: Boolean tests, lists, SQL over a table as functions on a list, and functions that
--   change a state and may fail, where what was changed before an error stays changed.
-- - Text: Rust's strings as lists of Unicode scalar values, with trim, find, starts_with, decimal numbers
--   and UTF-8. Positions count characters; the program uses them only to cut a text where something was
--   found. `trim_spaces` is SQLite's TRIM.
-- - Error: src/error.rs.
-- - Wechat.Message: src/wechat/message.rs, `try_from` and the accessors. Wechat.Signature:
--   src/wechat/signature.rs. Wechat.Crypto: src/wechat/crypto.rs, function by function; `frame_plaintext`
--   is the first part of `encrypt_payload`, `strip_padding` the second of `remove_wechat_pkcs7_padding`.
-- - Files, Archive: src/archive/mod.rs. A path is the list of its components as they are written, where
--   `..` and symbolic links are not resolved, and the file system a function from paths to contents, so
--   two paths are one file here only if they are the same; Archive.Names is about the names that can be
--   joined without this difference. `write_via` may fail at each of its steps, by a `Fault`.
-- - Store.Schema: the tables of migrations/0001_init.sql and the records of src/store/mod.rs.
--   Store.Messages, Store.Jobs, Store.Status, Store.Pages: the queries of src/store/mod.rs, under the names
--   of the methods. Store.Invariant, MessagesKeep, JobsKeep, Claim, Repeat, GiveUp, Steps and Pages.Covers
--   are about them.
-- - Receiver.Fields, Reply, Process, Callback: src/receiver/mod.rs. `process_plain_xml` is cut at the
--   early returns into `join_whitelist`, `run_command` and `queue_or_answer`. `Surroundings` holds what a
--   request meets outside the program: the clock, the pool's connections, the archive's fault, file sizes.
-- - Source: src/source/mod.rs. Source itself has the two upserts on the text of a day, Source.Render the
--   texts of headers and items, Source.Writer `write_source`, the date of a document and the atomic
--   write. Its sanitize_segment and ensure_under_root are the archive's. Source.First, Upserts and Threads
--   are about the upserts, Source.Dates, Escape and Written about the rest.
-- - Preprocess: src/preprocess, the artifact of each kind of message.
-- - Url, Enrich: src/enrich. Enrich.JinaReader has the check of a link, Enrich.HttpClient the two clients;
--   what they send is kept in a list.
-- - Llm: src/llm, what Gemini is asked for a file. Media: src/media/mod.rs, the cache of tokens and the
--   download; Media.Tokens, Media.Downloads and Media.Bytes are about them. Worker.MediaProcessor:
--   src/worker/media_processor.rs; what it does is the `process_media_message` of a job.
-- - Worker: src/worker/mod.rs. Worker itself has the retry delay, Worker.Links the links of a text,
--   Worker.Artifacts the artifact of a stored message, and Worker.Jobs a job from its claim to its end.
--   Worker.Settles, Runs, Sourced, Written, Done and Threads are about them.
-- - Dict, Config: src/config.rs. Config.Keys has the tables of flags and aliases, Config.Values the typed
--   reading of a value, Config.App the records, Config.Cli the command line, Config.EnvFile the file,
--   Config.Resolve what comes from where, and Config.Report the report. A hash map is the list of its
--   entries; the order in which one is walked is a parameter.
-- - Examples: the theorems at concrete inputs.
--
-- What is a parameter: SHA-1, SHA-256, base64, AES and the comparison of src/wechat (`Primitives`, with the
-- laws `IsLawful` that the crates document and `plain` that has them), the readers of XML and of the JSON of
-- a place, the parser of URLs (`UrlParser`), the network (`Network`), the calendar (`Clock`), and what a
-- job meets (`JobSurroundings`: the answers of the services, the media processor, faults of files), and the
-- answers of the media API and of Gemini (`MediaApi`, `GeminiApi`).
-- What is left out: failures of the database itself (a query fails here where its SQL does), columns that no
-- query reads (created_at, updated_at, unionid, label and others), logging, and the router. Statuses are
-- enumerations with the texts that the program writes. Floating-point numbers and signed integers that are
-- only passed on are their bit patterns. Counters and ids do not reach 2^63. The clock is not before 1970.
-- A text literal stands for the texts of library errors (`row_not_found`, `utf8_error`).
-- `scan_urls` takes fuel, and `extract_http_urls` gives it one more than the length of the text: each round
-- takes a character at least. Every other loop of the modelled code is structural. The retry delay and the
-- configuration keep the bounds of their machine numbers written out.
--
-- Not modelled: the admin pages, health and status, and the set-up of the process with the loop that calls
-- the worker.
pub mod Base
pub mod Text
pub mod Url
pub mod Error
pub mod Exec
pub mod Table
pub mod Dict
pub mod Wechat
pub mod Files
pub mod Archive
pub mod Store
pub mod Receiver
pub mod Enrich
pub mod Preprocess
pub mod Source
pub mod Llm
pub mod Media
pub mod Worker
pub mod Config
pub mod Examples
