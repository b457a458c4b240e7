-- ===== src/Archive.antt =====
-- src/archive/mod.rs
pub mod Atomic
pub mod Names
pub mod Confined
use sage_wiki_bridge_wxo.Base.{
  ℕ, Bool, true, false, not, Option, none, some, List, [], ◌∷◌, ◌++◌, length, if◌then◌else◌,
  unwrap_or,
}
use sage_wiki_bridge_wxo.Text.{Text, lit}
use sage_wiki_bridge_wxo.Error.{Result, ok, err}
use sage_wiki_bridge_wxo.Exec.{Exec, ◌>>=◌, ◌>>◌, pure, lift}
use sage_wiki_bridge_wxo.Files.{
  FilePath, FileSystem, Fault, sanitize_segment, ensure_under_root, write_via, with_extension,
  file_name, extension,
}
use sage_wiki_bridge_wxo.Wechat.Primitives.{Primitives}

pub record ArchiveRecord : Type 0 where
  pub path : Option FilePath
  pub sha256 : Text
  pub size_bytes : ℕ

pub record RawArchive : Type 0 where
  pub root : FilePath
  pub save_full_payload : Bool

-- The temporary file has `.tmp` behind the extension, or behind `file`.
unfoldable pub tmp_path : FilePath → FilePath
unfolding with_extension file_name extension
tmp_path path =
    with_extension (unwrap_or (lit "file") (extension (file_name path)) ++ lit ".tmp") path

unfoldable pub write_file_atomically : Fault → FilePath → List ℕ → Exec FileSystem (Unit {0})
unfolding write_via tmp_path
write_file_atomically fault path bytes = write_via fault (tmp_path path) path bytes

unfoldable pub safe_relative_path : Text → Text → Exec FileSystem FilePath
safe_relative_path message_key filename = do
  key ← lift (sanitize_segment message_key)
  name ← lift (sanitize_segment filename)
  pure (key ∷ name ∷ [])

module _ (p : Primitives) where
  -- `ProcessedArtifactStore::save_artifact`, and `RawArchive::archive_bytes` when it saves.
  unfoldable pub save_artifact :
      Fault → FilePath → Text → Text → List ℕ → Exec FileSystem ArchiveRecord
  unfolding safe_relative_path write_file_atomically
  save_artifact fault root message_key filename bytes = do
    relative_path ← safe_relative_path message_key filename
    let path = root ++ relative_path
    lift (ensure_under_root root path)
    write_file_atomically fault path bytes
    pure (record { path = some path; sha256 = p.sha256_hex bytes; size_bytes = length bytes })

  unfoldable pub archive_bytes :
      Fault → RawArchive → Text → Text → List ℕ → Exec FileSystem ArchiveRecord
  unfolding save_artifact
  archive_bytes fault archive message_key filename bytes =
      if archive.save_full_payload
      then save_artifact fault archive.root message_key filename bytes
      else pure (record { path = none; sha256 = p.sha256_hex bytes; size_bytes = length bytes })
