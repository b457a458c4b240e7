-- ===== src/Files.antt =====
-- Paths, and the file system that src/archive/mod.rs and src/source/mod.rs write to.
pub mod Atomic
pub mod Segments
use mathlib.Core.Option
use sage_wiki_bridge_wxo.Base.{
  ℕ, ◌≡◌, Bool, true, false, not, ◌&&◌, ◌||◌, Option, none, some, List, [], ◌∷◌, ◌++◌, leb, ◌==◌,
  if◌then◌else◌, map, is_some, unwrap_or,
}
use sage_wiki_bridge_wxo.Text.{Text, lit, text_eq, is_empty, contains_char}
use sage_wiki_bridge_wxo.Error.{BridgeError, io, path_outside_root, Result, ok, err}
use sage_wiki_bridge_wxo.Exec.{Exec}

-- The components of a path, as they are written: `..` and symbolic links are not resolved. An
-- absolute path begins with an empty component.
abbrev pub FilePath : Type 0
FilePath = List Text

-- `path.display()`
unfoldable pub display : FilePath → Text
display [] = []
display (s ∷ []) = s
display (s ∷ t ∷ p) = s ++ (lit "/" ++ display (t ∷ p))

-- `path.parent()` of a path with a file name.
unfoldable pub parent : FilePath → FilePath
parent [] = []
parent (s ∷ []) = []
parent (s ∷ t ∷ p) = s ∷ parent (t ∷ p)

unfoldable pub path_eq : FilePath → FilePath → Bool
path_eq [] [] = true
path_eq [] (y ∷ ys) = false
path_eq (x ∷ xs) [] = false
path_eq (x ∷ xs) (y ∷ ys) = text_eq x y && path_eq xs ys

-- `path_components.starts_with(&root_components)`
unfoldable pub starts_with_path : FilePath → FilePath → Bool
starts_with_path [] p = true
starts_with_path (r ∷ rs) [] = false
starts_with_path (r ∷ rs) (s ∷ p) = text_eq r s && starts_with_path rs p

unfoldable pub ensure_under_root : FilePath → FilePath → Result (Unit {0})
unfolding starts_with_path
ensure_under_root root path =
    if starts_with_path root path then ok tt else err (path_outside_root (display path))

-- `is_ascii_alphanumeric`, or one of the characters `.`, `_` and `-`.
unfoldable pub is_safe : ℕ → Bool
is_safe c =
    (leb b'0' c && leb c b'9')
    || (leb b'A' c && leb c b'Z')
    || (leb b'a' c && leb c b'z')
    || c == b'.'
    || c == b'_'
    || c == b'-'

unfoldable pub safe_char : ℕ → ℕ
unfolding is_safe
safe_char c = if is_safe c then c else b'_'

-- Segments that are no file name of their own.
unfoldable pub is_refused : Text → Bool
unfolding is_empty text_eq contains_char
is_refused segment =
    is_empty segment
    || text_eq segment (b'.' ∷ [])
    || text_eq segment (b'.' ∷ b'.' ∷ [])
    || contains_char b'/' segment
    || contains_char b'\\' segment

-- The function of this name in both modules.
unfoldable pub sanitize_segment : Text → Result Text
unfolding is_refused safe_char
sanitize_segment segment =
    if is_refused segment then err (path_outside_root segment) else ok (map safe_char segment)

-- The contents of the files.
abbrev pub FileSystem : Type 0
FileSystem = FilePath → Option (List ℕ)

-- Where a write fails, with the error's text: at the directory, at the creation, in the middle of
-- the data (with what was written), at the `sync_all` or at the renaming.
pub data Fault : Type 0 where
  no_fault : Fault
  at_directory at_create at_sync at_rename : Text → Fault
  at_write : Text → List ℕ → Fault

unfoldable pub put_file : FilePath → List ℕ → FileSystem → FileSystem
unfolding path_eq
put_file path bytes files p = if path_eq p path then some bytes else files p

unfoldable pub remove_file : FilePath → FileSystem → FileSystem
unfolding path_eq
remove_file path files p = if path_eq p path then none else files p

-- Data goes to `tmp_path`, which is renamed at the end.
unfoldable pub write_via : Fault → FilePath → FilePath → List ℕ → Exec FileSystem (Unit {0})
unfolding put_file remove_file
write_via (at_directory e) tmp_path path bytes files = (err (io e), files)
write_via (at_create e) tmp_path path bytes files = (err (io e), files)
write_via (at_write e part) tmp_path path bytes files = (err (io e), put_file tmp_path part files)
write_via (at_sync e) tmp_path path bytes files = (err (io e), put_file tmp_path bytes files)
write_via (at_rename e) tmp_path path bytes files = (err (io e), put_file tmp_path bytes files)
write_via no_fault tmp_path path bytes files =
    (ok tt, put_file path bytes (remove_file tmp_path (put_file tmp_path bytes files)))

-- The position of the last dot, if it is not the first character.
unfoldable pub has_later_dot : Text → Bool
has_later_dot [] = false
has_later_dot (c ∷ t) = contains_char b'.' t

-- `file_stem` and `extension`: the name before and behind its last dot.
unfoldable pub before_last_dot : Text → Text
before_last_dot [] = []
before_last_dot (c ∷ t) =
    let rest = before_last_dot t in if c == b'.' && not (contains_char b'.' t) then [] else c ∷ rest

unfoldable pub behind_last_dot : Text → Text
behind_last_dot [] = []
behind_last_dot (c ∷ t) =
    let rest = behind_last_dot t in if c == b'.' && not (contains_char b'.' t) then t else rest

unfoldable pub file_stem : Text → Text
unfolding has_later_dot before_last_dot
file_stem name = if has_later_dot name then before_last_dot name else name

unfoldable pub extension : Text → Option Text
unfolding has_later_dot behind_last_dot
extension name = if has_later_dot name then some (behind_last_dot name) else none

-- `path.with_extension(ext)`
unfoldable pub with_extension : Text → FilePath → FilePath
unfolding file_stem
with_extension ext [] = []
with_extension ext (s ∷ []) = (file_stem s ++ (lit "." ++ ext)) ∷ []
with_extension ext (s ∷ t ∷ p) = s ∷ with_extension ext (t ∷ p)

-- `path.file_name()`
unfoldable pub file_name : FilePath → Text
file_name [] = []
file_name (s ∷ []) = s
file_name (s ∷ t ∷ p) = file_name (t ∷ p)
