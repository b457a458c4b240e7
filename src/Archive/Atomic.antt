-- ===== src/Archive/Atomic.antt =====
-- The archive's temporary file is never its target, so its writes are atomic.
use sage_wiki_bridge_wxo.Base.{
  ℕ, ◌+◌, ◌<◌, ◌≡◌, ◌≢◌, refl, ap, ◌∙◌, sym, true, List, [], ◌∷◌, ◌++◌, arith, length,
  length-append, inl, inr, Bool-cases, unwrap_or,
}
use sage_wiki_bridge_wxo.Text.{Text, lit, contains_char}
use sage_wiki_bridge_wxo.Files.{
  FilePath, FileSystem, Fault, has_later_dot, before_last_dot, behind_last_dot, file_stem,
  extension, with_extension, file_name,
}
use sage_wiki_bridge_wxo.Files.Atomic.{IsAtomic, write_via-IsAtomic}
use sage_wiki_bridge_wxo.Archive.{tmp_path, write_file_atomically}

length-around_last_dot :
    (t : Text)
    → contains_char b'.' t ≡ true
    → length (before_last_dot t) + 1 + length (behind_last_dot t) ≡ length t
unfolding before_last_dot behind_last_dot contains_char
length-around_last_dot [] h = cc
length-around_last_dot (c ∷ t) h = ground (arith, length-around_last_dot t)

later_dot : (s : Text) → has_later_dot s ≡ true → contains_char b'.' s ≡ true
unfolding has_later_dot contains_char
later_dot [] h = cc
later_dot (c ∷ t) h = ground arith

-- The name of the temporary file, and that it is longer than the name it is made from.
abbrev pub tmp_name : Text → Text
tmp_name s = file_stem s ++ (lit "." ++ (unwrap_or (lit "file") (extension s) ++ lit ".tmp"))

length-tmp_name : (s : Text) → length s < length (tmp_name s)
length-tmp_name s = elim (Bool-cases (has_later_dot s)) [
  | inl d ↦
      unfold file_stem extension lit in
      rw d (omega (arith, length-around_last_dot s (later_dot s d), length-append {0}))
  | inr d ↦ unfold file_stem extension lit in rw d (omega (arith, length-append {0}))
]

file_name-snoc : (p : FilePath) (s : Text) → file_name (p ++ s ∷ []) ≡ s
unfolding file_name
file_name-snoc [] s = refl
file_name-snoc (a ∷ []) s = refl
file_name-snoc (a ∷ b ∷ p) s = file_name-snoc (b ∷ p) s

pub with_extension-snoc :
    (ext : Text) (p : FilePath) (s : Text)
    → with_extension ext (p ++ s ∷ []) ≡ p ++ (file_stem s ++ (lit "." ++ ext)) ∷ []
unfolding with_extension
with_extension-snoc ext [] s = refl
with_extension-snoc ext (a ∷ []) s = refl
with_extension-snoc ext (a ∷ b ∷ p) s = ap (λ q. a ∷ q) (with_extension-snoc ext (b ∷ p) s)

pub snoc-ne : (p : FilePath) (s t : Text) → s ≢ t → p ++ s ∷ [] ≢ p ++ t ∷ []
snoc-ne [] s t ne e = ne (cc)
snoc-ne (a ∷ p) s t ne e = snoc-ne p s t ne (cc)

-- The temporary file stands beside its target.
pub tmp_path-snoc : (p : FilePath) (s : Text) → tmp_path (p ++ s ∷ []) ≡ p ++ tmp_name s ∷ []
unfolding tmp_path
tmp_path-snoc p s = rw file_name-snoc (with_extension-snoc _ p s)

tmp_path-ne : (p : FilePath) (s : Text) → tmp_path (p ++ s ∷ []) ≢ p ++ s ∷ []
unfolding tmp_path
tmp_path-ne p s e =
    let q = tmp_path-snoc p s in
    snoc-ne p (tmp_name s) s (λ same. omega (arith, length-tmp_name s, ap length same)) (sym q ∙ e)

-- Wherever it fails, a write of the archive leaves the file with its old contents, and when it
-- succeeds with the new ones; no other file changes but the temporary one.
pub write_file_atomically-IsAtomic :
    (fault : Fault) (directory : FilePath) (name : Text) (bytes : List ℕ) (files : FileSystem)
    → let path = directory ++ name ∷ [] in
      IsAtomic (tmp_path path) path bytes files (write_file_atomically fault path bytes files)
unfolding write_file_atomically
write_file_atomically-IsAtomic fault directory name bytes files =
    write_via-IsAtomic (tmp_path (directory ++ name ∷ [])) (directory ++ name ∷ []) bytes files
      (tmp_path-ne directory name) fault
