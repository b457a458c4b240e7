-- ===== src/Archive/Confined.antt =====
-- The archive writes below its root only.
use sage_wiki_bridge_wxo.Base.{ℕ, ◌≡◌, ◌≢◌, refl, ap, ◌∙◌, sym, List, [], ◌∷◌, ◌++◌, inl, inr}
use sage_wiki_bridge_wxo.Text.{Text}
use sage_wiki_bridge_wxo.Error.{Result, ok, err, Result-cases}
use sage_wiki_bridge_wxo.Exec.{Exec, ◌>>=◌, ◌>>◌, proceed, pure, lift}
use sage_wiki_bridge_wxo.Files.{FilePath, FileSystem, Fault, ensure_under_root, sanitize_segment}
use sage_wiki_bridge_wxo.Files.Segments.{starts_with_path-append}
use sage_wiki_bridge_wxo.Archive.{
  safe_relative_path, tmp_path, write_file_atomically, save_artifact,
}
use sage_wiki_bridge_wxo.Archive.Atomic.{tmp_name, tmp_path-snoc, write_file_atomically-IsAtomic}
use sage_wiki_bridge_wxo.Archive.Names.{IsName, sanitize_segment-IsName, tmp_name-IsName}
use sage_wiki_bridge_wxo.Wechat.Primitives.{Primitives}

append_assoc : (a b c : FilePath) → (a ++ b) ++ c ≡ a ++ (b ++ c)
append_assoc [] b c = refl
append_assoc (x ∷ a) b c = ap (λ l. x ∷ l) (append_assoc a b c)

-- The path is not that of a file two levels below the root, under names that are no `.`, no `..`,
-- and without a separator.
abbrev pub IsOutside : FilePath → FilePath → Type 0
IsOutside root q = (key name : Text) → IsName key → IsName name → q ≢ root ++ key ∷ name ∷ []

-- The write of a file two levels below the root changes nothing else there.
written_inside :
    (fault : Fault) (root q : FilePath) (key name : Text) (bytes : List ℕ) (files : FileSystem)
    → IsName key
    → IsName name
    → IsOutside root q
    → (write_file_atomically fault (root ++ key ∷ name ∷ []) bytes files).1 q ≡ files q
written_inside fault root q key name bytes files is_key is_name outside =
    let directory = root ++ key ∷ [] in
    let atomic = write_file_atomically-IsAtomic fault directory name bytes files in
    let path : directory ++ name ∷ [] ≡ root ++ key ∷ name ∷ [] =
      append_assoc root (key ∷ []) (name ∷ []) in
    let beside : tmp_path (directory ++ name ∷ []) ≡ root ++ key ∷ tmp_name name ∷ [] =
      tmp_path-snoc directory name ∙ append_assoc root (key ∷ []) (tmp_name name ∷ []) in
    ap (λ t. (write_file_atomically fault t bytes files).1 q) (sym path)
    ∙ atomic.others q (λ e. outside key name is_key is_name (e ∙ path))
        (λ e. outside key (tmp_name name) is_key (tmp_name-IsName name is_name) (e ∙ beside))

proceed-pure :
    {A B : Type 0} (r : Result A) (b : B) (files : FileSystem)
    → (proceed r (λ a. pure b) files).1 ≡ files
unfolding proceed pure
proceed-pure (ok a) b files = refl
proceed-pure (err e) b files = refl

pub then_pure :
    {A : Type 0} (m : Exec FileSystem (Unit {0})) (r : A) (files : FileSystem)
    → ((m >> pure r) files).1 ≡ (m files).1
unfolding ◌>>=◌ ◌>>◌
then_pure m r files = proceed-pure (m files).0 r (m files).1

module _ (p : Primitives) where
  -- Whatever key and name an artifact is saved under, and whether that succeeds or not, no file
  -- changes but files two levels below the archive's root, under names that are not empty, are
  -- neither `.` nor `..`, and have no separator in them.
  pub save_artifact-confined :
      (fault : Fault) (root : FilePath) (message_key filename : Text) (bytes : List ℕ)
      (files : FileSystem) (q : FilePath)
      → IsOutside root q
      → (save_artifact p fault root message_key filename bytes files).1 q ≡ files q
  unfolding save_artifact safe_relative_path ◌>>=◌ ◌>>◌ proceed pure lift
  save_artifact-confined fault root message_key filename bytes files q h =
      elim (Result-cases (sanitize_segment message_key)) [
        | inr (e, bad) ↦ rw bad refl
        | inl (key, good_key) ↦ elim (Result-cases (sanitize_segment filename)) [
          | inr (e, bad) ↦ rw (good_key, bad) refl
          | inl (name, good) ↦
              let below : ensure_under_root root (root ++ key ∷ name ∷ []) ≡ ok tt =
                unfold ensure_under_root in
                rw (starts_with_path-append root (key ∷ name ∷ [])) refl in
              rw (good_key, good, below)
                (ap (λ after. after q)
                    (then_pure (write_file_atomically fault (root ++ key ∷ name ∷ []) bytes) _
                      files)
                  ∙ written_inside fault root q key name bytes files
                      (sanitize_segment-IsName message_key key good_key)
                      (sanitize_segment-IsName filename name good) h)
        ]
      ]
