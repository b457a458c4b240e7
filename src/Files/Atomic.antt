-- ===== src/Files/Atomic.antt =====
-- A write through a temporary file: the file has its old or its whole new contents, wherever the
-- write fails.
use sage_wiki_bridge_wxo.Base.{ℕ, ◌≡◌, ◌≢◌, refl, ◌↔◌, true, none, some, List, [], ◌∷◌, arith}
use sage_wiki_bridge_wxo.Text.{text_eq_iff}
use sage_wiki_bridge_wxo.Error.{BridgeError, io, Result, ok, err}
use sage_wiki_bridge_wxo.Files.{
  FilePath, path_eq, FileSystem, Fault, no_fault, at_directory, at_create, at_write, at_sync,
  at_rename, put_file, write_via,
}

path_eq_sound : (a b : FilePath) → path_eq a b ≡ true → a ≡ b
unfolding path_eq
path_eq_sound [] [] h = refl
path_eq_sound [] (y ∷ ys) h = cc
path_eq_sound (x ∷ xs) [] h = cc
path_eq_sound (x ∷ xs) (y ∷ ys) h = ground (arith, path_eq_sound xs ys, text_eq_iff x y)

path_eq_refl : (a : FilePath) → path_eq a a ≡ true
unfolding path_eq
path_eq_refl [] = refl
path_eq_refl (x ∷ xs) = ground (arith, path_eq_refl xs, text_eq_iff x x)

pub path_eq_iff : (a b : FilePath) → (path_eq a b ≡ true) ↔ (a ≡ b)
path_eq_iff a b = (path_eq_sound a b, λ e. rw (← e) (path_eq_refl a))

abbrev pub IsOk {ℓ} : {A : Type ℓ} → Result A → Type 0
IsOk (ok a) = Unit
IsOk (err e) = ⊥

-- What a write may leave behind: the new contents if it succeeds, the old ones if it fails, and
-- nothing else is touched but the temporary file.
pub record IsAtomic (tmp path : FilePath) (bytes : List ℕ) (files : FileSystem)
    (r : Result (Unit {0}) × FileSystem) : Type 0 where
  pub written : IsOk r.0 → (r.1 path ≡ some bytes) × (r.1 tmp ≡ none)
  pub kept : ¬ IsOk r.0 → r.1 path ≡ files path
  pub others : (q : FilePath) → q ≢ path → q ≢ tmp → r.1 q ≡ files q

module _ (tmp path : FilePath) (bytes : List ℕ) (files : FileSystem) (apart : tmp ≢ path) where
  untouched : (e : BridgeError) → IsAtomic tmp path bytes files (err e, files)
  untouched e = record { written = λ h. elim h [ ]; kept = λ _. refl; others = λ q a b. refl }

  left_over :
      (e : BridgeError) (part : List ℕ)
      → IsAtomic tmp path bytes files (err e, put_file tmp part files)
  unfolding put_file
  left_over e part = record {
    written = λ h. elim h [ ];
    kept = λ _. ground (arith, path_eq_iff path tmp);
    others = λ q a b. ground (arith, path_eq_iff q tmp);
  }

  pub write_via-IsAtomic :
      (fault : Fault) → IsAtomic tmp path bytes files (write_via fault tmp path bytes files)
  unfolding write_via
  write_via-IsAtomic no_fault = record {
    written = λ _. (
      ground (arith, path_eq_iff path path),
      ground (arith, path_eq_iff tmp path, path_eq_iff tmp tmp),
    );
    kept = λ n. absurd (n tt);
    others = λ q a b. ground (arith, path_eq_iff q path, path_eq_iff q tmp);
  }
  write_via-IsAtomic (at_directory e) = untouched (io e)
  write_via-IsAtomic (at_create e) = untouched (io e)
  write_via-IsAtomic (at_write e part) = left_over (io e) part
  write_via-IsAtomic (at_sync e) = left_over (io e) bytes
  write_via-IsAtomic (at_rename e) = left_over (io e) bytes
