-- ===== src/Media/Downloads.antt =====
-- What a download leaves behind.
use sage_wiki_bridge_wxo.Base.{
  ℕ, ◌+◌, ◌≤◌, ◌≡◌, ◌≢◌, refl, sym, ◌∙◌, ◌⊎◌, inl, inr, Option, some, List, [], ◌∷◌, ◌++◌, arith,
  ltb, length, length-append, Bool-cases,
}
use sage_wiki_bridge_wxo.Text.{Text, lit}
use sage_wiki_bridge_wxo.Error.{BridgeError, Result, ok, err}
use sage_wiki_bridge_wxo.Files.{
  FilePath, FileSystem, Fault, no_fault, at_directory, at_create, at_write, at_sync, at_rename,
  put_file, write_via, with_extension,
}
use sage_wiki_bridge_wxo.Files.Atomic.{path_eq_iff, IsOk, IsAtomic, write_via-IsAtomic}
use sage_wiki_bridge_wxo.Wechat.Primitives.{Primitives}
use sage_wiki_bridge_wxo.Media.{
  DownloadedMedia, WechatMediaClient, MediaApi, MediaResponse, Round, received, unwritten, lost,
  read_chunks, break_off, save_chunks, save_response, download_media,
}

-- The size that the loop counts is that of what it wrote, and within the limit.
read_chunks-size :
    (max : ℕ) (rounds : List Round) (size n : ℕ) (written : List ℕ)
    → size ≡ length written
    → size ≤ max
    → (read_chunks max rounds size written).0 ≡ ok n
    → (n ≡ length (read_chunks max rounds size written).1) × (n ≤ max)
unfolding read_chunks
read_chunks-size max [] size n written e h k =
    let same : size ≡ n = cc k in (sym same ∙ e, omega arith)
read_chunks-size max (lost x ∷ rounds) size n written e h k = cc k
read_chunks-size max (received chunk ∷ rounds) size n written e h k =
    elim (Bool-cases (ltb max (size + length chunk))) [
      | inl large ↦ absurd (let k' = rw large at k in cc k')
      | inr small ↦ rw small (
          read_chunks-size max rounds (size + length chunk) n (written ++ chunk)
            (omega (arith, e, length-append {0} written chunk)) (ground arith) (rw small at k))
    ]
read_chunks-size max (unwritten chunk part x ∷ rounds) size n written e h k =
    elim (Bool-cases (ltb max (size + length chunk))) [
      | inl large ↦ absurd (let k' = rw large at k in cc k')
      | inr small ↦ absurd (let k' = rw small at k in cc k')
    ]

module _ (p : Primitives) (fault : Fault) (max : ℕ) (target : FilePath)
    (apart : with_extension (lit "download.tmp") target ≢ target) where
  abbrev pub tmp_path : FilePath
  tmp_path = with_extension (lit "download.tmp") target

  pub record IsDownload (files : FileSystem) (r : Result DownloadedMedia × FileSystem)
      : Type 0 where
    -- A success: the target has the data, whose size and hash are returned, within the limit.
    pub written :
        {media : DownloadedMedia}
        → r.0 ≡ ok media
        → (bytes : List ℕ) × (r.1 target ≡ some bytes)
          × (media.path ≡ target)
          × (media.size_bytes ≡ length bytes)
          × (length bytes ≤ max)
          × (media.sha256 ≡ p.sha256_hex bytes)
    -- A failure leaves the target as it was.
    pub kept : ¬ IsOk r.0 → r.1 target ≡ files target
    pub others : (q : FilePath) → q ≢ target → q ≢ tmp_path → r.1 q ≡ files q

  failed :
      (e : BridgeError) (files files' : FileSystem)
      → files' target ≡ files target
      → ((q : FilePath) → q ≢ target → q ≢ tmp_path → files' q ≡ files q)
      → IsDownload files (err e, files')
  failed e files files' same others = record {
    written = λ h. cc;
    kept = λ _. same;
    others = others;
  }

  left_over :
      (e : BridgeError) (part : List ℕ) (files : FileSystem)
      → IsDownload files (err e, put_file tmp_path part files)
  unfolding put_file
  left_over e part files =
      failed e files (put_file tmp_path part files) (ground (arith, path_eq_iff target tmp_path))
        (λ q a b. ground (arith, path_eq_iff q tmp_path))

  break_off-IsDownload :
      (fault : Fault) (e : BridgeError) (part : List ℕ) (files : FileSystem)
      → IsDownload files (break_off fault e tmp_path part files)
  unfolding break_off
  break_off-IsDownload (at_directory x) e part files = failed _ files files refl (λ q a b. refl)
  break_off-IsDownload (at_create x) e part files = failed _ files files refl (λ q a b. refl)
  break_off-IsDownload no_fault e part files = left_over e part files
  break_off-IsDownload (at_sync x) e part files = left_over e part files
  break_off-IsDownload (at_rename x) e part files = left_over e part files
  break_off-IsDownload (at_write x part') e part files = left_over e part files

  -- The answer to the write decides.
  saved :
      (content_type : Option Text) (n : ℕ) (bytes : List ℕ) (files : FileSystem)
      (r : Result (Unit {0}) × FileSystem)
      → n ≡ length bytes
      → n ≤ max
      → IsAtomic tmp_path target bytes files r
      → IsDownload files (elim r.0 [
        | err e ↦ (err e, r.1)
        | ok u ↦ (
          ok (record {
            path = target;
            content_type = content_type;
            size_bytes = n;
            sha256 = p.sha256_hex bytes;
          }),
          r.1,
        )
      ])
  saved content_type n bytes files (err e, files') size small atomic =
      failed e files files' (atomic.kept (λ h. h)) atomic.others
  saved content_type n bytes files (ok u, files') size small atomic = record {
    written = λ {media} h.
        let same : record {
          path = target;
          content_type = content_type;
          size_bytes = n;
          sha256 = p.sha256_hex bytes;
        }
            ≡ media =
          cc h in
        rw (← same) (bytes, (atomic.written tt).0, refl, size, omega arith, refl);
    kept = λ h. absurd (h tt);
    others = atomic.others;
  }

  save_chunks-IsDownload :
      (content_type : Option Text) (rounds : List Round) (files : FileSystem)
      → IsDownload files
          (save_chunks p fault max target content_type (read_chunks max rounds 0 []) files)
  unfolding save_chunks
  save_chunks-IsDownload content_type rounds files =
      decided (read_chunks max rounds 0 [])
        (λ n h. read_chunks-size max rounds 0 n [] refl (omega arith) h)
    where
      decided :
          (r : Result ℕ × List ℕ)
          → ((n : ℕ) → r.0 ≡ ok n → (n ≡ length r.1) × (n ≤ max))
          → IsDownload files (save_chunks p fault max target content_type r files)
      decided (err e, part) bounds = break_off-IsDownload fault e part files
      decided (ok n, bytes) bounds =
          saved content_type n bytes files (write_via fault tmp_path target bytes files)
            (bounds n refl).0 (bounds n refl).1
            (write_via-IsAtomic tmp_path target bytes files apart fault)

  save_response-IsDownload :
      (answer : Text ⊎ MediaResponse) (files : FileSystem)
      → IsDownload files (save_response p fault max target answer files)
  unfolding save_response
  save_response-IsDownload (inl e) files = failed _ files files refl (λ q a b. refl)
  save_response-IsDownload (inr response) files = elim (Bool-cases response.is_success) [
    | inl fine ↦ rw fine (save_chunks-IsDownload response.content_type response.rounds files)
    | inr bad ↦ rw bad (failed _ files files refl (λ q a b. refl))
  ]

-- A download puts the data of the answer into its target, within the limit of the client, and
-- returns its size and hash; or it fails and leaves the target as it was. No other file changes but
-- a temporary one.
pub download_media-IsDownload :
    (p : Primitives) (fault : Fault) (api : MediaApi) (client : WechatMediaClient)
    (access_token media_id : Text) (target : FilePath) (files : FileSystem)
    → (apart : with_extension (lit "download.tmp") target ≢ target)
    → IsDownload p fault client.max_media_bytes target apart files
        (download_media p fault api client access_token media_id target files)
unfolding download_media
download_media-IsDownload p fault api client access_token media_id target files apart =
    save_response-IsDownload p fault client.max_media_bytes target apart _ files
