-- ===== src/Media/Bytes.antt =====
-- Where the bytes of a download come from.
use sage_wiki_bridge_wxo.Base.{
  ℕ, ◌+◌, ◌≡◌, ◌≢◌, refl, ap, sym, ◌∙◌, ◌⊎◌, inl, inr, true, Option, some, List, [], ◌∷◌, ◌++◌, ltb,
  length, Bool-cases,
}
use sage_wiki_bridge_wxo.Text.{Text, lit, trim_end_matches}
use sage_wiki_bridge_wxo.Error.{BridgeError, Result, ok, err, Result-cases}
use sage_wiki_bridge_wxo.Files.{
  FilePath, FileSystem, Fault, no_fault, at_directory, at_create, at_write, at_sync, at_rename,
  write_via, with_extension,
}
use sage_wiki_bridge_wxo.Files.Atomic.{IsOk, write_via-IsAtomic}
use sage_wiki_bridge_wxo.Wechat.Primitives.{Primitives}
use sage_wiki_bridge_wxo.Media.{
  DownloadedMedia, WechatMediaClient, MediaApi, MediaResponse, Round, received, unwritten, lost,
  read_chunks, break_off, save_chunks, save_response, download_media,
}

-- The chunks that came, one behind the other.
abbrev pub chunks : List Round → List ℕ
chunks [] = []
chunks (received chunk ∷ rounds) = chunk ++ chunks rounds
chunks (_ ∷ rounds) = chunks rounds

append_assoc : (a b c : List ℕ) → (a ++ b) ++ c ≡ a ++ (b ++ c)
append_assoc [] b c = refl
append_assoc (x ∷ a) b c = ap (λ t. x ∷ t) (append_assoc a b c)

append_nil : (a : List ℕ) → a ++ [] ≡ a
append_nil [] = refl
append_nil (x ∷ a) = ap (λ t. x ∷ t) (append_nil a)

read_chunks-chunks :
    (max : ℕ) (rounds : List Round) (size n : ℕ) (written : List ℕ)
    → (read_chunks max rounds size written).0 ≡ ok n
    → (read_chunks max rounds size written).1 ≡ written ++ chunks rounds
unfolding read_chunks
read_chunks-chunks max [] size n written k = sym (append_nil written)
read_chunks-chunks max (lost x ∷ rounds) size n written k = cc k
read_chunks-chunks max (received chunk ∷ rounds) size n written k =
    elim (Bool-cases (ltb max (size + length chunk))) [
      | inl large ↦ absurd (let k' = rw large at k in cc k')
      | inr small ↦ rw small (
          read_chunks-chunks max rounds (size + length chunk) n (written ++ chunk) (rw small at k)
          ∙ append_assoc written chunk (chunks rounds))
    ]
read_chunks-chunks max (unwritten chunk part x ∷ rounds) size n written k =
    elim (Bool-cases (ltb max (size + length chunk))) [
      | inl large ↦ absurd (let k' = rw large at k in cc k')
      | inr small ↦ absurd (let k' = rw small at k in cc k')
    ]

break_off-fails :
    {A : Type 0} (fault : Fault) (e : BridgeError) (tmp : FilePath) (part : List ℕ)
    (files : FileSystem) (a : A)
    → (break_off {A = A} fault e tmp part files).0 ≢ ok a
unfolding break_off
break_off-fails (at_directory x) e tmp part files a h = cc h
break_off-fails (at_create x) e tmp part files a h = cc h
break_off-fails no_fault e tmp part files a h = cc h
break_off-fails (at_sync x) e tmp part files a h = cc h
break_off-fails (at_rename x) e tmp part files a h = cc h
break_off-fails (at_write x part') e tmp part files a h = cc h

module _ (p : Primitives) (fault : Fault) (max : ℕ) (target : FilePath)
    (apart : with_extension (lit "download.tmp") target ≢ target) where
  save_chunks-bytes :
      (content_type : Option Text) (r : Result ℕ × List ℕ) (files files' : FileSystem)
      (media : DownloadedMedia)
      → save_chunks p fault max target content_type r files ≡ (ok media, files')
      → ((n : ℕ) × (r.0 ≡ ok n)) × (files' target ≡ some r.1)
  unfolding save_chunks
  save_chunks-bytes content_type (err e, written) files files' media h = absurd (
      break_off-fails fault e (with_extension (lit "download.tmp") target) written files media
        (ap (λ r. r.0) h))
  save_chunks-bytes content_type (ok n, written) files files' media h =
      let tmp = with_extension (lit "download.tmp") target in
      let atomic = write_via-IsAtomic tmp target written files apart fault in
      elim (Result-cases (write_via fault tmp target written files).0) [
        | inl (u, fine) ↦
            let is_ok : IsOk (write_via fault tmp target written files).0 = rw fine tt in
            let ends = rw (fine, save_chunks) at h in
            ((n, refl), ap (λ r. r.1 target) (sym ends) ∙ (atomic.written is_ok).0)
        | inr (e, bad) ↦ let ends = rw (bad, save_chunks) at h in absurd (cc (ap (λ r. r.0) ends))
      ]

  save_response-bytes :
      (answer : Text ⊎ MediaResponse) (files files' : FileSystem) (media : DownloadedMedia)
      → save_response p fault max target answer files ≡ (ok media, files')
      → (response : MediaResponse) × (answer ≡ inr response)
        × (response.is_success ≡ true)
        × (files' target ≡ some (chunks response.rounds))
  unfolding save_response
  save_response-bytes (inl e) files files' media h = absurd (cc (ap (λ r. r.0) h))
  save_response-bytes (inr response) files files' media h = elim (Bool-cases response.is_success) [
    | inl fine ↦
        let ((n, counted), holds) =
          save_chunks-bytes response.content_type (read_chunks max response.rounds 0 []) files
            files' media (rw fine at h) in
        (
          response,
          refl,
          fine,
          holds ∙ ap some (read_chunks-chunks max response.rounds 0 n [] counted),
        )
    | inr bad ↦ let ends = rw bad at h in absurd (cc (ap (λ r. r.0) ends))
  ]

-- A download that succeeds has put the chunks of a successful answer into its target, which is the
-- answer to the request for the medium of this id with this token.
pub download_media-bytes :
    (p : Primitives) (fault : Fault) (api : MediaApi) (client : WechatMediaClient)
    (access_token media_id : Text) (target : FilePath) (files files' : FileSystem)
    (media : DownloadedMedia)
    → with_extension (lit "download.tmp") target ≢ target
    → download_media p fault api client access_token media_id target files ≡ (ok media, files')
    → (response : MediaResponse) × (api.answer_media
          (trim_end_matches b'/' client.config.api_base ++ lit "/cgi-bin/media/get")
          ((lit "access_token", access_token) ∷ (lit "media_id", media_id) ∷ [])
        ≡ inr response)
      × (response.is_success ≡ true)
      × (files' target ≡ some (chunks response.rounds))
unfolding download_media
download_media-bytes p fault api client access_token media_id target files files' media apart h =
    save_response-bytes p fault client.max_media_bytes target apart _ files files' media h
