-- ===== src/Worker/MediaProcessor/Paths.antt =====
-- Where the file of a message is put.
use sage_wiki_bridge_wxo.Base.{
  ◌≡◌, ◌≢◌, refl, ap, sym, ◌∙◌, inl, inr, false, some, [], ◌∷◌, ◌++◌, arith, ◌==◌, Bool-cases,
  if◌then◌else◌,
}
use sage_wiki_bridge_wxo.Text.{Text, lit, text_eq, is_empty, contains_char, last_of, last_of-append}
use sage_wiki_bridge_wxo.Files.{FilePath, with_extension, file_stem, is_refused}
use sage_wiki_bridge_wxo.Archive.Atomic.{with_extension-snoc, snoc-ne}
use sage_wiki_bridge_wxo.Store.Schema.{MessageRow}
use sage_wiki_bridge_wxo.Worker.Artifacts.{message_key}
use sage_wiki_bridge_wxo.Worker.MediaProcessor.{
  GeminiMediaJobProcessor, extension_for_mime, add_to_component, split_path, keep_components,
  components, join_path, target_path,
}

-- No extension ends like that of the temporary file.
last_of-extension_for_mime : (mime name : Text) → last_of 0 (name ++ extension_for_mime mime) ≢ b'p'
unfolding extension_for_mime last_of lit
last_of-extension_for_mime mime name e = elim (Bool-cases (text_eq mime (lit "image/jpeg"))) [
  | inl a ↦ ends (lit "jpg") (rw a at e) refl
  | inr a ↦ elim (Bool-cases (text_eq mime (lit "audio/mpeg"))) [
    | inl b ↦ ends (lit "mp3") (rw (a, b) at e) refl
    | inr b ↦ elim (Bool-cases (text_eq mime (lit "audio/wav"))) [
      | inl c ↦ ends (lit "wav") (rw (a, b, c) at e) refl
      | inr c ↦ elim (Bool-cases (text_eq mime (lit "audio/amr"))) [
        | inl d ↦ ends (lit "amr") (rw (a, b, c, d) at e) refl
        | inr d ↦ elim (Bool-cases (text_eq mime (lit "video/mp4"))) [
          | inl f ↦ ends (lit "mp4") (rw (a, b, c, d, f) at e) refl
          | inr f ↦ ends (lit "bin") (rw (a, b, c, d, f) at e) refl
        ]
      ]
    ]
  ]
]
  where
    ends :
        (ext : Text)
        → last_of 0 (name ++ b'.' ∷ ext) ≡ b'p'
        → (last_of b'.' ext == b'p') ≡ false
        → ⊥
    ends ext same other = let k = last_of-append 0 b'.' name ext in ground (arith, k, same, other)

-- The temporary file of a download stands beside its target.
pub target_path-ne :
    (processor : GeminiMediaJobProcessor) (message : MessageRow) (mime : Text)
    → with_extension (lit "download.tmp") (target_path processor message mime)
      ≢ target_path processor message mime
unfolding target_path
target_path-ne processor message mime e =
    let root = join_path processor.raw_root (message_key message) in
    let name = lit "media.original" ++ extension_for_mime mime in
    let tmp = file_stem name ++ (lit "." ++ lit "download.tmp") in
    let ends : last_of 0 tmp ≡ b'p' =
      unfold lit last_of in last_of-append 0 b'.' (file_stem name) (lit "download.tmp") in
    snoc-ne root tmp name
      (λ same.
        last_of-extension_for_mime mime (lit "media.original") (ap (last_of 0) (sym same) ∙ ends))
      (sym (with_extension-snoc (lit "download.tmp") root name) ∙ e)

-- A message id that is an absolute path is where the file is put, whatever the root is.
pub target_path-absolute :
    (processor : GeminiMediaJobProcessor) (message : MessageRow) (mime place : Text)
    → message.wechat_msg_id ≡ some (b'/' ∷ place)
    → target_path processor message mime
      ≡ [] ∷ (components place ++ (lit "media.original" ++ extension_for_mime mime) ∷ [])
unfolding target_path message_key join_path
target_path-absolute processor message mime place h = rw h refl

-- A message id that is one name is that of a directory below the root.
split_path-name : (t : Text) → contains_char b'/' t ≡ false → split_path t ≡ t ∷ []
unfolding split_path contains_char add_to_component
split_path-name [] h = refl
split_path-name (c ∷ t) h = ground (arith, split_path-name t)

components-name : (t : Text) → is_refused t ≡ false → components t ≡ t ∷ []
unfolding components is_refused
components-name t h =
    let split : split_path t ≡ t ∷ [] = split_path-name t (ground arith) in
    rw split (unfold keep_components lit in ground arith)

join_path-name :
    (root : FilePath) (t : Text) → is_refused t ≡ false → join_path root t ≡ root ++ t ∷ []
unfolding join_path
join_path-name root [] h = absurd (unfold is_refused is_empty in ground arith)
join_path-name root (c ∷ t) h = elim (Bool-cases (c == b'/')) [
  | inl slash ↦ absurd (unfold is_refused contains_char in ground arith)
  | inr other ↦
      ap (λ b. if b then [] ∷ components t else root ++ components (c ∷ t)) other
      ∙ ap (λ l. root ++ l) (components-name (c ∷ t) h)
]

join_two : (root : FilePath) (a b : Text) → (root ++ a ∷ []) ++ b ∷ [] ≡ root ++ a ∷ b ∷ []
join_two [] a b = refl
join_two (x ∷ root) a b = ap (λ l. x ∷ l) (join_two root a b)

pub target_path-name :
    (processor : GeminiMediaJobProcessor) (message : MessageRow) (mime : Text)
    → is_refused (message_key message) ≡ false
    → target_path processor message mime
      ≡ processor.raw_root
        ++ message_key message ∷ (lit "media.original" ++ extension_for_mime mime) ∷ []
unfolding target_path
target_path-name processor message mime h =
    rw (join_path-name processor.raw_root (message_key message) h)
      (join_two processor.raw_root (message_key message) _)
