-- ===== src/Receiver/Counts.antt =====
-- The grouped counts that a status reply shows are counts.
use sage_wiki_bridge_wxo.Base.{
  ℕ, ◌+◌, ◌≡◌, ◌≢◌, sym, refl, Bool, true, false, Option, List, [], ◌∷◌, map, arith, All,
  if◌then◌else◌, ap, ◌∙◌, Bool-cases, inl, inr,
}
use sage_wiki_bridge_wxo.Text.{
  Text, lit, text_eq, text_eq_iff, text_eq_ne, text_le, text_le_trans, text_le-total,
  text_le-antisym,
}
use sage_wiki_bridge_wxo.Table.{count_where, All-map}
use sage_wiki_bridge_wxo.Store.Schema.{JobStatus, is_pending, is_processing, job_status_text, Db}
use sage_wiki_bridge_wxo.Store.Status.{add_to_group, grouped_counts, status_snapshot}
use sage_wiki_bridge_wxo.Receiver.Reply.{grouped_count}

-- A key stands before the key of a group.
abbrev Before : Text → Text × ℕ → Type 0
Before key group = (text_le key group.0 ≡ true) × (text_eq group.0 key ≡ false)

-- The groups stand in the order of their keys.
abbrev Ordered : List (Text × ℕ) → Type 0
Ordered [] = Unit {0}
Ordered ((name, count) ∷ groups) = All (Before name) groups × Ordered groups

absurd_eq : (a b : Text) → text_eq a b ≡ false → a ≢ b
absurd_eq a b e q = let yes_eq = (text_eq_iff a b).1 q in absurd (cc)

grouped_count-Before :
    (key : Text) (groups : List (Text × ℕ)) → All (Before key) groups → grouped_count groups key ≡ 0
unfolding grouped_count
grouped_count-Before key [] h = refl
grouped_count-Before key ((name, count) ∷ groups) h =
    rw (h.0.1) (grouped_count-Before key groups h.1)

Before-trans :
    (a b : Text) (group : Text × ℕ)
    → text_le a b ≡ true
    → text_eq b a ≡ false
    → Before b group
    → Before a group
Before-trans a b (name, count) le ne (h, k) = (
  text_le_trans a b name le h,
  elim (Bool-cases (text_eq name a)) [
    | inr e ↦ e
    | inl e ↦
        let same : name ≡ a = (text_eq_iff name a).0 e in
        let back : text_le b a ≡ true = rw (← same) h in
        let equal : text_eq b a ≡ true = (text_eq_iff b a).1 (text_le-antisym b a back le) in
        absurd (cc)
  ],
)

Before-add_to_group :
    (key name : Text) (groups : List (Text × ℕ))
    → All (Before key) groups
    → Before key (name, 1)
    → All (Before key) (add_to_group name groups)
unfolding add_to_group
Before-add_to_group key name [] h k = (k, tt)
Before-add_to_group key name ((other, count) ∷ groups) h k =
    elim (Bool-cases (text_eq other name)) [
      | inl e ↦ rw e (h.0, h.1)
      | inr e ↦ elim (Bool-cases (text_le name other)) [
        | inl l ↦ rw (e, l) (k, h)
        | inr l ↦ rw (e, l) (h.0, Before-add_to_group key name groups h.1 k)
      ]
    ]

Ordered-add_to_group :
    (name : Text) (groups : List (Text × ℕ)) → Ordered groups → Ordered (add_to_group name groups)
unfolding add_to_group
Ordered-add_to_group name [] h = (tt, tt)
Ordered-add_to_group name ((other, count) ∷ groups) h = elim (Bool-cases (text_eq other name)) [
  | inl e ↦ rw e h
  | inr e ↦ elim (Bool-cases (text_le name other)) [
    | inl l ↦ rw (e, l) (((l, e), All-map _ _ (λ g. Before-trans name other g l e) groups h.0), h)
    | inr l ↦
        let back = text_le-total name other l in
        let apart : text_eq name other ≡ false =
          text_eq_ne name other (λ q. absurd_eq other name e (sym q)) in
        rw (e, l)
          (
            Before-add_to_group other name groups h.0 (back, apart),
            Ordered-add_to_group name groups h.1,
          )
  ]
]

front : (b : Bool) (n : ℕ) → (b ≡ true → n ≡ 0) → (if b then 1 else n) ≡ (if b then 1 else 0) + n
front true n h = let z = h refl in ground arith
front false n h = ground arith

apart :
    (key name other : Text)
    → text_eq other name ≡ false
    → text_eq other key ≡ true
    → text_eq name key ≡ false
apart key name other e h = elim (Bool-cases (text_eq name key)) [
  | inr f ↦ f
  | inl f ↦
      absurd
        (absurd_eq other name e ((text_eq_iff other key).0 h ∙ sym ((text_eq_iff name key).0 f)))
]

grouped_count-add_to_group :
    (key name : Text) (groups : List (Text × ℕ))
    → Ordered groups
    → grouped_count (add_to_group name groups) key
      ≡ (if text_eq name key then 1 else 0) + grouped_count groups key
unfolding grouped_count add_to_group
grouped_count-add_to_group key name [] h = ground arith
grouped_count-add_to_group key name ((other, count) ∷ groups) h =
    elim (Bool-cases (text_eq other name)) [
      | inl e ↦
          let same : text_eq other key ≡ text_eq name key =
            ap (λ t. text_eq t key) ((text_eq_iff other name).0 e) in
          rw e (unfold grouped_count in ground (arith, same))
      | inr e ↦ elim (Bool-cases (text_le name other)) [
        | inl l ↦
            rw (e, l)
              (front (text_eq name key) (grouped_count ((other, count) ∷ groups) key)
                (λ q. absent ((text_eq_iff name key).0 q) l e))
        | inr l ↦
            let rest = grouped_count-add_to_group key name groups h.1 in
            rw (e, l) (ground (arith, rest, apart key name other e))
      ]
    ]
  where
    absent :
        name ≡ key
        → text_le name other ≡ true
        → text_eq other name ≡ false
        → grouped_count ((other, count) ∷ groups) key ≡ 0
    absent q l e = rw (← q) (
        grouped_count-Before name ((other, count) ∷ groups)
          ((l, e), All-map _ _ (λ g. Before-trans name other g l e) groups h.0))

Ordered-grouped_counts : (keys : List Text) → Ordered (grouped_counts keys)
unfolding grouped_counts
Ordered-grouped_counts [] = tt
Ordered-grouped_counts (key ∷ keys) =
    Ordered-add_to_group key (grouped_counts keys) (Ordered-grouped_counts keys)

-- The count that is shown for a key is the number of rows with that key, whatever the other keys
-- are, and zero for a key that no row has.
pub grouped_count-grouped_counts :
    (keys : List Text) (key : Text)
    → grouped_count (grouped_counts keys) key ≡ count_where (λ name. text_eq name key) keys
unfolding grouped_counts count_where
grouped_count-grouped_counts [] key = unfold grouped_count in refl
grouped_count-grouped_counts (name ∷ keys) key =
    grouped_count-add_to_group key name (grouped_counts keys) (Ordered-grouped_counts keys)
    ∙ ap (λ n. (if text_eq name key then 1 else 0) + n) (grouped_count-grouped_counts keys key)

count_where-map {ℓ κ} :
    {A : Type ℓ} {B : Type κ} (f : A → B) (p : B → Bool) (xs : List A)
    → count_where p (map f xs) ≡ count_where (λ x. p (f x)) xs
unfolding count_where
count_where-map f p [] = refl
count_where-map f p (x ∷ xs) = ap (λ n. (if p (f x) then 1 else 0) + n) (count_where-map f p xs)

count_where-same {ℓ} :
    {A : Type ℓ} (p q : A → Bool)
    → ((x : A) → p x ≡ q x)
    → (xs : List A) → count_where p xs ≡ count_where q xs
unfolding count_where
count_where-same p q h [] = refl
count_where-same p q h (x ∷ xs) =
    rw (h x) (ap (λ n. (if q x then 1 else 0) + n) (count_where-same p q h xs))

is_pending-text : (s : JobStatus) → text_eq (job_status_text s) (lit "pending") ≡ is_pending s
unfolding job_status_text text_eq lit
is_pending-text JobStatus.pending = refl
is_pending-text JobStatus.processing = refl
is_pending-text JobStatus.done = refl
is_pending-text JobStatus.failed = refl

is_processing-text :
    (s : JobStatus) → text_eq (job_status_text s) (lit "processing") ≡ is_processing s
unfolding job_status_text text_eq lit
is_processing-text JobStatus.pending = refl
is_processing-text JobStatus.processing = refl
is_processing-text JobStatus.done = refl
is_processing-text JobStatus.failed = refl

-- The two job counts of a status reply are the numbers of pending jobs and of jobs in process.
pub status_snapshot-job_counts :
    (metadata_len : Text → Option ℕ) (db : Db)
    → let counts = (status_snapshot metadata_len db).jobs_by_status in
      (grouped_count counts (lit "pending") ≡ count_where (λ row. is_pending row.status) db.jobs)
      × (grouped_count counts (lit "processing")
          ≡ count_where (λ row. is_processing row.status) db.jobs)
unfolding status_snapshot
status_snapshot-job_counts metadata_len db =
    let texts = map (λ row. job_status_text row.status) db.jobs in
    (
      grouped_count-grouped_counts texts (lit "pending")
          ∙ count_where-map (λ row. job_status_text row.status) _ db.jobs
          ∙ count_where-same _ _ (λ row. is_pending-text row.status) db.jobs,
      grouped_count-grouped_counts texts (lit "processing")
          ∙ count_where-map (λ row. job_status_text row.status) _ db.jobs
          ∙ count_where-same _ _ (λ row. is_processing-text row.status) db.jobs,
    )
