-- ===== src/Table.antt =====
-- SQL over a table: the rows in the order of their ids, and the queries that the store makes.
pub mod Keys
use sage_wiki_bridge_wxo.Base.{
  ℕ, zero, suc, ◌+◌, ◌≤◌, ◌≡◌, refl, ap, ◌∙◌, Bool, true, false, Option, none, some, List, [], ◌∷◌,
  ◌++◌, if◌then◌else◌, arith, length, All, inl, inr, Bool-cases,
}

module _ {ℓ} {A : Type ℓ} where
  -- `UPDATE ... SET f WHERE p`
  unfoldable pub update_where : (A → Bool) → (A → A) → List A → List A
  update_where p f [] = []
  update_where p f (x ∷ xs) = (if p x then f x else x) ∷ update_where p f xs

  -- `SELECT ... WHERE p`, the first row of it
  unfoldable pub first_where : (A → Bool) → List A → Option A
  first_where p [] = none
  first_where p (x ∷ xs) = if p x then some x else first_where p xs

  -- `SELECT COUNT(*) WHERE p`
  unfoldable pub count_where : (A → Bool) → List A → ℕ
  count_where p [] = 0
  count_where p (x ∷ xs) = (if p x then 1 else 0) + count_where p xs

  -- `SELECT ... WHERE p`
  unfoldable pub select_where : (A → Bool) → List A → List A
  select_where p [] = []
  select_where p (x ∷ xs) = let rest = select_where p xs in if p x then x ∷ rest else rest

module _ {ℓ} {A : Type ℓ} where
  pub All-append {κ} : (P : A → Type κ) (xs ys : List A) → All P xs → All P ys → All P (xs ++ ys)
  All-append P [] ys h k = k
  All-append P (x ∷ xs) ys h k = (h.0, All-append P xs ys h.1 k)

  pub All-total {κ} : (P : A → Type κ) → ((x : A) → P x) → (xs : List A) → All P xs
  All-total P f [] = tt
  All-total P f (x ∷ xs) = (f x, All-total P f xs)

  pub All-map {κ μ} :
      (P : A → Type κ) (Q : A → Type μ)
      → ((x : A) → P x → Q x)
      → (xs : List A) → All P xs
      → All Q xs
  All-map P Q f [] h = tt
  All-map P Q f (x ∷ xs) h = (f x h.0, All-map P Q f xs h.1)

  -- As the next lemma, where what the update does is known of the rows at hand only.
  pub All-update_of {κ} :
      (P : A → Type κ) (p : A → Bool) (f : A → A) (xs : List A)
      → All (λ x. p x ≡ true → P (f x)) xs
      → All P xs
      → All P (update_where p f xs)
  unfolding update_where
  All-update_of P p f [] k h = tt
  All-update_of P p f (x ∷ xs) k h = elim (Bool-cases (p x)) [
    | inl e ↦ rw e (k.0 e, All-update_of P p f xs k.1 h.1)
    | inr e ↦ rw e (h.0, All-update_of P p f xs k.1 h.1)
  ]

  pub All-update_where {κ} :
      (P : A → Type κ) (p : A → Bool) (f : A → A)
      → ((x : A) → p x ≡ true → P x → P (f x))
      → (xs : List A) → All P xs
      → All P (update_where p f xs)
  unfolding update_where
  All-update_where P p f keep [] h = tt
  All-update_where P p f keep (x ∷ xs) h = elim (Bool-cases (p x)) [
    | inl e ↦ rw e (keep x e h.0, All-update_where P p f keep xs h.1)
    | inr e ↦ rw e (h.0, All-update_where P p f keep xs h.1)
  ]

  pub first_where_sound :
      (p : A → Bool) (xs : List A) (x : A) → first_where p xs ≡ some x → p x ≡ true
  unfolding first_where
  first_where_sound p [] x h = cc
  first_where_sound p (y ∷ ys) x h = ground (arith, first_where_sound p ys x)

  pub All-first_where {κ} :
      (P : A → Type κ) (p : A → Bool) (xs : List A) (x : A)
      → All P xs
      → first_where p xs ≡ some x
      → P x
  unfolding first_where
  All-first_where P p [] x h e = cc
  All-first_where P p (y ∷ ys) x h e = elim (Bool-cases (p y)) [
    | inl c ↦ let q : y ≡ x = ground arith in rw (← q) h.0
    | inr c ↦ All-first_where P p ys x h.1 (ground arith)
  ]

  pub first_where-append :
      (p : A → Bool) (xs ys : List A)
      → first_where p xs ≡ none
      → first_where p (xs ++ ys) ≡ first_where p ys
  unfolding first_where
  first_where-append p [] ys h = refl
  first_where-append p (x ∷ xs) ys h = ground (arith, first_where-append p xs ys)

  pub first_where-append_some :
      (p : A → Bool) (xs ys : List A) (x : A)
      → first_where p xs ≡ some x
      → first_where p (xs ++ ys) ≡ some x
  unfolding first_where
  first_where-append_some p [] ys x h = cc
  first_where-append_some p (y ∷ xs) ys x h = ground (arith, first_where-append_some p xs ys x)
