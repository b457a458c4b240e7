-- ===== src/Table/Keys.antt =====
-- Unique keys: relations between all pairs of rows, and updates that leave a key alone.
use mathlib.Core.List.{Memᴰ}
use mathlib.Core.Path.{subst}
use sage_wiki_bridge_wxo.Base.{
  ◌≡◌, ◌≢◌, refl, ap, Bool, true, false, none, some, List, [], ◌∷◌, ◌++◌, map, arith, if◌then◌else◌,
  All, inl, inr, Bool-cases, Option-cases, is_some, sym,
}
use sage_wiki_bridge_wxo.Table.{update_where, first_where, All-map}

-- The relation holds from every row to every later one.
abbrev pub AllPairs {ℓ κ} : {A : Type ℓ} → (A → A → Type κ) → List A → Type κ
AllPairs R [] = Unit
AllPairs R (x ∷ xs) = All (R x) xs × AllPairs R xs

module _ {ℓ κ} {A : Type ℓ} (P : A → Type κ) where
  pub All-snoc : (xs : List A) (y : A) → All P xs → P y → All P (xs ++ y ∷ [])
  All-snoc [] y h k = (k, tt)
  All-snoc (x ∷ xs) y h k = (h.0, All-snoc xs y h.1 k)

module _ {ℓ κ} {A : Type ℓ} (R : A → A → Type κ) where
  pub AllPairs-snoc :
      (xs : List A) (y : A) → AllPairs R xs → All (λ x. R x y) xs → AllPairs R (xs ++ y ∷ [])
  AllPairs-snoc [] y h k = (tt, tt)
  AllPairs-snoc (x ∷ xs) y h k = (All-snoc (R x) xs y h.0 k.0, AllPairs-snoc xs y h.1 k.1)

module _ {ℓ κ} {A : Type ℓ} {K : Type κ} where
  -- An update that keeps the key of each row keeps the list of keys.
  pub map-update_where :
      (key : A → K) (p : A → Bool) (f : A → A)
      → ((x : A) → key (f x) ≡ key x)
      → (xs : List A) → map key (update_where p f xs) ≡ map key xs
  unfolding update_where
  map-update_where key p f keep [] = refl
  map-update_where key p f keep (x ∷ xs) = elim (Bool-cases (p x)) [
    | inl e ↦ rw (e, keep x, map-update_where key p f keep xs)
    | inr e ↦ rw (e, map-update_where key p f keep xs)
  ]

module _ {ℓ κ} {A : Type ℓ} where
  pub All-of_map {μ} :
      {K : Type κ} (key : A → K) (P : K → Type μ) (xs : List A)
      → All (λ x. P (key x)) xs
      → All P (map key xs)
  All-of_map key P [] h = tt
  All-of_map key P (x ∷ xs) h = (h.0, All-of_map key P xs h.1)

  pub All-unmap {μ} :
      {K : Type κ} (key : A → K) (P : K → Type μ) (xs : List A)
      → All P (map key xs)
      → All (λ x. P (key x)) xs
  All-unmap key P [] h = tt
  All-unmap key P (x ∷ xs) h = (h.0, All-unmap key P xs h.1)

module _ {ℓ} {A : Type ℓ} where
  pub map-snoc {κ} :
      {K : Type κ} (key : A → K) (xs : List A) (y : A)
      → map key (xs ++ y ∷ []) ≡ map key xs ++ key y ∷ []
  map-snoc key [] y = refl
  map-snoc key (x ∷ xs) y = ap (λ l. key x ∷ l) (map-snoc key xs y)

  -- Where no row is found, the test fails on every row.
  pub first_where-none :
      (p : A → Bool) (xs : List A) → first_where p xs ≡ none → All (λ x. p x ≡ false) xs
  unfolding first_where
  first_where-none p [] h = tt
  first_where-none p (x ∷ xs) h = elim (Bool-cases (p x)) [
    | inl e ↦ absurd (ground arith)
    | inr e ↦ (e, first_where-none p xs (ground arith))
  ]

  pub first_where-Mem : (p : A → Bool) (xs : List A) (x : A) → first_where p xs ≡ some x → Memᴰ x xs
  unfolding first_where
  first_where-Mem p [] x h = cc
  first_where-Mem p (y ∷ ys) x h = elim (Bool-cases (p y)) [
    | inl e ↦ Memᴰ.head (ground arith)
    | inr e ↦ Memᴰ.tail (first_where-Mem p ys x (ground arith))
  ]

  pub All-Mem {κ} : (P : A → Type κ) {x : A} {xs : List A} → All P xs → Memᴰ x xs → P x
  All-Mem P h (Memᴰ.head e) = subst P (sym e) h.0
  All-Mem P h (Memᴰ.tail m) = All-Mem P h.1 m

  pub Mem-update_where :
      (p : A → Bool) (f : A → A) {x : A} {xs : List A}
      → Memᴰ x xs
      → Memᴰ (if p x then f x else x) (update_where p f xs)
  unfolding update_where
  Mem-update_where p f (Memᴰ.head e) = Memᴰ.head (ap (λ y. if p y then f y else y) e)
  Mem-update_where p f (Memᴰ.tail m) = Memᴰ.tail (Mem-update_where p f m)

  pub All-of_Mem {κ} : (P : A → Type κ) (xs : List A) → ((x : A) → Memᴰ x xs → P x) → All P xs
  All-of_Mem P [] f = tt
  All-of_Mem P (x ∷ xs) f = (f x (Memᴰ.head refl), All-of_Mem P xs (λ y m. f y (Memᴰ.tail m)))

  -- An update that the test of a search cannot see does not change whether a row is found.
  pub is_some-first_where-update_where :
      (q p : A → Bool) (f : A → A)
      → ((x : A) → q (f x) ≡ q x)
      → (xs : List A) → is_some (first_where q (update_where p f xs)) ≡ is_some (first_where q xs)
  unfolding first_where update_where
  is_some-first_where-update_where q p f same [] = refl
  is_some-first_where-update_where q p f same (x ∷ xs) =
      ground (arith, same x, is_some-first_where-update_where q p f same xs)

  pub is_some-first_where-append :
      (q : A → Bool) (xs ys : List A)
      → is_some (first_where q xs) ≡ true
      → is_some (first_where q (xs ++ ys)) ≡ true
  unfolding first_where
  is_some-first_where-append q [] ys h = cc
  is_some-first_where-append q (x ∷ xs) ys h = ground (arith, is_some-first_where-append q xs ys)

module _ {ℓ κ} {A : Type ℓ} {K : Type κ} (key : A → K) where
  -- Under unique keys, a row with the key of a row of the table is that row.
  pub unique_key :
      {x : A} {xs : List A}
      → AllPairs ◌≢◌ (map key xs)
      → Memᴰ x xs
      → All (λ y. key y ≡ key x → y ≡ x) xs
  unique_key u (Memᴰ.head {x = y} {xs = ys} e) = (
    λ _. sym e,
    All-map _ _ (λ z ne same. absurd (ne (cc (e, same)))) ys (All-unmap key _ ys u.0),
  )
  unique_key u (Memᴰ.tail {x = y} {xs = ys} m) =
      (λ same. absurd (All-Mem _ (All-unmap key _ ys u.0) m same), unique_key u.1 m)

module _ {ℓ} {A : Type ℓ} where
  pub first_where-none_true :
      (p : A → Bool) (xs : List A) → All (λ x. p x ≡ false) xs → first_where p xs ≡ none
  unfolding first_where
  first_where-none_true p [] h = refl
  first_where-none_true p (x ∷ xs) h = rw (h.0) (first_where-none_true p xs h.1)

  -- Where the test holds of a row of the table, a row is found.
  pub first_where-some_of_Mem :
      (p : A → Bool) (x : A) (xs : List A)
      → Memᴰ x xs
      → p x ≡ true
      → (y : A) × (first_where p xs ≡ some y)
  first_where-some_of_Mem p x xs m h = elim (Option-cases (first_where p xs)) [
    | inr (y, e) ↦ (y, e)
    | inl e ↦ absurd (contradicts (All-Mem _ (first_where-none p xs e) m))
  ]
    where
      contradicts : p x ≡ false → ⊥
      contradicts f = cc
