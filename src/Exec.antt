-- ===== src/Exec.antt =====
-- Functions that change a state and may fail: what was changed before an error stays changed.
use sage_wiki_bridge_wxo.Base.{◌≡◌, refl, ap}
use sage_wiki_bridge_wxo.Error.{BridgeError, Result, ok, err}

abbrev pub Exec : Type 0 → Type 0 → Type 0
Exec S A = S → Result A × S

-- The rest of a block runs on the value, or the error is returned at once.
unfoldable pub proceed : {S A B : Type 0} → Result A → (A → Exec S B) → Exec S B
proceed (ok a) f s = f a s
proceed (err e) f s = (err e, s)

infixl 5 ◌>>=◌ ◌>>◌
unfoldable pub ◌>>=◌ : {S A B : Type 0} → Exec S A → (A → Exec S B) → Exec S B
unfolding proceed
◌>>=◌ m f s = proceed (m s).0 f (m s).1

unfoldable pub ◌>>◌ : {S A B : Type 0} → Exec S A → Exec S B → Exec S B
unfolding ◌>>=◌
m >> n = m >>= λ _. n

unfoldable pub pure : {S A : Type 0} → A → Exec S A
pure a s = (ok a, s)

unfoldable pub raise : {S A : Type 0} → BridgeError → Exec S A
raise e s = (err e, s)

unfoldable pub lift : {S A : Type 0} → Result A → Exec S A
lift r s = (r, s)

unfoldable pub gets : {S A : Type 0} → (S → A) → Exec S A
gets f s = (ok (f s), s)

-- What holds of the value and the state wherever a block succeeds.
pub record Yields {S A : Type 0} (Q : A → S → Type 0) (m : Exec S A) : Type 0 where
  pub yields : (s : S) (a : A) → (m s).0 ≡ ok a → Q a (m s).1

module _ {S A B : Type 0} (Q : B → S → Type 0) where
  proceed-yields :
      (r : Result A) (f : A → Exec S B) (s : S) (b : B)
      → ((a : A) → r ≡ ok a → (f a s).0 ≡ ok b → Q b (f a s).1)
      → (proceed r f s).0 ≡ ok b
      → Q b (proceed r f s).1
  unfolding proceed
  proceed-yields (ok a) f s b k h = k a refl h
  proceed-yields (err e) f s b k h = cc

  -- Only the last steps matter.
  pub last-Yields :
      (m : Exec S A) (f : A → Exec S B) → ((a : A) → Yields Q (f a)) → Yields Q (m >>= f)
  unfolding ◌>>=◌
  last-Yields m f k = record {
    yields = λ s b. proceed-yields (m s).0 f (m s).1 b (λ a e h. (k a).yields (m s).1 b h);
  }

  pub then_last-Yields : (m : Exec S A) (n : Exec S B) → Yields Q n → Yields Q (m >> n)
  unfolding ◌>>◌
  then_last-Yields m n k = last-Yields m (λ a. n) (λ a. k)

  -- The rest goes on from what the first step yields.
  pub bind-Yields :
      (R : A → S → Type 0) (m : Exec S A) (f : A → Exec S B)
      → Yields R m
      → ((a : A) (s : S) (b : B) → R a s → (f a s).0 ≡ ok b → Q b (f a s).1)
      → Yields Q (m >>= f)
  unfolding ◌>>=◌
  bind-Yields R m f g k = record {
    yields = λ s b. proceed-yields (m s).0 f (m s).1 b (λ a e h. k a (m s).1 b (g.yields s a e) h);
  }

-- Where a block succeeds, its first step had a value, and the rest succeeds from the state it left.
module _ {S A B : Type 0} (f : A → Exec S B) (s' : S) {b : B} where
  proceed-eq-ok :
      (r : Result A) (t : S)
      → proceed r f t ≡ (ok b, s')
      → (a : A) × (r ≡ ok a) × (f a t ≡ (ok b, s'))
  unfolding proceed
  proceed-eq-ok (ok a) t h = (a, refl, h)
  proceed-eq-ok (err e) t h = cc

  pub bind-eq-ok :
      (m : Exec S A) (s : S)
      → (m >>= f) s ≡ (ok b, s')
      → (a : A) × (t : S) × (m s ≡ (ok a, t)) × (f a t ≡ (ok b, s'))
  unfolding ◌>>=◌
  bind-eq-ok m s h =
      let (a, e, rest) = proceed-eq-ok (m s).0 (m s).1 h in
      (a, (m s).1, ap (λ r. (r, (m s).1)) e, rest)

pub lift-eq-ok :
    {S A : Type 0} (r : Result A) (s t : S) {a : A} → lift r s ≡ (ok a, t) → (r ≡ ok a) × (s ≡ t)
unfolding lift
lift-eq-ok r s t h = (ap (λ x. x.0) h, ap (λ x. x.1) h)

pub pure-eq-ok : {S A : Type 0} (a b : A) (s t : S) → pure a s ≡ (ok b, t) → (a ≡ b) × (s ≡ t)
unfolding pure
pure-eq-ok a b s t h = let e : ok a ≡ ok b = ap (λ x. x.0) h in (cc e, ap (λ x. x.1) h)
