-- ===== src/Error.antt =====
-- src/error.rs: the error type of every fallible function, its text, and `Result` with `?`.
use sage_wiki_bridge_wxo.Base.{
  ◌≡◌, refl, ◌⊎◌, inl, inr, Bool, true, false, Option, none, some, ◌++◌,
}
use sage_wiki_bridge_wxo.Text.{Text, lit}

pub data BridgeError : Type 0 where
  config : Text → BridgeError
  wechat_signature_invalid : BridgeError
  wechat_xml_invalid : Text → BridgeError
  message_unsupported : Text → BridgeError
  url_not_allowed : Text → BridgeError
  external_payload_invalid : Text → BridgeError
  external_request : Text → BridgeError
  database : Text → BridgeError
  io : Text → BridgeError
  path_outside_root : Text → BridgeError

-- `err.to_string()`, by the `#[error]` attributes.
unfoldable pub to_text : BridgeError → Text
to_text (config e) = lit "configuration error: " ++ e
to_text wechat_signature_invalid = lit "wechat signature invalid"
to_text (wechat_xml_invalid e) = lit "wechat xml invalid: " ++ e
to_text (message_unsupported e) = lit "unsupported message type: " ++ e
to_text (url_not_allowed e) = lit "url not allowed: " ++ e
to_text (external_payload_invalid e) = lit "external payload invalid: " ++ e
to_text (external_request e) = lit "external request failed: " ++ e
to_text (database e) = lit "database error: " ++ e
to_text (io e) = lit "io error: " ++ e
to_text (path_outside_root e) = lit "path escapes configured root: " ++ e

-- `Result<A, BridgeError>`
pub data Result {ℓ} (A : Type ℓ) : Type ℓ where
  err : BridgeError → Result A
  ok : A → Result A

-- `?`: the error is returned, or the rest goes on with the value.
infixl 5 ◌>>=◌
abbrev pub ◌>>=◌ {ℓ κ} : {A : Type ℓ} {B : Type κ} → Result A → (A → Result B) → Result B
◌>>=◌ (err e) rest = err e
◌>>=◌ (ok value) rest = rest value

-- `if !test { return Err(e) }`
abbrev pub guard : (test : Bool) → BridgeError → Result (Unit {0})
guard false otherwise = err otherwise
guard true _ = ok tt

infixl 5 ◌>>◌
abbrev pub ◌>>◌ {ℓ} : {A : Type ℓ} → (first : Result (Unit {0})) → Result A → Result A
◌>>◌ first second = first >>= (λ done. second)

-- `Option::ok_or`
abbrev pub ok_or {ℓ} : {A : Type ℓ} → Option A → BridgeError → Result A
ok_or none e = err e
ok_or (some a) e = ok a

module _ {ℓ κ} {A : Type ℓ} {B : Type κ} where
  -- Where the whole succeeds, the first step had a value, and the rest succeeds with it.
  pub >>=-eq-ok :
      (first : Result A) (rest : A → Result B) {result : B}
      → (first >>= rest) ≡ ok result
      → (value : A) × (first ≡ ok value) × (rest value ≡ ok result)
  >>=-eq-ok (err e) rest h = cc
  >>=-eq-ok (ok value) rest h = (value, refl, h)

pub guard-eq-ok : (b : Bool) (e : BridgeError) {u : Unit {0}} → guard b e ≡ ok u → b ≡ true
guard-eq-ok true e h = refl
guard-eq-ok false e h = cc

pub ok_or-eq-ok {ℓ} :
    {A : Type ℓ} (o : Option A) (e : BridgeError) {a : A} → ok_or o e ≡ ok a → o ≡ some a
ok_or-eq-ok none e h = cc
ok_or-eq-ok (some a) e h = cc

pub Result-cases {ℓ} :
    {A : Type ℓ} (r : Result A) → ((a : A) × (r ≡ ok a)) ⊎ ((e : BridgeError) × (r ≡ err e))
Result-cases (ok a) = inl (a, refl)
Result-cases (err e) = inr (e, refl)

-- `map_err` of a foreign result, whose left is the error's text.
unfoldable pub map_err {ℓ} : {A : Type ℓ} → (Text → BridgeError) → Text ⊎ A → Result A
map_err f (inl e) = err (f e)
map_err f (inr a) = ok a

pub map_err-eq-ok {ℓ} :
    {A : Type ℓ} (f : Text → BridgeError) (r : Text ⊎ A) {a : A} → map_err f r ≡ ok a → r ≡ inr a
unfolding map_err
map_err-eq-ok f (inl e) h = cc
map_err-eq-ok f (inr a) h = cc
