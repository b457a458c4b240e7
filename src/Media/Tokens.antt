-- ===== src/Media/Tokens.antt =====
-- A token of the cache was issued by the API and is still good, whatever requests came before.
use sage_wiki_bridge_wxo.Base.{
  ℕ, ◌+◌, ◌-◌, ◌*◌, ◌^◌, ◌<◌, ◌≡◌, ◌⊎◌, Option, none, some, List, [], ◌∷◌,
}
use sage_wiki_bridge_wxo.Text.{Text}
use sage_wiki_bridge_wxo.Error.{Result, ok}
use sage_wiki_bridge_wxo.Media.{AccessToken, CachedAccessToken}

-- What the API issued, and when it was put into the cache.
pub record Issue : Type 0 where
  pub issued : AccessToken
  pub stored_at : ℕ

module _ (refresh_skew : ℕ) where
  -- How long a token is used, in nanoseconds: the seconds that the API gives it, less the skew.
  abbrev pub life : AccessToken → ℕ
  life issued = issued.expires_in * 10 ^ 9 - refresh_skew

  -- The cache after what was put into it, the last first. Calls may run at the same time: a call
  -- that found nothing stores what it fetched at some time later, and other calls come between.
  pub data Cache : List Issue → Option CachedAccessToken → Type 0 where
    empty : Cache [] none
    store :
        {log : List Issue} {cached : Option CachedAccessToken}
        → Cache log cached
        → (issued : AccessToken) (stored_at : ℕ)
        → Cache
            (record { issued = issued; stored_at = stored_at } ∷ log)
            (some (record { token = issued.token; expires_at = stored_at + life issued }))

  -- The last issue, which is not over.
  pub record IsGood (log : List Issue) (now : ℕ) (token : Text) : Type 0 where
    pub last : Issue
    pub before : List Issue
    pub is_last : log ≡ last ∷ before
    pub is_token : last.issued.token ≡ token
    pub in_time : now < last.stored_at + life last.issued

  -- What a call for a token does.
  pub record IsToken (log : List Issue) (fetched : Result AccessToken) (now later : ℕ)
      (cached cached' : Option CachedAccessToken) (token : Text) : Type 0 where
    pub comes_from :
        (IsGood log now token × (cached' ≡ cached))
        ⊎ ((issued : AccessToken) × (fetched ≡ ok issued)
            × (issued.token ≡ token)
            × Cache (record { issued = issued; stored_at = later } ∷ log) cached')
