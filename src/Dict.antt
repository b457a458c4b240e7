-- ===== src/Dict.antt =====
-- A hash map from texts, as the list of its entries with different keys.
use sage_wiki_bridge_wxo.Base.{◌≡◌, refl, Option, none, some, List, [], ◌∷◌, arith, if◌then◌else◌}
use sage_wiki_bridge_wxo.Text.{Text, text_eq, text_eq_iff}

abbrev pub Dict : Type 0
Dict = List (Text × Text)

-- `map.get(key).cloned()`
unfoldable pub get : Text → Dict → Option Text
get key [] = none
get key ((k, v) ∷ entries) = if text_eq k key then some v else get key entries

-- `map.insert(key, value)`
unfoldable pub insert : Text → Text → Dict → Dict
insert key value [] = (key, value) ∷ []
insert key value ((k, v) ∷ entries) =
    if text_eq k key then (key, value) ∷ entries else (k, v) ∷ insert key value entries

pub get-insert :
    (key other value : Text) (entries : Dict)
    → get other (insert key value entries)
      ≡ (if text_eq key other then some value else get other entries)
unfolding get insert
get-insert key other value [] = refl
get-insert key other value ((k, v) ∷ entries) = ground (
  arith,
  text_eq_iff key other,
  text_eq_iff k key,
  text_eq_iff k other,
  get-insert key other value entries,
)
