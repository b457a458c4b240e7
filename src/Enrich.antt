-- ===== src/Enrich.antt =====
-- src/enrich/tencent_lbs.rs: the summary of a place from the answer of Tencent's service, and the
-- request for it. The children are about the other files of src/enrich.
pub mod JinaReader
pub mod HttpClient
use sage_wiki_bridge_wxo.Base.{◌⊎◌, inl, inr, Option, none, some}
use sage_wiki_bridge_wxo.Text.{Text, lit}
use sage_wiki_bridge_wxo.Error.{BridgeError, external_payload_invalid, Result, ok, err}

pub record LocationSummary : Type 0 where
  pub address : Option Text
  pub province : Option Text
  pub city : Option Text
  pub district : Option Text
  pub adcode : Option Text
  pub city_code : Option Text

pub record AddressComponent : Type 0 where
  pub province : Option Text
  pub city : Option Text
  pub district : Option Text

pub record AdInfo : Type 0 where
  pub adcode : Option Text
  pub city_code : Option Text

pub record TencentLbsResult : Type 0 where
  pub address : Option Text
  pub address_component : Option AddressComponent
  pub ad_info : Option AdInfo

-- `Option::and_then`
unfoldable pub and_then : {A B : Type 0} → Option A → (A → Option B) → Option B
and_then none f = none
and_then (some a) f = f a

-- The reader is `serde_json::from_str`: the error's text, or the field `result` of the response.
unfoldable pub extract_location_summary :
    (Text → Text ⊎ Option TencentLbsResult) → Text → Result LocationSummary
unfolding and_then
extract_location_summary from_str json = elim (from_str json) [
  | inl e ↦ err (external_payload_invalid e)
  | inr none ↦ err (BridgeError.config (lit "Tencent LBS response missing result"))
  | inr (some result) ↦ ok (record {
    address = result.address;
    province = and_then result.address_component (λ component. component.province);
    city = and_then result.address_component (λ component. component.city);
    district = and_then result.address_component (λ component. component.district);
    adcode = and_then result.ad_info (λ ad_info. ad_info.adcode);
    city_code = and_then result.ad_info (λ ad_info. ad_info.city_code);
  })
]
