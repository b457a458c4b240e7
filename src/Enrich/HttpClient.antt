-- ===== src/Enrich/HttpClient.antt =====
-- src/enrich/http_client.rs, and the request of src/enrich/tencent_lbs.rs. What is sent is kept in a
-- list, and the answers are a parameter.
pub mod Sends
use sage_wiki_bridge_wxo.Base.{
  ℕ, ◌⊎◌, inl, inr, Bool, true, false, Option, none, some, List, [], ◌∷◌, ◌++◌, if◌then◌else◌,
}
use sage_wiki_bridge_wxo.Text.{Text, lit, show_nat}
use sage_wiki_bridge_wxo.Url.{IpAddr, Url, UrlParser}
use sage_wiki_bridge_wxo.Error.{BridgeError, external_request, Result, ok, err, map_err}
use sage_wiki_bridge_wxo.Exec.{Exec, ◌>>=◌, ◌>>◌, pure, lift}
use sage_wiki_bridge_wxo.Enrich.JinaReader.{
  JinaReaderOptions, validate_public_http_url, build_reader_url,
}

pub record TencentLbsOptions : Type 0 where
  pub endpoint : Text
  pub key : Text
  pub get_poi : Bool
  pub radius_meters : Option ℕ

pub record HttpRequest : Type 0 where
  pub url : Url
  pub bearer_auth : Option Text

-- `status` is the `Display` of the status; the left result of `text` is the error's text.
pub record HttpResponse : Type 0 where
  pub is_success : Bool
  pub status : Text
  pub text : Text ⊎ Text

-- What the clients take from other crates: `Url::parse`, `query_pairs_mut` with `append_pair`,
-- `Display` of an `f64` and of an address, and the answer to a request.
pub record Network : Type 0 where
  pub parse_url : UrlParser
  pub append_pairs : Url → List (Text × Text) → Url
  pub show_f64 : ℕ → Text
  pub show_ip : IpAddr → Text
  pub answer : HttpRequest → Text ⊎ HttpResponse

-- The requests that were sent.
abbrev pub Sent : Type 0
Sent = List HttpRequest

pub record HttpExternalClients : Type 0 where
  pub tencent_lbs : TencentLbsOptions
  pub jina_reader : JinaReaderOptions
  pub jina_api_key : Option Text

unfoldable pub radius_pair : Option ℕ → List (Text × Text)
radius_pair none = []
radius_pair (some radius) = (lit "radius", show_nat radius) ∷ []

module _ (network : Network) where
  unfoldable pub build_reverse_geocode_url : TencentLbsOptions → ℕ → ℕ → Result Url
  unfolding map_err radius_pair
  build_reverse_geocode_url options latitude longitude =
      elim (map_err BridgeError.config (network.parse_url options.endpoint)) [
        | err e ↦ err e
        | ok url ↦ ok (
            network.append_pairs url (
              (lit "location", network.show_f64 latitude ++ (lit "," ++ network.show_f64 longitude))
              ∷ (lit "key", options.key)
              ∷ (lit "get_poi", if options.get_poi then lit "1" else lit "0")
              ∷ radius_pair options.radius_meters))
      ]

  unfoldable pub send : HttpRequest → Exec Sent HttpResponse
  unfolding map_err
  send request sent = (map_err external_request (network.answer request), sent ++ request ∷ [])

  -- The body of a successful answer, which is read before the status is looked at.
  unfoldable pub body_of : Text → HttpResponse → Result Text
  unfolding map_err
  body_of service response = elim (map_err external_request response.text) [
    | err e ↦ err e
    | ok body ↦
        if response.is_success
        then ok body
        else err (external_request (service ++ (lit " returned " ++ response.status)))
  ]

  unfoldable pub reverse_geocode : HttpExternalClients → ℕ → ℕ → Exec Sent Text
  unfolding send body_of build_reverse_geocode_url
  reverse_geocode client latitude longitude = do
    url ← lift (build_reverse_geocode_url client.tencent_lbs latitude longitude)
    response ← send (record { url = url; bearer_auth = none })
    lift (body_of (lit "Tencent LBS") response)

  unfoldable pub read_link : HttpExternalClients → Text → Exec Sent Text
  unfolding send body_of
  read_link client url = do
    lift (validate_public_http_url network.show_ip network.parse_url url)
    reader_url ← lift (build_reader_url network.show_ip network.parse_url client.jina_reader url)
    response ← send (record { url = reader_url; bearer_auth = client.jina_api_key })
    lift (body_of (lit "Jina Reader") response)
