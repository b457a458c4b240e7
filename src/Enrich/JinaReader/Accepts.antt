-- ===== src/Enrich/JinaReader/Accepts.antt =====
-- Which links are accepted.
use sage_wiki_bridge_wxo.Base.{
  ◌≡◌, refl, ap, ◌↔◌, inl, inr, Bool, true, false, ◌||◌, some, Bool-cases,
}
use sage_wiki_bridge_wxo.Text.{Text, lit, text_eq}
use sage_wiki_bridge_wxo.Url.{IpAddr, Host, domain, ip, Url, UrlParser}
use sage_wiki_bridge_wxo.Error.{
  url_not_allowed, ok, >>=-eq-ok, guard, guard-eq-ok, ok_or, ok_or-eq-ok, map_err, map_err-eq-ok,
}
use sage_wiki_bridge_wxo.Enrich.JinaReader.{
  is_localhost, is_rejected, validate_host, validate_public_http_url, reject_private_ip,
}

-- A name other than localhost, or an address that is not refused.
abbrev pub IsPublicHost : Host → Type 0
IsPublicHost (domain name) = is_localhost name ≡ false
IsPublicHost (ip address) = is_rejected address ≡ false

abbrev pub is_http : Url → Bool
is_http url = text_eq url.scheme (lit "http") || text_eq url.scheme (lit "https")

module _ (show_ip : IpAddr → Text) (parse_url : UrlParser) where
  validate_host_iff : (host : Host) → (validate_host show_ip host ≡ ok tt) ↔ IsPublicHost host
  unfolding validate_host reject_private_ip
  validate_host_iff (domain name) = elim (Bool-cases (is_localhost name)) [
    | inl local ↦ rw local (λ h. cc, λ h. cc)
    | inr other ↦ rw other (λ h. refl, λ h. refl)
  ]
  validate_host_iff (ip address) = elim (Bool-cases (is_rejected address)) [
    | inl private ↦ rw private (λ h. cc, λ h. cc)
    | inr other ↦ rw other (λ h. refl, λ h. refl)
  ]

  -- What an accepted text is: a URL with one of the two schemes and a public host.
  pub record IsPublicUrl (target_url : Text) : Type 0 where
    pub url : Url
    pub host : Host
    pub is_url : parse_url target_url ≡ inr url
    pub has_scheme : is_http url ≡ true
    pub has_host : url.host ≡ some host
    pub is_public : IsPublicHost host

  accepted_sound :
      (target_url : Text)
      → validate_public_http_url show_ip parse_url target_url ≡ ok tt
      → IsPublicUrl target_url
  unfolding validate_public_http_url
  accepted_sound target_url h =
      let (url, is_url, h₁) = >>=-eq-ok (map_err url_not_allowed (parse_url target_url)) _ h in
      let (_, scheme, h₂) = >>=-eq-ok (guard (is_http url) _) _ h₁ in
      let (host, has_host, h₃) = >>=-eq-ok (ok_or url.host _) _ h₂ in
      record {
        url = url;
        host = host;
        is_url = map_err-eq-ok url_not_allowed (parse_url target_url) is_url;
        has_scheme = guard-eq-ok (is_http url) _ scheme;
        has_host = ok_or-eq-ok url.host _ has_host;
        is_public = (validate_host_iff host).0 h₃;
      }

  accepted_complete :
      (target_url : Text)
      → IsPublicUrl target_url
      → validate_public_http_url show_ip parse_url target_url ≡ ok tt
  unfolding validate_public_http_url map_err
  accepted_complete target_url u =
      let parsed : map_err url_not_allowed (parse_url target_url) ≡ ok u.url =
        ap (map_err url_not_allowed) u.is_url in
      rw (parsed, u.has_scheme, u.has_host) ((validate_host_iff u.host).1 u.is_public)

  -- A link is accepted exactly if it is a URL of scheme http or https whose host is a name other
  -- than localhost and its subdomains, or an address that is not refused.
  pub validate_public_http_url_iff :
      (target_url : Text)
      → (validate_public_http_url show_ip parse_url target_url ≡ ok tt) ↔ IsPublicUrl target_url
  validate_public_http_url_iff target_url =
      (accepted_sound target_url, accepted_complete target_url)
