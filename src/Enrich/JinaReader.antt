-- ===== src/Enrich/JinaReader.antt =====
-- src/enrich/jina_reader.rs: which links may be read, and the address of the reader.
pub mod Blocks
pub mod Accepts
use sage_wiki_bridge_wxo.Base.{
  ℕ, ◌+◌, ◌/◌, ◌^◌, inl, inr, Bool, true, false, ◌&&◌, ◌||◌, Option, none, some, ◌++◌, leb, ◌==◌,
  if◌then◌else◌, map,
}
use sage_wiki_bridge_wxo.Text.{Text, lit, text_eq, ends_with, trim_end_matches}
use sage_wiki_bridge_wxo.Url.{IpAddr, v4, v6, Host, domain, ip, Url, UrlParser}
use sage_wiki_bridge_wxo.Error.{
  BridgeError, url_not_allowed, Result, ok, err, ◌>>=◌, ◌>>◌, guard, ok_or, map_err,
}

pub record JinaReaderOptions : Type 0 where
  pub endpoint : Text

unfoldable pub ascii_lower : ℕ → ℕ
ascii_lower c = if leb b'A' c && leb c b'Z' then c + 32 else c

unfoldable pub to_ascii_lowercase : Text → Text
unfolding ascii_lower
to_ascii_lowercase = map ascii_lower

-- `Ipv4Addr::is_private`
unfoldable pub is_private : ℕ → ℕ → Bool
is_private a b = a == 10 || (a == 172 && leb 16 b && leb b 31) || (a == 192 && b == 168)

-- `Ipv4Addr::is_documentation`
unfoldable pub is_documentation : ℕ → ℕ → ℕ → Bool
is_documentation a b c =
    (a == 192 && b == 0 && c == 2)
    || (a == 198 && b == 51 && c == 100)
    || (a == 203 && b == 0 && c == 113)

-- `x & 0xfe00 == 0xfc00` and `x & 0xffc0 == 0xfe80` compare the seven and the ten highest bits.
unfoldable pub is_rejected : IpAddr → Bool
unfolding is_private is_documentation
is_rejected (v4 a b c d) =
    is_private a b
    || a == 127
    || (a == 169 && b == 254)
    || (a == 255 && b == 255 && c == 255 && d == 255)
    || is_documentation a b c
    || a == 0
    || (a == 169 && b == 254)
is_rejected (v6 s₀ s₁ s₂ s₃ s₄ s₅ s₆ s₇) =
    (s₀ == 0 && s₁ == 0 && s₂ == 0 && s₃ == 0 && s₄ == 0 && s₅ == 0 && s₆ == 0 && s₇ == 1)
    || (s₀ == 0 && s₁ == 0 && s₂ == 0 && s₃ == 0 && s₄ == 0 && s₅ == 0 && s₆ == 0 && s₇ == 0)
    || s₀ / 2 ^ 9 == 0xfc00 / 2 ^ 9
    || s₀ / 2 ^ 6 == 0xfe80 / 2 ^ 6

unfoldable pub is_localhost : Text → Bool
unfolding to_ascii_lowercase
is_localhost name =
    text_eq (to_ascii_lowercase name) (lit "localhost")
    || ends_with (lit ".localhost") (to_ascii_lowercase name)

-- `show_ip` is the standard library's `Display` of an address.
module _ (show_ip : IpAddr → Text) where
  unfoldable pub reject_private_ip : IpAddr → Result (Unit {0})
  unfolding is_rejected
  reject_private_ip address =
      if is_rejected address then err (url_not_allowed (show_ip address)) else ok tt

  unfoldable pub validate_host : Host → Result (Unit {0})
  unfolding is_localhost reject_private_ip
  validate_host (domain name) = if is_localhost name then err (url_not_allowed name) else ok tt
  validate_host (ip address) = reject_private_ip address

  unfoldable pub validate_public_http_url : UrlParser → Text → Result (Unit {0})
  unfolding map_err validate_host
  validate_public_http_url parse_url target_url = do
    url ← map_err url_not_allowed (parse_url target_url)
    guard (text_eq url.scheme (lit "http") || text_eq url.scheme (lit "https"))
        (url_not_allowed (lit "scheme " ++ url.scheme))
    host ← ok_or url.host (url_not_allowed (lit "missing host"))
    validate_host host

  unfoldable pub build_reader_url : UrlParser → JinaReaderOptions → Text → Result Url
  unfolding map_err validate_public_http_url
  build_reader_url parse_url options target_url = do
    validate_public_http_url parse_url target_url
    map_err BridgeError.config
        (parse_url (trim_end_matches b'/' options.endpoint ++ (lit "/" ++ target_url)))
