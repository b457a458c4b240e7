-- ===== src/Url.antt =====
-- What the bridge reads of the crate url: a parsed URL's scheme, host and text. The parser is a
-- parameter; its left result is the error's text.
use sage_wiki_bridge_wxo.Base.{ℕ, Option, ◌⊎◌}
use sage_wiki_bridge_wxo.Text.{Text}

-- An IPv4 address is its four octets, an IPv6 address its eight segments.
pub data IpAddr : Type 0 where
  v4 : ℕ → ℕ → ℕ → ℕ → IpAddr
  v6 : ℕ → ℕ → ℕ → ℕ → ℕ → ℕ → ℕ → ℕ → IpAddr

pub data Host : Type 0 where
  domain : Text → Host
  ip : IpAddr → Host

pub record Url : Type 0 where
  pub scheme : Text
  pub host : Option Host
  pub as_str : Text

abbrev pub UrlParser : Type 0
UrlParser = Text → Text ⊎ Url
