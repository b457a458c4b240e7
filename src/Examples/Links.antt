-- ===== src/Examples/Links.antt =====
-- The theorems on links at concrete texts.
use sage_wiki_bridge_wxo.Base.{
  ◌≡◌, refl, ◌⊎◌, inr, true, false, none, some, List, [], ◌∷◌, ◌++◌, arith, All, any_of, ◌↔◌,
}
use sage_wiki_bridge_wxo.Text.{Text, lit, find?, starts_with, text_eq}
use sage_wiki_bridge_wxo.Text.Trim.{trim_matches}
use sage_wiki_bridge_wxo.Error.{ok}
use sage_wiki_bridge_wxo.Url.{domain, v4, Url, UrlParser}
use sage_wiki_bridge_wxo.Worker.Links.{
  scan_urls, extract_http_urls, is_http_url, find_next_url_start, url_delimiter, trim_url_token,
}
use sage_wiki_bridge_wxo.Worker.Links.Scan.{
  IsLink, AllDistinct, extract_http_urls_total, extract_http_urls-links,
}
use sage_wiki_bridge_wxo.Worker.Links.First.{extract_http_urls-head}
use sage_wiki_bridge_wxo.Enrich.JinaReader.{is_rejected, validate_public_http_url, build_reader_url}
use sage_wiki_bridge_wxo.Enrich.JinaReader.Blocks.{
  ipv4_value, ipv4_blocks, in_block, is_rejected-v4,
}
use sage_wiki_bridge_wxo.Enrich.JinaReader.Accepts.{IsPublicUrl, validate_public_http_url_iff}
use sage_wiki_bridge_wxo.Enrich.HttpClient.{Network, HttpExternalClients, read_link}
use sage_wiki_bridge_wxo.Enrich.HttpClient.Sends.{read_link-requests}

-- A parser for which every text is a URL of one host.
abbrev parser : UrlParser
parser t = inr (record { scheme = lit "https"; host = some (domain (lit "a.example")); as_str = t })

abbrev link : Text
link = lit "https://a.example/x"

abbrev content : Text
content = lit "see " ++ (link ++ lit " and more.")

extract_http_urls_total_example :
    scan_urls parser 40 content [] ≡ some (extract_http_urls parser content)
extract_http_urls_total_example =
    extract_http_urls_total parser content 40 (unfold lit in omega arith)

extract_http_urls-links_example :
    All (IsLink parser content) (extract_http_urls parser content)
    × AllDistinct (extract_http_urls parser content)
extract_http_urls-links_example = extract_http_urls-links parser content

extract_http_urls-head_example :
    (more : List Text) × (extract_http_urls parser content ≡ link ∷ more)
unfolding find_next_url_start find? starts_with url_delimiter trim_url_token is_http_url lit text_eq
    trim_matches
extract_http_urls-head_example =
    extract_http_urls-head parser (lit "see ") link (lit " and more.") refl refl refl refl refl

is_rejected-v4_example :
    is_rejected (v4 172 20 0 1) ≡ any_of (in_block 32 (ipv4_value 172 20 0 1)) ipv4_blocks
is_rejected-v4_example = is_rejected-v4 172 20 0 1 (omega arith) (omega arith) (omega arith)

validate_public_http_url_iff_example :
    (validate_public_http_url (λ ip. []) parser link ≡ ok tt) ↔ IsPublicUrl (λ ip. []) parser link
validate_public_http_url_iff_example = validate_public_http_url_iff (λ ip. []) parser link

abbrev network : Network
network = record {
  parse_url = parser;
  append_pairs = λ url pairs. url;
  show_f64 = λ bits. lit "0";
  show_ip = λ ip. [];
  answer =
      λ request. inr (record { is_success = true; status = lit "200 OK"; text = inr (lit "page") });
}

abbrev client : HttpExternalClients
client = record {
  tencent_lbs = record { endpoint = link; key = lit "k"; get_poi = false; radius_meters = none };
  jina_reader = record { endpoint = lit "https://r.example" };
  jina_api_key = some (lit "secret");
}

read_link-requests_example :
    ((read_link network client link []).1 ≡ [])
    ⊎ ((reader_url : Url) × (validate_public_http_url (λ ip. []) parser link ≡ ok tt)
        × (build_reader_url (λ ip. []) parser client.jina_reader link ≡ ok reader_url)
        × ((read_link network client link []).1
            ≡ record { url = reader_url; bearer_auth = some (lit "secret") } ∷ []))
read_link-requests_example = read_link-requests network client link []
