-- ===== src/Enrich/HttpClient/Sends.antt =====
-- A link that may not be read is never sent for.
use sage_wiki_bridge_wxo.Base.{◌≡◌, refl, ◌⊎◌, inl, inr, [], ◌∷◌, ◌++◌}
use sage_wiki_bridge_wxo.Text.{Text, lit}
use sage_wiki_bridge_wxo.Url.{Url}
use sage_wiki_bridge_wxo.Error.{external_request, Result, ok, err, map_err, Result-cases}
use sage_wiki_bridge_wxo.Exec.{◌>>=◌, ◌>>◌, proceed, lift}
use sage_wiki_bridge_wxo.Enrich.JinaReader.{validate_public_http_url, build_reader_url}
use sage_wiki_bridge_wxo.Enrich.HttpClient.{
  Network, HttpExternalClients, Sent, send, body_of, read_link,
}

proceed-lift :
    {S A B : Type 0} (r : Result A) (f : A → Result B) (s : S)
    → (proceed r (λ a. lift (f a)) s).1 ≡ s
unfolding proceed lift
proceed-lift (ok a) f s = refl
proceed-lift (err e) f s = refl

module _ (network : Network) (client : HttpExternalClients) where
  -- At most one request is sent, and only for a link that is accepted: the request goes to the
  -- reader's address for it, with the key of the configuration.
  pub read_link-requests :
      (url : Text) (sent : Sent)
      → ((read_link network client url sent).1 ≡ sent)
        ⊎ ((reader_url : Url) × (validate_public_http_url network.show_ip network.parse_url url
              ≡ ok tt)
            × (build_reader_url network.show_ip network.parse_url client.jina_reader url
                ≡ ok reader_url)
            × ((read_link network client url sent).1
                ≡ sent ++ record { url = reader_url; bearer_auth = client.jina_api_key } ∷ []))
  unfolding read_link send ◌>>=◌ ◌>>◌ proceed lift
  read_link-requests url sent =
      elim (Result-cases (validate_public_http_url network.show_ip network.parse_url url)) [
        | inr (e, refused) ↦ inl (rw refused refl)
        | inl (_, public) ↦
            elim (Result-cases
              (build_reader_url network.show_ip network.parse_url client.jina_reader url)) [
                | inr (e, bad) ↦ inl (rw (public, bad) refl)
                | inl (reader_url, good) ↦ inr (
                  reader_url,
                  public,
                  good,
                  rw (public, good)
                      (proceed-lift (map_err external_request (network.answer _))
                        (body_of network (lit "Jina Reader")) (sent ++ _ ∷ [])),
                )
              ]
      ]
