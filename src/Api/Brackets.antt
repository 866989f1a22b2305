-- ===== src/Api/Brackets.antt =====
-- The brackets of IPv6 addresses in URLs.
use pscheduler.Common.{
  String, ◌≡◌, ◌≢◌, refl, true, false, concat, none, some, [], ◌∷◌, ok, arith, eq_iff, str_eq,
}
use pscheduler.Api.{
  Hosts, host_per_rfc_2732, api_url, api_host_port, api_url_hostport, relative, host_or_local,
  encoded_host,
}

-- An IPv6 address stands in the URL in one pair of brackets and without a port, though it is
-- bracketed twice on the way: to be taken apart and to be put together. `urllib` takes the brackets
-- off a URL's host, and IDNA leaves the address alone.
ipv6-brackets :
    (h : Hosts) (address path : String)
    → h.is_ipv6 address ≡ true
    → address ≢ "none"
    → h.hostname (concat ("bogus://" ∷ concat ("[" ∷ address ∷ "]" ∷ []) ∷ [])) ≡ some address
    → h.port (concat ("bogus://" ∷ concat ("[" ∷ address ∷ "]" ∷ []) ∷ [])) ≡ none
    → h.idna address ≡ some address
    → api_url_hostport h (some address) path
      ≡ ok (
          concat (
            "https://"
            ∷ concat ("[" ∷ address ∷ "]" ∷ [])
            ∷ ""
            ∷ "/pscheduler/"
            ∷ relative path
            ∷ []))
unfolding host_or_local encoded_host api_url_hostport api_host_port api_url host_per_rfc_2732
ipv6-brackets h address path six named host port idna =
    let other : str_eq address "none" ≡ false = ground (arith, eq_iff address "none") in
    rw (six, host, port, other, encoded_host, idna, six) refl
