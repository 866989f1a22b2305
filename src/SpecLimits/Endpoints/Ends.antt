-- ===== src/SpecLimits/Endpoints/Ends.antt =====
-- Which ends a limit lets through.
use pscheduler.Common.{
  ℕ, String, ◌≡◌, ap, sym, ◌∙◌, refl, Bool, true, false, ◌&&◌, ◌||◌, Option, none, some, List, [],
  ◌∷◌, ◌++◌, Result, ok, is_empty, inl, if◌then◌else◌,
}
use pscheduler.Json.{Json, str, obj, Fields, get, get_item, as_text}
use pscheduler.World.{World}
use pscheduler.IpCidrMatcher
use pscheduler.IpCidrMatcher.{Net, IpCidrMatcher}
use pscheduler.SpecLimits.Endpoints.{
  check_ip_limit, mismatch, mismatches, Endpoints, source_errors, dest_errors, source_matches,
  endpoint_errors, check_ends, limits_ends, version_of, source_of, resolved, ends_of,
  ip_normalize_version, check_endpoint_limits, check_resolved, possible_versions, known_version,
}

-- What a limit that may be there says of an address: without a limit, that it is allowed.
abbrev pub Says : World → Net → Option Json → String → Bool → Type 0
Says w net none ip allowed = allowed ≡ true
Says w net (some limit) ip allowed =
    (m : IpCidrMatcher) × (IpCidrMatcher.construct w limit ≡ ok m)
    × (IpCidrMatcher.contains net m ip ≡ ok allowed)

-- An address that is known has an error exactly if the limit does not allow it.
one_address :
    (w : World) (net : Net) (limit : Json) (addr ip : String) (versions : List ℕ) (allowed : Bool)
    → Says w net (some limit) ip allowed
    → (errors : List String) × (check_ip_limit w net limit addr (some ip) versions ≡ ok errors)
      × (is_empty errors ≡ allowed)
unfolding check_ip_limit mismatches
one_address w net limit addr ip versions true (m, made, says) = ([], rw (made, says) refl, refl)
one_address w net limit addr ip versions false (m, made, says) =
    (mismatch ip ∷ [], rw (made, says) refl, refl)

-- Errors that are empty exactly if something holds.
abbrev pub Reports : Result (List String) → Bool → Type 0
Reports r allowed = (errors : List String) × (r ≡ ok errors) × (is_empty errors ≡ allowed)

-- A source and a destination whose addresses are known.
abbrev pub pair : String → String → String → String → List ℕ → Endpoints
pair source dest source_ip dest_ip versions = record {
  source = some source;
  dest = dest;
  source_ip = some source_ip;
  dest_ip = some dest_ip;
  versions = versions;
}

neither :
    (d : Bool)
    → Reports
        (ok (if d then [] else "source nor dest matches the IP range set by endpoint limit" ∷ []))
        d
neither true = ([], refl, refl)
neither false = (_, refl, refl)

module _ (w : World) (net : Net) (source dest source_ip dest_ip : String) (versions : List ℕ) where
  source-Reports :
      (limit : Option Json) (a : Bool)
      → Says w net limit source_ip a
      → Reports (source_errors w net limit (pair source dest source_ip dest_ip versions)) a
  unfolding source_errors
  source-Reports none a h = ([], refl, sym h)
  source-Reports (some limit) a h = one_address w net limit source source_ip versions a h

  dest-Reports :
      (limit : Option Json) (b : Bool)
      → Says w net limit dest_ip b
      → Reports (dest_errors w net limit (pair source dest source_ip dest_ip versions)) b
  unfolding dest_errors
  dest-Reports none b h = ([], refl, sym h)
  dest-Reports (some limit) b h = one_address w net limit dest dest_ip versions b h

  matches_source :
      (limit : Json) (c : Bool)
      → Says w net (some limit) source_ip c
      → source_matches w net limit (pair source dest source_ip dest_ip versions) ≡ ok c
  unfolding source_matches
  matches_source limit c h =
      let (errors, e, n) = one_address w net limit source source_ip versions c h in rw (e, n) refl

  endpoint-Reports :
      (limit : Option Json) (c d : Bool)
      → Says w net limit source_ip c
      → Says w net limit dest_ip d
      → Reports (endpoint_errors w net limit (pair source dest source_ip dest_ip versions)) (c || d)
  unfolding endpoint_errors
  endpoint-Reports none c d h k = ([], refl, rw h refl)
  endpoint-Reports (some limit) true d h k = ([], rw (matches_source limit true h) refl, refl)
  endpoint-Reports (some limit) false d h k =
      let (errors, e, n) = one_address w net limit dest dest_ip versions d k in
      rw (matches_source limit false h, e, n) (neither d)

is_empty-append : (xs ys : List String) → is_empty (xs ++ ys) ≡ (is_empty xs && is_empty ys)
is_empty-append [] ys = refl
is_empty-append (x ∷ xs) ys = refl

module _ (w : World) (net : Net) (limit spec : Fields) (version : Option ℕ) (dest : String) where
  -- A limit on the ends, and a spec whose fields can be read.
  abbrev pub Reads : Option String → Type 0
  Reads source =
      (limits_ends limit ≡ true)
      × (version_of w net spec ≡ ok version)
      × (source_of w net spec ≡ ok source)
      × (get_item (obj spec) "dest" ≡ ok (str dest))

  -- From the ends on.
  read_spec :
      (source : Option String)
      → Reads source
      → check_endpoint_limits w net limit spec
        ≡ check_resolved w net limit (resolved w net version source dest)
  unfolding check_endpoint_limits as_text
  read_spec source (l, v, s, d) = rw (l, v, s, d) refl

  resolved-pair :
      (source source_ip dest_ip : String)
      → ip_normalize_version net source dest version ≡ (some source_ip, some dest_ip)
      → resolved w net version (some source) dest
        ≡ inl (
            pair source dest source_ip dest_ip
              (possible_versions w net (known_version w net version dest_ip)))
  unfolding resolved ends_of
  resolved-pair source source_ip dest_ip n = rw n refl

  three_checks :
      (e : Endpoints) (es fs gs : List String)
      → source_errors w net (get "source" limit) e ≡ ok es
      → dest_errors w net (get "dest" limit) e ≡ ok fs
      → endpoint_errors w net (get "endpoint" limit) e ≡ ok gs
      → check_resolved w net limit (inl e) ≡ ok (es ++ (fs ++ gs))
  unfolding check_resolved check_ends
  three_checks e es fs gs x y z = rw (x, y, z) refl

  -- Where source and destination have addresses of one version, the check reports no error exactly
  -- if the limit on the source allows the source, that on the destination the destination, and that
  -- on endpoints one of the two; a limit that is not there allows all.
  pub check_endpoint_limits-Reports :
      (source source_ip dest_ip : String) (a b c d : Bool)
      → Reads (some source)
      → ip_normalize_version net source dest version ≡ (some source_ip, some dest_ip)
      → Says w net (get "source" limit) source_ip a
      → Says w net (get "dest" limit) dest_ip b
      → Says w net (get "endpoint" limit) source_ip c
      → Says w net (get "endpoint" limit) dest_ip d
      → Reports (check_endpoint_limits w net limit spec) (a && (b && (c || d)))
  check_endpoint_limits-Reports source source_ip dest_ip a b c d r n ha hb hc hd =
      let vs = possible_versions w net (known_version w net version dest_ip) in
      let (es, e, p) =
        source-Reports w net source dest source_ip dest_ip vs (get "source" limit) a ha in
      let (fs, f, q) =
        dest-Reports w net source dest source_ip dest_ip vs (get "dest" limit) b hb in
      let (gs, g, t) =
        endpoint-Reports w net source dest source_ip dest_ip vs (get "endpoint" limit) c d hc hd in
      (
        es ++ (fs ++ gs),
        read_spec (some source) r
            ∙ ap (check_resolved w net limit) (resolved-pair source source_ip dest_ip n)
            ∙ three_checks (pair source dest source_ip dest_ip vs) es fs gs e f g,
        rw (is_empty-append es (fs ++ gs), is_empty-append fs gs, p, q, t) refl,
      )
