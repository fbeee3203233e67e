-- ===== src/Core/UrlGuard/Safety.antt =====
-- What `validate_url` of docsifer/core/url_guard.py lets through.
use docsifer.Prelude.{
  ◌≡◌, ◌↔◌, ◌⊎◌, refl, inl, inr, Bool, true, false, Option, some, List, [], ◌∷◌, map, Str, All,
  arith, Option-cases,
}
use docsifer.Prelude.Text.{strip, lower, is_empty}
use docsifer.Exceptions.{ok}
use docsifer.Core.UrlGuard.{
  Url, Net, Lookup, resolved, gaierror, broken, blocked, any_blocked, check_host, check_url,
  validate_url, one_of, schemes_or, host_of,
}

module _ (net : Net) where
  any_blocked-All :
      (ips : List Str) → any_blocked net ips ≡ false → All (λ ip. blocked net ip ≡ false) ips
  unfolding any_blocked
  any_blocked-All [] h = tt
  any_blocked-All (ip ∷ ips) h = (ground arith, any_blocked-All ips (ground arith))

  All-any_blocked :
      (ips : List Str) → All (λ ip. blocked net ip ≡ false) ips → any_blocked net ips ≡ false
  unfolding any_blocked
  All-any_blocked [] h = refl
  All-any_blocked (ip ∷ ips) h = ground (arith, All-any_blocked ips h.1)

  -- A host that resolves, to addresses of which none is blocked.
  pub record Public (host : Str) : Type 0 where
    pub ips : List Str
    pub found : net.getaddrinfo host ≡ resolved ips
    pub none_blocked : All (λ ip. blocked net ip ≡ false) ips

  pub record Allowed (url : Str) (schemes : Option (List Str)) (u : Str) : Type 0 where
    pub parsed : Url
    pub nonempty : is_empty (strip url) ≡ false
    pub parses : net.urlparse (strip url) ≡ some parsed
    pub scheme : one_of (lower parsed.scheme) (map lower (schemes_or schemes)) ≡ true
    pub has_host : is_empty (host_of parsed.hostname) ≡ false
    pub result : parsed.geturl ≡ u

  check_host-ok :
      (host : Str) (answer : Lookup) (g u : Str)
      → check_host net host answer g ≡ ok u
      → (ips : List Str) × (answer ≡ resolved ips) × (any_blocked net ips ≡ false) × (g ≡ u)
  unfolding check_host
  check_host-ok host (resolved ips) g u h = (ips, refl, ground arith, ground arith)
  check_host-ok host (gaierror e) g u h = absurd (ground arith)
  check_host-ok host (broken name e) g u h = absurd (ground arith)

  check_url-ok :
      (schemes : List Str) (private : Bool) (p : Url) (u : Str)
      → check_url net schemes private p ≡ ok u
      → (one_of (lower p.scheme) schemes ≡ true)
        × (is_empty (host_of p.hostname) ≡ false)
        × (((private ≡ true) × (p.geturl ≡ u))
            ⊎ (check_host net (host_of p.hostname) (net.getaddrinfo (host_of p.hostname)) p.geturl
                ≡ ok u))
  unfolding check_url
  check_url-ok schemes private p u h = ground arith

  check_url-parts :
      {url : Str} {schemes : Option (List Str)} {u : Str} (private : Bool) (p : Url)
      → is_empty (strip url) ≡ false
      → net.urlparse (strip url) ≡ some p
      → check_url net (map lower (schemes_or schemes)) private p ≡ ok u
      → (a : Allowed url schemes u) × ((private ≡ true) ⊎ Public (host_of a.parsed.hostname))
  check_url-parts {schemes} {u} private p e q h =
      let (s, n, rest) = check_url-ok (map lower (schemes_or schemes)) private p u h in
      elim rest [
        | inl (b, g) ↦ (
          record { parsed = p; nonempty = e; parses = q; scheme = s; has_host = n; result = g },
          inl b,
        )
        | inr k ↦
            let (ips, r, free, g) = check_host-ok (host_of p.hostname) _ p.geturl u k in
            (
              record { parsed = p; nonempty = e; parses = q; scheme = s; has_host = n; result = g },
              inr (record { ips = ips; found = r; none_blocked = any_blocked-All ips free }),
            )
      ]

  validate_url-parts :
      (url : Str) (schemes : Option (List Str)) (private : Bool) (u : Str)
      → validate_url net url schemes private ≡ ok u
      → (a : Allowed url schemes u) × ((private ≡ true) ⊎ Public (host_of a.parsed.hostname))
  validate_url-parts url schemes private u h = elim (Option-cases (net.urlparse (strip url))) [
    | inl e ↦ absurd (unfold validate_url in ground arith)
    | inr (p, e) ↦
        check_url-parts private p (unfold validate_url in ground arith) e
          (unfold validate_url in ground arith)
  ]

  parts-validate_url :
      (url : Str) (schemes : Option (List Str)) (private : Bool) (u : Str)
      (a : Allowed url schemes u)
      → (private ≡ true) ⊎ Public (host_of a.parsed.hostname)
      → validate_url net url schemes private ≡ ok u
  unfolding validate_url check_url check_host
  parts-validate_url url schemes private u a (inl e) = ground arith
  parts-validate_url url schemes private u a (inr pub_host) =
      ground (arith, All-any_blocked pub_host.ips pub_host.none_blocked)

  -- A URL is returned exactly if it parses, its scheme is allowed and it has a hostname, and
  -- private networks are allowed or the hostname resolves to addresses of which none is blocked.
  pub validate_url_iff :
      (url : Str) (schemes : Option (List Str)) (private : Bool) (u : Str)
      → (validate_url net url schemes private ≡ ok u)
        ↔ ((a : Allowed url schemes u) × ((private ≡ true) ⊎ Public (host_of a.parsed.hostname)))
  validate_url_iff url schemes private u = (
    validate_url-parts url schemes private u,
    λ x. parts-validate_url url schemes private u x.0 x.1,
  )
