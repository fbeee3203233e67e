-- ===== src/Core/UrlGuard.antt =====
-- docsifer/core/url_guard.py. `urlparse`, the resolver and `ipaddress` are parameters: a URL taken
-- apart, the addresses of a host, and the six properties of an address.
pub mod Safety
use docsifer.Prelude.{
  ℕ, Bool, true, false, ◌||◌, not, Option, none, some, List, [], ◌∷◌, ◌++◌, map, Str, str_eq, ◌==◌,
  if◌then◌else◌,
}
use docsifer.Prelude.Text.{codes, strip, lower, is_empty}
use docsifer.Exceptions.{Result, ok, err, throw, unexpected, invalid_input, texts, text}

-- `parsed.scheme`, `parsed.hostname` and `parsed.geturl()`.
pub record Url : Type 0 where
  pub scheme : Str
  pub hostname : Option Str
  pub geturl : Str

pub record Address : Type 0 where
  pub is_loopback : Bool
  pub is_link_local : Bool
  pub is_multicast : Bool
  pub is_reserved : Bool
  pub is_private : Bool
  pub is_unspecified : Bool

-- `socket.getaddrinfo`: the address texts, a `gaierror` with its text, or another exception.
pub data Lookup : Type 0 where
  resolved : List Str → Lookup
  gaierror : Str → Lookup
  broken : Str → Str → Lookup

-- `urlparse` gives nothing where it raises `ValueError`, and so does `ip_address`.
pub record Net : Type 0 where
  pub urlparse : Str → Option Url
  pub getaddrinfo : Str → Lookup
  pub ip_address : Str → Option Address

unfoldable pub is_blocked_address : Address → Bool
is_blocked_address a =
    a.is_loopback || a.is_link_local || a.is_multicast || a.is_reserved || a.is_private
    || a.is_unspecified

abbrev pub schemes_or : Option (List Str) → List Str
schemes_or none = codes "http" ∷ codes "https" ∷ []
schemes_or (some []) = codes "http" ∷ codes "https" ∷ []
schemes_or (some (s ∷ ss)) = s ∷ ss

unfoldable pub one_of : Str → List Str → Bool
one_of s [] = false
one_of s (t ∷ ts) = t == s || one_of s ts

abbrev or_mark : Str → Str
or_mark [] = codes "<none>"
or_mark (c ∷ s) = c ∷ s

-- An absent hostname and an empty one are both refused.
abbrev pub host_of : Option Str → Str
host_of none = []
host_of (some h) = h

module _ (net : Net) where
  -- An address text that cannot be read is passed over.
  unfoldable pub blocked : Str → Bool
  unfolding is_blocked_address
  blocked ip_str = elim (net.ip_address ip_str) [ none ↦ false | some a ↦ is_blocked_address a ]

  unfoldable pub any_blocked : List Str → Bool
  unfolding blocked
  any_blocked [] = false
  any_blocked (ip ∷ ips) = blocked ip || any_blocked ips

  -- What is behind the test of the hostname.
  unfoldable pub check_host : Str → Lookup → Str → Result Str
  check_host host (resolved ips) geturl =
      if any_blocked ips
      then throw invalid_input (codes "URL points to a non-public address")
          ((codes "host", text host) ∷ [])
      else ok geturl
  check_host host (gaierror e) geturl =
      throw invalid_input (codes "Could not resolve host: " ++ host) ((codes "error", text e) ∷ [])
  check_host host (broken name e) geturl = err (unexpected name e)

  unfoldable pub check_url : List Str → Bool → Url → Result Str
  unfolding one_of check_host
  check_url schemes allow_private_networks parsed =
      let scheme = lower parsed.scheme in
      let host = host_of parsed.hostname in
      if not (one_of scheme schemes)
      then throw invalid_input
          (codes "URL scheme '" ++ (or_mark scheme ++ codes "' is not allowed"))
          ((codes "allowed_schemes", texts schemes) ∷ [])
      else if is_empty host
      then throw invalid_input (codes "URL must include a hostname") []
      else if allow_private_networks
      then ok parsed.geturl
      else check_host host (net.getaddrinfo host) parsed.geturl

  unfoldable pub validate_url : Str → Option (List Str) → Bool → Result Str
  unfolding check_url
  validate_url url allowed_schemes allow_private_networks =
      if is_empty (strip url)
      then throw invalid_input (codes "URL must not be empty") []
      else elim (net.urlparse (strip url)) [
        | none ↦ err (unexpected (codes "ValueError") (codes "Invalid URL"))
        | some parsed ↦
            check_url (map lower (schemes_or allowed_schemes)) allow_private_networks parsed
      ]
