-- ===== src/Core/Service/Fetches.antt =====
-- How docsifer/core/service.py treats what docsifer/core/url_guard.py lets through.
use docsifer.Prelude.{
  ◌≡◌, refl, ◌⊎◌, inl, inr, sym, Bool, true, false, Option, none, some, List, [], ◌∷◌, ◌++◌, map,
  Str, str_eq, ◌==◌, ==_iff, All, arith, Option-cases, Bool-cases,
}
use docsifer.Prelude.Dict.{Dict}
use docsifer.Prelude.Text.{codes, lower, lower-append, starts_with, strip, is_empty}
use docsifer.Exceptions.{ok}
use docsifer.Core.Mime.{Disk}
use docsifer.Core.UrlGuard.{Url, Net, one_of, schemes_or, host_of, validate_url}
use docsifer.Core.UrlGuard.Safety.{validate_url_iff}
use docsifer.Core.Service.{
  Tools, Converter, Done, Session, convert, convert_url, link, is_url, session_of, convert_url_text,
  convert_link,
}
use docsifer.Core.Service.Dispatch.{convert_sync}

-- One call of markitdown, with the URL, and the files are left alone.
pub record Fetched (u : Str) (disk : Disk) (d : Done) : Type 0 where
  pub untouched : d.1 ≡ disk
  pub one_fetch : (d.0 ≡ convert u ∷ []) ⊎ ((s : Session) × (d.0 ≡ convert_url u s ∷ []))

convert_link-call :
    (u : Str) (md : Converter) (session : Option Session) (disk : Disk)
    → ((convert_link u md session disk).0 ≡ convert u)
      ⊎ ((s : Session) × ((convert_link u md session disk).0 ≡ convert_url u s))
convert_link-call u md none disk = inl refl
convert_link-call u md (some s) disk = elim (Option-cases md.convert_url) [
  | inl e ↦ inl (rw e refl)
  | inr (f, e) ↦ inr (s, rw e refl)
]

convert_sync-Fetched :
    (tools : Tools) (u : Str) (md : Converter) (http_config : Option (Dict Str (Dict Str Str)))
    (cleanup : Bool) (disk : Disk)
    → is_url (link u) ≡ true
    → Fetched u disk (convert_sync tools (link u) md http_config cleanup disk)
unfolding convert_sync convert_url_text
convert_sync-Fetched tools u md http_config cleanup disk h =
    rw (h, convert_sync)
      (record {
        untouched = refl;
        one_fetch = elim (convert_link-call u md (session_of http_config) disk) [
          | inl e ↦ inl (rw e refl)
          | inr (s, e) ↦ inr (s, rw e refl)
        ];
      })

abbrev web : List Str
web = codes "http" ∷ codes "https" ∷ []

-- Whatever the case, the scheme is one of the two.
abbrev IsWeb : Str → Type 0
IsWeb s = one_of (lower s) web ≡ true

one_of-web :
    (s : Str) (ss : List Str) → All IsWeb ss → one_of s (map lower ss) ≡ true → one_of s web ≡ true
unfolding one_of
one_of-web s [] a h = absurd (ground arith)
one_of-web s (t ∷ ss) a h = elim (Bool-cases (lower t == s)) [
  | inl e ↦ rw (← (==_iff (lower t) s).0 e) a.0
  | inr e ↦ one_of-web s ss a.1 (rw (e, one_of) at h)
]

abbrev pub AllWeb : List Str → Type 0
AllWeb ss = All IsWeb ss

schemes-web :
    (s : Str) (ss : List Str)
    → AllWeb ss
    → one_of s (map lower (schemes_or (some ss))) ≡ true
    → one_of s web ≡ true
schemes-web s [] a h = one_of-web s web (unfold one_of lower in (refl, (refl, tt))) h
schemes-web s (t ∷ ss) a h = one_of-web s (t ∷ ss) a h

-- What the documentation of `geturl` says of a URL with a scheme and a host.
pub record IsGeturl (net : Net) : Type 0 where
  pub shape :
      (text : Str) (parsed : Url)
      → net.urlparse text ≡ some parsed
      → is_empty parsed.scheme ≡ false
      → is_empty (host_of parsed.hostname) ≡ false
      → (rest : Str) × (parsed.geturl ≡ parsed.scheme ++ (codes "://" ++ rest))

-- A web scheme is not empty.
web-scheme : (scheme : Str) → one_of (lower scheme) web ≡ true → is_empty scheme ≡ false
unfolding one_of lower
web-scheme [] h = absurd (ground (arith, h))
web-scheme (c ∷ s) h = refl

is_url-web :
    (scheme rest : Str)
    → one_of (lower scheme) web ≡ true
    → is_url (link (scheme ++ (codes "://" ++ rest))) ≡ true
unfolding is_url one_of starts_with lower
is_url-web scheme rest h =
    rw (lower-append scheme (codes "://" ++ rest))
      (elim (Bool-cases (codes "http" == lower scheme)) [
        | inl e ↦ rw (← (==_iff (codes "http") (lower scheme)).0 e) refl
        | inr e ↦
            let f : (codes "https" == lower scheme) ≡ true = ground (arith, e, h) in
            rw (← (==_iff (codes "https") (lower scheme)).0 f) refl
      ])

-- Where every allowed scheme is http or https, the link that `validate_url` gives is a URL to
-- `_convert_sync`: it is fetched in one call, and no file is read under that name.
pub validate_url-Fetched :
    (net : Net) (url u : Str) (schemes : List Str) (private : Bool) (tools : Tools) (md : Converter)
    (http_config : Option (Dict Str (Dict Str Str))) (cleanup : Bool) (disk : Disk)
    → IsGeturl net
    → AllWeb schemes
    → validate_url net url (some schemes) private ≡ ok u
    → Fetched u disk (convert_sync tools (link u) md http_config cleanup disk)
validate_url-Fetched net url u schemes private tools md http_config cleanup disk g w h =
    let (a, _) = (validate_url_iff net url (some schemes) private u).0 h in
    let scheme = schemes-web (lower a.parsed.scheme) schemes w a.scheme in
    let (rest, e) =
      g.shape (strip url) a.parsed a.parses (web-scheme a.parsed.scheme scheme) a.has_host in
    convert_sync-Fetched tools u md http_config cleanup disk
      (rw (sym a.result, e) (is_url-web a.parsed.scheme rest scheme))
