-- ===== src/Api/Deps.antt =====
-- `client_ip_dep` of docsifer/api/deps.py: the address that the limiter counts a request under. The
-- other dependencies read an attribute of the application.
use docsifer.Prelude.{ℕ, ◌≡◌, ap, Option, none, some, false, List, [], ◌∷◌, ◌++◌, Str}
use docsifer.Prelude.Text.{codes, split, strip, contains_char}
use docsifer.Prelude.PathNames.{split-append, split_free}

abbrev pub first : List Str → Str
first [] = []
first (s ∷ ss) = s

abbrev pub host_or_unknown : Option Str → Str
host_or_unknown none = codes "unknown"
host_or_unknown (some h) = h

abbrev pub real_or_host : Option Str → Option Str → Str
real_or_host none host = host_or_unknown host
real_or_host (some []) host = host_or_unknown host
real_or_host (some (c ∷ s)) host = strip (c ∷ s)

-- The headers `x-forwarded-for` and `x-real-ip`, and `request.client.host`.
unfoldable pub client_ip : Option Str → Option Str → Option Str → Str
client_ip none real host = real_or_host real host
client_ip (some []) real host = real_or_host real host
client_ip (some (c ∷ s)) real host = strip (first (split b',' (c ∷ s)))

-- The first address of a forwarding header is the client, whatever the proxies behind it and
-- the other sources say.
pub client_ip-forwarded :
    (c : ℕ) (ip proxies : Str) (real host : Option Str)
    → contains_char b',' (c ∷ ip) ≡ false
    → (client_ip (some (c ∷ ip)) real host ≡ strip (c ∷ ip))
      × (client_ip (some ((c ∷ ip) ++ b',' ∷ proxies)) real host ≡ strip (c ∷ ip))
unfolding client_ip
client_ip-forwarded c ip proxies real host h = (
  ap (λ ss. strip (first ss)) (split_free b',' (c ∷ ip) h),
  ap (λ ss. strip (first ss)) (split-append b',' (c ∷ ip) proxies h),
)
