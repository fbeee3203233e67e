-- ===== src/Analytics/Service.antt =====
-- docsifer/analytics/service.py. Each locked section is one function. `_flush_once` is two: the
-- section that takes the pending counts out, and what follows the store's answer.
pub mod Recording
pub mod Books
pub mod Ledger
pub mod Shutdown
pub mod Retry
use docsifer.Prelude.{
  ℕ, suc, ◌+◌, ◌*◌, max, min, Bool, true, false, Option, none, some, List, [], ◌∷◌, Str, ltb,
  if◌then◌else◌,
}
use docsifer.Analytics.Counter.{Counter, empty_counter, bump, merge, has_pending}

pub record Service : Type 0 where
  pub label : Str
  pub totals : Counter
  pub pending : Counter
  pub snapshot : Counter
  pub healthy : Bool

unfoldable pub init : Str → Service
unfolding empty_counter
init label = record {
  label = label;
  totals = empty_counter;
  pending = empty_counter;
  snapshot = empty_counter;
  healthy = true;
}

-- A snapshot copies the dicts: later writes to `totals` do not reach it.
unfoldable pub refresh_snapshot : Service → Service
refresh_snapshot s = record s { snapshot = s.totals }

-- The loading half of `start`; `none` is an exception of `load_all`.
unfoldable pub load : Option Counter → Service → Service
unfolding refresh_snapshot merge
load none s = record s { healthy = false }
load (some initial) s = refresh_snapshot (record s { totals = merge initial s.totals })

-- for period in keys: c["access"][period][label] += 1; c["tokens"][period][label] += tokens
unfoldable pub record_all : List Str → Str → ℕ → Counter → Counter
record_all [] label tokens c = c
record_all (period ∷ keys) label tokens c =
    record_all keys label tokens
      (record { access = bump period label 1 c.access; tokens = bump period label tokens c.tokens })

-- `label or self._label`
abbrev pub label_or : Option Str → Str → Str
label_or none d = d
label_or (some []) d = d
label_or (some (c ∷ s)) d = c ∷ s

-- `keys` is `period_keys()`.
unfoldable pub record_access : List Str → ℕ → Option Str → Service → Service
unfolding refresh_snapshot
record_access keys tokens label s =
    let name = label_or label s.label in
    refresh_snapshot (record s {
      pending = record_all keys name tokens s.pending;
      totals = record_all keys name tokens s.totals;
    })

-- The first section of `_flush_once`: `none` if nothing is pending, and otherwise the payload.
unfoldable pub begin_flush : Service → Option (Counter × Service)
unfolding empty_counter
begin_flush s =
    if has_pending s.pending then some (s.pending, record s { pending = empty_counter }) else none

-- The store has answered: an exception puts the payload back.
unfoldable pub end_flush : Counter → Bool → Service → Service
end_flush payload true s = record s { healthy = true }
end_flush payload false s = record s { pending = merge payload s.pending; healthy = false }

-- `stats`
unfoldable pub stats : Service → Counter × Bool
stats s = (s.snapshot, s.healthy)
