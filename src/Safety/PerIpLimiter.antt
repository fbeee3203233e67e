-- ===== src/Safety/PerIpLimiter.antt =====
-- docsifer/safety/per_ip_limiter.py. Times are whole milliseconds of the monotonic clock; a locked
-- section reads the clock once. A negative setting is read as 0.
pub mod Eviction
pub mod Slots
pub mod Clients
use docsifer.Prelude.{
  ℕ, ◌+◌, ◌-◌, ◌*◌, max, Bool, true, false, ◌&&◌, Option, none, some, List, [], ◌∷◌, Str, str_eq,
  leb, ltb, nat_beq, if◌then◌else◌,
}
use docsifer.Prelude.Dict
use docsifer.Prelude.Dict.{Dict}

pub record Slot : Type 0 where
  pub active : ℕ
  pub last_seen : ℕ

pub record Limiter : Type 0 where
  pub max_per_ip : ℕ
  pub idle_evict : ℕ
  pub slots : Dict Str Slot

unfoldable pub init : ℕ → ℕ → Limiter
init max_per_ip idle_evict_sec = record {
  max_per_ip = max 1 max_per_ip;
  idle_evict = idle_evict_sec * 1000;
  slots = [];
}

-- `s.active == 0 and s.last_seen < now - idle`, with the subtraction moved to the other side.
abbrev pub is_stale : ℕ → ℕ → Slot → Bool
is_stale now idle s = nat_beq s.active 0 && ltb (s.last_seen + idle) now

pub stale : ℕ → ℕ → Dict Str Slot → List Str
stale now idle [] = []
stale now idle ((ip, s) ∷ d) =
    let rest = stale now idle d in if is_stale now idle s then ip ∷ rest else rest

pub pop_all : List Str → Dict Str Slot → Dict Str Slot
pop_all [] d = d
pop_all (ip ∷ ips) d = pop_all ips (Dict.pop ip d)

unfoldable pub evict_idle : ℕ → Limiter → Limiter
unfolding stale pop_all
evict_idle now l = record l { slots = pop_all (stale now l.idle_evict l.slots) l.slots }

abbrev pub slot_or : Slot → Option Slot → Slot
slot_or s none = s
slot_or s (some old) = old

-- `setdefault(ip, _Slot())`: the dict after it, and the slot.
unfoldable pub setdefault : Str → ℕ → Dict Str Slot → Dict Str Slot × Slot
setdefault ip now d = elim (Dict.get ip d) [
  | none ↦ let s : Slot = record { active = 0; last_seen = now } in (Dict.put ip s d, s)
  | some s ↦ (d, s)
]

-- `false` is the `TooManyRequestsError`.
unfoldable pub enter : Str → ℕ → Limiter → Limiter × Bool
enter ip now l =
    let l' = evict_idle now l in
    let (slots, slot) = setdefault ip now l'.slots in
    if leb l'.max_per_ip slot.active then (record l' { slots = slots }, false) else (
      record l' {
        slots = Dict.put ip (record { active = slot.active + 1; last_seen = now }) slots;
      },
      true,
    )

unfoldable pub leave : Str → ℕ → Limiter → Limiter
leave ip now l = elim (Dict.get ip l.slots) [
  | none ↦ l
  | some slot ↦ record l {
    slots = Dict.put ip (record { active = slot.active - 1; last_seen = now }) l.slots;
  }
]
