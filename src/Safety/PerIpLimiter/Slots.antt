-- ===== src/Safety/PerIpLimiter/Slots.antt =====
-- PerIPLimiter: how many requests each address has, after each operation of
-- docsifer/safety/per_ip_limiter.py.
use docsifer.Prelude.{
  ℕ, ◌+◌, ◌-◌, ◌≡◌, refl, Bool, Option, none, some, arith, Str, str_eq, ◌==◌, ==_iff, ltb,
  Option-cases, inl, inr, if◌then◌else◌,
}
use docsifer.Prelude.Dict
use docsifer.Prelude.Dict.{Dict, IsDict, get-put, put-IsDict}
use docsifer.Safety.PerIpLimiter.{Slot, Limiter, evict_idle, setdefault, enter, leave}
use docsifer.Safety.PerIpLimiter.Eviction.{get-evict_idle, evict_idle-IsDict}

-- The requests that the limiter counts for an address; none if it has no slot.
abbrev pub active : Limiter → Str → ℕ
active l ip = elim (Dict.get ip l.slots) [ none ↦ 0 | some s ↦ s.active ]

max_per_ip-evict_idle : (now : ℕ) (l : Limiter) → (evict_idle now l).max_per_ip ≡ l.max_per_ip
unfolding evict_idle
max_per_ip-evict_idle now l = refl

-- An eviction forgets nobody who has a request running.
pub active-evict_idle :
    (now : ℕ) (l : Limiter) (j : Str) → IsDict l.slots → active (evict_idle now l) j ≡ active l j
active-evict_idle now l j h = ground (arith, get-evict_idle now j l h)

abbrev count_of : Option Slot → ℕ
count_of none = 0
count_of (some s) = s.active

-- What `setdefault` leaves in the dict, and the slot that it gives.
get-setdefault :
    (ip j : Str) (now : ℕ) (d : Dict Str Slot)
    → (Dict.get j (setdefault ip now d).0
        ≡ (if ip == j then some (setdefault ip now d).1 else Dict.get j d))
      × ((setdefault ip now d).1.active ≡ count_of (Dict.get ip d))
unfolding setdefault
get-setdefault ip j now d =
    ground (arith, ==_iff ip j, get-put ip j (record { active = 0; last_seen = now }) d)

setdefault-IsDict :
    (ip : Str) (now : ℕ) (d : Dict Str Slot) → IsDict d → IsDict (setdefault ip now d).0
unfolding setdefault
setdefault-IsDict ip now d h =
    ground (arith, put-IsDict ip (record { active = 0; last_seen = now }) d h)

abbrev pub not_full : Limiter → Str → Bool
not_full l ip = ltb (active l ip) l.max_per_ip

-- If the addresses of the slots are distinct, a request is refused exactly if its address has
-- `max_per_ip` requests already, and only a request that is let in is counted, for its own address
-- alone.
pub enter-active :
    (ip j : Str) (now : ℕ) (l : Limiter)
    → IsDict l.slots
    → ((enter ip now l).1 ≡ not_full l ip)
      × (active (enter ip now l).0 j ≡ (
          if ip == j then (if not_full l ip then active l j + 1 else active l j) else active l j))
unfolding enter
enter-active ip j now l h =
    let d = (evict_idle now l).slots in
    let slot : Slot = record { active = (setdefault ip now d).1.active + 1; last_seen = now } in
    ground (
      arith,
      active-evict_idle now l ip h,
      active-evict_idle now l j h,
      max_per_ip-evict_idle now l,
      ==_iff ip j,
      get-setdefault ip j now d,
      get-put ip j slot (setdefault ip now d).0,
    )

pub enter-IsDict :
    (ip : Str) (now : ℕ) (l : Limiter)
    → IsDict l.slots
    → IsDict (enter ip now l).0.slots × ((enter ip now l).0.max_per_ip ≡ l.max_per_ip)
unfolding enter
enter-IsDict ip now l h =
    let d = (evict_idle now l).slots in
    let slot : Slot = record { active = (setdefault ip now d).1.active + 1; last_seen = now } in
    let kept = setdefault-IsDict ip now d (evict_idle-IsDict now l h) in
    ground
      (arith, max_per_ip-evict_idle now l, kept, put-IsDict ip slot (setdefault ip now d).0 kept)

-- A request that ends is taken off its own address alone.
pub leave-active :
    (ip j : Str) (now : ℕ) (l : Limiter)
    → active (leave ip now l) j ≡ (if ip == j then active l j - 1 else active l j)
unfolding leave
leave-active ip j now l = elim (Option-cases (Dict.get ip l.slots)) [
  | inl e ↦ rw (e, leave) (ground (arith, ==_iff ip j))
  | inr (s, e) ↦
      rw (e, leave)
        (ground (
          arith,
          ==_iff ip j,
          get-put ip j (record { active = s.active - 1; last_seen = now }) l.slots,
        ))
]

pub leave-IsDict :
    (ip : Str) (now : ℕ) (l : Limiter)
    → IsDict l.slots
    → IsDict (leave ip now l).slots × ((leave ip now l).max_per_ip ≡ l.max_per_ip)
unfolding leave
leave-IsDict ip now l h = elim (Option-cases (Dict.get ip l.slots)) [
  | inl e ↦ rw (e, leave) (h, refl)
  | inr (s, e) ↦
      rw (e, leave)
        (put-IsDict ip (record { active = s.active - 1; last_seen = now }) l.slots h, refl)
]
