-- ===== src/Safety/PerIpLimiter/Eviction.antt =====
-- PerIPLimiter: `_evict_idle` of docsifer/safety/per_ip_limiter.py drops exactly the stale slots.
use docsifer.Prelude.{
  ℕ, ◌≡◌, refl, Bool, true, false, none, some, List, [], ◌∷◌, arith, Str, str_eq, ◌==◌, ==_iff,
  if◌then◌else◌,
}
use docsifer.Prelude.Dict
use docsifer.Prelude.Dict.{Dict, IsDict, get-pop, pop-IsDict, get_of_not-has}
use docsifer.Safety.PerIpLimiter.{Slot, Limiter, is_stale, stale, pop_all, evict_idle}

pub contains : Str → List Str → Bool
contains j [] = false
contains j (k ∷ ks) = if k == j then true else contains j ks

get-pop_all :
    (ks : List Str) (j : Str) (d : Dict Str Slot)
    → IsDict d
    → Dict.get j (pop_all ks d) ≡ (if contains j ks then none else Dict.get j d)
unfolding pop_all contains
get-pop_all [] j d h = refl
get-pop_all (k ∷ ks) j d h =
    ground (arith, get-pop_all ks j (Dict.pop k d) (pop-IsDict k d h), get-pop k j d h)

pub pop_all-IsDict : (ks : List Str) (d : Dict Str Slot) → IsDict d → IsDict (pop_all ks d)
unfolding pop_all
pop_all-IsDict [] d h = h
pop_all-IsDict (k ∷ ks) d h = pop_all-IsDict ks (Dict.pop k d) (pop-IsDict k d h)

-- Only the keys of stale slots are listed.
contains-stale :
    (now idle : ℕ) (j : Str) (d : Dict Str Slot)
    → IsDict d
    → contains j (stale now idle d)
      ≡ elim (Dict.get j d) [ none ↦ false | some s ↦ is_stale now idle s ]
unfolding stale contains Dict.get Dict.distinct
contains-stale now idle j [] h = refl
contains-stale now idle j ((k, s) ∷ d) h =
    ground (arith, ==_iff k j, contains-stale now idle j d, get_of_not-has k d)

-- If the addresses of the slots are distinct, then after the eviction a slot is there exactly if it
-- was there and was not stale.
pub get-evict_idle :
    (now : ℕ) (j : Str) (l : Limiter)
    → IsDict l.slots
    → Dict.get j (evict_idle now l).slots ≡ elim (Dict.get j l.slots) [
      | none ↦ none
      | some s ↦ if is_stale now l.idle_evict s then none else some s
    ]
unfolding evict_idle
get-evict_idle now j l h = ground (
  arith,
  get-pop_all (stale now l.idle_evict l.slots) j l.slots h,
  contains-stale now l.idle_evict j l.slots h,
)

pub evict_idle-IsDict : (now : ℕ) (l : Limiter) → IsDict l.slots → IsDict (evict_idle now l).slots
unfolding evict_idle
evict_idle-IsDict now l h = pop_all-IsDict (stale now l.idle_evict l.slots) l.slots h
