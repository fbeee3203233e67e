-- ===== src/Safety/ResourceGuard/Admission.antt =====
-- ResourceGuard: when `check` of docsifer/safety/resource_guard.py lets a conversion pass.
use docsifer.Prelude.{
  ℕ, ◌+◌, ◌*◌, ◌/◌, ◌≤◌, ◌≡◌, refl, inl, inr, Option, none, some, arith, Option-cases,
}
use docsifer.Exceptions.{ok, err, Raised, class_of, resource_exhausted, raising}
use docsifer.Safety.ResourceGuard.{Readings, ResourceGuard, check, megabyte}

-- The host has what the guard wants, in bytes; an unreadable disk passes.
abbrev pub EnoughDisk : ResourceGuard → Option ℕ → Type 0
EnoughDisk g none = Unit
EnoughDisk g (some free) = g.min_free_disk_mb * megabyte ≤ free

pub record Enough (g : ResourceGuard) (size : ℕ) (h : Readings) : Type 0 where
  pub memory : g.min_free_memory_mb * megabyte ≤ h.memory_available
  pub overhead :
      (size / megabyte * g.overhead_factor + g.overhead_floor_mb) * megabyte ≤ h.memory_available
  pub disk : EnoughDisk g h.disk_free

passes-Enough :
    (g : ResourceGuard) (size : ℕ) (h : Readings) → check g size (some h) ≡ ok tt → Enough g size h
unfolding check
passes-Enough g size h p = elim (Option-cases h.disk_free) [
  | inl e ↦ record { memory = ground arith; overhead = ground arith; disk = rw e tt }
  | inr (free, e) ↦ record {
    memory = ground arith;
    overhead = ground arith;
    disk = rw e (ground arith);
  }
]

Enough-passes :
    (g : ResourceGuard) (size : ℕ) (h : Readings) → Enough g size h → check g size (some h) ≡ ok tt
unfolding check
Enough-passes g size h e = ground arith

-- It fails with `ResourceExhaustedError` only.
pub check-error :
    (g : ResourceGuard) (size : ℕ) (h : Option Readings) (e : Raised)
    → check g size h ≡ err e
    → class_of e ≡ some resource_exhausted
unfolding check raising
check-error g size h e p = ground arith

overhead_mono :
    (g : ResourceGuard) (small large : ℕ) (h : Readings)
    → small ≤ large
    → (large / megabyte * g.overhead_factor + g.overhead_floor_mb) * megabyte ≤ h.memory_available
    → (small / megabyte * g.overhead_factor + g.overhead_floor_mb) * megabyte ≤ h.memory_available
overhead_mono g small large h le e =
    let q : small / megabyte ≤ large / megabyte = omega arith in
    let m : small / megabyte * g.overhead_factor ≤ large / megabyte * g.overhead_factor =
      grind arith in
    omega arith

-- A larger upload is never let in where a smaller one is refused.
pub check_mono :
    (g : ResourceGuard) (small large : ℕ) (h : Option Readings)
    → small ≤ large
    → check g large h ≡ ok tt
    → check g small h ≡ ok tt
unfolding check
check_mono g small large none le p = refl
check_mono g small large (some h) le p =
    let e = passes-Enough g large h p in
    Enough-passes g small h (record {
      memory = e.memory;
      overhead = overhead_mono g small large h le e.overhead;
      disk = e.disk;
    })
