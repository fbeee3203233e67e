-- ===== src/Safety/ResourceGuard.antt =====
-- docsifer/safety/resource_guard.py. `psutil` is a parameter: its readings of the host.
pub mod Admission
use docsifer.Prelude.{
  ℕ, ◌+◌, ◌*◌, ◌/◌, ◌^◌, max, Bool, Option, none, some, List, [], ◌∷◌, ◌++◌, Str, ltb,
  if◌then◌else◌,
}
use docsifer.Prelude.Text.{codes, decimal}
use docsifer.Exceptions.{Result, ok, throw, resource_exhausted, number}

-- What `psutil` says: the free memory in bytes, and the free disk space below `tmp_dir`, where
-- `none` is an exception. A host without `psutil` has no readings.
pub record Readings : Type 0 where
  pub memory_available : ℕ
  pub disk_free : Option ℕ

pub record ResourceGuard : Type 0 where
  pub min_free_memory_mb : ℕ
  pub min_free_disk_mb : ℕ
  pub overhead_factor : ℕ
  pub overhead_floor_mb : ℕ

-- The two settings that the program passes, with the defaults of the others.
unfoldable pub default_guard : ℕ → ℕ → ResourceGuard
default_guard min_free_memory_mb min_free_disk_mb = record {
  min_free_memory_mb = min_free_memory_mb;
  min_free_disk_mb = min_free_disk_mb;
  overhead_factor = 3;
  overhead_floor_mb = 256;
}

abbrev pub megabyte : ℕ
megabyte = 1024 * 1024

unfoldable pub needed_mb : ResourceGuard → ℕ → ℕ
needed_mb g expected_size_bytes =
    max g.min_free_memory_mb
      (expected_size_bytes / megabyte * g.overhead_factor + g.overhead_floor_mb)

unfoldable pub check_disk : ResourceGuard → Option ℕ → Result (Unit {0})
check_disk g none = ok tt
check_disk g (some free) =
    let disk_free_mb = free / megabyte in
    if ltb disk_free_mb g.min_free_disk_mb
    then throw resource_exhausted
        (codes "Insufficient disk space: " ++ (decimal disk_free_mb ++ codes " MB free"))
        ((codes "disk_free_mb", number disk_free_mb) ∷ [])
    else ok tt

unfoldable pub check_host : ResourceGuard → ℕ → Readings → Result (Unit {0})
unfolding needed_mb check_disk
check_host g expected_size_bytes h =
    let avail_mb = h.memory_available / megabyte in
    let needed = needed_mb g expected_size_bytes in
    if ltb avail_mb needed
    then throw resource_exhausted
        (codes "Insufficient memory: need "
          ++ (decimal needed ++ (codes " MB, have " ++ (decimal avail_mb ++ codes " MB"))))
        ((codes "available_mb", number avail_mb) ∷ (codes "needed_mb", number needed) ∷ [])
    else check_disk g h.disk_free

-- Without `psutil` the check passes.
unfoldable pub check : ResourceGuard → ℕ → Option Readings → Result (Unit {0})
unfolding check_host
check g expected_size_bytes none = ok tt
check g expected_size_bytes (some h) = check_host g expected_size_bytes h
