-- ===== src/Tests/Hosts.antt =====
-- Runs of per_ip_limiter.py, resource_guard.py, memory_watchdog.py and disk_cleanup.py, all in
-- docsifer/safety.
use docsifer.Prelude.{
  ℕ, ◌+◌, ◌-◌, ◌≤◌, ◌<◌, ◌≡◌, ◌≢◌, refl, Bool, true, false, not, Option, none, some, List, [], ◌∷◌,
  arith, max, length, Str, str_eq, ◌==◌, if◌then◌else◌,
}
use docsifer.Prelude.Text.{codes}
use docsifer.Safety.PerIpLimiter
use docsifer.Safety.PerIpLimiter.{Limiter, Slot, enter, leave, is_stale, evict_idle}
use docsifer.Safety.PerIpLimiter.Slots.{active}
use docsifer.Safety.PerIpLimiter.Clients.{Clients, here, next, enters, count, Reach-limit}
use docsifer.Safety.ResourceGuard.{Readings}
use docsifer.Safety.MemoryWatchdog.{memory_watchdog_loop, reads, unreadable, terminated}
use docsifer.Safety.DiskCleanup.{
  Entry, unlinks, sweep_once, sweeps, fails, disk_cleanup_loop, is_safe, pick,
  disk_cleanup_loop-keeps,
}

abbrev home : Str
home = codes "127.0.0.1"

-- One slot that has been idle for more than a second, of a limit of one.
abbrev idle_limiter : Limiter
idle_limiter = record {
  max_per_ip = 1;
  idle_evict = 1000;
  slots = (home, record { active = 0; last_seen = 5 }) ∷ [];
}

-- A first request is let in, a second one of the same address is refused.
abbrev one_client : Clients
one_client = record {
  limiter = (enter home 1 (PerIpLimiter.init 1 600)).0;
  holders = if (enter home 1 (PerIpLimiter.init 1 600)).1 then home ∷ [] else [];
}

abbrev two_clients : Clients
two_clients = record {
  limiter = (enter home 2 one_client.limiter).0;
  holders =
      if (enter home 2 one_client.limiter).1 then home ∷ one_client.holders else one_client.holders;
}

Reach-limit_example :
    (active two_clients.limiter home ≡ count home two_clients.holders)
    × (count home two_clients.holders ≤ 1)
Reach-limit_example =
    Reach-limit 1 600 {t = two_clients} home (next (next here (enters home 1)) (enters home 2))

-- A host with 1 GB of memory and an unreadable disk.
abbrev host : Readings
host = record { memory_available = 1073741824; disk_free = none }

-- The disk is full.
abbrev full_host : Readings
full_host = record { memory_available = 1073741824; disk_free = some 0 }

watchdog_run : memory_watchdog_loop true 90 (reads 80 ∷ unreadable ∷ reads 95 ∷ []) ≡ terminated
unfolding memory_watchdog_loop
watchdog_run = refl

-- An old file of ours, an old directory of ours, and a file of another name.
abbrev tmp_entries : List Entry
tmp_entries =
    record { name = codes "docsifer-a"; mtime = some 0; is_file = true; removable = true }
    ∷ record { name = codes "docsifer-b"; mtime = some 0; is_file = false; removable = true }
    ∷ record { name = codes "other"; mtime = some 0; is_file = true; removable = true }
    ∷ []

sweep_run : ((sweep_once 100 10 tmp_entries).1 ≡ 1) × (length (sweep_once 100 10 tmp_entries).0 ≡ 2)
unfolding sweep_once unlinks docsifer.Prelude.Text.starts_with
sweep_run = (refl, refl)

disk_cleanup_loop-keeps_example :
    pick (is_safe 100 10) (disk_cleanup_loop 10 (fails ∷ sweeps 100 ∷ []) tmp_entries)
    ≡ pick (is_safe 100 10) tmp_entries
disk_cleanup_loop-keeps_example =
    disk_cleanup_loop-keeps 10 100 (fails ∷ sweeps 100 ∷ []) tmp_entries (omega arith, tt)
