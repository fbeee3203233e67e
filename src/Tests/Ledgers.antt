-- ===== src/Tests/Ledgers.antt =====
-- Runs of docsifer/analytics.
use docsifer.Prelude.{
  ◌+◌, ◌≡◌, refl, true, false, none, some, [], ◌∷◌, Str, ℕ, ◌&&◌, str_eq, ◌==◌, if◌then◌else◌,
}
use docsifer.Prelude.Text.{codes}
use docsifer.Prelude.Dict
use docsifer.Analytics.Counter.{
  Counter, access, tokens, at, empty_counter, has_pending, merge, at_bucket,
}
use docsifer.Analytics.Counter.Laws.{IsCounter, IsCounter-empty}
use docsifer.Analytics.Store.{in_memory_store, apply_in_memory}
use docsifer.Analytics.Service.{record_access, record_all, begin_flush, stats, init, load}
use docsifer.Analytics.Service.Books.{
  World, Access, Reach, here, next, accesses, flush_starts, used, at_sent,
}
use docsifer.Analytics.Service.Ledger.{started, kept-Reach, stats-Reach}
use docsifer.Analytics.Service.Shutdown.{stop, stop_complete, stop_short}
use docsifer.Analytics.Upstash.{Redis, key_of, lost, answered, apply_increments}
use docsifer.Analytics.Upstash.Amounts.{hget-apply_increments, apply_increments-again}

abbrev day : Str
day = codes "2024-05-01"

abbrev label : Str
label = codes "docsifer"

abbrev some_counts : Counter
some_counts = record { access = (day, (label, 2) ∷ []) ∷ []; tokens = (day, (label, 70) ∷ []) ∷ [] }

some-IsCounter : IsCounter some_counts
unfolding Dict.distinct Dict.has
some-IsCounter = record { access_dict = (refl, (refl, tt)); tokens_dict = (refl, (refl, tt)) }

-- One access of 7 tokens, and then a flush that waits for the store.
abbrev fresh_world : World in_memory_store
fresh_world = started in_memory_store label empty_counter empty_counter

abbrev one_access : Access
one_access = record { keys = day ∷ []; tokens = 7; label = none }

abbrev used_world : World in_memory_store
used_world = record fresh_world {
  service = record_access (day ∷ []) 7 none fresh_world.service;
  history = one_access ∷ [];
}

abbrev used_pending : Counter
used_pending = used_world.service.pending

abbrev flushing_world : World in_memory_store
flushing_world = record used_world {
  service = record used_world.service { pending = empty_counter };
  sent = some used_pending;
}

used-Reach : Reach in_memory_store fresh_world used_world
used-Reach = next here (accesses one_access)

pending_now : begin_flush used_world.service ≡ some (used_pending, flushing_world.service)
unfolding begin_flush record_access has_pending record_all docsifer.Analytics.Counter.bump Dict.put
    load init Dict.get
pending_now = refl

flushing-Reach : Reach in_memory_store fresh_world flushing_world
flushing-Reach = next used-Reach (flush_starts used_pending flushing_world.service refl pending_now)

kept-Reach_example :
    at tokens day label flushing_world.contents
      + at_sent tokens day label flushing_world.sent
      + at tokens day label flushing_world.service.pending
    ≡ 0 + used label flushing_world.history tokens day label
unfolding empty_counter at_bucket Dict.get
kept-Reach_example =
    kept-Reach in_memory_store label empty_counter empty_counter IsCounter-empty
      {w = flushing_world} flushing-Reach tokens day label

stats-Reach_example :
    at access day label (stats used_world.service).0
    ≡ at access day label empty_counter + used label used_world.history access day label
stats-Reach_example =
    stats-Reach in_memory_store label empty_counter empty_counter IsCounter-empty {w = used_world}
      used-Reach access day label

stop_complete_example :
    at tokens day label (stop in_memory_store false used_world).contents
    ≡ at tokens day label empty_counter + used label used_world.history tokens day label
unfolding apply_in_memory
stop_complete_example =
    stop_complete in_memory_store label empty_counter empty_counter IsCounter-empty used_world
      used-Reach false tokens day label refl refl

stop_short_example :
    at tokens day label (stop in_memory_store false flushing_world).contents
      + at tokens day label used_pending
    ≡ at tokens day label empty_counter + used label flushing_world.history tokens day label
unfolding apply_in_memory
stop_short_example =
    stop_short in_memory_store label empty_counter empty_counter IsCounter-empty flushing_world
      flushing-Reach used_pending tokens day label refl refl

-- A server as a function of the key and the label, and what it holds after a lost pipeline.
abbrev server : Redis
server = record {
  Hashes = Str → Str → ℕ;
  hget = λ k l s. s k l;
  hincrby = λ key label n s. λ k l. if key == k && label == l then s k l + n else s k l;
  hget-hincrby = λ key k label l n s. refl;
}

abbrev nothing : Str → Str → ℕ
nothing k l = 0

abbrev after_lost : Str → Str → ℕ
after_lost = (apply_increments server true lost [] some_counts nothing).0

lost-fails : apply_increments server true lost [] some_counts nothing ≡ (after_lost, false)
unfolding apply_increments
lost-fails = refl

hget-apply_increments_example :
    (apply_increments server true answered [] some_counts nothing).0 (key_of tokens day) label
    ≡ 0 + 70
unfolding apply_increments at_bucket Dict.get
hget-apply_increments_example =
    hget-apply_increments server true answered [] some_counts nothing tokens day label
      some-IsCounter refl

apply_increments-again_example :
    (apply_increments server true answered [] some_counts after_lost).0 (key_of tokens day) label
    ≡ 0 + 70 + 70
unfolding apply_increments at_bucket Dict.get
apply_increments-again_example =
    apply_increments-again server true answered [] some_counts nothing after_lost tokens day label
      some-IsCounter lost-fails refl
