-- ===== src/Analytics/Service/Shutdown.antt =====
-- `stop` of docsifer/analytics/service.py: the sync task is cancelled, and a last flush is made.
use docsifer.Prelude.{
  ◌+◌, ◌≡◌, ◌⊎◌, ◌∙◌, refl, ap, Bool, true, false, Option, none, some, Str, arith, inl, inr,
  Bool-cases, if◌then◌else◌,
}
use docsifer.Analytics.Counter.{Counter, Metric, at, has_pending}
use docsifer.Analytics.Counter.Laws.{IsCounter, at-not_pending}
use docsifer.Analytics.Store.{AnalyticsStore}
use docsifer.Analytics.Service.{begin_flush, end_flush}
use docsifer.Analytics.Service.Books.{World, Reach, used, at_sent}
use docsifer.Analytics.Service.Ledger.{started, kept-Reach, pending-IsCounter}

module _ (store : AnalyticsStore) where
  open store use {Contents, apply_increments, amount}

  -- `self._sync_task.cancel()` and the wait for it. A flush that awaits the store ends by
  -- `CancelledError`, which `except Exception` misses. `landed` says whether the store has taken
  -- the payload all the same.
  after_cancel : Bool → World store → Option Counter → World store
  after_cancel landed w none = w
  after_cancel landed w (some payload) = record w {
    contents = if landed then (apply_increments payload w.contents).0 else w.contents;
    sent = none;
  }

  unfoldable pub cancel_sync : Bool → World store → World store
  unfolding after_cancel
  cancel_sync landed w = after_cancel landed w w.sent

  -- `_flush_once` to its end, its exception suppressed.
  unfoldable pub flush_once : World store → World store
  flush_once w = elim (begin_flush w.service) [
    | none ↦ w
    | some (payload, s) ↦ record w {
      service = end_flush payload (apply_increments payload w.contents).1 s;
      contents = (apply_increments payload w.contents).0;
    }
  ]

  unfoldable pub stop : Bool → World store → World store
  stop landed w = flush_once (cancel_sync landed w)

  -- Whether the last flush found the store working.
  abbrev pub last_flush_ok : World store → Bool
  last_flush_ok w = (apply_increments w.service.pending w.contents).1

  -- A cancelled flush whose payload has not landed leaves all but `sent`.
  after_cancel-kept :
      (landed : Bool) (w : World store) (sent : Option Counter)
      → (landed ≡ false) ⊎ (sent ≡ none)
      → ((after_cancel landed w sent).service ≡ w.service)
        × ((after_cancel landed w sent).contents ≡ w.contents)
  unfolding after_cancel
  after_cancel-kept landed w none h = (refl, refl)
  after_cancel-kept landed w (some payload) (inl e) = (refl, rw e)
  after_cancel-kept landed w (some payload) (inr e) = cc

  cancel_sync-kept :
      (landed : Bool) (w : World store)
      → (landed ≡ false) ⊎ (w.sent ≡ none)
      → ((cancel_sync landed w).service ≡ w.service)
        × ((cancel_sync landed w).contents ≡ w.contents)
  unfolding cancel_sync
  cancel_sync-kept landed w = after_cancel-kept landed w w.sent

  -- A last flush that the store answers takes over all that is pending.
  flush_once-amount :
      (w : World store) (m : Metric) (p l : Str)
      → IsCounter w.service.pending
      → last_flush_ok w ≡ true
      → amount (flush_once w).contents m p l ≡ amount w.contents m p l + at m p l w.service.pending
  unfolding flush_once begin_flush
  flush_once-amount w m p l d ok = elim (Bool-cases (has_pending w.service.pending)) [
    | inl some_left ↦
        rw (some_left, flush_once) (store.applied w.service.pending w.contents m p l d ok)
    | inr nothing ↦
        rw (nothing, flush_once) (omega (arith, at-not_pending w.service.pending m p l nothing))
  ]

  module _ (label : Str) (initial : Counter) (held : Contents) (proper : IsCounter initial)
      (w : World store) (reached : Reach store (started store label initial held) w) where
    stop-amount :
        (landed : Bool) (m : Metric) (p l : Str)
        → (landed ≡ false) ⊎ (w.sent ≡ none)
        → last_flush_ok w ≡ true
        → amount (stop landed w).contents m p l
          ≡ amount w.contents m p l + at m p l w.service.pending
    unfolding stop
    stop-amount landed m p l h ok =
        let (s, c) = cancel_sync-kept landed w h in
        let d = pending-IsCounter store label initial held proper reached in
        let v = cancel_sync landed w in
        flush_once-amount v m p l (rw s d) (rw (s, c) ok)
        ∙ (let same : amount v.contents m p l + at m p l v.service.pending
                ≡ amount w.contents m p l + at m p l w.service.pending =
              rw (s, c) in
            same)

    -- A stop, in any state after the load, while no flush awaits the store: if the store answers
    -- the last flush, it has every access since the start.
    pub stop_complete :
        (landed : Bool) (m : Metric) (p l : Str)
        → w.sent ≡ none
        → last_flush_ok w ≡ true
        → amount (stop landed w).contents m p l ≡ amount held m p l + used label w.history m p l
    stop_complete landed m p l e ok =
        stop-amount landed m p l (inr e) ok
        ∙ omega
            (arith, kept-Reach store label initial held proper reached m p l, ap (at_sent m p l) e)

    -- A stop, in any state after the load, that cancels a flush whose payload the store has not
    -- taken: even if the store answers the last flush, it ends up short by exactly that payload.
    pub stop_short :
        (payload : Counter) (m : Metric) (p l : Str)
        → w.sent ≡ some payload
        → last_flush_ok w ≡ true
        → amount (stop false w).contents m p l + at m p l payload
          ≡ amount held m p l + used label w.history m p l
    stop_short payload m p l e ok = omega (
      arith,
      stop-amount false m p l (inl refl) ok,
      kept-Reach store label initial held proper reached m p l,
      ap (at_sent m p l) e,
    )
