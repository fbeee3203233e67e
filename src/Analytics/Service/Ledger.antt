-- ===== src/Analytics/Service/Ledger.antt =====
-- AnalyticsService under any interleaving of accesses and flushes (docsifer/analytics/service.py),
-- over any atomic store: the books balance.
use docsifer.Prelude.{◌+◌, ◌≡◌, refl, ap, false, none, some, [], Str, str_eq, arith}
use docsifer.Analytics.Counter.{Counter, Metric, empty_counter, at, has_pending}
use docsifer.Analytics.Counter.Laws.{IsCounter, IsCounter-empty, at-empty, at-merge, at-not_pending}
use docsifer.Analytics.Store.{AnalyticsStore}
use docsifer.Analytics.Service.{init, load, stats}
use docsifer.Analytics.Service.Books.{used, at_sent, World, Reach, Books, Reach-Books}

module _ (store : AnalyticsStore) where
  open store use {Contents, amount}

  -- A service that has just loaded `initial` from a store that holds `held`.
  abbrev pub started : Str → Counter → Contents → World store
  started label initial held = record {
    service = load (some initial) (init label);
    contents = held;
    sent = none;
    history = [];
  }

  started-Books :
      (label : Str) (initial : Counter) (held : Contents)
      → IsCounter initial
      → Books store label initial held (started label initial held)
  unfolding load init used
  started-Books label initial held h = record {
    name = refl;
    pending_dict = IsCounter-empty;
    sent_dict = tt;
    shown = refl;
    kept = λ m p l. omega (arith, at-empty m p l);
    total = λ m p l. omega (arith, at-merge initial empty_counter m p l h, at-empty m p l);
  }

  module _ (label : Str) (initial : Counter) (held : Contents) (proper : IsCounter initial)
      {w : World store} (reached : Reach store (started label initial held) w) where
    -- From the load of a counter with distinct keys on, over any atomic store, no count is lost and
    -- none is made up, however accesses, flushes and failures of the store interleave: what the
    -- store has gained, what a flush has in hand and what is pending are together exactly what the
    -- accesses used, for every metric, period and label.
    pub kept-Reach :
        (m : Metric) (p l : Str)
        → amount w.contents m p l + at_sent m p l w.sent + at m p l w.service.pending
          ≡ amount held m p l + used label w.history m p l
    kept-Reach = (Reach-Books store (started-Books label initial held proper) reached).kept

    pub pending-IsCounter : IsCounter w.service.pending
    pending-IsCounter =
        (Reach-Books store (started-Books label initial held proper) reached).pending_dict

    -- From the load of a counter with distinct keys on, `stats` shows what was loaded and every
    -- access since, whatever became of the flushes.
    pub stats-Reach :
        (m : Metric) (p l : Str)
        → at m p l (stats w.service).0 ≡ at m p l initial + used label w.history m p l
    unfolding stats
    stats-Reach m p l =
        let b = Reach-Books store (started-Books label initial held proper) reached in
        rw b.shown (b.total m p l)

    -- From the load of a counter with distinct keys on, when no flush waits and nothing is pending,
    -- an atomic store has gained every access.
    pub flushed-Reach :
        (m : Metric) (p l : Str)
        → w.sent ≡ none
        → has_pending w.service.pending ≡ false
        → amount w.contents m p l ≡ amount held m p l + used label w.history m p l
    flushed-Reach m p l e h =
        omega
          (arith, kept-Reach m p l, ap (at_sent m p l) e, at-not_pending w.service.pending m p l h)
