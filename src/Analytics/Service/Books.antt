-- ===== src/Analytics/Service/Books.antt =====
-- The interleavings of accesses and flushes of AnalyticsService (docsifer/analytics/service.py)
-- over any atomic store, and its books.
use docsifer.Prelude.{
  ℕ, ◌+◌, ◌≡◌, refl, ap, subst, inl, inr, Bool-cases, Option, none, some, List, [], ◌∷◌, Str,
  str_eq, ◌==◌, arith, if◌then◌else◌,
}
use docsifer.Analytics.Counter.{Counter, Metric, empty_counter, at}
use docsifer.Analytics.Counter.Laws.{
  IsCounter, IsCounter-empty, at-empty, at-merge, merge-IsCounter,
}
use docsifer.Analytics.Store.{AnalyticsStore}
use docsifer.Analytics.Service.{Service, record_access, begin_flush, end_flush, label_or}
use docsifer.Analytics.Service.Recording.{owed, worth, at-record_all, record_all-IsCounter}

-- One call of `access`: the period keys, the tokens and the label.
pub record Access : Type 0 where
  pub keys : List Str
  pub tokens : ℕ
  pub label : Option Str

-- What the calls so far amount to, by their arguments alone.
unfoldable pub used : Str → List Access → Metric → Str → Str → ℕ
used default [] m p l = 0
used default (a ∷ history) m p l =
    (if label_or a.label default == l then owed p a.keys (worth m a.tokens) else 0)
    + used default history m p l

abbrev pub at_sent : Metric → Str → Str → Option Counter → ℕ
at_sent m p l none = 0
at_sent m p l (some c) = at m p l c

abbrev IsSent : Option Counter → Type 0
IsSent none = Unit
IsSent (some c) = IsCounter c

pub begin_flush-eq :
    (s s' : Service) (c : Counter)
    → begin_flush s ≡ some (c, s')
    → (c ≡ s.pending) × (s' ≡ record s { pending = empty_counter })
unfolding begin_flush
begin_flush-eq s s' c h = ground arith

module _ (store : AnalyticsStore) where
  open store use {Contents, apply_increments, amount}

  -- The service, the store, the payload of the flush that awaits the store, and the calls so far.
  pub record World : Type 0 where
    pub service : Service
    pub contents : Contents
    pub sent : Option Counter
    pub history : List Access

  pub data Step (w : World) : World → Type 0 where
    accesses :
        (a : Access)
        → Step w (record w {
          service = record_access a.keys a.tokens a.label w.service;
          history = a ∷ w.history;
        })
    flush_starts :
        (payload : Counter) (s : Service)
        → w.sent ≡ none
        → begin_flush w.service ≡ some (payload, s)
        → Step w (record w { service = s; sent = some payload })
    store_answers :
        (payload : Counter)
        → w.sent ≡ some payload
        → Step w (record w {
          service = end_flush payload (apply_increments payload w.contents).1 w.service;
          contents = (apply_increments payload w.contents).0;
          sent = none;
        })

  pub data Reach (w : World) : World → Type 0 where
    here : Reach w w
    next : {u v : World} → Reach w u → Step u v → Reach w v

  -- The books: what was there at the start, and what was used since.
  pub record Books (label : Str) (loaded : Counter) (held : Contents) (w : World) : Type 0 where
    pub name : w.service.label ≡ label
    pub pending_dict : IsCounter w.service.pending
    pub sent_dict : IsSent w.sent
    pub shown : w.service.snapshot ≡ w.service.totals
    pub kept :
        (m : Metric) (p l : Str)
        → amount w.contents m p l + at_sent m p l w.sent + at m p l w.service.pending
          ≡ amount held m p l + used label w.history m p l
    pub total :
        (m : Metric) (p l : Str)
        → at m p l w.service.totals ≡ at m p l loaded + used label w.history m p l

  access-Books :
      {label : Str} {loaded : Counter} {held : Contents} (w : World) (a : Access)
      → Books label loaded held w
      → Books label loaded held (record w {
        service = record_access a.keys a.tokens a.label w.service;
        history = a ∷ w.history;
      })
  unfolding record_access used
  access-Books {label} w a b =
      let n = label_or a.label w.service.label in
      record {
        name = b.name;
        pending_dict = record_all-IsCounter a.keys n a.tokens w.service.pending b.pending_dict;
        sent_dict = b.sent_dict;
        shown = refl;
        kept = λ m p l.
            rw (at-record_all a.keys n a.tokens w.service.pending m p l, b.name)
              (omega (arith, b.kept m p l));
        total = λ m p l.
            rw (at-record_all a.keys n a.tokens w.service.totals m p l, b.name)
              (omega (arith, b.total m p l));
      }

  flush-Books :
      {label : Str} {loaded : Counter} {held : Contents} (w : World) (payload : Counter)
      (s : Service)
      → w.sent ≡ none
      → begin_flush w.service ≡ some (payload, s)
      → Books label loaded held w
      → Books label loaded held (record w { service = s; sent = some payload })
  flush-Books w payload s e h b =
      let (c, t) = begin_flush-eq w.service s payload h in
      rw (c, t)
        (record {
          name = b.name;
          pending_dict = IsCounter-empty;
          sent_dict = b.pending_dict;
          shown = b.shown;
          kept = λ m p l. omega (arith, b.kept m p l, at-empty m p l, ap (at_sent m p l) e);
          total = b.total;
        })

  answer-Books :
      {label : Str} {loaded : Counter} {held : Contents} (w : World) (payload : Counter)
      → w.sent ≡ some payload
      → Books label loaded held w
      → Books label loaded held (record w {
        service = end_flush payload (apply_increments payload w.contents).1 w.service;
        contents = (apply_increments payload w.contents).0;
        sent = none;
      })
  unfolding end_flush
  answer-Books w payload e b =
      let d : IsCounter payload = subst IsSent e b.sent_dict in
      elim (Bool-cases (apply_increments payload w.contents).1) [
        | inl done ↦
            rw (done, end_flush)
              (record {
                name = b.name;
                pending_dict = b.pending_dict;
                sent_dict = tt;
                shown = b.shown;
                kept = λ m p l. omega (
                  arith,
                  b.kept m p l,
                  ap (at_sent m p l) e,
                  store.applied payload w.contents m p l d done,
                );
                total = b.total;
              })
        | inr lost ↦
            rw (lost, end_flush)
              (record {
                name = b.name;
                pending_dict = merge-IsCounter payload w.service.pending b.pending_dict;
                sent_dict = tt;
                shown = b.shown;
                kept = λ m p l. omega (
                  arith,
                  b.kept m p l,
                  ap (at_sent m p l) e,
                  store.failed payload w.contents m p l lost,
                  at-merge payload w.service.pending m p l d,
                );
                total = b.total;
              })
      ]

  Step-Books :
      {label : Str} {loaded : Counter} {held : Contents} {w v : World}
      → Step w v
      → Books label loaded held w
      → Books label loaded held v
  Step-Books {w} (accesses a) b = access-Books w a b
  Step-Books {w} (flush_starts payload s e h) b = flush-Books w payload s e h b
  Step-Books {w} (store_answers payload e) b = answer-Books w payload e b

  pub Reach-Books :
      {label : Str} {loaded : Counter} {held : Contents} {w v : World}
      → Books label loaded held w
      → Reach w v
      → Books label loaded held v
  Reach-Books b here = b
  Reach-Books b (next r st) = Step-Books st (Reach-Books b r)
