-- ===== src/Logging/Payload.antt =====
-- What a line of docsifer/logging_config.py says.
use docsifer.Prelude.{
  ◌≡◌, refl, ap, ◌∙◌, arith, Option, none, some, [], ◌∷◌, Str, str_eq, ◌==◌, ==_iff, if◌then◌else◌,
  Bool-cases, Option-cases, inl, inr,
}
use docsifer.Prelude.Dict
use docsifer.Prelude.Dict.{Dict}
use docsifer.Prelude.Text.{codes, starts_with}
use docsifer.Logging.{
  Value, dumped, LogRecord, filter, is_skipped, shown, add_extras, base, format, id_or_dash,
  or_dash,
}

-- The extra field of a key, if the key is not skipped.
abbrev pub extra : Str → Dict Str Value → Option Value
extra j attributes = if is_skipped j then none else Dict.get j attributes

abbrev pub shown_or : Option Value → Option Value → Option Value
shown_or none d = d
shown_or (some v) d = some (shown v)

get-add_extras :
    (j : Str) (attributes payload : Dict Str Value)
    → Dict.IsDict attributes
    → Dict.get j (add_extras attributes payload)
      ≡ shown_or (extra j attributes) (Dict.get j payload)
unfolding add_extras Dict.get Dict.distinct
get-add_extras j [] payload h = ground arith
get-add_extras j ((k, v) ∷ attributes) payload h =
    let later =
      get-add_extras j attributes (if is_skipped k then payload else Dict.put k (shown v) payload)
        (ground arith) in
    elim (Bool-cases (k == j)) [
      | inl e ↦
          let same = (==_iff k j).0 e in
          let nothing : Dict.get j attributes ≡ none =
            rw (← same) (Dict.get_of_not-has k attributes (ground arith)) in
          let skips : is_skipped k ≡ is_skipped j = ap is_skipped same in
          ground (arith, later, nothing, skips, e, Dict.get-put k j (shown v) payload)
      | inr e ↦ ground (arith, later, e, Dict.get-put k j (shown v) payload)
    ]

base_fields :
    (ts : Str) (r : LogRecord)
    → (Dict.get (codes "msg") (base ts r) ≡ some (dumped r.message))
      × (Dict.get (codes "request_id") (base ts r) ≡ some (dumped (id_or_dash r.request_id)))
unfolding base Dict.get Dict.put
base_fields ts r = elim (Option-cases r.exc_info) [
  | inl e ↦ rw (e, base) (refl, refl)
  | inr (t, e) ↦ rw (e, base) (refl, refl)
]

-- A line has each extra field that the call gave, and otherwise the fields that every line has; the
-- message and the request id are always the record's, under the id that the filter set.
pub format-filter :
    (var : Option Str) (ts : Str) (r : LogRecord) (j : Str)
    → Dict.IsDict r.attributes
    → (Dict.get j (format ts (filter var r).0)
        ≡ shown_or (extra j r.attributes) (Dict.get j (base ts (filter var r).0)))
      × (Dict.get (codes "msg") (format ts (filter var r).0) ≡ some (dumped r.message))
      × (Dict.get (codes "request_id") (format ts (filter var r).0) ≡ some (dumped (or_dash var)))
unfolding format filter starts_with Dict.get
format-filter var ts r j h = (
  get-add_extras j r.attributes _ h,
  get-add_extras (codes "msg") r.attributes _ h
      ∙ (unfold is_skipped in (base_fields ts (filter var r).0).0),
  get-add_extras (codes "request_id") r.attributes _ h
      ∙ (unfold is_skipped in (base_fields ts (filter var r).0).1),
)
