-- ===== src/Analytics/Upstash/Loading.antt =====
-- `load_all` of `UpstashStore` in docsifer/analytics/store.py. SCAN and HGETALL are parameters; a
-- value of a hash is nothing where `int` raises on it.
use docsifer.Prelude.{
  ℕ, zero, suc, ◌+◌, ◌≡◌, ◌≢◌, refl, Bool, true, false, Option, none, some, List, [], ◌∷◌, ◌++◌,
  Str, str_eq, ◌==◌, ==_iff, nat_beq, nat_beq_iff, if◌then◌else◌, arith, ◌&&◌,
}
use native.Mathlib.Nat.{suc-add}
use docsifer.Prelude.Dict
use docsifer.Prelude.Dict.{Dict}
use docsifer.Prelude.Text.{contains_char}
use docsifer.Analytics.Counter.{Counter, Metric, access, tokens, Buckets, labels_or, at_bucket}
use docsifer.Analytics.Upstash.{key_of}

pub record Reads : Type 0 where
  pub scan : Metric → ℕ → ℕ × List Str
  pub hgetall : Str → Dict Str (Option ℕ)

-- The text behind the first colon.
unfoldable pub after_colon : Str → Str
after_colon [] = []
after_colon (c ∷ s) = if nat_beq c b':' then s else after_colon s

-- key.split(":", n)[-1]
unfoldable pub last_piece : ℕ → Str → Str
unfolding after_colon
last_piece zero key = key
last_piece (suc n) key = if contains_char b':' key then last_piece n (after_colon key) else key

-- result[metric][period][label] = count
abbrev pub assign : Str → Str → ℕ → Buckets → Buckets
assign period label n b = Dict.put period (Dict.put label n (labels_or (Dict.get period b))) b

unfoldable pub load_labels : Str → Dict Str (Option ℕ) → Buckets → Buckets
load_labels period [] b = b
load_labels period ((label, none) ∷ fields) b = load_labels period fields b
load_labels period ((label, some n) ∷ fields) b =
    load_labels period fields (assign period label n b)

module _ (reads : Reads) where
  unfoldable pub load_keys : List Str → Buckets → Buckets
  unfolding last_piece load_labels
  load_keys [] b = b
  load_keys (key ∷ keys) b = load_keys keys (load_labels (last_piece 2 key) (reads.hgetall key) b)

  -- The loop of one metric, on fuel for the calls of SCAN.
  unfoldable pub scan_loop : ℕ → Metric → ℕ → Buckets → Option Buckets
  unfolding load_keys
  scan_loop zero m cursor b = none
  scan_loop (suc fuel) m cursor b =
      let (next, keys) = reads.scan m cursor in
      let loaded = load_keys keys b in
      let rest = scan_loop fuel m next loaded in if nat_beq next 0 then some loaded else rest

  unfoldable pub load_all : ℕ → Option Counter
  unfolding scan_loop
  load_all fuel = elim (scan_loop fuel access 0 []) [
    | none ↦ none
    | some a ↦ elim (scan_loop fuel tokens 0 []) [
      | none ↦ none
      | some t ↦ some (record { access = a; tokens = t })
    ]
  ]

  -- The answers of SCAN from a cursor on, up to the one with the cursor 0.
  pub data Scanned (m : Metric) : ℕ → ℕ → List Str → Type 0 where
    last : (c : ℕ) (keys : List Str) → reads.scan m c ≡ (0, keys) → Scanned m 1 c keys
    more :
        (n c d : ℕ) (keys rest : List Str)
        → reads.scan m c ≡ (d, keys)
        → d ≢ 0
        → Scanned m n d rest
        → Scanned m (suc n) c (keys ++ rest)

  load_keys-append :
      (ks js : List Str) (b : Buckets) → load_keys (ks ++ js) b ≡ load_keys js (load_keys ks b)
  unfolding load_keys
  load_keys-append [] js b = refl
  load_keys-append (k ∷ ks) js b = load_keys-append ks js _

  pub scan_loop-Scanned :
      (m : Metric) (n c : ℕ) (ks : List Str) (extra : ℕ) (b : Buckets)
      → Scanned m n c ks
      → scan_loop (n + extra) m c b ≡ some (load_keys ks b)
  unfolding scan_loop
  scan_loop-Scanned m _ c ks extra b (last _ _ e) = rw (suc-add 0 extra, e, scan_loop) refl
  scan_loop-Scanned m _ c _ extra b (more n _ d keys rest e ne s) =
      let not_last : nat_beq d 0 ≡ false = ground (arith, ne, nat_beq_iff d 0) in
      rw (suc-add n extra, e, scan_loop)
        (rw (not_last, load_keys-append keys rest b)
          (scan_loop-Scanned m n d rest extra (load_keys keys b) s))

at_bucket-assign :
    (p l q k : Str) (n : ℕ) (b : Buckets)
    → at_bucket q k (assign p l n b) ≡ (if p == q && l == k then n else at_bucket q k b)
unfolding at_bucket
at_bucket-assign p l q k n b =
    let labels = labels_or (Dict.get p b) in
    ground (
      arith,
      ==_iff p q,
      ==_iff l k,
      Dict.get-put p q (Dict.put l n labels) b,
      Dict.get-put l k n labels,
    )

-- What a hash says of a label.
abbrev pub field : Str → Dict Str (Option ℕ) → Option ℕ
field l [] = none
field l ((k, v) ∷ fields) = if k == l then v else field l fields

-- The field of a key that came before stands nowhere behind it.
repeated :
    (l k : Str) (fields : Dict Str (Option ℕ))
    → Dict.has l fields ≡ false
    → (l == k) ≡ true
    → field k fields ≡ none
unfolding Dict.has
repeated l k [] h e = refl
repeated l k ((j, v) ∷ fields) h e =
    ground (arith, ==_iff l k, ==_iff j k, ==_iff j l, repeated l k fields)

abbrev pub member : Str → List Str → Bool
member k [] = false
member k (j ∷ js) = if j == k then true else member k js

abbrev pub or_held : Option ℕ → ℕ → ℕ
or_held none n = n
or_held (some m) n = m

pub load_labels-at :
    (p q k : Str) (fields : Dict Str (Option ℕ)) (b : Buckets)
    → Dict.IsDict fields
    → at_bucket q k (load_labels p fields b)
      ≡ (if p == q then or_held (field k fields) (at_bucket q k b) else at_bucket q k b)
unfolding load_labels Dict.distinct
load_labels-at p q k [] b h = ground arith
load_labels-at p q k ((l, none) ∷ fields) b h =
    ground (arith, ==_iff l k, repeated l k fields, load_labels-at p q k fields b)
load_labels-at p q k ((l, some n) ∷ fields) b h = ground (
  arith,
  ==_iff l k,
  repeated l k fields,
  at_bucket-assign p l q k n b,
  load_labels-at p q k fields (assign p l n b),
)

pub last_piece-key_of : (m : Metric) (p : Str) → last_piece 2 (key_of m p) ≡ p
unfolding last_piece contains_char
last_piece-key_of access p = refl
last_piece-key_of tokens p = refl
