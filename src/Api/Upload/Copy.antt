-- ===== src/Api/Upload/Copy.antt =====
-- `_stream_to_disk` of docsifer/api/v1/convert.py: the limit on the size of an upload.
use docsifer.Prelude.{
  ℕ, zero, suc, ◌+◌, ◌≤◌, ◌<◌, ◌≡◌, refl, sym, inl, inr, ◌∙◌, ap, true, false, Option, none, some,
  [], ◌∷◌, ◌++◌, Str, length, length-append, ltb, ltb→lt, arith, Bool-cases,
}
use mathlib.Core.List.{append_assoc, append-nil}
use docsifer.Prelude.Text.{is_empty}
use docsifer.Exceptions.{Result, ok, err, class_of, payload_too_large, raising}
use docsifer.Api.Upload.{read, copy_loop, stream_to_disk, chunk_size}

-- A read splits the body, gives at most `n` bytes, and gives none only at the end.
pub record Reads (n : ℕ) (body : Str) (r : Str × Str) : Type 0 where
  pub splits : r.0 ++ r.1 ≡ body
  pub size : length r.0 + length r.1 ≡ length body
  pub ends : is_empty r.0 ≡ true → 0 < n → (r.0 ≡ []) × (body ≡ [])
  pub goes_on : is_empty r.0 ≡ false → 0 < length r.0

read-Reads : (n : ℕ) (body : Str) → Reads n body (read n body)
unfolding read
read-Reads zero body = record {
  splits = refl;
  size = omega arith;
  ends = λ e p. absurd (omega arith);
  goes_on = λ e. cc;
}
read-Reads (suc n) [] = record {
  splits = refl;
  size = omega arith;
  ends = λ e p. (refl, refl);
  goes_on = λ e. cc;
}
read-Reads (suc n) (c ∷ body) =
    let r = read-Reads n body in
    record {
      splits = ap (◌∷◌ c) r.splits;
      size = omega (arith, r.size);
      ends = λ e p. cc;
      goes_on = λ e. omega arith;
    }

-- How the copy ends: with the whole body on disk, or refused with at most `max_bytes` there.
abbrev pub Copied : ℕ → ℕ → Str → Str → Option (Result ℕ × Str) → Type 0
Copied max_bytes total body written none = ⊥
Copied max_bytes total body written (some (ok n, out)) =
    (n ≡ total + length body) × (out ≡ written ++ body) × (n ≤ max_bytes)
Copied max_bytes total body written (some (err e, out)) =
    (max_bytes < total + length body)
    × (length out ≤ max_bytes)
    × (class_of e ≡ some payload_too_large)

Copied-step :
    (max_bytes total : ℕ) (body head rest written : Str) (r : Option (Result ℕ × Str))
    → head ++ rest ≡ body
    → Copied max_bytes (total + length head) rest (written ++ head) r
    → Copied max_bytes total body written r
Copied-step max_bytes total body head rest written none e h = h
Copied-step max_bytes total body head rest written (some (ok n, out)) e (a, b, c) =
    let l : length head + length rest ≡ length body = sym (length-append head rest) ∙ ap length e in
    (omega (arith, a, l), b ∙ append_assoc written head rest ∙ ap (◌++◌ written) e, c)
Copied-step max_bytes total body head rest written (some (err x, out)) e (a, b, c) =
    let l : length head + length rest ≡ length body = sym (length-append head rest) ∙ ap length e in
    (omega (arith, a, l), b, c)

over_limit :
    (max_bytes total : ℕ) {n : ℕ} {body : Str} {r : Str × Str}
    → Reads n body r
    → ltb max_bytes (total + length r.0) ≡ true
    → max_bytes < total + length body
over_limit max_bytes total r h = omega (arith, ltb→lt max_bytes _ h, r.size)

copy_loop-Copied :
    (fuel chunk max_bytes total : ℕ) (body written : Str)
    → 0 < chunk
    → length body < fuel
    → length written ≡ total
    → total ≤ max_bytes
    → Copied max_bytes total body written (copy_loop fuel chunk max_bytes total body written)
unfolding copy_loop
copy_loop-Copied zero chunk max_bytes total body written c f w t = absurd (omega arith)
copy_loop-Copied (suc fuel) chunk max_bytes total body written c f w t =
    let r = read-Reads chunk body in
    let head = (read chunk body).0 in
    let rest = (read chunk body).1 in
    elim (Bool-cases (is_empty head)) [
      | inl end ↦
          let (_, nothing) = r.ends end c in
          rw (end, copy_loop)
            (
              omega (arith, ap length nothing),
              sym (append-nil written) ∙ ap (◌++◌ written) (sym nothing),
              t,
            )
      | inr more ↦ elim (Bool-cases (ltb max_bytes (total + length head))) [
        | inl over ↦
            rw (more, over, copy_loop)
              (over_limit max_bytes total r over, omega (arith, w), unfold raising in refl)
        | inr fits ↦
            rw (more, fits, copy_loop)
              (Copied-step max_bytes total body head rest written _ r.splits (
                copy_loop-Copied fuel chunk max_bytes (total + length head) rest (written ++ head) c
                  (omega (arith, r.size, r.goes_on more))
                  (omega (arith, length-append written head)) (ground arith)))
      ]
    ]

-- The copy always ends. It returns the size, with the whole body on disk, if that is at most
-- `max_bytes`; otherwise it raises `PayloadTooLargeError`, with at most `max_bytes` on disk.
pub stream_to_disk-Copied :
    (max_bytes : ℕ) (body : Str) → Copied max_bytes 0 body [] (stream_to_disk max_bytes body)
unfolding stream_to_disk
stream_to_disk-Copied max_bytes body =
    copy_loop-Copied (suc (length body)) chunk_size max_bytes 0 body [] (omega arith) (omega arith)
      (omega arith) (omega arith)
