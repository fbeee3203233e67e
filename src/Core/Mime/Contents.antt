-- ===== src/Core/Mime/Contents.antt =====
-- What `normalize_extension` of docsifer/core/mime.py leaves of the files.
use docsifer.Prelude.{
  ◌≡◌, refl, ap, sym, ◌∙◌, false, ◌||◌, Option, none, some, List, Str, str_eq, ◌==◌, ==_iff,
  ==_refl, if◌then◌else◌, arith, inl, inr, Bool-cases, Option-cases,
}
use docsifer.Prelude.Dict
use docsifer.Prelude.Text.{lower, is_empty}
use docsifer.Prelude.PathNames.{suffix}
use docsifer.Exceptions.{ok}
use docsifer.Core.UrlGuard.{one_of}
use docsifer.Core.Mime.{
  Disk, Sniffer, rename, move_to, with_suffix, normalize_extension, detect_mime, guess_extension,
  ext_or,
}

-- The file of `p` is at `q`, there is none at `p` unless that is `q`, and any other path has what it
-- had.
abbrev pub Moved : Str → Str → Disk → Disk → Type 0
Moved p q before after =
    (r : Str)
    → Dict.get r after.files ≡ (
        if q == r
        then Dict.get p before.files
        else if p == r
        then none
        else Dict.get r before.files)

stays : (p : Str) (d : Disk) → Moved p p d d
stays p d r = elim (Bool-cases (p == r)) [
  | inl e ↦ rw e (ap (λ k. Dict.get k d.files) (sym ((==_iff p r).0 e)))
  | inr e ↦ rw e refl
]

pub Moved-same : (p q : Str) (d t : Disk) → Moved p q d t → Dict.get q t.files ≡ Dict.get p d.files
Moved-same p q d t m = m q ∙ rw (==_refl q) refl

get-moved :
    (p q r : Str) (d : Disk) (bytes : Str)
    → Dict.IsDict d.files
    → (p == q) ≡ false
    → Dict.get r (Dict.put q bytes (Dict.pop p d.files))
      ≡ (if q == r then some bytes else if p == r then none else Dict.get r d.files)
get-moved p q r d bytes v h =
    ground (arith, Dict.get-put q r bytes (Dict.pop p d.files), Dict.get-pop p r d.files v)

rename-Moved :
    (p q : Str) (d t : Disk) → Dict.IsDict d.files → rename p q d ≡ some t → Moved p q d t
unfolding rename
rename-Moved p q d t v h = elim (Option-cases (Dict.get p d.files)) [
  | inl e ↦ absurd (ground (arith, e))
  | inr (bytes, e) ↦ elim (Bool-cases (p == q)) [
    | inl k ↦
        let path : p ≡ q = (==_iff p q).0 k in
        let disk : d ≡ t = ground (arith, e, k) in rw (← path, ← disk) (stays p d)
    | inr k ↦ λ r. ground (arith, e, k, get-moved p q r d bytes v k)
  ]
]

ok-Moved : (p n q : Str) (d t : Disk) → Moved p n d t → ok n ≡ ok q → Moved p q d t
ok-Moved p n q d t m h = let same : n ≡ q = ground arith in rw (← same) m

move_to-Moved :
    (p q : Str) (new_path : Option Str) (d : Disk)
    → Dict.IsDict d.files
    → (move_to p new_path d).1 ≡ ok q
    → Moved p q d (move_to p new_path d).0
unfolding move_to
move_to-Moved p q none d v h = absurd (ground arith)
move_to-Moved p q (some n) d v h = elim (Option-cases (rename p n d)) [
  | inl e ↦ rw (e, move_to) (ok-Moved p p q d d (stays p d) (rw (e, move_to) at h))
  | inr (t, e) ↦
      rw (e, move_to) (ok-Moved p n q d t (rename-Moved p n d t v e) (rw (e, move_to) at h))
]

-- Whatever libmagic says and wherever the renaming ends, the path that `normalize_extension` gives
-- has the bytes that the file had; there is no file left at the old path, if the new one is another;
-- and each other path is left as it was.
pub normalize_extension-Moved :
    (s : Sniffer) (known : List Str) (p q : Str) (d : Disk)
    → Dict.IsDict d.files
    → (normalize_extension s known p d).1 ≡ ok q
    → Moved p q d (normalize_extension s known p d).0
unfolding normalize_extension
normalize_extension-Moved s known p q d v h =
    let old = lower (suffix p) in
    let ext = ext_or (guess_extension s (detect_mime s p d)) in
    elim (Bool-cases (one_of old known)) [
      | inl e ↦
          rw (e, normalize_extension)
            (ok-Moved p p q d d (stays p d) (rw (e, normalize_extension) at h))
      | inr e ↦ elim (Bool-cases (is_empty ext || lower ext == old)) [
        | inl k ↦
            rw (e, k, normalize_extension)
              (ok-Moved p p q d d (stays p d) (rw (e, k, normalize_extension) at h))
        | inr k ↦
            rw (e, k, normalize_extension)
              (move_to-Moved p q (with_suffix p ext) d v (rw (e, k, normalize_extension) at h))
      ]
    ]
