-- ===== src/Safety/DiskCleanup.antt =====
-- docsifer/safety/disk_cleanup.py. Times are whole seconds, rounded down.
use docsifer.Prelude.{
  ℕ, ◌+◌, ◌≡◌, refl, Bool, true, false, not, ◌&&◌, Option, none, some, List, [], ◌∷◌, Str, arith,
  length, ltb, leb, ◌||◌, ◌≤◌, ◌∙◌, if◌then◌else◌,
}
use docsifer.Prelude.Text.{codes, starts_with}

-- An entry of `tmp_dir`: `mtime` is `none` if `stat` fails, and `removable` says whether `unlink`
-- succeeds.
pub record Entry : Type 0 where
  pub name : Str
  pub mtime : Option ℕ
  pub is_file : Bool
  pub removable : Bool

-- `tmp_dir.glob("docsifer-*")`
unfoldable pub matches : Entry → Bool
matches e = starts_with (codes "docsifer-") e.name

-- `now - entry.stat().st_mtime > ttl_sec and entry.is_file()`; an `OSError` skips the entry.
unfoldable pub is_stale_file : ℕ → ℕ → Entry → Bool
is_stale_file now ttl_sec e = elim e.mtime [
  | none ↦ false
  | some mtime ↦ ltb (mtime + ttl_sec) now && e.is_file
]

unfoldable pub unlinks : ℕ → ℕ → Entry → Bool
unfolding matches is_stale_file
unlinks now ttl_sec e = matches e && (is_stale_file now ttl_sec e && e.removable)

-- The directory after the sweep, and how many files were removed.
unfoldable pub sweep_once : ℕ → ℕ → List Entry → List Entry × ℕ
sweep_once now ttl_sec [] = ([], 0)
sweep_once now ttl_sec (e ∷ es) =
    let (kept, removed) = sweep_once now ttl_sec es in
    if unlinks now ttl_sec e then (kept, removed + 1) else (e ∷ kept, removed)

-- A round of the loop: stopped during the wait, a sweep at a time, or a sweep that raises before it
-- has removed anything (as where `glob` fails).
pub data Round : Type 0 where
  stops : Round
  sweeps : ℕ → Round
  fails : Round

unfoldable pub disk_cleanup_loop : ℕ → List Round → List Entry → List Entry
disk_cleanup_loop ttl_sec [] es = es
disk_cleanup_loop ttl_sec (stops ∷ rounds) es = es
disk_cleanup_loop ttl_sec (sweeps now ∷ rounds) es =
    disk_cleanup_loop ttl_sec rounds (sweep_once now ttl_sec es).0
disk_cleanup_loop ttl_sec (fails ∷ rounds) es = disk_cleanup_loop ttl_sec rounds es

-- The entries that a test picks.
abbrev pub pick : (Entry → Bool) → List Entry → List Entry
pick p [] = []
pick p (e ∷ es) = if p e then e ∷ pick p es else pick p es

-- A sweep leaves exactly the entries that it does not unlink, in their order, and counts the rest.
pub sweep_once_lem :
    (now ttl_sec : ℕ) (es : List Entry)
    → ((sweep_once now ttl_sec es).0 ≡ pick (λ e. not (unlinks now ttl_sec e)) es)
      × ((sweep_once now ttl_sec es).1 + length (sweep_once now ttl_sec es).0 ≡ length es)
unfolding sweep_once
sweep_once_lem now ttl_sec [] = (refl, refl)
sweep_once_lem now ttl_sec (e ∷ es) = ground (arith, sweep_once_lem now ttl_sec es)

-- What no sweep may take: directories, files of another name, and files not older than the limit.
pub is_safe : ℕ → ℕ → Entry → Bool
unfolding matches
is_safe latest ttl_sec e =
    not e.is_file
    || not (matches e)
    || elim e.mtime [ none ↦ true | some mtime ↦ leb latest (mtime + ttl_sec) ]

unlinks-not-safe :
    (now latest ttl_sec : ℕ) (e : Entry)
    → now ≤ latest
    → is_safe latest ttl_sec e ≡ true
    → unlinks now ttl_sec e ≡ false
unfolding unlinks is_safe
unlinks-not-safe now latest ttl_sec e le h = ground arith

sweep-keeps :
    (now latest ttl_sec : ℕ) (es : List Entry)
    → now ≤ latest
    → pick (is_safe latest ttl_sec) (sweep_once now ttl_sec es).0 ≡ pick (is_safe latest ttl_sec) es
unfolding sweep_once
sweep-keeps now latest ttl_sec [] le = refl
sweep-keeps now latest ttl_sec (e ∷ es) le =
    ground (arith, unlinks-not-safe now latest ttl_sec e le, sweep-keeps now latest ttl_sec es le)

-- Every sweep of the rounds is at `latest` or before.
abbrev pub Before : ℕ → List Round → Type 0
Before latest [] = Unit
Before latest (sweeps now ∷ rounds) = (now ≤ latest) × Before latest rounds
Before latest (stops ∷ rounds) = Before latest rounds
Before latest (fails ∷ rounds) = Before latest rounds

-- However long the loop runs, every directory stays, also one named `docsifer-...`, and so does
-- every file of another name and every file that is not older than the limit at the last sweep.
pub disk_cleanup_loop-keeps :
    (ttl_sec latest : ℕ) (rounds : List Round) (es : List Entry)
    → Before latest rounds
    → pick (is_safe latest ttl_sec) (disk_cleanup_loop ttl_sec rounds es)
      ≡ pick (is_safe latest ttl_sec) es
unfolding disk_cleanup_loop
disk_cleanup_loop-keeps ttl_sec latest [] es b = refl
disk_cleanup_loop-keeps ttl_sec latest (stops ∷ rounds) es b = refl
disk_cleanup_loop-keeps ttl_sec latest (fails ∷ rounds) es b =
    disk_cleanup_loop-keeps ttl_sec latest rounds es b
disk_cleanup_loop-keeps ttl_sec latest (sweeps now ∷ rounds) es b =
    disk_cleanup_loop-keeps ttl_sec latest rounds (sweep_once now ttl_sec es).0 b.1
    ∙ sweep-keeps now latest ttl_sec es b.0
