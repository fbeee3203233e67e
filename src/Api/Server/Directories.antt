-- ===== src/Api/Server/Directories.antt =====
-- The temporary directories of a server are those of its requests.
use docsifer.Prelude.{
  ℕ, ◌+◌, ◌≤◌, ◌≡◌, refl, ap, All, inl, inr, Bool-cases, Bool, true, false, List, ◌∷◌, ◌++◌, Str,
  str_eq, ==_iff, arith,
}
use docsifer.Config.{Settings}
use docsifer.Safety.ConversionGate
use docsifer.Safety.ConversionGate.{Entry, refused, started, queued}
use docsifer.Safety.PerIpLimiter
use docsifer.Safety.PerIpLimiter.Clients.{count, drop_one, count-drop_one}
use docsifer.Api.Convert.{Effect, enter_ip, enter_gate, make_dir, remove_dir}
use docsifer.Api.Server.{
  Thread, Server, proceed, at_gate, perform, IsNew, Step, arrives, performs, resumes, is_cancelled,
  raises, ends,
}
use docsifer.Api.Server.Counts.{total, total-middle, owned, dir_in, dir_out}
use docsifer.Api.Server.Lawful.{IsLawful, proceed-Allowed, held-ended, IsLawful-at}

abbrev pub owns : Str → Thread → ℕ
owns j x = owned j x.held

-- Each directory has an owner or is one that could not be removed, and no two are the same.
pub record Owned (dirs stuck : List Str) (n : Str → ℕ) : Type 0 where
  pub same : (j : Str) → count j dirs ≡ n j + count j stuck
  pub single : (j : Str) → count j dirs ≤ 1

cast_Owned :
    {dirs stuck : List Str} {n m : Str → ℕ}
    → Owned dirs stuck n
    → ((j : Str) → n j ≡ m j)
    → Owned dirs stuck m
cast_Owned r e = record { same = λ j. omega (arith, r.same j, e j); single = r.single }

module _ {dirs stuck : List Str} (n : Str → ℕ) (x : Thread) (rest : List Effect)
    (r : Owned dirs stuck (λ j. n j + owns j x)) (lawful : IsLawful x) where
  make-Owned :
      (d : Str)
      → x.todo ≡ make_dir d ∷ rest
      → count d dirs ≡ 0
      → Owned (d ∷ dirs) stuck (λ j. n j + owns j (proceed (make_dir d) rest x))
  unfolding count
  make-Owned d p new =
      let a = (proceed-Allowed (make_dir d) rest x lawful p).0 in
      record {
        same = λ j. ground (arith, a.dir j, r.same j);
        single = λ j. ground (arith, r.single j, new, ==_iff d j);
      }

  remove-Owned :
      (d : Str)
      → x.todo ≡ remove_dir d ∷ rest
      → Owned (drop_one d dirs) stuck (λ j. n j + owns j (proceed (remove_dir d) rest x))
  remove-Owned d p =
      let a = (proceed-Allowed (remove_dir d) rest x lawful p).0 in
      record {
        same = λ j. ground (arith, a.dir j, r.same j, count-drop_one d j dirs);
        single = λ j. ground (arith, r.single j, count-drop_one d j dirs);
      }

  keep-Owned :
      (d : Str)
      → x.todo ≡ remove_dir d ∷ rest
      → Owned dirs (d ∷ stuck) (λ j. n j + owns j (proceed (remove_dir d) rest x))
  unfolding count
  keep-Owned d p =
      let a = (proceed-Allowed (remove_dir d) rest x lawful p).0 in
      record { same = λ j. ground (arith, a.dir j, r.same j); single = r.single }

  -- An effect that leaves the directories alone.
  same-Owned :
      (e : Effect)
      → x.todo ≡ e ∷ rest
      → ((j : Str) → dir_in j e ≡ 0)
      → ((j : Str) → dir_out j e ≡ 0)
      → Owned dirs stuck (λ j. n j + owns j (proceed e rest x))
  same-Owned e p a b =
      cast_Owned r (λ j. omega (arith, (proceed-Allowed e rest x lawful p).0.dir j, a j, b j))

  at_gate-Owned :
      (o : Entry)
      → x.todo ≡ enter_gate ∷ rest
      → Owned dirs stuck (λ j. n j + owns j (at_gate o rest x))
  at_gate-Owned started p = same-Owned enter_gate p (λ j. refl) (λ j. refl)
  at_gate-Owned queued p = r
  at_gate-Owned refused p = r

perform-Owned :
    (n : Str → ℕ) (now : ℕ) (removed : Bool) (e : Effect) (rest : List Effect) (x : Thread)
    (s : Server)
    → Owned s.dirs s.stuck (λ j. n j + owns j x)
    → IsLawful x
    → x.todo ≡ e ∷ rest
    → IsNew e s.dirs
    → let (s', y) = perform now removed e rest x s in Owned s'.dirs s'.stuck (λ j. n j + owns j y)
unfolding perform
perform-Owned n now removed (make_dir d) rest x s r l p new = make-Owned n x rest r l d p new
perform-Owned n now true (remove_dir d) rest x s r l p new = remove-Owned n x rest r l d p
perform-Owned n now false (remove_dir d) rest x s r l p new = keep-Owned n x rest r l d p
perform-Owned n now removed (enter_ip ip) rest x s r l p new =
    elim (Bool-cases (PerIpLimiter.enter ip now s.limiter).1) [
      | inl b ↦ rw b (same-Owned n x rest r l (enter_ip ip) p (λ j. refl) (λ j. refl))
      | inr b ↦ rw b r
    ]
perform-Owned n now removed enter_gate rest x s r l p new =
    at_gate-Owned n x rest r l (ConversionGate.enter x.id s.gate).1 p
perform-Owned n now removed e rest x s r l p new =
    same-Owned n x rest r l e p (λ j. refl) (λ j. refl)

abbrev pub DirsOf : Server → Type 0
DirsOf s = Owned s.dirs s.stuck (λ j. total (owns j) s.threads)

module _ (s : Server) (a : All IsLawful s.threads) (r : DirsOf s) (xs ys : List Thread) (x : Thread)
    (q : s.threads ≡ xs ++ x ∷ ys) where
  split : Owned s.dirs s.stuck (λ j. total (owns j) (xs ++ ys) + owns j x)
  split = cast_Owned r (λ j. omega (arith, ap (total (owns j)) q, total-middle (owns j) xs ys x))

of_thread :
    {dirs stuck : List Str} (xs ys : List Thread) (x : Thread)
    → Owned dirs stuck (λ j. total (owns j) (xs ++ ys) + owns j x)
    → Owned dirs stuck (λ j. total (owns j) (xs ++ x ∷ ys))
of_thread xs ys x r = cast_Owned r (λ j. omega (arith, total-middle (owns j) xs ys x))

pub Step-DirsOf :
    {settings : Settings} {s t : Server}
    → Step settings s t
    → All IsLawful s.threads
    → DirsOf s
    → DirsOf t
unfolding total
Step-DirsOf (arrives t w req fresh) a r = cast_Owned r (λ j. omega arith)
Step-DirsOf {s = s} (performs now removed xs ys x e rest q w p new) a r = of_thread xs ys _ (
    perform-Owned _ now removed e rest x s (split s a r xs ys x q) (IsLawful-at xs ys x a q).0 p
      new)
Step-DirsOf {s = s} (resumes xs ys x rest q w p f) a r = of_thread xs ys _ (
    same-Owned _ x rest (split s a r xs ys x q) (IsLawful-at xs ys x a q).0 enter_gate p (λ j. refl)
      (λ j. refl))
Step-DirsOf {s = s} (is_cancelled xs ys x b q w f) a r = of_thread xs ys _ (split s a r xs ys x q)
Step-DirsOf {s = s} (raises xs ys x q w) a r = of_thread xs ys _ (split s a r xs ys x q)
Step-DirsOf {s = s} (ends xs ys x q w p) a r =
    let empty = held-ended x (IsLawful-at xs ys x a q).0 p in
    cast_Owned (split s a r xs ys x q) (λ j. omega (arith, ap (owned j) empty))
