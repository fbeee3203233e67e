-- ===== src/Api/Server/Line.antt =====
-- The line of the gate of a server consists of the requests that wait.
use docsifer.Prelude.{
  ℕ, ◌+◌, ◌≤◌, ◌≡◌, refl, ap, subst, All, sym, inl, inr, Bool-cases, Bool, true, false, List, [],
  ◌∷◌, ◌++◌, arith, nat_beq, if◌then◌else◌,
}
use docsifer.Config.{Settings}
use docsifer.Safety.ConversionGate
use docsifer.Safety.ConversionGate.{Gate, Entry, refused, started, queued, resume, cancel}
use docsifer.Safety.PerIpLimiter
use docsifer.Safety.Semaphore.{take}
use docsifer.Safety.Semaphore.Line.{times, times-wait, times-withdraw, times-release}
use docsifer.Api.Convert.{Effect, enter_ip, leave_ip, enter_gate, leave_gate}
use docsifer.Api.Server.{
  Thread, Server, proceed, raised, at_gate, perform, Step, arrives, performs, resumes, is_cancelled,
  raises, ends, IsFresh,
}
use docsifer.Api.Server.Counts.{total, total-middle}
use docsifer.Api.Server.Lawful.{All-middle, middle-All}

abbrev pub named : ℕ → Thread → ℕ
named t x = if nat_beq x.id t then 1 else 0

abbrev pub waits_as : ℕ → Thread → ℕ
waits_as t x = if x.waits then named t x else 0

-- A thread that waits stands before the gate.
abbrev pub IsAtGate : Thread → Type 0
IsAtGate x = x.waits ≡ true → (rest : List Effect) × (x.todo ≡ enter_gate ∷ rest)

-- So often each task stands in the line.
abbrev Lines : Gate → (ℕ → ℕ) → Type 0
Lines g n = (t : ℕ) → times t g.semaphore.waiters ≡ n t

abbrev lined : Entry → ℕ → ℕ → ℕ
lined queued u t = if nat_beq u t then 1 else 0
lined _ u t = 0

times-enter :
    (t u : ℕ) (g : Gate)
    → times t (ConversionGate.enter u g).0.semaphore.waiters
      ≡ times t g.semaphore.waiters + lined (ConversionGate.enter u g).1 u t
unfolding ConversionGate.enter take
times-enter t u g = ground (arith, times-wait t u g.semaphore)

waits-at_gate :
    (o : Entry) (rest : List Effect) (x : Thread) (t : ℕ)
    → x.waits ≡ false
    → waits_as t (at_gate o rest x) ≡ lined o x.id t
waits-at_gate started rest x t w = refl
waits-at_gate queued rest x t w = refl
waits-at_gate refused rest x t w = refl

perform-Lines :
    (n : ℕ → ℕ) (now : ℕ) (removed : Bool) (e : Effect) (rest : List Effect) (x : Thread)
    (s : Server)
    → Lines s.gate (λ t. n t + waits_as t x)
    → x.waits ≡ false
    → let (s', y) = perform now removed e rest x s in Lines s'.gate (λ t. n t + waits_as t y)
unfolding perform ConversionGate.leave
perform-Lines n now removed (enter_ip ip) rest x s l w =
    elim (Bool-cases (PerIpLimiter.enter ip now s.limiter).1) [
      | inl b ↦ rw b (λ t. ground (arith, l t))
      | inr b ↦ rw b (λ t. ground (arith, l t))
    ]
perform-Lines n now removed enter_gate rest x s l w = λ t. omega (
  arith,
  times-enter t x.id s.gate,
  waits-at_gate (ConversionGate.enter x.id s.gate).1 rest x t w,
  l t,
  ap (λ b. if b then named t x else 0) w,
)
perform-Lines n now removed leave_gate rest x s l w =
    λ t. ground (arith, l t, times-release t s.gate.semaphore)
perform-Lines n now removed (leave_ip ip) rest x s l w = λ t. ground (arith, l t)
perform-Lines n now removed e rest x s l w = λ t. ground (arith, l t)

withdraw-Lines :
    (n : ℕ → ℕ) (cancelled : Bool) (x y : Thread) (g : Gate)
    → Lines g (λ t. n t + waits_as t x)
    → x.waits ≡ true
    → y.waits ≡ false
    → Lines (if cancelled then cancel x.id g else resume x.id g) (λ t. n t + waits_as t y)
unfolding resume cancel
withdraw-Lines n true x y g l w v = λ t. ground (arith, l t, times-withdraw t x.id true g.semaphore)
withdraw-Lines n false x y g l w v =
    λ t. ground (arith, l t, times-withdraw t x.id false g.semaphore)

pub record InLine (s : Server) : Type 0 where
  pub lines : Lines s.gate (λ t. total (waits_as t) s.threads)
  pub single : (t : ℕ) → total (named t) s.threads ≤ 1
  pub at_gate : All IsAtGate s.threads

perform-IsAtGate :
    (now : ℕ) (removed : Bool) (e : Effect) (rest : List Effect) (x : Thread) (s : Server)
    → x.todo ≡ e ∷ rest
    → ((perform now removed e rest x s).1.id ≡ x.id) × IsAtGate (perform now removed e rest x s).1
unfolding perform
perform-IsAtGate now removed (enter_ip ip) rest x s p =
    elim (Bool-cases (PerIpLimiter.enter ip now s.limiter).1) [
      | inl b ↦ rw b (refl, λ w. absurd (ground arith))
      | inr b ↦ rw b (refl, λ w. absurd (ground arith))
    ]
perform-IsAtGate now removed enter_gate rest x s p = at_entry (ConversionGate.enter x.id s.gate).1
  where
    at_entry : (o : Entry) → ((at_gate o rest x).id ≡ x.id) × IsAtGate (at_gate o rest x)
    at_entry started = (refl, λ w. absurd (ground arith))
    at_entry queued = (refl, λ w. (rest, p))
    at_entry refused = (refl, λ w. absurd (ground arith))
perform-IsAtGate now removed (leave_ip ip) rest x s p = (refl, λ w. absurd (ground arith))
perform-IsAtGate now removed e rest x s p = (refl, λ w. absurd (ground arith))

-- One thread is put in the place of another of its name.
module _ {s : Server} (i : InLine s) (xs ys : List Thread) (x : Thread)
    (q : s.threads ≡ xs ++ x ∷ ys) where
  without : Lines s.gate (λ t. total (waits_as t) (xs ++ ys) + waits_as t x)
  without t = omega (arith, i.lines t, ap (total (waits_as t)) q, total-middle (waits_as t) xs ys x)

  replaced :
      (y : Thread) (u : Server)
      → y.id ≡ x.id
      → IsAtGate y
      → Lines u.gate (λ t. total (waits_as t) (xs ++ ys) + waits_as t y)
      → u.threads ≡ xs ++ y ∷ ys
      → InLine u
  replaced y u same before l r = record {
    lines = λ t. omega (arith, l t, ap (total (waits_as t)) r, total-middle (waits_as t) xs ys y);
    single = λ t. omega (
      arith,
      i.single t,
      ap (total (named t)) q,
      ap (total (named t)) r,
      total-middle (named t) xs ys x,
      total-middle (named t) xs ys y,
      ap {B = ℕ} (λ k. if nat_beq k t then 1 else 0) same,
    );
    at_gate = subst (All IsAtGate) (sym r) (
        middle-All IsAtGate xs ys y before
          (All-middle IsAtGate xs ys x (subst (All IsAtGate) q i.at_gate)).1);
  }

total-named : (t : ℕ) (threads : List Thread) → IsFresh t threads → total (named t) threads ≡ 0
unfolding total
total-named t [] f = refl
total-named t (x ∷ xs) f = ground (arith, total-named t xs f.1)

pub Step-InLine : {settings : Settings} {s t : Server} → Step settings s t → InLine s → InLine t
unfolding total
Step-InLine {s = s} (arrives u w r fresh) i = record {
  lines = λ t. ground (arith, i.lines t);
  single = λ t. elim (Bool-cases (nat_beq u t)) [
    | inl e ↦ ground (arith, total-named u s.threads fresh)
    | inr e ↦ ground (arith, i.single t)
  ];
  at_gate = (λ p. absurd (ground arith), i.at_gate);
}
Step-InLine {s = s} (performs now removed xs ys x e rest q w p new) i =
    let (same, before) = perform-IsAtGate now removed e rest x s p in
    replaced i xs ys x q _ _ same before
      (perform-Lines _ now removed e rest x s (without i xs ys x q) w) refl
Step-InLine {s = s} (resumes xs ys x rest q w p f) i =
    replaced i xs ys x q (proceed enter_gate rest x) _ refl (λ v. absurd (ground arith))
      (withdraw-Lines _ false x (proceed enter_gate rest x) s.gate (without i xs ys x q) w refl)
      refl
Step-InLine {s = s} (is_cancelled xs ys x b q w f) i =
    replaced i xs ys x q (raised x) _ refl (λ v. absurd (ground arith))
      (withdraw-Lines _ true x (raised x) s.gate (without i xs ys x q) w refl) refl
Step-InLine (raises xs ys x q w) i =
    replaced i xs ys x q (raised x) _ refl (λ v. absurd (ground arith))
      (λ t. ground (arith, without i xs ys x q t)) refl
Step-InLine (ends xs ys x q w p) i = record {
  lines = λ t. ground (arith, without i xs ys x q t);
  single = λ t. omega (arith, i.single t, ap (total (named t)) q, total-middle (named t) xs ys x);
  at_gate = (All-middle IsAtGate xs ys x (subst (All IsAtGate) q i.at_gate)).1;
}
