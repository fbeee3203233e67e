-- ===== src/Api/Server/Gates.antt =====
-- Every run of a server is a run of its gate.
use docsifer.Prelude.{
  ℕ, ◌+◌, ◌≡◌, refl, ap, subst, All, sym, ◌∙◌, inl, inr, Bool-cases, Bool, true, false, some, List,
  ◌∷◌, ◌++◌, arith,
}
use docsifer.Config.{Settings}
use docsifer.Safety.ConversionGate
use docsifer.Safety.ConversionGate.{Gate, Entry, refused, started, queued, resume, cancel}
use docsifer.Safety.ConversionGate.Accounting.{body}
use docsifer.Safety.ConversionGate.Interleaving
use docsifer.Safety.ConversionGate.Interleaving.{Tasks, enters, cancels, leaves}
use docsifer.Safety.PerIpLimiter
use docsifer.Safety.Semaphore.{flag}
use docsifer.Api.Convert.{Effect, enter_ip, leave_ip, enter_gate, leave_gate, close_upload}
use docsifer.Api.Server.{
  Thread, Server, proceed, raised, at_gate, perform, Step, arrives, performs, resumes, is_cancelled,
  raises, ends,
}
use docsifer.Api.Server.Counts.{total, total-middle, gates, gate_in, gate_out, one_if}
use docsifer.Api.Server.Lawful.{IsLawful, proceed-Allowed, held-ended, IsLawful-at}

abbrev pub in_gate : Thread → ℕ
in_gate x = gates x.held

abbrev pub in_line : Thread → ℕ
in_line x = one_if x.waits

-- The gate after a run from the gate `g`, with so many conversions and so many waiting tasks.
pub record GateRun (g h : Gate) (running waiting : ℕ) : Type 0 where
  pub run :
      Interleaving.Reach (record { gate = g; running = 0 }) (record { gate = h; running = running })
  pub line : h.waiting ≡ waiting

cast_GateRun : {g h : Gate} {n m n' m' : ℕ} → GateRun g h n m → n ≡ n' → m ≡ m' → GateRun g h n' m'
cast_GateRun r p q = rw (← p, ← q) r

abbrev lines_up : Entry → ℕ
lines_up queued = 1
lines_up _ = 0

at_gate-counts :
    (o : Entry) (x : Thread) (rest : List Effect)
    → IsLawful x
    → x.todo ≡ enter_gate ∷ rest
    → (in_gate (at_gate o rest x) ≡ body o (in_gate x)) × (in_line (at_gate o rest x) ≡ lines_up o)
at_gate-counts started x rest l p = omega (arith, (proceed-Allowed enter_gate rest x l p).0.gate)
at_gate-counts queued x rest l p = (refl, refl)
at_gate-counts refused x rest l p = (refl, refl)

body-add : (o : Entry) (n a : ℕ) → body o (n + a) ≡ n + body o a
body-add started n a = omega arith
body-add queued n a = refl
body-add refused n a = refl

waiting-enter :
    (t : ℕ) (h : Gate)
    → (ConversionGate.enter t h).0.waiting ≡ h.waiting + lines_up (ConversionGate.enter t h).1
unfolding ConversionGate.enter
waiting-enter t h = ground arith

enter-GateRun :
    {g h : Gate} (t n m : ℕ) (x : Thread) (rest : List Effect)
    → GateRun g h (n + in_gate x) (m + in_line x)
    → IsLawful x
    → x.waits ≡ false
    → x.todo ≡ enter_gate ∷ rest
    → let y = at_gate (ConversionGate.enter t h).1 rest x in
      GateRun g (ConversionGate.enter t h).0 (n + in_gate y) (m + in_line y)
enter-GateRun {g} {h} t n m x rest r l w p =
    let o = (ConversionGate.enter t h).1 in
    let c = at_gate-counts o x rest l p in
    cast_GateRun (record { run = Interleaving.next r.run (enters t); line = waiting-enter t h })
      (body-add o n (in_gate x) ∙ ap (λ k. n + k) (sym c.0))
      (omega (arith, r.line, ap one_if w, c.1))

leave-GateRun :
    {g h : Gate} (n m : ℕ) (x : Thread) (rest : List Effect)
    → GateRun g h (n + in_gate x) (m + in_line x)
    → IsLawful x
    → x.waits ≡ false
    → x.todo ≡ leave_gate ∷ rest
    → let y = proceed leave_gate rest x in
      GateRun g (ConversionGate.leave h) (n + in_gate y) (m + in_line y)
unfolding ConversionGate.leave
leave-GateRun n m x rest r l w p =
    let c = (proceed-Allowed leave_gate rest x l p).0.gate in
    cast_GateRun
      (record { run = Interleaving.next r.run (leaves (omega (arith, c))); line = r.line })
      (omega (arith, c)) (omega (arith, ap one_if w))

-- An effect that leaves the gate alone.
same-GateRun :
    {g h : Gate} (n m : ℕ) (x : Thread) (e : Effect) (rest : List Effect)
    → GateRun g h (n + in_gate x) (m + in_line x)
    → IsLawful x
    → x.waits ≡ false
    → x.todo ≡ e ∷ rest
    → gate_in e ≡ 0
    → gate_out e ≡ 0
    → let y = proceed e rest x in GateRun g h (n + in_gate y) (m + in_line y)
same-GateRun n m x e rest r l w p a b =
    cast_GateRun r (omega (arith, (proceed-Allowed e rest x l p).0.gate, a, b))
      (omega (arith, ap one_if w))

raised-GateRun :
    {g h : Gate} (n m : ℕ) (x : Thread)
    → GateRun g h (n + in_gate x) (m + in_line x)
    → x.waits ≡ false
    → GateRun g h (n + in_gate (raised x)) (m + in_line (raised x))
raised-GateRun n m x r w = cast_GateRun r refl (omega (arith, ap one_if w))

perform-GateRun :
    {g : Gate} (s : Server) (now : ℕ) (removed : Bool) (n m : ℕ) (x : Thread) (e : Effect)
    (rest : List Effect)
    → GateRun g s.gate (n + in_gate x) (m + in_line x)
    → IsLawful x
    → x.waits ≡ false
    → x.todo ≡ e ∷ rest
    → let (s', y) = perform now removed e rest x s in
      GateRun g s'.gate (n + in_gate y) (m + in_line y)
unfolding perform
perform-GateRun s now removed n m x (enter_ip ip) rest r l w p =
    elim (Bool-cases (PerIpLimiter.enter ip now s.limiter).1) [
      | inl b ↦ rw b (same-GateRun n m x (enter_ip ip) rest r l w p refl refl)
      | inr b ↦ rw b (raised-GateRun n m x r w)
    ]
perform-GateRun s now removed n m x enter_gate rest r l w p = enter-GateRun x.id n m x rest r l w p
perform-GateRun s now removed n m x leave_gate rest r l w p = leave-GateRun n m x rest r l w p
perform-GateRun s now removed n m x (leave_ip ip) rest r l w p =
    same-GateRun n m x (leave_ip ip) rest r l w p refl refl
perform-GateRun s now removed n m x close_upload rest r l w p =
    same-GateRun n m x close_upload rest r l w p refl refl
perform-GateRun s now removed n m x e rest r l w p = same-GateRun n m x e rest r l w p refl refl

resume-GateRun :
    {g h : Gate} (t n m : ℕ) (x : Thread) (rest : List Effect)
    → GateRun g h (n + in_gate x) (m + in_line x)
    → IsLawful x
    → x.waits ≡ true
    → x.todo ≡ enter_gate ∷ rest
    → flag t h.semaphore.waiters ≡ some true
    → let y = proceed enter_gate rest x in GateRun g (resume t h) (n + in_gate y) (m + in_line y)
unfolding resume
resume-GateRun t n m x rest r l w p f =
    let c = (proceed-Allowed enter_gate rest x l p).0.gate in
    cast_GateRun (record { run = Interleaving.next r.run (Interleaving.resumes t f); line = refl })
      (omega (arith, c)) (omega (arith, r.line, ap one_if w))

cancel-GateRun :
    {g h : Gate} (t n m : ℕ) (x : Thread) (b : Bool)
    → GateRun g h (n + in_gate x) (m + in_line x)
    → x.waits ≡ true
    → flag t h.semaphore.waiters ≡ some b
    → GateRun g (cancel t h) (n + in_gate (raised x)) (m + in_line (raised x))
unfolding cancel
cancel-GateRun t n m x b r w f =
    cast_GateRun (record { run = Interleaving.next r.run (cancels t b f); line = refl }) refl
      (omega (arith, r.line, ap one_if w))

-- The run of the gate that a server shows.
abbrev pub GateOf : Gate → Server → Type 0
GateOf g s = GateRun g s.gate (total in_gate s.threads) (total in_line s.threads)

at_thread :
    {g h : Gate} (xs ys : List Thread) (x : Thread)
    → GateRun g h (total in_gate (xs ++ x ∷ ys)) (total in_line (xs ++ x ∷ ys))
    → GateRun g h (total in_gate (xs ++ ys) + in_gate x) (total in_line (xs ++ ys) + in_line x)
at_thread xs ys x r =
    cast_GateRun r (omega (arith, total-middle in_gate xs ys x))
      (omega (arith, total-middle in_line xs ys x))

of_thread :
    {g h : Gate} (xs ys : List Thread) (x : Thread)
    → GateRun g h (total in_gate (xs ++ ys) + in_gate x) (total in_line (xs ++ ys) + in_line x)
    → GateRun g h (total in_gate (xs ++ x ∷ ys)) (total in_line (xs ++ x ∷ ys))
of_thread xs ys x r =
    cast_GateRun r (omega (arith, total-middle in_gate xs ys x))
      (omega (arith, total-middle in_line xs ys x))

module _ {g : Gate} (s : Server) (a : All IsLawful s.threads) (r : GateOf g s) (xs ys : List Thread)
    (x : Thread) (q : s.threads ≡ xs ++ x ∷ ys) where
  split :
      GateRun g s.gate (total in_gate (xs ++ ys) + in_gate x) (total in_line (xs ++ ys) + in_line x)
  split = at_thread xs ys x (subst (λ l. GateRun g s.gate (total in_gate l) (total in_line l)) q r)

pub Step-GateOf :
    {settings : Settings} {g : Gate} {s t : Server}
    → Step settings s t
    → All IsLawful s.threads
    → GateOf g s
    → GateOf g t
unfolding total
Step-GateOf (arrives t w req fresh) a r = cast_GateRun r (omega arith) (omega arith)
Step-GateOf {s = s} (performs now removed xs ys x e rest q w p new) a r = of_thread xs ys _ (
    perform-GateRun s now removed _ _ x e rest (split s a r xs ys x q) (IsLawful-at xs ys x a q).0 w
      p)
Step-GateOf {s = s} (resumes xs ys x rest q w p f) a r =
    of_thread xs ys _
      (resume-GateRun x.id _ _ x rest (split s a r xs ys x q) (IsLawful-at xs ys x a q).0 w p f)
Step-GateOf {s = s} (is_cancelled xs ys x b q w f) a r =
    of_thread xs ys _ (cancel-GateRun x.id _ _ x b (split s a r xs ys x q) w f)
Step-GateOf {s = s} (raises xs ys x q w) a r =
    of_thread xs ys _ (raised-GateRun _ _ x (split s a r xs ys x q) w)
Step-GateOf {s = s} (ends xs ys x q w p) a r =
    let empty = held-ended x (IsLawful-at xs ys x a q).0 p in
    cast_GateRun (split s a r xs ys x q) (omega (arith, ap gates empty))
      (omega (arith, ap one_if w))
