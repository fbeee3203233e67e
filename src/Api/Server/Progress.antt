-- ===== src/Api/Server/Progress.antt =====
-- A server never stands still while requests are under way.
use docsifer.Prelude.{
  ℕ, ◌≤◌, ◌<◌, ◌≡◌, ◌≢◌, refl, ap, subst, All, sym, ◌⊎◌, inl, inr, Bool-cases, true, false, some,
  List, [], ◌∷◌, ◌++◌, Str, arith, nat_beq,
}
use docsifer.Config.{Settings}
use docsifer.Safety.ConversionGate
use docsifer.Safety.ConversionGate.{Gate}
use docsifer.Safety.ConversionGate.Interleaving
use docsifer.Safety.Semaphore.{flag}
use docsifer.Safety.Semaphore.Line.{times, woken_task}
use docsifer.Api.Convert.{Effect, enter_gate}
use docsifer.Api.Convert.Brackets.{Held, ip_slot, gate_slot, temp_dir}
use docsifer.Api.Server.{
  Thread, Server, Step, performs, resumes, ends, IsNew, Reach, here, next, start, idle_server,
}
use docsifer.Api.Server.Counts.{total, gates, IsNested}
use docsifer.Api.Server.Lawful.{IsLawful, proceed-Allowed, All-middle}
use docsifer.Api.Server.Gates.{in_gate, in_line}
use docsifer.Api.Server.Line.{named, waits_as, IsAtGate, InLine, Step-InLine}
use docsifer.Api.Server.Safety.{sound}

Reach-InLine : {settings : Settings} {s t : Server} → InLine s → Reach settings s t → InLine t
Reach-InLine i here = i
Reach-InLine i (next r st) = Step-InLine st (Reach-InLine i r)

no_waiters : (c q : ℕ) {g : Gate} → ConversionGate.init c q ≡ some g → g.semaphore.waiters ≡ []
unfolding ConversionGate.init
no_waiters c q e = ground arith

idle-InLine :
    (settings : Settings) (g : Gate) → g.semaphore.waiters ≡ [] → InLine (idle_server settings g)
unfolding total times
idle-InLine settings g e = record {
  lines = λ t. ap (times t) e;
  single = λ t. omega arith;
  at_gate = tt;
}

-- Where a thread stands among the others.
record Place (P : Thread → Type 0) (threads : List Thread) : Type 0 where
  before : List Thread
  after : List Thread
  thread : Thread
  split : threads ≡ before ++ thread ∷ after
  fits : P thread

later :
    {P : Thread → Type 0} (y : Thread) {threads : List Thread}
    → Place P threads
    → Place P (y ∷ threads)
later y p = record {
  before = y ∷ p.before;
  after = p.after;
  thread = p.thread;
  split = ap (λ l. y ∷ l) p.split;
  fits = p.fits;
}

first_active :
    (threads : List Thread)
    → Place (λ x. x.waits ≡ false) threads ⊎ All (λ x. x.waits ≡ true) threads
first_active [] = inr tt
first_active (x ∷ xs) = elim (Bool-cases x.waits) [
  | inr e ↦ inl (record { before = []; after = xs; thread = x; split = refl; fits = e })
  | inl e ↦ elim (first_active xs) [ inl p ↦ inl (later x p) | inr a ↦ inr (e, a) ]
]

find_waiting :
    (t : ℕ) (threads : List Thread)
    → 0 < total (waits_as t) threads
    → Place (λ x. (x.waits ≡ true) × (x.id ≡ t)) threads
unfolding total
find_waiting t [] h = absurd (omega arith)
find_waiting t (x ∷ xs) h = elim (Bool-cases x.waits) [
  | inr e ↦ later x (find_waiting t xs (ground arith))
  | inl e ↦ elim (Bool-cases (nat_beq x.id t)) [
    | inr k ↦ later x (find_waiting t xs (ground arith))
    | inl k ↦ record { before = []; after = xs; thread = x; split = refl; fits = (e, ground arith) }
  ]
]

gates-le : (h : List Held) → IsNested h → gates h ≤ 1
gates-le [] n = omega arith
gates-le (ip_slot ip ∷ []) n = omega arith
gates-le (gate_slot ∷ ip_slot ip ∷ []) n = omega arith
gates-le (temp_dir d ∷ gate_slot ∷ ip_slot ip ∷ []) n = omega arith
gates-le h n = absurd n

outside :
    (x : Thread) (rest : List Effect) → IsLawful x → x.todo ≡ enter_gate ∷ rest → in_gate x ≡ 0
outside x rest l p =
    let a = (proceed-Allowed enter_gate rest x l p).0 in omega (arith, a.gate, gates-le _ a.nested)

all_outside :
    (threads : List Thread)
    → All IsLawful threads
    → All IsAtGate threads
    → All (λ x. x.waits ≡ true) threads
    → total in_gate threads ≡ 0
unfolding total
all_outside [] l g w = refl
all_outside (x ∷ xs) l g w =
    let (rest, p) = g.0 w.0 in omega (arith, outside x rest l.0 p, all_outside xs l.1 g.1 w.1)

someone_waits :
    (threads : List Thread)
    → All (λ x. x.waits ≡ true) threads
    → threads ≢ []
    → 0 < total in_line threads
unfolding total
someone_waits [] w n = absurd (n refl)
someone_waits (x ∷ xs) w n = ground (arith, w.0)

waits-le-named :
    (t : ℕ) (threads : List Thread) → total (waits_as t) threads ≤ total (named t) threads
unfolding total
waits-le-named t [] = omega arith
waits-le-named t (x ∷ xs) = ground (arith, waits-le-named t xs)

-- The next effect finds no directory of its name.
abbrev pub NextIsNew : List Str → List Effect → Type 0
NextIsNew dirs [] = Unit
NextIsNew dirs (e ∷ rest) = IsNew e dirs

-- A step by which a request goes on, neither cancelled nor struck by an exception.
abbrev pub GoesOn : {settings : Settings} {s t : Server} → Step settings s t → Type 0
GoesOn (performs now removed xs ys x e rest q w p new) = Unit
GoesOn (resumes xs ys x rest q w p f) = Unit
GoesOn (ends xs ys x q w p) = Unit
GoesOn _ = ⊥

active_step :
    (settings : Settings) (t : Server) (todo : List Effect)
    (p : Place (λ x. x.waits ≡ false) t.threads)
    → p.thread.todo ≡ todo
    → NextIsNew t.dirs todo
    → (u : Server) × (st : Step settings t u) × GoesOn st
active_step settings t [] p e new = (_, ends p.before p.after p.thread p.split p.fits e, tt)
active_step settings t (e ∷ rest) p q new =
    (_, performs 0 true p.before p.after p.thread e rest p.split p.fits q new, tt)

at_place :
    {Q : Thread → Type 0} (P : Thread → Type 0) {threads : List Thread} (p : Place Q threads)
    → All P threads
    → P p.thread
at_place P p a = (All-middle P p.before p.after p.thread (subst (All P) p.split a)).0

module _ (settings : Settings) {s t : Server} (built : start settings ≡ some s)
    (reached : Reach settings s t) where
  line_kept : InLine t
  line_kept =
      let (g, made, e, k) = sound settings built reached in
      Reach-InLine (idle-InLine settings g (no_waiters _ _ made))
        (subst (λ s'. Reach settings s' t) e reached)

  -- Where all threads wait, the turn of one of them has come.
  woken_step :
      All (λ x. x.waits ≡ true) t.threads
      → t.threads ≢ []
      → (u : Server) × (st : Step settings t u) × GoesOn st
  woken_step w n =
      let (g, made, e, k) = sound settings built reached in
      let i = line_kept in
      let quiet = all_outside t.threads k.lawful i.at_gate w in
      let waiting : 0 < t.gate.waiting =
        omega (arith, k.gate_of.line, someone_waits t.threads w n) in
      elim (Interleaving.Reach-progress _ _ made k.gate_of.run waiting) [
        | inl runs ↦ absurd (omega (arith, quiet, runs))
        | inr turn ↦
            let (id, f, stands) =
              woken_task t.gate.semaphore.waiters turn
                (λ j. omega (arith, i.lines j, i.single j, waits-le-named j t.threads)) in
            let p = find_waiting id t.threads (omega (arith, i.lines id, stands)) in
            let (rest, q) = at_place IsAtGate p i.at_gate p.fits.0 in
            (
              _,
              resumes p.before p.after p.thread rest p.split p.fits.0 q
                  (subst (λ j. flag j t.gate.semaphore.waiters ≡ some true) (sym p.fits.1) f),
              tt,
            )
      ]

  -- No deadlock: in every state that a server which was built can reach, while requests are under
  -- way, one of them can go on, neither cancelled nor struck by an exception, if no directory that
  -- a request is about to make is there already.
  pub Reach-GoesOn :
      t.threads ≢ []
      → All (λ x. NextIsNew t.dirs x.todo) t.threads
      → (u : Server) × (st : Step settings t u) × GoesOn st
  Reach-GoesOn n new = elim (first_active t.threads) [
    | inl p ↦
        active_step settings t p.thread.todo p refl (at_place (λ x. NextIsNew t.dirs x.todo) p new)
    | inr w ↦ woken_step w n
  ]
