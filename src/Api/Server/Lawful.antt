-- ===== src/Api/Server/Lawful.antt =====
-- Every request of a server follows the protocol of Api/Convert/Brackets to its end.
use docsifer.Prelude.{
  ℕ, ◌≡◌, refl, true, false, Option, none, some, List, [], ◌∷◌, ◌++◌, str_eq, ==_refl, subst, All,
  inl, inr, Bool-cases, Bool,
}
use docsifer.Config.{Settings}
use docsifer.Api.Convert.{World, Request, Effect, enter_ip, leave_ip, enter_gate, admitted}
use docsifer.Api.Convert.Brackets.{Held, ip_slot, gate_slot, temp_dir, allow, allow_all, bind}
use docsifer.Api.Convert.Protocol.{convert_document-Keeps}
use docsifer.Safety.ConversionGate
use docsifer.Safety.ConversionGate.{Entry, started, queued, refused}
use docsifer.Safety.PerIpLimiter
use docsifer.Api.Server.{
  Thread, Server, unwind, held_after, proceed, raised, at_gate, perform, program, Step, arrives,
  performs, resumes, is_cancelled, raises, ends,
}
use docsifer.Api.Server.Counts.{IsNested, Allowed, allow-Allowed}

-- What a thread does next follows the protocol to its end.
pub record IsLawful (x : Thread) : Type 0 where
  pub nested : IsNested x.held
  pub done : allow_all x.todo x.held ≡ some []

split_bind :
    (o : Option (List Held)) (h : List Held) (f : List Held → Option (List Held))
    → bind o f ≡ some []
    → let k : List Held = elim o [ none ↦ h | some k ↦ k ] in (o ≡ some k) × (f k ≡ some [])
split_bind none h f p = cc
split_bind (some k) h f p = (refl, p)

pub split_done :
    (e : Effect) (rest : List Effect) (h : List Held)
    → allow_all (e ∷ rest) h ≡ some []
    → (allow e h ≡ some (held_after e h)) × (allow_all rest (held_after e h) ≡ some [])
unfolding allow_all
split_done e rest h p = split_bind (allow e h) h (allow_all rest) p

pub proceed-Allowed :
    (e : Effect) (rest : List Effect) (x : Thread)
    → IsLawful x
    → x.todo ≡ e ∷ rest
    → Allowed e x.held (proceed e rest x).held × IsLawful (proceed e rest x)
proceed-Allowed e rest x l p =
    let q : allow_all (e ∷ rest) x.held ≡ some [] =
      subst (λ t. allow_all t x.held ≡ some []) p l.done in
    let (now, later) = split_done e rest x.held q in
    let a = allow-Allowed e x.held _ l.nested now in (a, record { nested = a.nested; done = later })

unwind-lawful : (h : List Held) → IsNested h → allow_all (unwind h) h ≡ some []
unfolding allow_all
unwind-lawful [] n = refl
unwind-lawful (ip_slot ip ∷ []) n = rw (==_refl ip) refl
unwind-lawful (gate_slot ∷ ip_slot ip ∷ []) n = rw (==_refl ip) refl
unwind-lawful (temp_dir d ∷ gate_slot ∷ ip_slot ip ∷ []) n = rw (==_refl d) (rw (==_refl ip) refl)
unwind-lawful h n = absurd n

pub raised-IsLawful : (x : Thread) → IsLawful x → IsLawful (raised x)
raised-IsLawful x l = record { nested = l.nested; done = unwind-lawful x.held l.nested }

pub program-IsLawful :
    (settings : Settings) (t : ℕ) (w : World) (r : Request)
    → IsLawful (record { id = t; held = []; waits = false; todo = program settings w r })
unfolding program
program-IsLawful settings t w r = record {
  nested = tt;
  done = (convert_document-Keeps settings (record w { ip_admits = true; turn = admitted }) r).back;
}

-- One thread and the others.
pub All-middle :
    (P : Thread → Type 0) (xs ys : List Thread) (x : Thread)
    → All P (xs ++ x ∷ ys)
    → P x × All P (xs ++ ys)
All-middle P [] ys x h = h
All-middle P (y ∷ xs) ys x h = let (p, rest) = All-middle P xs ys x h.1 in (p, (h.0, rest))

-- The thread of a step is lawful.
pub IsLawful-at :
    {threads : List Thread} (xs ys : List Thread) (x : Thread)
    → All IsLawful threads
    → threads ≡ xs ++ x ∷ ys
    → IsLawful x × All IsLawful (xs ++ ys)
IsLawful-at xs ys x a q = All-middle IsLawful xs ys x (subst (All IsLawful) q a)

pub middle-All :
    (P : Thread → Type 0) (xs ys : List Thread) (x : Thread)
    → P x
    → All P (xs ++ ys)
    → All P (xs ++ x ∷ ys)
middle-All P [] ys x p h = (p, h)
middle-All P (y ∷ xs) ys x p h = (h.0, middle-All P xs ys x p h.1)

pub held-ended : (x : Thread) → IsLawful x → x.todo ≡ [] → x.held ≡ []
unfolding allow_all
held-ended x l p =
    let q : allow_all [] x.held ≡ some [] = subst (λ t. allow_all t x.held ≡ some []) p l.done in cc

-- The threads stay lawful.
perform-IsLawful :
    (now : ℕ) (removed : Bool) (e : Effect) (rest : List Effect) (x : Thread) (s : Server)
    → IsLawful x
    → x.todo ≡ e ∷ rest
    → IsLawful (perform now removed e rest x s).1
unfolding perform
perform-IsLawful now removed (enter_ip ip) rest x s l p =
    elim (Bool-cases (PerIpLimiter.enter ip now s.limiter).1) [
      | inl b ↦ rw b (proceed-Allowed (enter_ip ip) rest x l p).1
      | inr b ↦ rw b (raised-IsLawful x l)
    ]
perform-IsLawful now removed enter_gate rest x s l p = at_entry (ConversionGate.enter x.id s.gate).1
  where
    at_entry : (o : Entry) → IsLawful (at_gate o rest x)
    at_entry started = (proceed-Allowed enter_gate rest x l p).1
    at_entry queued = record { nested = l.nested; done = l.done }
    at_entry refused = raised-IsLawful x l
perform-IsLawful now removed (leave_ip ip) rest x s l p =
    (proceed-Allowed (leave_ip ip) rest x l p).1
perform-IsLawful now removed e rest x s l p = (proceed-Allowed e rest x l p).1

pub Step-IsLawful :
    {settings : Settings} {s t : Server}
    → Step settings s t
    → All IsLawful s.threads
    → All IsLawful t.threads
Step-IsLawful {settings} (arrives t w r fresh) a = (program-IsLawful settings t w r, a)
Step-IsLawful {s = s} (performs now removed xs ys x e rest q w p new) a =
    let (l, others) = IsLawful-at xs ys x a q in
    middle-All IsLawful xs ys _ (perform-IsLawful now removed e rest x s l p) others
Step-IsLawful (resumes xs ys x rest q w p f) a =
    let (l, others) = IsLawful-at xs ys x a q in
    middle-All IsLawful xs ys _ (proceed-Allowed enter_gate rest x l p).1 others
Step-IsLawful (is_cancelled xs ys x b q w f) a =
    let (l, others) = IsLawful-at xs ys x a q in
    middle-All IsLawful xs ys _ (raised-IsLawful x l) others
Step-IsLawful (raises xs ys x q w) a =
    let (l, others) = IsLawful-at xs ys x a q in
    middle-All IsLawful xs ys _ (raised-IsLawful x l) others
Step-IsLawful (ends xs ys x q w p) a = (IsLawful-at xs ys x a q).1
