-- ===== src/Api/Server/Places.antt =====
-- Every run of a server is a run of its limiter.
use docsifer.Prelude.{
  ℕ, ◌+◌, ◌≡◌, refl, ap, All, ◌∙◌, inl, inr, Bool-cases, Bool, List, ◌∷◌, ◌++◌, Str, str_eq,
  ==_refl, arith, if◌then◌else◌,
}
use docsifer.Config.{Settings}
use docsifer.Safety.ConversionGate
use docsifer.Safety.ConversionGate.{Entry, refused, started, queued}
use docsifer.Safety.PerIpLimiter
use docsifer.Safety.PerIpLimiter.{Limiter}
use docsifer.Safety.PerIpLimiter.Clients
use docsifer.Safety.PerIpLimiter.Clients.{count, drop_one, count-drop_one, enters, leaves}
use docsifer.Api.Convert.{Effect, enter_ip, leave_ip, enter_gate}
use docsifer.Api.Server.{
  Thread, Server, proceed, raised, at_gate, perform, Step, arrives, performs, resumes, is_cancelled,
  raises, ends,
}
use docsifer.Api.Server.Counts.{total, total-middle, places, place_in, place_out}
use docsifer.Api.Server.Lawful.{IsLawful, proceed-Allowed, held-ended, IsLawful-at}

abbrev pub place : Str → Thread → ℕ
place j x = places j x.held

-- The limiter after a run from a new one, with so many slots for each address.
pub record PlaceRun (max_per_ip idle : ℕ) (l : Limiter) (n : Str → ℕ) : Type 0 where
  pub holders : List Str
  pub run :
      Clients.Reach (Clients.start max_per_ip idle) (record { limiter = l; holders = holders })
  pub same : (j : Str) → count j holders ≡ n j

cast_PlaceRun :
    {c i : ℕ} {l : Limiter} {n m : Str → ℕ}
    → PlaceRun c i l n
    → ((j : Str) → n j ≡ m j)
    → PlaceRun c i l m
cast_PlaceRun r e = record { holders = r.holders; run = r.run; same = λ j. r.same j ∙ e j }

module _ {c i : ℕ} {l : Limiter} (n : Str → ℕ) (x : Thread) (rest : List Effect)
    (r : PlaceRun c i l (λ j. n j + place j x)) (lawful : IsLawful x) where
  enter-PlaceRun :
      (now : ℕ) (ip : Str)
      → x.todo ≡ enter_ip ip ∷ rest
      → PlaceRun c i (PerIpLimiter.enter ip now l).0 (λ j.
        n j
        + place j
            (if (PerIpLimiter.enter ip now l).1 then proceed (enter_ip ip) rest x else raised x))
  unfolding count
  enter-PlaceRun now ip p =
      let a = (proceed-Allowed (enter_ip ip) rest x lawful p).0 in
      record {
        holders = if (PerIpLimiter.enter ip now l).1 then ip ∷ r.holders else r.holders;
        run = Clients.next r.run (enters ip now);
        same = λ j. elim (Bool-cases (PerIpLimiter.enter ip now l).1) [
          | inl b ↦ rw b (ground (arith, a.place j, r.same j))
          | inr b ↦ rw b (r.same j)
        ];
      }

  leave-PlaceRun :
      (now : ℕ) (ip : Str)
      → x.todo ≡ leave_ip ip ∷ rest
      → PlaceRun c i
          (PerIpLimiter.leave ip now l)
          (λ j. n j + place j (proceed (leave_ip ip) rest x))
  leave-PlaceRun now ip p =
      let a = (proceed-Allowed (leave_ip ip) rest x lawful p).0 in
      record {
        holders = drop_one ip r.holders;
        run =
            Clients.next r.run (leaves ip now (ground (arith, a.place ip, r.same ip, ==_refl ip)));
        same = λ j. ground (arith, a.place j, r.same j, count-drop_one ip j r.holders);
      }

  -- An effect that leaves the limiter alone.
  same-PlaceRun :
      (e : Effect)
      → x.todo ≡ e ∷ rest
      → ((j : Str) → place_in j e ≡ 0)
      → ((j : Str) → place_out j e ≡ 0)
      → PlaceRun c i l (λ j. n j + place j (proceed e rest x))
  same-PlaceRun e p a b =
      cast_PlaceRun r (λ j. omega (arith, (proceed-Allowed e rest x lawful p).0.place j, a j, b j))

  at_gate-PlaceRun :
      (o : Entry)
      → x.todo ≡ enter_gate ∷ rest
      → PlaceRun c i l (λ j. n j + place j (at_gate o rest x))
  at_gate-PlaceRun started p = same-PlaceRun enter_gate p (λ j. refl) (λ j. refl)
  at_gate-PlaceRun queued p = r
  at_gate-PlaceRun refused p = r

perform-PlaceRun :
    {c i : ℕ} (n : Str → ℕ) (now : ℕ) (removed : Bool) (e : Effect) (rest : List Effect)
    (x : Thread) (s : Server)
    → PlaceRun c i s.limiter (λ j. n j + place j x)
    → IsLawful x
    → x.todo ≡ e ∷ rest
    → let (s', y) = perform now removed e rest x s in PlaceRun c i s'.limiter (λ j. n j + place j y)
unfolding perform
perform-PlaceRun n now removed (enter_ip ip) rest x s r l p = enter-PlaceRun n x rest r l now ip p
perform-PlaceRun n now removed (leave_ip ip) rest x s r l p = leave-PlaceRun n x rest r l now ip p
perform-PlaceRun n now removed enter_gate rest x s r l p =
    at_gate-PlaceRun n x rest r l (ConversionGate.enter x.id s.gate).1 p
perform-PlaceRun n now removed e rest x s r l p =
    same-PlaceRun n x rest r l e p (λ j. refl) (λ j. refl)

-- The run of the limiter that a server shows.
abbrev pub PlacesOf : ℕ → ℕ → Server → Type 0
PlacesOf c i s = PlaceRun c i s.limiter (λ j. total (place j) s.threads)

module _ {c i : ℕ} (s : Server) (a : All IsLawful s.threads) (r : PlacesOf c i s)
    (xs ys : List Thread) (x : Thread) (q : s.threads ≡ xs ++ x ∷ ys) where
  split : PlaceRun c i s.limiter (λ j. total (place j) (xs ++ ys) + place j x)
  split =
      cast_PlaceRun r (λ j. omega (arith, ap (total (place j)) q, total-middle (place j) xs ys x))

of_thread :
    {c i : ℕ} {l : Limiter} (xs ys : List Thread) (x : Thread)
    → PlaceRun c i l (λ j. total (place j) (xs ++ ys) + place j x)
    → PlaceRun c i l (λ j. total (place j) (xs ++ x ∷ ys))
of_thread xs ys x r = cast_PlaceRun r (λ j. omega (arith, total-middle (place j) xs ys x))

pub Step-PlacesOf :
    {settings : Settings} {c i : ℕ} {s t : Server}
    → Step settings s t
    → All IsLawful s.threads
    → PlacesOf c i s
    → PlacesOf c i t
unfolding total
Step-PlacesOf (arrives t w req fresh) a r = cast_PlaceRun r (λ j. omega arith)
Step-PlacesOf {s = s} (performs now removed xs ys x e rest q w p new) a r = of_thread xs ys _ (
    perform-PlaceRun _ now removed e rest x s (split s a r xs ys x q) (IsLawful-at xs ys x a q).0 p)
Step-PlacesOf {s = s} (resumes xs ys x rest q w p f) a r = of_thread xs ys _ (
    same-PlaceRun _ x rest (split s a r xs ys x q) (IsLawful-at xs ys x a q).0 enter_gate p
      (λ j. refl) (λ j. refl))
Step-PlacesOf {s = s} (is_cancelled xs ys x b q w f) a r = of_thread xs ys _ (split s a r xs ys x q)
Step-PlacesOf {s = s} (raises xs ys x q w) a r = of_thread xs ys _ (split s a r xs ys x q)
Step-PlacesOf {s = s} (ends xs ys x q w p) a r =
    let empty = held-ended x (IsLawful-at xs ys x a q).0 p in
    cast_PlaceRun (split s a r xs ys x q) (λ j. omega (arith, ap (places j) empty))
