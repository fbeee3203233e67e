-- ===== src/Api/Server/Safety.antt =====
-- What holds of a server in every state that it can reach.
use docsifer.Prelude.{
  ℕ, ◌+◌, ◌≤◌, ◌<◌, max, ◌≡◌, refl, ap, subst, sym, ◌∙◌, All, inl, inr, some, List, [], ◌∷◌, Str,
  str_eq, arith, Option-cases,
}
use docsifer.Config.{Settings}
use docsifer.Safety.ConversionGate
use docsifer.Safety.ConversionGate.{Gate}
use docsifer.Safety.ConversionGate.Interleaving
use docsifer.Safety.PerIpLimiter.Slots.{active}
use docsifer.Safety.PerIpLimiter.Clients
use docsifer.Safety.PerIpLimiter.Clients.{count}
use docsifer.Api.Convert.{Effect, convert_file, Job}
use docsifer.Api.Convert.Brackets.{Held, ip_slot, gate_slot, temp_dir, allow, allow_all}
use docsifer.Api.Server.{Thread, Server, Step, Reach, here, next, start, idle_server}
use docsifer.Api.Server.Counts.{total, gates, IsNested}
use docsifer.Api.Server.Lawful.{IsLawful, Step-IsLawful, split_done}
use docsifer.Api.Server.Gates.{in_gate, in_line, GateOf, Step-GateOf}
use docsifer.Api.Server.Places.{place, PlacesOf, Step-PlacesOf}
use docsifer.Api.Server.Directories.{owns, DirsOf, Step-DirsOf}

pub record Sound (settings : Settings) (g : Gate) (s : Server) : Type 0 where
  pub lawful : All IsLawful s.threads
  pub gate_of : GateOf g s
  pub places_of : PlacesOf settings.max_per_ip_concurrent 600 s
  pub dirs_of : DirsOf s

Step-Sound :
    {settings : Settings} {g : Gate} {s t : Server}
    → Step settings s t
    → Sound settings g s
    → Sound settings g t
Step-Sound st k = record {
  lawful = Step-IsLawful st k.lawful;
  gate_of = Step-GateOf st k.lawful k.gate_of;
  places_of = Step-PlacesOf st k.lawful k.places_of;
  dirs_of = Step-DirsOf st k.lawful k.dirs_of;
}

Reach-Sound :
    {settings : Settings} {g : Gate} {s t : Server}
    → Sound settings g s
    → Reach settings s t
    → Sound settings g t
Reach-Sound k here = k
Reach-Sound k (next r st) = Step-Sound st (Reach-Sound k r)

start-eq :
    (settings : Settings) {s : Server}
    → start settings ≡ some s
    → (g : Gate) × (ConversionGate.init settings.max_concurrent_conversions settings.max_queue_depth
        ≡ some g)
      × (s ≡ idle_server settings g)
unfolding start
start-eq settings e =
    elim (Option-cases
      (ConversionGate.init settings.max_concurrent_conversions settings.max_queue_depth)) [
        | inl p ↦ absurd (ground (arith, p))
        | inr (g, p) ↦ (g, p, ground (arith, p))
      ]

waiting-init : (c q : ℕ) {g : Gate} → ConversionGate.init c q ≡ some g → g.waiting ≡ 0
unfolding ConversionGate.init
waiting-init c q e = ground arith

idle-Sound :
    (settings : Settings) (g : Gate)
    → ConversionGate.init settings.max_concurrent_conversions settings.max_queue_depth ≡ some g
    → Sound settings g (idle_server settings g)
unfolding total count
idle-Sound settings g e = record {
  lawful = tt;
  gate_of = record { run = Interleaving.here; line = waiting-init _ _ e };
  places_of = record { holders = []; run = Clients.here; same = λ j. refl };
  dirs_of = record { same = λ j. refl; single = λ j. omega arith };
}

-- Whether the next effect is a conversion: the request awaits `convert_file`.
abbrev pub at_conversion : List Effect → ℕ
at_conversion (convert_file j ∷ rest) = 1
at_conversion _ = 0

abbrev pub converting : Thread → ℕ
converting x = at_conversion x.todo

convert_file-in_gate :
    (j : Job) (h k : List Held) → IsNested h → allow (convert_file j) h ≡ some k → 0 < gates h
convert_file-in_gate j [] k n p = cc
convert_file-in_gate j (ip_slot ip ∷ []) k n p = cc
convert_file-in_gate j (gate_slot ∷ ip_slot ip ∷ []) k n p = omega arith
convert_file-in_gate j (temp_dir d ∷ gate_slot ∷ ip_slot ip ∷ []) k n p = omega arith
convert_file-in_gate j h k n p = absurd n

at_conversion-le :
    (todo : List Effect) (h : List Held)
    → IsNested h
    → allow_all todo h ≡ some []
    → at_conversion todo ≤ gates h
at_conversion-le (convert_file j ∷ rest) h n p =
    convert_file-in_gate j h _ n (split_done (convert_file j) rest h p).0
at_conversion-le [] h n p = omega arith
at_conversion-le (e ∷ rest) h n p = omega arith

total-le :
    (threads : List Thread)
    → All IsLawful threads
    → total converting threads ≤ total in_gate threads
unfolding total
total-le [] a = omega arith
total-le (x ∷ xs) a =
    omega (arith, total-le xs a.1, at_conversion-le x.todo x.held a.0.nested a.0.done)

module _ (settings : Settings) {s t : Server} (built : start settings ≡ some s)
    (reached : Reach settings s t) where
  pub sound :
      (g : Gate) × (ConversionGate.init settings.max_concurrent_conversions settings.max_queue_depth
        ≡ some g)
      × (s ≡ idle_server settings g)
      × Sound settings g t
  sound =
      let (g, made, e) = start-eq settings built in
      (
        g,
        made,
        e,
        Reach-Sound (idle-Sound settings g made) (subst (λ s'. Reach settings s' t) e reached),
      )

  -- However any number of requests with any content interleave on a server that was built from the
  -- settings, whatever the world answers them, and wherever exceptions and cancellations strike, at
  -- most `max_concurrent_conversions` requests await a conversion, at most `max_queue_depth` more
  -- than that many are in the gate or its line, each address has at most
  -- `max(1, max_per_ip_concurrent)` requests under way, and no two requests have the same
  -- directory, since `mkdtemp` makes new ones.
  pub Reach-bounds :
      (total converting t.threads ≤ settings.max_concurrent_conversions)
      × (total in_gate t.threads + total in_line t.threads
          ≤ settings.max_concurrent_conversions + settings.max_queue_depth)
      × ((ip : Str) → total (place ip) t.threads ≤ max 1 settings.max_per_ip_concurrent)
      × ((d : Str) → total (owns d) t.threads ≤ 1)
  Reach-bounds =
      let (g, made, e, k) = sound in
      let limits = Interleaving.Reach-limits _ _ made k.gate_of.run in
      (
        omega (arith, total-le t.threads k.lawful, limits),
        omega (arith, limits, k.gate_of.line),
        λ ip. omega (arith, Clients.Reach-limit _ _ ip k.places_of.run, k.places_of.same ip),
        λ d. omega (arith, k.dirs_of.same d, k.dirs_of.single d),
      )

  -- Nothing leaks: however requests interleave and fail on a server that was built, when none is
  -- under way the gate is the one that was built, no address has a slot in use, and the temporary
  -- directories left are exactly those that `rmtree` failed to remove.
  pub Reach-released :
      t.threads ≡ []
      → (t.gate ≡ s.gate)
        × ((ip : Str) → active t.limiter ip ≡ 0)
        × ((d : Str) → count d t.dirs ≡ count d t.stuck)
  unfolding total
  Reach-released none_left =
      let (g, made, e, k) = sound in
      let drained = Interleaving.Reach-drained _ _ made k.gate_of.run in
      (
        drained (ap (total in_gate) none_left)
              (omega (arith, k.gate_of.line, ap (total in_line) none_left))
            ∙ sym (ap (λ s'. s'.gate) e),
        λ ip. omega (
          arith,
          (Clients.Reach-limit _ _ ip k.places_of.run).0,
          k.places_of.same ip,
          ap (total (place ip)) none_left,
        ),
        λ d. omega (arith, k.dirs_of.same d, ap (total (owns d)) none_left),
      )
