-- ===== src/Api/Server.antt =====
-- Any number of requests of docsifer/api/v1/convert.py on the gate and the limiter that
-- docsifer/main.py makes for the application. The gate, the limiter and the temporary directory
-- answer here; what else the world answers to a request is a parameter of it, as in Api/Convert.
pub mod Counts
pub mod Lawful
pub mod Agreement
pub mod Gates
pub mod Places
pub mod Directories
pub mod Line
pub mod Safety
pub mod Progress
use docsifer.Prelude.{
  ℕ, ◌≡◌, Bool, true, false, Option, none, some, List, [], ◌∷◌, ◌++◌, Str, All, nat_beq,
  if◌then◌else◌,
}
use docsifer.Config.{Settings}
use docsifer.Safety.ConversionGate
use docsifer.Safety.ConversionGate.{Gate, Entry, refused, started, queued, resume, cancel}
use docsifer.Safety.PerIpLimiter
use docsifer.Safety.PerIpLimiter.{Limiter}
use docsifer.Safety.PerIpLimiter.Clients.{drop_one, count}
use docsifer.Safety.Semaphore.{flag}
use docsifer.Api.Convert.{
  World, Request, Effect, enter_ip, leave_ip, enter_gate, leave_gate, make_dir, remove_dir,
  admitted, convert_document,
}
use docsifer.Api.Convert.Brackets.{Held, ip_slot, gate_slot, temp_dir, allow}

-- A request under way: what it holds, whether it waits in the line of the gate, and what it does
-- next.
pub record Thread : Type 0 where
  pub id : ℕ
  pub held : List Held
  pub waits : Bool
  pub todo : List Effect

pub record Server : Type 0 where
  pub gate : Gate
  pub limiter : Limiter
  pub dirs : List Str
  pub stuck : List Str
  pub threads : List Thread

-- What an exception does on its way out of the `async with` and the `try`.
abbrev pub unwind : List Held → List Effect
unwind [] = []
unwind (ip_slot ip ∷ h) = leave_ip ip ∷ unwind h
unwind (gate_slot ∷ h) = leave_gate ∷ unwind h
unwind (temp_dir d ∷ h) = remove_dir d ∷ unwind h

abbrev pub held_after : Effect → List Held → List Held
held_after e h = elim (allow e h) [ none ↦ h | some h' ↦ h' ]

abbrev pub proceed : Effect → List Effect → Thread → Thread
proceed e rest x = record x { held = held_after e x.held; waits = false; todo = rest }

abbrev pub raised : Thread → Thread
raised x = record x { waits = false; todo = unwind x.held }

-- At the gate: the body starts, the thread waits, or `QueueFullError` is raised.
abbrev pub at_gate : Entry → List Effect → Thread → Thread
at_gate started rest x = proceed enter_gate rest x
at_gate queued rest x = record x { waits = true }
at_gate refused rest x = raised x

-- The next effect of a thread, at a time of the clock. `rmtree` ignores its errors: what it could
-- not remove is still there afterwards, and is among those that are stuck.
unfoldable pub perform : ℕ → Bool → Effect → List Effect → Thread → Server → Server × Thread
perform now removed (enter_ip ip) rest x s =
    let (l, admits) = PerIpLimiter.enter ip now s.limiter in
    (record s { limiter = l }, if admits then proceed (enter_ip ip) rest x else raised x)
perform now removed (leave_ip ip) rest x s =
    (record s { limiter = PerIpLimiter.leave ip now s.limiter }, proceed (leave_ip ip) rest x)
perform now removed enter_gate rest x s =
    let (g, entry) = ConversionGate.enter x.id s.gate in
    (record s { gate = g }, at_gate entry rest x)
perform now removed leave_gate rest x s =
    (record s { gate = ConversionGate.leave s.gate }, proceed leave_gate rest x)
perform now removed (make_dir d) rest x s =
    (record s { dirs = d ∷ s.dirs }, proceed (make_dir d) rest x)
perform now removed (remove_dir d) rest x s = (
  record s {
    dirs = if removed then drop_one d s.dirs else s.dirs;
    stuck = if removed then s.stuck else d ∷ s.stuck;
  },
  proceed (remove_dir d) rest x,
)
perform now removed e rest x s = (s, proceed e rest x)

-- What a request does if both limits let it in.
unfoldable pub program : Settings → World → Request → List Effect
program settings w r =
    (convert_document settings (record w { ip_admits = true; turn = admitted }) r).0

abbrev pub put_at : List Thread → Thread → List Thread → Server → Server
put_at xs x ys s = record s { threads = xs ++ x ∷ ys }

-- `mkdtemp` gives a directory that is not there yet.
abbrev pub IsNew : Effect → List Str → Type 0
IsNew (make_dir d) dirs = count d dirs ≡ 0
IsNew e dirs = Unit

-- Each task is an object of its own.
abbrev pub IsFresh : ℕ → List Thread → Type 0
IsFresh t threads = All (λ x. nat_beq x.id t ≡ false) threads

pub data Step (settings : Settings) (s : Server) : Server → Type 0 where
  arrives :
      (t : ℕ) (w : World) (r : Request)
      → IsFresh t s.threads
      → Step settings s (record s {
        threads =
            record { id = t; held = []; waits = false; todo = program settings w r } ∷ s.threads;
      })
  performs :
      (now : ℕ) (removed : Bool) (xs ys : List Thread) (x : Thread) (e : Effect)
      (rest : List Effect)
      → s.threads ≡ xs ++ x ∷ ys
      → x.waits ≡ false
      → x.todo ≡ e ∷ rest
      → IsNew e s.dirs
      → Step settings s
          (put_at xs (perform now removed e rest x s).1 ys (perform now removed e rest x s).0)
  resumes :
      (xs ys : List Thread) (x : Thread) (rest : List Effect)
      → s.threads ≡ xs ++ x ∷ ys
      → x.waits ≡ true
      → x.todo ≡ enter_gate ∷ rest
      → flag x.id s.gate.semaphore.waiters ≡ some true
      → Step settings s
          (put_at xs (proceed enter_gate rest x) ys (record s { gate = resume x.id s.gate }))
  is_cancelled :
      (xs ys : List Thread) (x : Thread) (b : Bool)
      → s.threads ≡ xs ++ x ∷ ys
      → x.waits ≡ true
      → flag x.id s.gate.semaphore.waiters ≡ some b
      → Step settings s (put_at xs (raised x) ys (record s { gate = cancel x.id s.gate }))
  raises :
      (xs ys : List Thread) (x : Thread)
      → s.threads ≡ xs ++ x ∷ ys
      → x.waits ≡ false
      → Step settings s (put_at xs (raised x) ys s)
  ends :
      (xs ys : List Thread) (x : Thread)
      → s.threads ≡ xs ++ x ∷ ys
      → x.waits ≡ false
      → x.todo ≡ []
      → Step settings s (record s { threads = xs ++ ys })

pub data Reach (settings : Settings) (s : Server) : Server → Type 0 where
  here : Reach settings s s
  next : {t u : Server} → Reach settings s t → Step settings t u → Reach settings s u

abbrev pub idle_server : Settings → Gate → Server
idle_server settings g = record {
  gate = g;
  limiter = PerIpLimiter.init settings.max_per_ip_concurrent 600;
  dirs = [];
  stuck = [];
  threads = [];
}

-- What the lifespan puts into `app.state`, the gate with its `ValueError`.
unfoldable pub start : Settings → Option Server
start settings =
    elim (ConversionGate.init settings.max_concurrent_conversions settings.max_queue_depth) [
      | none ↦ none
      | some g ↦ some (idle_server settings g)
    ]
