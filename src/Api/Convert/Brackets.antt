-- ===== src/Api/Convert/Brackets.antt =====
-- What a request of docsifer/api/v1/convert.py holds, and the effects that this allows.
use docsifer.Prelude.{
  ◌≡◌, refl, ◌∙◌, Option, none, some, List, [], ◌∷◌, ◌++◌, Str, str_eq, ◌==◌, Option-cases, inl,
  inr, if◌then◌else◌,
}
use docsifer.Exceptions.{Result, ok, err}
use docsifer.Api.Convert.{
  Effect, enter_ip, leave_ip, enter_gate, leave_gate, close_upload, make_dir, remove_dir,
  write_file, convert_file, record_access, Run, after_effects, finally, then_do,
}

-- What a request holds, the latest first.
pub data Held : Type 0 where
  ip_slot : Str → Held
  gate_slot : Held
  temp_dir : Str → Held

-- The protocol: an effect is allowed only by what the request holds, and it changes that.
abbrev pub allow : Effect → List Held → Option (List Held)
allow (enter_ip ip) [] = some (ip_slot ip ∷ [])
allow enter_gate (ip_slot ip ∷ []) = some (gate_slot ∷ ip_slot ip ∷ [])
allow (make_dir d) (gate_slot ∷ ip_slot ip ∷ []) = some (temp_dir d ∷ gate_slot ∷ ip_slot ip ∷ [])
allow (write_file n b) (temp_dir d ∷ s) = some (temp_dir d ∷ s)
allow close_upload (temp_dir d ∷ s) = some (temp_dir d ∷ s)
allow (convert_file j) (temp_dir d ∷ s) = some (temp_dir d ∷ s)
allow (convert_file j) (gate_slot ∷ s) = some (gate_slot ∷ s)
allow (remove_dir e) (temp_dir d ∷ s) = if e == d then some s else none
allow leave_gate (gate_slot ∷ s) = some s
allow (leave_ip j) (ip_slot ip ∷ []) = if j == ip then some [] else none
allow (record_access n) [] = some []
allow _ _ = none

abbrev pub bind : Option (List Held) → (List Held → Option (List Held)) → Option (List Held)
bind none f = none
bind (some s) f = f s

unfoldable pub allow_all : List Effect → List Held → Option (List Held)
allow_all [] s = some s
allow_all (e ∷ es) s = bind (allow e s) (allow_all es)

pub allow_all-append :
    (xs ys : List Effect) (s : List Held)
    → allow_all (xs ++ ys) s ≡ bind (allow_all xs s) (allow_all ys)
unfolding allow_all
allow_all-append [] ys s = refl
allow_all-append (e ∷ xs) ys s = elim (Option-cases (allow e s)) [
  | inl h ↦ rw h refl
  | inr (t, h) ↦ rw h (allow_all-append xs ys t)
]

-- A run that is allowed and ends with what it began with.
pub record Keeps {A : Type 0} (s : List Held) (r : Run A) : Type 0 where
  pub back : allow_all r.0 s ≡ some s

pub Keeps-pure : {A : Type 0} (s : List Held) (r : Result A) → Keeps s ([], r)
unfolding allow_all
Keeps-pure s r = record { back = refl }

pub Keeps-append :
    {A B : Type 0} (s : List Held) (r : Run A) (q : Run B)
    → Keeps s r
    → Keeps s q
    → Keeps s (after_effects r.0 q)
Keeps-append s r q k l = record { back = allow_all-append r.0 q.0 s ∙ rw k.back l.back }

pub Keeps-then_do :
    {A B : Type 0} (s : List Held) (r : Result A) (f : A → Run B)
    → ((a : A) → r ≡ ok a → Keeps s (f a))
    → Keeps s (then_do r f)
Keeps-then_do s (ok a) f k = k a refl
Keeps-then_do s (err e) f k = Keeps-pure s (err e)

-- A bracket: `e` takes something, `d` gives it back, and the body keeps it.
pub Keeps-bracket :
    {A : Type 0} (s t : List Held) (e d : Effect) (body : Run A)
    → allow e s ≡ some t
    → allow d t ≡ some s
    → Keeps t body
    → Keeps s (after_effects (e ∷ []) (finally body (d ∷ [])))
unfolding allow_all
Keeps-bracket s t e d body o c k = record {
  back = rw o (allow_all-append body.0 (d ∷ []) t ∙ rw (k.back, c) refl);
}

pub Keeps-sequence :
    {A B : Type 0} (s : List Held) (r : Run A) (f : A → Run B)
    → Keeps s r
    → ((a : A) → Keeps s (f a))
    → Keeps s (after_effects r.0 (then_do r.1 f))
Keeps-sequence s r f k l = Keeps-append s r (then_do r.1 f) k (Keeps-then_do s r.1 f (λ a _. l a))
