-- ===== src/Api/Server/Counts.antt =====
-- What the requests of a server hold, counted.
use docsifer.Prelude.{
  length, ◌≤◌, ℕ, ◌+◌, ◌≡◌, refl, Bool, true, false, some, List, [], ◌∷◌, ◌++◌, Str, str_eq, ◌==◌,
  ==_iff, arith, if◌then◌else◌,
}
use docsifer.Api.Convert.{
  Effect, enter_ip, leave_ip, enter_gate, leave_gate, close_upload, make_dir, remove_dir,
  write_file, convert_file, record_access,
}
use docsifer.Api.Convert.Brackets.{Held, ip_slot, gate_slot, temp_dir, allow}
use docsifer.Api.Server.{Thread}

-- A sum over the threads.
unfoldable pub total : (Thread → ℕ) → List Thread → ℕ
total f [] = 0
total f (x ∷ xs) = f x + total f xs

pub total-middle :
    (f : Thread → ℕ) (xs ys : List Thread) (x : Thread)
    → total f (xs ++ x ∷ ys) ≡ f x + total f (xs ++ ys)
unfolding total
total-middle f [] ys x = refl
total-middle f (y ∷ xs) ys x = omega (arith, total-middle f xs ys x)

abbrev pub gates : List Held → ℕ
gates [] = 0
gates (gate_slot ∷ h) = gates h + 1
gates (ip_slot ip ∷ h) = gates h
gates (temp_dir d ∷ h) = gates h

abbrev pub places : Str → List Held → ℕ
places j [] = 0
places j (gate_slot ∷ h) = places j h
places j (ip_slot ip ∷ h) = if ip == j then places j h + 1 else places j h
places j (temp_dir d ∷ h) = places j h

abbrev pub owned : Str → List Held → ℕ
owned j [] = 0
owned j (gate_slot ∷ h) = owned j h
owned j (ip_slot ip ∷ h) = owned j h
owned j (temp_dir d ∷ h) = if d == j then owned j h + 1 else owned j h

abbrev pub one_if : Bool → ℕ
one_if true = 1
one_if false = 0

-- What one effect changes of the slots of the gate, in both directions.
abbrev pub gate_in : Effect → ℕ
gate_in enter_gate = 1
gate_in _ = 0

abbrev pub gate_out : Effect → ℕ
gate_out leave_gate = 1
gate_out _ = 0

abbrev pub place_in : Str → Effect → ℕ
place_in j (enter_ip ip) = one_if (ip == j)
place_in j _ = 0

abbrev pub place_out : Str → Effect → ℕ
place_out j (leave_ip ip) = one_if (ip == j)
place_out j _ = 0

abbrev pub dir_in : Str → Effect → ℕ
dir_in j (make_dir d) = one_if (d == j)
dir_in j _ = 0

abbrev pub dir_out : Str → Effect → ℕ
dir_out j (remove_dir d) = one_if (d == j)
dir_out j _ = 0

-- A slot that is taken stays to be given back.
abbrev pub grows : Effect → ℕ
grows (enter_ip ip) = 2
grows enter_gate = 2
grows _ = 0

-- The slots are held one in the other, and the directory innermost.
abbrev pub IsNested : List Held → Type 0
IsNested [] = Unit
IsNested (ip_slot ip ∷ []) = Unit
IsNested (gate_slot ∷ ip_slot ip ∷ []) = Unit
IsNested (temp_dir d ∷ gate_slot ∷ ip_slot ip ∷ []) = Unit
IsNested _ = ⊥

pub record Allowed (e : Effect) (h k : List Held) : Type 0 where
  pub nested : IsNested k
  pub gate : gates k + gate_out e ≡ gates h + gate_in e
  pub place : (j : Str) → places j k + place_out j e ≡ places j h + place_in j e
  pub size : length h + grows e ≤ length k + 1
  pub dir : (j : Str) → owned j k + dir_out j e ≡ owned j h + dir_in j e

abbrev one : Str → List Held
one ip = ip_slot ip ∷ []

abbrev two : Str → List Held
two ip = gate_slot ∷ one ip

abbrev three : Str → Str → List Held
three d ip = temp_dir d ∷ two ip

with_none : (e : Effect) (k : List Held) → allow e [] ≡ some k → Allowed e [] k
with_none (enter_ip ip) k p = ground arith
with_none (record_access n) k p = ground arith
with_none e k p = cc

with_one :
    (ip : Str) (e : Effect) (k : List Held) → allow e (one ip) ≡ some k → Allowed e (one ip) k
with_one ip enter_gate k p = ground arith
with_one ip (leave_ip j) k p = ground (arith, ==_iff j ip)
with_one ip e k p = cc

with_two :
    (ip : Str) (e : Effect) (k : List Held) → allow e (two ip) ≡ some k → Allowed e (two ip) k
with_two ip (make_dir d) k p = ground arith
with_two ip (convert_file j) k p = ground arith
with_two ip leave_gate k p = ground arith
with_two ip e k p = cc

with_three :
    (d ip : Str) (e : Effect) (k : List Held)
    → allow e (three d ip) ≡ some k
    → Allowed e (three d ip) k
with_three d ip (write_file n b) k p = ground arith
with_three d ip close_upload k p = ground arith
with_three d ip (convert_file j) k p = ground arith
with_three d ip (remove_dir c) k p = ground (arith, ==_iff c d)
with_three d ip e k p = cc

pub allow-Allowed : (e : Effect) (h k : List Held) → IsNested h → allow e h ≡ some k → Allowed e h k
allow-Allowed e [] k n p = with_none e k p
allow-Allowed e (ip_slot ip ∷ []) k n p = with_one ip e k p
allow-Allowed e (gate_slot ∷ ip_slot ip ∷ []) k n p = with_two ip e k p
allow-Allowed e (temp_dir d ∷ gate_slot ∷ ip_slot ip ∷ []) k n p = with_three d ip e k p
allow-Allowed e h k n p = absurd n
