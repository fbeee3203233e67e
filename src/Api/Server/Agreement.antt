-- ===== src/Api/Server/Agreement.antt =====
-- The gate and the limiter of a server answer as the endpoint expects: docsifer/api/v1/convert.py.
use docsifer.Prelude.{
  ◌≡◌, refl, sym, subst, ◌⊎◌, inl, inr, Bool, true, false, List, [], ◌∷◌, Str, Bool-cases,
}
use mathlib.Core.Path.{fun_ext}
use docsifer.Prelude.Text.{codes}
use docsifer.Exceptions.{Result, ok, err}
use docsifer.Config.{Settings}
use docsifer.Api.Schemas.{
  OpenAiConfig, HttpConfig, ConvertSettings, default_openai, default_http, default_settings,
}
use docsifer.Api.Convert.{
  World, Request, Effect, enter_ip, enter_gate, admitted, turned_away, gone, Turn, parse_json_form,
  job_of, missing, convert_source, within_limits, respond_with, convert_document, then_do, sequence,
}
use docsifer.Api.Convert.Brackets.{ip_slot}
use docsifer.Api.Server.{unwind}

-- What a request does, by how its limits answer: before the limiter it does nothing at all, or it
-- reaches the limiter and then the gate.
pub record Agrees (ip : Str) (answered : Bool → Turn → List Effect) : Type 0 where
  pub at_limiter : answered false admitted ≡ unwind []
  pub at_gate : answered true turned_away ≡ enter_ip ip ∷ unwind (ip_slot ip ∷ [])
  pub in_line : answered true gone ≡ enter_ip ip ∷ unwind (ip_slot ip ∷ [])
  pub enters : (rest : List Effect) × (answered true admitted ≡ enter_ip ip ∷ enter_gate ∷ rest)

module _ (settings : Settings) (w : World) (r : Request) where
  abbrev with_answers : Bool → Turn → World
  with_answers admits turn = record w { ip_admits = admits; turn = turn }

  abbrev pub answered : Bool → Turn → List Effect
  answered admits turn = (convert_document settings (with_answers admits turn) r).0

  abbrev parsed :
      Result OpenAiConfig → Result HttpConfig → Result ConvertSettings → Bool → Turn → List Effect
  parsed a b c admits turn =
      (then_do a λ openai. then_do b λ http. then_do c λ convert.
        sequence settings (with_answers admits turn)
          (within_limits settings (with_answers admits turn) r.client_ip (
            convert_source settings (with_answers admits turn) r
              (job_of settings (with_answers admits turn) openai http convert)))
          (respond_with settings (with_answers admits turn))).0

  parsed-Agrees :
      (a : Result OpenAiConfig) (b : Result HttpConfig) (c : Result ConvertSettings)
      → ((admits : Bool) (turn : Turn) → parsed a b c admits turn ≡ [])
        ⊎ Agrees r.client_ip (parsed a b c)
  unfolding within_limits
  parsed-Agrees (err e) b c = inl (λ admits turn. refl)
  parsed-Agrees (ok a) (err e) c = inl (λ admits turn. refl)
  parsed-Agrees (ok a) (ok b) (err e) = inl (λ admits turn. refl)
  parsed-Agrees (ok a) (ok b) (ok c) =
      inr (record { at_limiter = refl; at_gate = refl; in_line = refl; enters = (_, refl) })

  answered-missing :
      missing settings w r ≡ true → (admits : Bool) (turn : Turn) → answered admits turn ≡ []
  unfolding convert_document
  answered-missing e admits turn = rw (e, answered, convert_document) refl

  abbrev given : Bool → Turn → List Effect
  given =
      parsed (parse_json_form (codes "openai") r.openai default_openai w.parse_openai)
        (parse_json_form (codes "http") r.http default_http w.parse_http)
        (parse_json_form (codes "settings") r.settings_form default_settings w.parse_settings)

  answered-given :
      missing settings w r ≡ false
      → (admits : Bool) (turn : Turn) → answered admits turn ≡ given admits turn
  unfolding convert_document
  answered-given e admits turn = rw (e, answered, convert_document) refl

  -- A request ends before the limiter, whatever the limits would answer, or it asks the limiter and
  -- then the gate, and what it does after a refusal of either, or after a cancelled wait, is what a
  -- thread of the server does.
  pub answered-Agrees :
      ((admits : Bool) (turn : Turn) → answered admits turn ≡ []) ⊎ Agrees r.client_ip answered
  answered-Agrees = elim (Bool-cases (missing settings w r)) [
    | inl e ↦ inl (answered-missing e)
    | inr e ↦
        let same = fun_ext (λ admits. fun_ext (λ turn. answered-given e admits turn)) in
        subst (λ f. ((admits : Bool) (turn : Turn) → f admits turn ≡ []) ⊎ Agrees r.client_ip f)
          (sym same) (parsed-Agrees _ _ _)
  ]
