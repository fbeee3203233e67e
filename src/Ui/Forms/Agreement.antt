-- ===== src/Ui/Forms/Agreement.antt =====
-- The form of docsifer/ui/gradio_app.py and the JSON of docsifer/api/schemas.py, as
-- docsifer/core/llm_registry.py reads them.
use docsifer.Prelude.{
  ◌≡◌, refl, ap, sym, ◌∙◌, false, some, [], ◌∷◌, Str, str_eq, arith, Bool-cases, inl, inr,
}
use docsifer.Prelude.Dict
use docsifer.Prelude.Dict.{Dict}
use docsifer.Prelude.Text.{codes, strip, strip_idem, is_empty}
use docsifer.Core.LlmRegistry.{from_dict, field_or}
use docsifer.Api.Schemas.{openai_dict, dict_of, is_enabled}
use docsifer.Ui.Forms.{build_openai_dict}

nonempty_field : (s d : Str) → is_empty s ≡ false → field_or (some s) d ≡ s
nonempty_field [] d h = absurd (ground arith)
nonempty_field (c ∷ s) d h = refl

-- A field that was stripped before it was stored is read as the one that was not.
stripped_field :
    (s d : Str)
    → is_empty (strip s) ≡ false
    → is_empty s ≡ false
    → strip (field_or (some (strip s)) d) ≡ strip (field_or (some s) d)
stripped_field s d h k =
    ap strip (nonempty_field (strip s) d h) ∙ (strip_idem s ∙ ap strip (sym (nonempty_field s d k)))

from_dict-cong :
    (d e : Dict Str Str) (url model : Str)
    → strip (field_or (Dict.get (codes "api_key") d) [])
      ≡ strip (field_or (Dict.get (codes "api_key") e) [])
    → strip (field_or (Dict.get (codes "base_url") d) url)
      ≡ strip (field_or (Dict.get (codes "base_url") e) url)
    → strip (field_or (Dict.get (codes "model") d) model)
      ≡ strip (field_or (Dict.get (codes "model") e) model)
    → from_dict d url model ≡ from_dict e url model
unfolding from_dict
from_dict-cong d e url model k b m = rw (k, b, m) refl

both_dicts :
    (k b m url model : Str)
    → is_empty (strip k) ≡ false
    → is_empty k ≡ false
    → is_empty (strip b) ≡ is_empty b
    → is_empty (strip m) ≡ is_empty m
    → from_dict (dict_of (build_openai_dict (some b) (some k) (some m))) url model
      ≡ from_dict
          (dict_of (openai_dict (record { api_key = some k; base_url = some b; model = some m })))
          url
          model
unfolding build_openai_dict openai_dict is_enabled Dict.get Dict.put
both_dicts k [] [] url model h f p q =
    rw (h, p, build_openai_dict, openai_dict, is_enabled)
      (from_dict-cong ((codes "api_key", strip k) ∷ []) ((codes "api_key", k) ∷ []) url model
        (stripped_field k [] h f) refl refl)
both_dicts k (x ∷ b) [] url model h f p q =
    rw (h, p, q, build_openai_dict, openai_dict, is_enabled)
      (from_dict-cong ((codes "api_key", strip k) ∷ (codes "base_url", strip (x ∷ b)) ∷ [])
        ((codes "api_key", k) ∷ (codes "base_url", x ∷ b) ∷ []) url model (stripped_field k [] h f)
        (stripped_field (x ∷ b) url p refl) refl)
both_dicts k [] (y ∷ m) url model h f p q =
    rw (h, p, q, build_openai_dict, openai_dict, is_enabled)
      (from_dict-cong ((codes "api_key", strip k) ∷ (codes "model", strip (y ∷ m)) ∷ [])
        ((codes "api_key", k) ∷ (codes "model", y ∷ m) ∷ []) url model (stripped_field k [] h f)
        refl (stripped_field (y ∷ m) model q refl))
both_dicts k (x ∷ b) (y ∷ m) url model h f p q =
    rw (h, p, q, build_openai_dict, openai_dict, is_enabled)
      (from_dict-cong
        ((codes "api_key", strip k)
          ∷ (codes "base_url", strip (x ∷ b))
          ∷ (codes "model", strip (y ∷ m))
          ∷ [])
        ((codes "api_key", k) ∷ (codes "base_url", x ∷ b) ∷ (codes "model", y ∷ m) ∷ []) url model
        (stripped_field k [] h f) (stripped_field (x ∷ b) url p refl)
        (stripped_field (y ∷ m) model q refl))

blank_key : (k : Str) → is_empty (strip k) ≡ false → is_empty k ≡ false
blank_key [] h = absurd (unfold strip in ground arith)
blank_key (c ∷ k) h = refl

-- The UI and the endpoint choose one converter for one input: whatever the key, and if the base URL
-- and the model are each empty or not blank, the form and the JSON of the same three texts give
-- the same configuration of the LLM, or both none.
pub build_openai_dict-openai_dict :
    (k b m url model : Str)
    → is_empty (strip b) ≡ is_empty b
    → is_empty (strip m) ≡ is_empty m
    → from_dict (dict_of (build_openai_dict (some b) (some k) (some m))) url model
      ≡ from_dict
          (dict_of (openai_dict (record { api_key = some k; base_url = some b; model = some m })))
          url
          model
unfolding build_openai_dict openai_dict is_enabled
build_openai_dict-openai_dict k b m url model p q = elim (Bool-cases (is_empty (strip k))) [
  | inl h ↦ rw (h, build_openai_dict, openai_dict, is_enabled) refl
  | inr h ↦ both_dicts k b m url model h (blank_key k h) p q
]
