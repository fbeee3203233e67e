-- ===== src/Tests/Clients.antt =====
-- Runs of docsifer/core/llm_registry.py and of the choice of a converter in
-- docsifer/core/service.py.
use docsifer.Prelude.{
  ◌≡◌, refl, sym, ◌∙◌, map, Bool, true, false, Option, none, some, [], ◌∷◌, ◌++◌, Str, arith,
  if◌then◌else◌, str_eq, ◌==◌, ==_refl,
}
use docsifer.Prelude.Dict
use docsifer.Prelude.Dict.{Dict}
use docsifer.Prelude.Text.{codes}
use docsifer.Core.LlmRegistry.{LlmConfig, cache_key, TtlCache, clear}
use docsifer.Core.LlmRegistry.Keys.{IsFaithful}
use docsifer.Core.LlmRegistry.Transparency.{HasNoBar, AreApart, serve, serve-clear}
use docsifer.Core.Service.{Converter, returns, path}
use docsifer.Core.Service.Dispatch.{convert_sync}
use docsifer.Core.Service.Clients.{Chosen, convert_file, convert_file-Chosen}
use docsifer.Tests.Conversions.{disk, tools, markitdown}

unlike : (b : Bool) (v w : LlmConfig) → b ≡ false → (if b then some v else none) ≡ some w → ⊥
unlike b v w h e = ground arith

-- A cache with room for one entry.
abbrev last_only : TtlCache LlmConfig
last_only = record {
  Entries = Option (Str × LlmConfig);
  get = λ k s. elim s [ none ↦ none | some e ↦ if e.0 == k then some e.1 else none ];
  put = λ k v s. some (k, v);
  clear = λ s. none;
  get-put_self = λ k v s. rw (==_refl k) refl;
  get-put_other = λ k j v w s h e. absurd (unlike (k == j) v w h e);
  get-clear = λ k s. refl;
}

abbrev gpt : LlmConfig
gpt = record { api_key = codes "sk-1"; base_url = codes "https://llm.example"; model = codes "m" }

empty-IsFaithful : IsFaithful last_only (λ k. k) (λ c. c) none
empty-IsFaithful = record { built = λ k v h. absurd (ground arith) }

-- A converter that puts its model before the text.
abbrev describing : LlmConfig → Converter
describing c = record markitdown { convert = λ d p. returns (some (c.model ++ p)) }

abbrev form : Dict Str Str
form = (codes "api_key", codes " sk-1 ") ∷ (codes "model", codes "m") ∷ []

abbrev url : Str
url = codes "https://llm.example/"

convert_file-Chosen_example :
    let r =
      convert_file last_only
        (λ k. k)
        (λ c. c)
        (λ c. false)
        markitdown
        describing
        tools
        (path (codes "/etc/motd.txt"))
        form
        url
        (codes "gpt")
        none
        true
        disk
        none in
    IsFaithful last_only (λ k. k) (λ c. c) r.0
    × ((md : Converter) × Chosen last_only
          (λ k. k)
          (λ c. c)
          (λ c. false)
          markitdown
          describing
          form
          url
          (codes "gpt")
          md
        × (r.1 ≡ convert_sync tools (path (codes "/etc/motd.txt")) md none true disk))
convert_file-Chosen_example =
    convert_file-Chosen last_only (λ k. k) (λ c. c) (λ c. false) markitdown describing tools
      (path (codes "/etc/motd.txt")) form url (codes "gpt") none true disk none empty-IsFaithful

-- The client is left in the cache, under the key of the stripped configuration.
cached_run :
    (convert_file last_only
      (λ k. k)
      (λ c. c)
      (λ c. false)
      markitdown
      describing
      tools
      (path (codes "/etc/motd.txt"))
      form
      url
      (codes "gpt")
      none
      true
      disk
      none).0
    ≡ some (cache_key (λ k. k) gpt, gpt)
unfolding convert_file cache_key docsifer.Prelude.Text.strip docsifer.Prelude.Text.rstrip_char
    Dict.get
cached_run = refl

-- One API key; no bar in a URL.
abbrev Used : LlmConfig → Type 0
Used c = (c.api_key ≡ codes "sk-1") × HasNoBar c.base_url

used_apart : AreApart (λ k. []) Used
unfolding docsifer.Prelude.Text.contains_char
used_apart = record {
  digest_free = λ k. refl;
  url_free = λ c u. u.1;
  apart = λ b c u v e. u.0 ∙ sym v.0;
}

abbrev gpt_mini : LlmConfig
gpt_mini = record gpt { model = codes "mini" }

serve-clear_example :
    serve last_only
      (λ k. [])
      (λ c. c)
      (gpt ∷ gpt ∷ gpt_mini ∷ [])
      (clear last_only (some (codes "x", gpt_mini)))
    ≡ map (λ c. c) (gpt ∷ gpt ∷ gpt_mini ∷ [])
unfolding docsifer.Prelude.Text.contains_char
serve-clear_example =
    serve-clear (λ k. []) Used last_only (λ c. c) used_apart (gpt ∷ gpt ∷ gpt_mini ∷ [])
      (some (codes "x", gpt_mini)) ((refl, refl), ((refl, refl), ((refl, refl), tt)))
