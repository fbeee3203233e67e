-- ===== src/Core/LlmRegistry.antt =====
-- docsifer/core/llm_registry.py. SHA-256, `cachetools.TTLCache` and the clients are parameters.
pub mod Keys
pub mod Transparency
use docsifer.Prelude.{
  ℕ, ◌≡◌, Bool, Option, none, some, List, [], ◌∷◌, ◌++◌, Str, str_eq, ◌==◌, if◌then◌else◌,
}
use docsifer.Prelude.Dict
use docsifer.Prelude.Dict.{Dict}
use docsifer.Prelude.Text.{codes, strip, rstrip_char, is_empty}

pub record LlmConfig : Type 0 where
  pub api_key : Str
  pub base_url : Str
  pub model : Str

-- `data.get(k) or default`, of a dict whose values are texts.
abbrev pub field_or : Option Str → Str → Str
field_or none d = d
field_or (some []) d = d
field_or (some (c ∷ s)) d = c ∷ s

-- An absent dict is an empty one.
unfoldable pub from_dict : Dict Str Str → Str → Str → Option LlmConfig
from_dict d default_base_url default_model =
    let api_key = strip (field_or (Dict.get (codes "api_key") d) []) in
    if is_empty api_key
    then none
    else some (record {
      api_key = api_key;
      base_url =
          rstrip_char b'/' (strip (field_or (Dict.get (codes "base_url") d) default_base_url));
      model = strip (field_or (Dict.get (codes "model") d) default_model);
    })

-- `digest` is the first 16 hexadecimal digits of the key's SHA-256.
unfoldable pub cache_key : (Str → Str) → LlmConfig → Str
cache_key digest c = digest c.api_key ++ b'|' ∷ c.base_url ++ b'|' ∷ c.model

-- What the registry uses of `TTLCache`, at one moment: what `get` answers after an assignment and
-- after `clear`. Another entry may have been evicted by an assignment.
pub record TtlCache (V : Type 0) : Type 1 where
  pub Entries : Type 0
  pub get : Str → Entries → Option V
  pub put : Str → V → Entries → Entries
  pub clear : Entries → Entries
  pub get-put_self : (k : Str) (v : V) (s : Entries) → get k (put k v s) ≡ some v
  pub get-put_other :
      (k j : Str) (v w : V) (s : Entries)
      → (k == j) ≡ Bool.false
      → get j (put k v s) ≡ some w
      → get j s ≡ some w
  pub get-clear : (k : Str) (s : Entries) → get k (clear s) ≡ none

-- `LLMRegistry.clear`
unfoldable pub clear : {V : Type 0} (cache : TtlCache V) → cache.Entries → cache.Entries
clear cache s = cache.clear s

module _ {V : Type 0} (cache : TtlCache V) (digest : Str → Str) (build : LlmConfig → V) where
  -- `LLMRegistry.get`: the entries after it, the instance, and whether it was built now.
  unfoldable pub get : LlmConfig → cache.Entries → cache.Entries × V × Bool
  unfolding cache_key
  get c s =
      let key = cache_key digest c in
      elim (cache.get key s) [
        | some v ↦ (s, v, Bool.false)
        | none ↦ let v = build c in (cache.put key v s, v, Bool.true)
      ]
