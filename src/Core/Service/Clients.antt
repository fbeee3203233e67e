-- ===== src/Core/Service/Clients.antt =====
-- Which converter DocsiferService of docsifer/core/service.py takes for a request.
use docsifer.Prelude.{
  ◌≡◌, refl, subst, Bool, true, ◌&&◌, Option, none, some, inl, inr, Str, Option-cases, Bool-cases,
  arith,
}
use docsifer.Prelude.Dict.{Dict}
use docsifer.Core.LlmRegistry
use docsifer.Core.LlmRegistry.{LlmConfig, TtlCache, from_dict, cache_key}
use docsifer.Core.LlmRegistry.Keys.{IsFaithful, get-IsFaithful}
use docsifer.Core.Mime.{Disk}
use docsifer.Core.Service.{Tools, Converter, Done, Source, select_converter}
use docsifer.Core.Service.Dispatch.{convert_sync}

module _ {V : Type 0} (cache : TtlCache V) (digest : Str → Str) (build : LlmConfig → V)
    (raising : LlmConfig → Bool) (basic : Converter) (client : V → Converter) where
  abbrev converter_of : Option V → Converter
  converter_of none = basic
  converter_of (some v) = client v

  module _ (tools : Tools) where
    unfoldable pub convert_file :
        Source
        → Dict Str Str
        → Str
        → Str
        → Option (Dict Str (Dict Str Str))
        → Bool
        → Disk
        → cache.Entries
        → cache.Entries × Done
    unfolding select_converter convert_sync
    convert_file source openai_config url model http_config cleanup_html disk s =
        let (t, v) = select_converter cache digest build raising openai_config url model s in
        (t, convert_sync tools source (converter_of v) http_config cleanup_html disk)

  -- The converters that a request may have.
  pub data Chosen (openai_config : Dict Str Str) (url model : Str) : Converter → Type 0 where
    without : from_dict openai_config url model ≡ none → Chosen openai_config url model basic
    unbuilt :
        (c : LlmConfig)
        → from_dict openai_config url model ≡ some c
        → raising c ≡ true
        → Chosen openai_config url model basic
    own :
        (c b : LlmConfig)
        → from_dict openai_config url model ≡ some c
        → cache_key digest b ≡ cache_key digest c
        → Chosen openai_config url model (client (build b))

  select_converter-Chosen :
      (d : Dict Str Str) (url model : Str) (s : cache.Entries)
      → IsFaithful cache digest build s
      → let r = select_converter cache digest build raising d url model s in
        IsFaithful cache digest build r.0 × Chosen d url model (converter_of r.1)
  unfolding select_converter
  select_converter-Chosen d url model s f = elim (Option-cases (from_dict d url model)) [
    | inl e ↦ rw (select_converter, e) (f, without e)
    | inr (c, e) ↦
        let got = LlmRegistry.get cache digest build c s in
        let (kept, (b, same, eq), again) = get-IsFaithful cache digest build c s f in
        elim (Bool-cases (got.2 && raising c)) [
          | inl h ↦ rw (select_converter, e, h) (f, unbuilt c e (ground arith))
          | inr h ↦
              rw (select_converter, e, h)
                (kept, subst (λ v. Chosen d url model (client v)) eq (own c b e same))
        ]
  ]

  -- If every client in the cache was built for its key, a conversion leaves the cache so, and it is
  -- the conversion with the basic converter or with a client: basic only where the request gives no
  -- configuration or its client cannot be built, and else a client that was built for a
  -- configuration with the same cache key.
  pub convert_file-Chosen :
      (tools : Tools) (source : Source) (d : Dict Str Str) (url model : Str)
      (http_config : Option (Dict Str (Dict Str Str))) (cleanup_html : Bool) (disk : Disk)
      (s : cache.Entries)
      → IsFaithful cache digest build s
      → let r = convert_file tools source d url model http_config cleanup_html disk s in
        IsFaithful cache digest build r.0
        × ((md : Converter) × Chosen d url model md
            × (r.1 ≡ convert_sync tools source md http_config cleanup_html disk))
  unfolding convert_file
  convert_file-Chosen tools source d url model http_config cleanup_html disk s f =
      let (kept, chosen) = select_converter-Chosen d url model s f in (kept, (_, chosen, refl))
