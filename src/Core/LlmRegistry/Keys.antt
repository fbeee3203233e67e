-- ===== src/Core/LlmRegistry/Keys.antt =====
-- Which client the registry of docsifer/core/llm_registry.py gives to a configuration.
use docsifer.Prelude.{
  ◌≡◌, refl, subst, true, false, none, some, ◌∷◌, ◌++◌, Str, str_eq, ◌==◌, ==_iff, arith,
  Option-cases, Bool-cases, inl, inr,
}
use mathlib.Core.List.{append_assoc}
use docsifer.Core.LlmRegistry.{LlmConfig, cache_key, TtlCache, get, clear}

module _ {V : Type 0} (cache : TtlCache V) (digest : Str → Str) (build : LlmConfig → V) where
  -- Every instance in the cache was built for a configuration with its key.
  pub record IsFaithful (s : cache.Entries) : Type 0 where
    pub built :
        (k : Str) (v : V)
        → cache.get k s ≡ some v
        → (c : LlmConfig) × (cache_key digest c ≡ k) × (build c ≡ v)

  pub get-hit :
      (c : LlmConfig) (s : cache.Entries) (v : V)
      → cache.get (cache_key digest c) s ≡ some v
      → get cache digest build c s ≡ (s, v, false)
  unfolding get
  get-hit c s v e = ground arith

  pub get-miss :
      (c : LlmConfig) (s : cache.Entries)
      → cache.get (cache_key digest c) s ≡ none
      → get cache digest build c s ≡ (cache.put (cache_key digest c) (build c) s, build c, true)
  unfolding get
  get-miss c s e = ground arith

  put-IsFaithful :
      (c : LlmConfig) (s : cache.Entries)
      → IsFaithful s
      → IsFaithful (cache.put (cache_key digest c) (build c) s)
  put-IsFaithful c s f =
      let key = cache_key digest c in
      record {
        built = λ k v h. elim (Bool-cases (key == k)) [
          | inl e ↦
              let same = (==_iff key k).0 e in
              let stored =
                subst (λ j. cache.get j (cache.put key (build c) s) ≡ some (build c)) same
                  (cache.get-put_self key (build c) s) in
              (c, same, cc)
          | inr e ↦ f.built k v (cache.get-put_other key k (build c) v s e h)
        ];
      }

  -- If every instance in the cache was built for its key, `get` gives an instance that was built
  -- for a configuration with the same key, keeps the cache so, and a second `get` gives the same
  -- instance and builds nothing.
  pub get-IsFaithful :
      (c : LlmConfig) (s : cache.Entries)
      → IsFaithful s
      → let r = get cache digest build c s in
        IsFaithful r.0
        × ((b : LlmConfig) × (cache_key digest b ≡ cache_key digest c) × (build b ≡ r.1))
        × (get cache digest build c r.0 ≡ (r.0, r.1, false))
  get-IsFaithful c s f = elim (Option-cases (cache.get (cache_key digest c) s)) [
    | inl e ↦
        let again = get-hit c _ (build c) (cache.get-put_self (cache_key digest c) (build c) s) in
        rw (get-miss c s e) (put-IsFaithful c s f, (c, refl, refl), again)
    | inr (v, e) ↦ rw (get-hit c s v e) (f, f.built (cache_key digest c) v e, get-hit c s v e)
  ]

  -- After `clear` the cache is faithful whatever it held, and each configuration gets a client that
  -- is built for it.
  pub clear-IsFaithful :
      (s : cache.Entries)
      → IsFaithful (clear cache s)
        × ((c : LlmConfig)
            → get cache digest build c (clear cache s)
              ≡ (cache.put (cache_key digest c) (build c) (clear cache s), build c, true))
  unfolding clear
  clear-IsFaithful s = (
    record { built = λ k v h. absurd (ground (arith, cache.get-clear k s, h)) },
    λ c. get-miss c _ (cache.get-clear (cache_key digest c) s),
  )

-- The key does not tell configurations apart: a bar may belong to the URL or to the model.
pub cache_key-collides :
    (digest : Str → Str) (key url middle model : Str)
    → cache_key digest (record { api_key = key; base_url = url; model = middle ++ b'|' ∷ model })
      ≡ cache_key digest (record { api_key = key; base_url = url ++ b'|' ∷ middle; model = model })
unfolding cache_key
cache_key-collides digest key url middle model = simp append_assoc
