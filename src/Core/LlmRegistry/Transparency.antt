-- ===== src/Core/LlmRegistry/Transparency.antt =====
-- Serving clients from the cache of docsifer/core/llm_registry.py is the same as building each one.
use docsifer.Prelude.{
  ◌≡◌, refl, ap, subst, sym, ◌∙◌, false, some, List, [], ◌∷◌, ◌++◌, map, All, Str, str_eq, ◌==◌,
  ==_iff, arith, Option-cases, Bool-cases, inl, inr,
}
use mathlib.Core.List.{append_assoc}
use docsifer.Prelude.Text.{contains_char}
use docsifer.Core.LlmRegistry.{LlmConfig, cache_key, TtlCache, get, clear}
use docsifer.Core.LlmRegistry.Keys.{get-hit, get-miss}

abbrev pub HasNoBar : Str → Type 0
HasNoBar s = contains_char b'|' s ≡ false

-- A text up to its first bar.
bar-injective :
    (a b s t : Str) → HasNoBar a → HasNoBar b → a ++ b'|' ∷ s ≡ b ++ b'|' ∷ t → (a ≡ b) × (s ≡ t)
unfolding contains_char
bar-injective [] [] s t h k e = ground arith
bar-injective [] (c ∷ b) s t h k e = ground arith
bar-injective (c ∷ a) [] s t h k e = ground arith
bar-injective (c ∷ a) (d ∷ b) s t h k e = ground (arith, bar-injective a b s t)

cache_key-eq :
    (digest : Str → Str) (c : LlmConfig)
    → cache_key digest c ≡ digest c.api_key ++ b'|' ∷ (c.base_url ++ b'|' ∷ c.model)
unfolding cache_key
cache_key-eq digest c = simp append_assoc

module _ {V : Type 0} (cache : TtlCache V) (digest : Str → Str) (build : LlmConfig → V) where
  -- The clients that a sequence of requests gets.
  unfoldable pub serve : List LlmConfig → cache.Entries → List V
  serve [] s = []
  serve (c ∷ cs) s = let (t, v, _) = get cache digest build c s in v ∷ serve cs t

module _ (digest : Str → Str) (Used : LlmConfig → Type 0) where
  -- The configurations in use have no bar in their URLs, and the digest tells their keys apart.
  pub record AreApart : Type 0 where
    pub digest_free : (key : Str) → HasNoBar (digest key)
    pub url_free : (c : LlmConfig) → Used c → HasNoBar c.base_url
    pub apart :
        (b c : LlmConfig)
        → Used b
        → Used c
        → digest b.api_key ≡ digest c.api_key
        → b.api_key ≡ c.api_key

  cache_key-injective :
      AreApart
      → (b c : LlmConfig) → Used b
      → Used c
      → cache_key digest b ≡ cache_key digest c
      → b ≡ c
  cache_key-injective a b c ub uc e =
      let (keys, rest) =
        bar-injective (digest b.api_key) (digest c.api_key) _ _ (a.digest_free b.api_key)
          (a.digest_free c.api_key) (sym (cache_key-eq digest b) ∙ e ∙ cache_key-eq digest c) in
      let (urls, models) =
        bar-injective b.base_url c.base_url _ _ (a.url_free b ub) (a.url_free c uc) rest in
      ground (arith, a.apart b c ub uc keys, urls, models)

  module _ {V : Type 0} (cache : TtlCache V) (build : LlmConfig → V) where
    record IsOwn (s : cache.Entries) : Type 0 where
      built :
          (k : Str) (v : V)
          → cache.get k s ≡ some v
          → (c : LlmConfig) × Used c × (cache_key digest c ≡ k) × (build c ≡ v)

    put-IsOwn :
        (c : LlmConfig) (s : cache.Entries)
        → Used c
        → IsOwn s
        → IsOwn (cache.put (cache_key digest c) (build c) s)
    put-IsOwn c s u o =
        let key = cache_key digest c in
        record {
          built = λ k v h. elim (Bool-cases (key == k)) [
            | inl e ↦
                let same = (==_iff key k).0 e in
                let stored =
                  subst (λ j. cache.get j (cache.put key (build c) s) ≡ some (build c)) same
                    (cache.get-put_self key (build c) s) in
                (c, u, same, cc)
            | inr e ↦ o.built k v (cache.get-put_other key k (build c) v s e h)
          ];
        }

    get-IsOwn :
        AreApart
        → (c : LlmConfig) (s : cache.Entries) → Used c
        → IsOwn s
        → let r = get cache digest build c s in IsOwn r.0 × (r.1 ≡ build c)
    get-IsOwn a c s u o = elim (Option-cases (cache.get (cache_key digest c) s)) [
      | inl e ↦ rw (get-miss cache digest build c s e) (put-IsOwn c s u o, refl)
      | inr (v, e) ↦
          let (b, ub, same, eq) = o.built (cache_key digest c) v e in
          rw (get-hit cache digest build c s v e)
            (o, sym eq ∙ ap build (cache_key-injective a b c ub u same))
    ]

    serve-IsOwn :
        AreApart
        → (cs : List LlmConfig) (s : cache.Entries) → All Used cs
        → IsOwn s
        → serve cache digest build cs s ≡ map build cs
    unfolding serve
    serve-IsOwn a [] s us o = refl
    serve-IsOwn a (c ∷ cs) s us o =
        let (kept, eq) = get-IsOwn a c s us.0 o in rw (eq, serve-IsOwn a cs _ us.1 kept) refl

    -- If the URLs in use have no bar, and the digests have none and tell the API keys in use apart,
    -- any sequence of requests to a registry that was just cleared gets the clients that would be
    -- built for their own configurations, whatever the cache evicts in between.
    pub serve-clear :
        AreApart
        → (cs : List LlmConfig) (s : cache.Entries) → All Used cs
        → serve cache digest build cs (clear cache s) ≡ map build cs
    unfolding clear
    serve-clear a cs s us =
        serve-IsOwn a cs _ us
          (record { built = λ k v h. absurd (ground (arith, cache.get-clear k s, h)) })
