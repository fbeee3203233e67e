-- ===== src/Core/HtmlCleaner/Fallback.antt =====
-- The fallback of docsifer/core/html_cleaner.py on a text with one element.
use docsifer.Prelude.{
  ℕ, ◌≡◌, refl, ◌∙◌, ◌⊎◌, inl, inr, Bool, false, Option, none, [], ◌∷◌, ◌++◌, Str, length,
}
use docsifer.Prelude.Text.{codes, contains_char, lower_char}
use docsifer.Core.HtmlCleaner.{HtmlParser, parsed, fold_char, behind, sub, fallback, clean_html}
use docsifer.Core.HtmlCleaner.Patterns.{
  Kept, append-Kept, plain-Kept, sub-element, element-Kept, element_text, IsElement,
}

module _ (is_word : ℕ → Bool) where
  clean_html-fallback :
      (parser : Option HtmlParser) (s : Str)
      → parsed parser s ≡ none
      → clean_html is_word parser s ≡ fallback is_word s
  unfolding clean_html
  clean_html-fallback parser [] h = unfold fallback sub in refl
  clean_html-fallback parser (c ∷ s) h = rw (h, clean_html) refl

  pub data InertTag : Str → Type 0 where
    style : InertTag (codes "style")
    script : InertTag (codes "script")
    noscript : InertTag (codes "noscript")

  after_each :
      (s t : Str)
      → ((sub is_word (length s) (codes "style") s ≡ t)
          × Kept is_word (codes "script") t
          × Kept is_word (codes "noscript") t)
        ⊎ (Kept is_word (codes "style") s
            × ((sub is_word (length s) (codes "script") s ≡ t) × Kept is_word (codes "noscript") t))
        ⊎ (Kept is_word (codes "style") s
            × Kept is_word (codes "script") s
            × (sub is_word (length s) (codes "noscript") s ≡ t))
      → fallback is_word s ≡ t
  unfolding fallback
  after_each s t (inl (p, h, k)) = rw (p, h (length t), k (length t)) refl
  after_each s t (inr (inl (k, (p, h)))) = rw (k (length s), p, h (length t)) refl
  after_each s t (inr (inr (k, h, p))) = rw (k (length s), h (length s), p) refl

  -- Where selectolax is missing or raises, a style, script or noscript element with whatever
  -- attributes is cut out with its body, and the text around it is left, if no other `<` stands in
  -- the text.
  pub clean_html-element :
      (parser : Option HtmlParser) (tag a attrs body b : Str)
      → InertTag tag
      → is_word b'>' ≡ false
      → IsElement is_word tag attrs body
      → contains_char b'<' a ≡ false
      → contains_char b'<' b ≡ false
      → parsed parser (a ++ element_text is_word tag attrs body b) ≡ none
      → clean_html is_word parser (a ++ element_text is_word tag attrs body b) ≡ a ++ b
  unfolding behind fold_char lower_char contains_char
  clean_html-element parser _ a attrs body b style k e ha hb h =
      clean_html-fallback parser _ h
      ∙ after_each _ _ (
          inl (
            sub-element is_word (codes "style") a attrs body b e k ha hb,
            append-Kept is_word (codes "script") a b ha (plain-Kept is_word (codes "script") b hb),
            append-Kept is_word (codes "noscript") a b ha
                (plain-Kept is_word (codes "noscript") b hb),
          ))
  clean_html-element parser _ a attrs body b script k e ha hb h =
      clean_html-fallback parser _ h
      ∙ after_each _ _ (
          inr (
            inl (
              append-Kept is_word (codes "style") a _ ha (
                  element-Kept is_word (codes "style") (codes "script") attrs body b e refl
                    (λ s. refl) (λ s. refl) hb),
              (
                sub-element is_word (codes "script") a attrs body b e k ha hb,
                append-Kept is_word (codes "noscript") a b ha
                    (plain-Kept is_word (codes "noscript") b hb),
              ),
            )))
  clean_html-element parser _ a attrs body b noscript k e ha hb h =
      clean_html-fallback parser _ h
      ∙ after_each _ _ (
          inr (
            inr (
              append-Kept is_word (codes "style") a _ ha (
                  element-Kept is_word (codes "style") (codes "noscript") attrs body b e refl
                    (λ s. refl) (λ s. refl) hb),
              append-Kept is_word (codes "script") a _ ha (
                  element-Kept is_word (codes "script") (codes "noscript") attrs body b e refl
                    (λ s. refl) (λ s. refl) hb),
              sub-element is_word (codes "noscript") a attrs body b e k ha hb,
            )))
