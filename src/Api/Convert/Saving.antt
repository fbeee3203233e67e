-- ===== src/Api/Convert/Saving.antt =====
-- What a successful save of an upload of docsifer/api/v1/convert.py has done.
use docsifer.Prelude.{
  ℕ, ◌≤◌, ◌≡◌, refl, false, some, [], ◌∷◌, ◌++◌, Str, str_eq, ◌==◌, Option-cases, inl, inr, length,
  arith, ap, subst,
}
use docsifer.Prelude.Text.{codes}
use docsifer.Exceptions.{Result, ok, err}
use docsifer.Api.Upload.{stream_to_disk}
use docsifer.Api.Upload.Copy.{Copied, stream_to_disk-Copied}
use docsifer.Config.{Settings}
use docsifer.Api.Convert.{World, write_file, close_upload, open_upload, write_upload, save}

module _ (settings : Settings) (w : World) where
  -- A copy that ends well wrote the whole body, and its size is that of the body.
  Copied-whole :
      {max_bytes n : ℕ} {body : Str} (out : Result ℕ × Str)
      → Copied max_bytes 0 body [] (some out)
      → out.0 ≡ ok n
      → (out.1 ≡ body) × (n ≡ length body) × (n ≤ max_bytes)
  Copied-whole {n = n} (ok m, written) (size, whole, small) e =
      let same : m ≡ n = ground (arith, e) in
      (whole, omega (arith, size, same), omega (arith, small, same))
  Copied-whole (err x, written) c e = absurd (ground (arith, e))

  write_upload-whole :
      (d name body : Str) (size : ℕ)
      → (write_upload settings w d name body).1 ≡ ok size
      → ((write_upload settings w d name body).0 ≡ write_file (d ++ b'/' ∷ name) body ∷ [])
        × (size ≡ length body)
        × (size ≤ settings.max_upload_bytes)
        × ((name == codes "..") ≡ false)
  unfolding write_upload
  write_upload-whole d name body size h = elim (Option-cases (open_upload w.open_error name)) [
    | inr (e, p) ↦ absurd (ground (arith, p, h))
    | inl p ↦ elim (Option-cases (stream_to_disk settings.max_upload_bytes body)) [
      | inl q ↦ absurd (ground (arith, p, q, h))
      | inr (out, q) ↦
          let named : (name == codes "..") ≡ false = ground (arith, p) in
          let (whole, length, small) =
            Copied-whole out
              (subst (Copied settings.max_upload_bytes 0 body []) q
                (stream_to_disk-Copied settings.max_upload_bytes body))
              (ground (arith, p, q, h)) in
          (rw (p, q, whole, write_upload) refl, length, small, named)
    ]
  ]

  -- An upload that was saved well is a whole file under its name in its directory, which is the
  -- one thing that was done before the upload was closed.
  pub save-whole :
      (d name body : Str) (size : ℕ)
      → (save settings w d name body).1 ≡ ok size
      → ((save settings w d name body).0 ≡ write_file (d ++ b'/' ∷ name) body ∷ close_upload ∷ [])
        × (size ≡ length body)
        × (size ≤ settings.max_upload_bytes)
        × ((name == codes "..") ≡ false)
  unfolding save
  save-whole d name body size h =
      let (done, length, small, named) = write_upload-whole d name body size h in
      (ap (λ es. es ++ close_upload ∷ []) done, length, small, named)
