-- ===== src/Api/Convert/Single.antt =====
-- The conversions and the counts among the effects of a request: docsifer/api/v1/convert.py.
use docsifer.Prelude.{ℕ, ◌≡◌, refl, ap, List, [], ◌∷◌, ◌++◌}
use docsifer.Exceptions.{Result, ok, err}
use docsifer.Api.Convert.{
  World, Job, Effect, enter_ip, convert_file, record_access, Run, then_do, ConvertResult,
}

-- The conversions among some effects, and the counts of tokens that are recorded.
abbrev pub conversions : List Effect → List Job
conversions [] = []
conversions (convert_file j ∷ es) = j ∷ conversions es
conversions (e ∷ es) = conversions es

abbrev pub counted : List Effect → List ℕ
counted [] = []
counted (record_access n ∷ es) = n ∷ counted es
counted (e ∷ es) = counted es

pub conversions-append :
    (xs ys : List Effect) → conversions (xs ++ ys) ≡ conversions xs ++ conversions ys
conversions-append [] ys = refl
conversions-append (convert_file j ∷ xs) ys = ap (λ l. j ∷ l) (conversions-append xs ys)
conversions-append (enter_ip ip ∷ xs) ys = conversions-append xs ys
conversions-append (e ∷ xs) ys = conversions-append xs ys

pub counted-append : (xs ys : List Effect) → counted (xs ++ ys) ≡ counted xs ++ counted ys
counted-append [] ys = refl
counted-append (record_access n ∷ xs) ys = ap (λ l. n ∷ l) (counted-append xs ys)
counted-append (enter_ip ip ∷ xs) ys = counted-append xs ys
counted-append (e ∷ xs) ys = counted-append xs ys

-- A run that ends with the result of its only conversion, or raises; it records nothing.
pub record FromOne (w : World) (es : List Effect) (c : ConvertResult) : Type 0 where
  pub job : Job
  pub only : conversions es ≡ job ∷ []
  pub gave : w.convert job ≡ ok c

abbrev pub IsSingle : World → List Effect → Result ConvertResult → Type 0
IsSingle w es (ok c) = (counted es ≡ []) × FromOne w es c
IsSingle w es (err e) = counted es ≡ []

-- Effects around a run that neither convert nor record.
pub record Quiet (es : List Effect) : Type 0 where
  pub converts : conversions es ≡ []
  pub records : counted es ≡ []

module _ (w : World) where
  pub before-IsSingle :
      (es : List Effect) (r : Run ConvertResult)
      → Quiet es
      → IsSingle w r.0 r.1
      → IsSingle w (es ++ r.0) r.1
  before-IsSingle es (rs, ok c) q (n, one) = (
    rw (counted-append es rs, q.records) n,
    record {
      job = one.job;
      only = rw (conversions-append es rs, q.converts) one.only;
      gave = one.gave;
    },
  )
  before-IsSingle es (rs, err e) q n = rw (counted-append es rs, q.records) n

  pub finally-IsSingle :
      (r : Run ConvertResult) (es : List Effect)
      → Quiet es
      → IsSingle w r.0 r.1
      → IsSingle w (r.0 ++ es) r.1
  finally-IsSingle (rs, ok c) es q (n, one) = (
    rw (counted-append rs es, n) q.records,
    record {
      job = one.job;
      only = rw (conversions-append rs es, one.only, q.converts) refl;
      gave = one.gave;
    },
  )
  finally-IsSingle (rs, err e) es q n = rw (counted-append rs es, n) q.records

  pub then_do-IsSingle :
      {A : Type 0} (r : Result A) (f : A → Run ConvertResult)
      → ((a : A) → IsSingle w (f a).0 (f a).1)
      → IsSingle w (then_do r f).0 (then_do r f).1
  then_do-IsSingle (ok a) f k = k a
  then_do-IsSingle (err e) f k = refl

  pub job-IsSingle :
      (job : Job) (r : Result ConvertResult)
      → w.convert job ≡ r
      → IsSingle w (convert_file job ∷ []) r
  job-IsSingle job (ok c) e = (refl, record { job = job; only = refl; gave = e })
  job-IsSingle job (err x) e = refl
