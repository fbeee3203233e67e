-- ===== src/Config/Extensions.antt =====
-- The extension setting of docsifer/config.py and the check of docsifer/api/v1/convert.py that
-- reads it.
use docsifer.Prelude.{◌≡◌, refl, ap, true, List, [], ◌∷◌, ◌++◌, map, Str, str_eq, ==_refl, arith}
use docsifer.Prelude.Text.{lower, lower_char, lower_idem, starts_with}
use docsifer.Prelude.PathNames.{suffix}
use docsifer.Exceptions.{ok}
use docsifer.Api.Upload.{listed, check_extension}
use docsifer.Config.{Raw, items, split_csv, normalize_ext, normalize_exts}

normalize_ext_idem : (e : Str) → normalize_ext (normalize_ext e) ≡ normalize_ext e
unfolding normalize_ext starts_with lower lower_char
normalize_ext_idem [] = refl
normalize_ext_idem (c ∷ e) = ground (arith, lower_idem e)

map-normalize_ext :
    (es : List Str) → map normalize_ext (map normalize_ext es) ≡ map normalize_ext es
map-normalize_ext [] = refl
map-normalize_ext (e ∷ es) = rw (normalize_ext_idem e, map-normalize_ext es) refl

-- Settings that were normalized once are left as they are, so that a value may pass the validator
-- again.
pub normalize_exts_idem : (v : Raw) → normalize_exts (items (normalize_exts v)) ≡ normalize_exts v
unfolding normalize_exts
normalize_exts_idem v = map-normalize_ext (split_csv v)

listed-map :
    (e : Str) (xs ys : List Str)
    → listed (normalize_ext e) (map normalize_ext (xs ++ e ∷ ys)) ≡ true
unfolding listed
listed-map e [] ys = rw (==_refl (normalize_ext e)) refl
listed-map e (x ∷ xs) ys = ground (arith, listed-map e xs ys)

-- A file is let in if its suffix, in any case, is a configured extension, which may have been
-- written in any case, with or without its dot, anywhere in the list.
pub check_extension-normalize_exts :
    (filename e : Str) (xs ys : List Str) (v : Raw)
    → split_csv v ≡ xs ++ e ∷ ys
    → lower (suffix filename) ≡ normalize_ext e
    → check_extension filename (normalize_exts v) ≡ ok tt
unfolding check_extension normalize_exts
check_extension-normalize_exts filename e xs ys v h k =
    ground (arith, listed-map e xs ys, ap (map normalize_ext) h)
