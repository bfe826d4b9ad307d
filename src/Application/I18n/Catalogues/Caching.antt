-- ===== src/Application/I18n/Catalogues/Caching.antt =====
-- A catalogue is looked for once for a locale.
use python_commons.Base.{◌≡◌, refl, sym, subst, ap, Bool, true, false, Option, none, some}
use python_commons.Dict.{lookup, lookup-insert_self}
use python_commons.Application.I18n.Text.Equality.{text_eq}
use python_commons.Application.I18n.Locale.{Locale, babel_str}
use python_commons.Application.I18n.Catalogues.{
  Files, Translator, keep_catalogue, load_catalogue, or_language, read_catalogue, unless_cached,
  get_translations,
}

module _ {C W : Type 0} (l : Locale) where
  -- the catalogue that was found, or that there is none, is kept
  abbrev Kept : Translator C W × W × Option C → Type 0
  Kept (t, w, c) = lookup (babel_str l) t.cache ≡ some c

  load_catalogue-Kept :
      (files : Files C W) (t : Translator C W) (p : W × Bool)
      → Kept (load_catalogue files (babel_str l) t p)
  unfolding load_catalogue keep_catalogue
  load_catalogue-Kept files t (w, false) = lookup-insert_self (babel_str l) none t.cache
  load_catalogue-Kept files t (w, true) =
      lookup-insert_self (babel_str l) (some (files.load (babel_str l) w).1) t.cache

  unless_cached-Kept :
      (files : Files C W) (t : Translator C W) (w : W) (o : Option (Option C))
      → t.files ≡ some files
      → lookup (babel_str l) t.cache ≡ o
      → Kept (unless_cached l t w o)
  unfolding unless_cached read_catalogue
  unless_cached-Kept files t w none e found =
      subst (λ f. Kept (read_catalogue l t w f)) (sym e)
        (load_catalogue-Kept files t (or_language files l (files.has_file (babel_str l) w)))
  unless_cached-Kept files t w (some c) e found = found

  -- A translator with a locale directory that has been asked for the catalogue of a locale gives
  -- the same answer from then on, also that there is none, without the files and with no change of
  -- its own.
  pub get_translations-get_translations :
      (files : Files C W) (t : Translator C W) (w w_ : W)
      → t.files ≡ some files
      → get_translations l (get_translations l t w).0 w_
        ≡ ((get_translations l t w).0, w_, (get_translations l t w).2)
  unfolding get_translations unless_cached
  get_translations-get_translations files t w w_ e =
      let got = unless_cached l t w (lookup (babel_str l) t.cache) in
      ap (unless_cached l got.0 w_)
        (unless_cached-Kept files t w (lookup (babel_str l) t.cache) e refl)
