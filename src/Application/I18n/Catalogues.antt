-- ===== src/Application/I18n/Catalogues.antt =====
-- `Translator._get_translations` and `Translator.translate`. Babel and the files are parameters:
-- `has_file` tells of a directory of the locale directory whether the catalogue of the domain is
-- there, `load` is `Translations.load`, and each is a step of the world `W`. `gettext` reads a
-- catalogue, and `format` is `str.format` with the keyword arguments.
pub mod Caching
use python_commons.Base.{
  ℕ, Bool, true, false, Option, none, some, List, [], ◌∷◌, String, if◌then◌else◌, Eq, ◌≡◌, refl,
  ◌⊎◌, inl, inr,
}
use python_commons.Dict.{Dict, lookup, insert}
use python_commons.Application.I18n.Text.{Text}
use python_commons.Application.I18n.Text.Equality.{text_eq}
use python_commons.Application.I18n.Locale.{Locale, babel_str, value_or}

pub record Files (C W : Type 0) : Type 0 where
  pub has_file : Text → W → W × Bool
  pub load : Text → W → W × C

pub record Translator (C W : Type 0) : Type 0 where
  -- nothing where there is no locale directory
  pub files : Option (Files C W)
  pub cache : Dict Text (Option C)

-- What `str.format` gives. The first error is a `KeyError` or a `ValueError`.
pub data Formatted (X : Type 0) : Type 0 where
  formatted : Text → Formatted X
  key_or_value_error : Formatted X
  other_error : X → Formatted X

text_of : {C : Type 0} → (C → Text → Text) → Text → Option C → Text
text_of gettext key none = key
text_of gettext key (some c) = gettext c key

-- a message that cannot be formatted for want of an argument stays as it is
unfoldable pub format_text : {X : Type 0} → Option (Text → Formatted X) → Text → Text ⊎ X
format_text none text = inl text
format_text (some format) text = elim (format text) [
  | formatted s ↦ inl s
  | key_or_value_error ↦ inl text
  | other_error x ↦ inr x
]

module _ {C W : Type 0} where
  -- `self._cache[key] = trans`
  keep_catalogue : Text → Option C → Translator C W → Translator C W
  keep_catalogue key c t = record t { cache = insert key c t.cache }

  load_catalogue : Files C W → Text → Translator C W → W × Bool → Translator C W × W × Option C
  unfolding keep_catalogue
  load_catalogue files key t (w, false) = (keep_catalogue key none t, w, none)
  load_catalogue files key t (w, true) =
      let loaded = files.load key w in
      (keep_catalogue key (some loaded.1) t, loaded.0, some loaded.1)

  -- the file of the language where the locale has none
  or_language : Files C W → Locale → W × Bool → W × Bool
  or_language files l (w, true) = (w, true)
  or_language files l (w, false) = files.has_file l.language w

  read_catalogue : Locale → Translator C W → W → Option (Files C W) → Translator C W × W × Option C
  unfolding load_catalogue or_language
  read_catalogue l t w none = (t, w, none)
  read_catalogue l t w (some files) =
      load_catalogue files (babel_str l) t (or_language files l (files.has_file (babel_str l) w))

  unless_cached : Locale → Translator C W → W → Option (Option C) → Translator C W × W × Option C
  unfolding read_catalogue
  unless_cached l t w none = read_catalogue l t w t.files
  unless_cached l t w (some c) = (t, w, c)

  unfoldable pub get_translations : Locale → Translator C W → W → Translator C W × W × Option C
  unfolding unless_cached
  get_translations l t w = unless_cached l t w (lookup (babel_str l) t.cache)

  unfoldable pub translate :
      {X : Type 0}
      → (C → Text → Text)
      → Option (Text → Formatted X)
      → Text
      → Option Locale
      → (context : Locale) → Translator C W
      → W
      → Translator C W × W × (Text ⊎ X)
  unfolding get_translations text_of format_text value_or
  translate gettext format key locale context t w =
      let got = get_translations (value_or context locale) t w in
      (got.0, got.1, format_text format (text_of gettext key got.2))
