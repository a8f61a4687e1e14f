-- ===== src/Translation/Provider.antt =====
-- web/src/i18n.tsx: the provider of the locale and the switcher. The storage is part of the state,
-- `none` where it is blocked.
use accp.Prelude.{◌≡◌, refl, Bool, true, false, List, [], ◌∷◌, Option, none, some}
use accp.Text.{Text, text_eq}
use accp.Translation.{Locale, zh_cn, en_us, ru_ru, locale_text, as_locale, initial_locale}

pub record Provider : Type 0 where
  pub locale : Locale
  pub lang : Text
  pub saved : Option (Option Text)

-- The effect that follows a locale, without the title and the direction of the document.
unfoldable pub show_locale : Locale → Option (Option Text) → Provider
show_locale l saved = record { locale = l; lang = locale_text l; saved = saved }

unfoldable pub mount :
    (saved : Option (Option Text)) → (languages : List Text) → (language : Text) → Provider
unfolding show_locale
mount saved languages language = show_locale (initial_locale saved languages language) saved

-- `setItem`; `has_room` is false where it throws because the storage is full.
abbrev pub set_item : (has_room : Bool) → Locale → Option (Option Text) → Option (Option Text)
set_item has_room l none = none
set_item false l (some old) = some old
set_item true l (some old) = some (some (locale_text l))

abbrev pub set_known : (has_room : Bool) → Option Locale → Provider → Provider
set_known has_room none p = p
set_known has_room (some l) p = show_locale l (set_item has_room l p.saved)

-- What is chosen in the switcher, whose value any text can be.
unfoldable pub set_locale : (has_room : Bool) → (value : Text) → Provider → Provider
unfolding show_locale
set_locale has_room value p = set_known has_room (as_locale value) p

unfoldable pub choose_all : List Text → Provider → Provider
unfolding set_locale
choose_all [] p = p
choose_all (value ∷ values) p = choose_all values (set_locale true value p)

-- The page that is opened next starts with the locale, and the document says its language.
pub IsKept : (languages : List Text) → (language : Text) → Provider → Type 0
IsKept languages language p =
    (initial_locale p.saved languages language ≡ p.locale) × (p.lang ≡ locale_text p.locale)

as_locale-locale_text : (l : Locale) → as_locale (locale_text l) ≡ some l
unfolding as_locale text_eq
as_locale-locale_text zh_cn = refl
as_locale-locale_text en_us = refl
as_locale-locale_text ru_ru = refl

module _ (languages : List Text) (language : Text) where
  set_known-IsKept :
      (o : Option Locale) (p : Provider) (old : Option Text)
      → p.saved ≡ some old
      → IsKept languages language p
      → ((new : Option Text) × ((set_known true o p).saved ≡ some new))
        × IsKept languages language (set_known true o p)
  unfolding IsKept show_locale initial_locale
  set_known-IsKept none p old h k = ((old, h), k)
  set_known-IsKept (some l) p old h k =
      rw h (((some (locale_text l), refl), (rw (as_locale-locale_text l) refl, refl)))

  -- Where the storage takes every choice, the page that is opened after any choices starts with the
  -- locale that was shown last, and the language of the document is that of the locale.
  choose_all-IsKept :
      (values : List Text) (p : Provider) (old : Option Text)
      → p.saved ≡ some old
      → IsKept languages language p
      → IsKept languages language (choose_all values p)
  unfolding choose_all set_locale
  choose_all-IsKept [] p old h k = k
  choose_all-IsKept (value ∷ values) p old h k =
      let ((new, there), kept) = set_known-IsKept (as_locale value) p old h k in
      choose_all-IsKept values (set_locale true value p) new there kept

  -- From the start of the page on.
  pub mount-choose_all-IsKept :
      (saved : Option Text) (values : List Text)
      → IsKept languages language (choose_all values (mount (some saved) languages language))
  unfolding mount IsKept show_locale
  mount-choose_all-IsKept saved values =
      choose_all-IsKept values (mount (some saved) languages language) saved refl (refl, refl)
