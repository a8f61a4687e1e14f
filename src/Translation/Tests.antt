-- ===== src/Translation/Tests.antt =====
-- web/src/i18n.tsx at concrete messages, times and browsers.
use accp.Prelude.{◌≡◌, refl, true, false, List, [], ◌∷◌, Option, none, some, if◌then◌else◌}
use accp.Text.{Text, codes, text_eq, starts_with}
use accp.Assoc.{lookup}
use accp.Translation.{
  ru_ru, en_us, zh_cn, initial_locale, as_locale, is_language, Value, text, number, Message, plain,
  plural, translate, interpolate, minute, hour, in_unit, relative, format_date, relative_time,
  label,
}
use accp.Translation.Provider.{choose_all, set_locale, mount, show_locale}
use accp.Translation.Units.{Fits, in_unit-IsNear}

abbrev format : Text → Text
format n = n

abbrev inherited : Text → Option Text
inherited name = if text_eq name (codes "constructor") then some (codes "Object") else none

abbrev select : List (Text × Value) → Text
select ((_, number n) ∷ vs) = if text_eq n (codes "1") then codes "one" else codes "other"
select _ = codes "other"

abbrev english : Text → Option Message
english key =
    if text_eq key (codes "tasks.count")
    then some (
        plural ((codes "one", codes "{count} task of {who}") ∷ []) (codes "{count} tasks of {who}"))
    else none

abbrev chinese : Text → Message
chinese key = plain key

abbrev one_task : List (Text × Value)
one_task = (codes "count", number (codes "1")) ∷ (codes "who", text (codes "{count}")) ∷ []

translate_run :
    translate format inherited select english chinese (codes "tasks.count") one_task
    ≡ codes "1 task of {count}"
unfolding translate interpolate text_eq
translate_run = refl

stray_run :
    interpolate format inherited one_task none (codes "{ {{count} {} {none}")
    ≡ codes "{ {1 {} {none}"
unfolding interpolate text_eq
stray_run = refl

in_unit-IsNear_example : Fits 5430 (in_unit true 5430)
in_unit-IsNear_example = in_unit-IsNear true 5430

inherited_run :
    interpolate format inherited one_task none (codes "{constructor} {construct}")
    ≡ codes "Object {construct}"
unfolding interpolate text_eq lookup
inherited_run = refl

-- A half is rounded towards the future: 1.5 hours from now are 2, and 1.5 hours ago is 1.
ahead_run : relative false 5400000 ≡ (hour, 2)
unfolding relative in_unit
ahead_run = refl

ago_run : relative true 5400000 ≡ (hour, 1)
unfolding relative in_unit
ago_run = refl

-- 59 minutes and 45 seconds are 60 minutes, not 1 hour.
sixty_run : relative true 3585000 ≡ (minute, 60)
unfolding relative in_unit
sixty_run = refl

-- A choice that was saved is before the languages of the browser.
saved_run : initial_locale (some (some (codes "en-US"))) (codes "ru" ∷ []) [] ≡ en_us
unfolding initial_locale as_locale is_language text_eq starts_with
saved_run = refl

-- The first language that is supported is taken, whatever its region.
region_run : initial_locale none (codes "fr" ∷ codes "RU-by" ∷ codes "en" ∷ []) [] ≡ ru_ru
unfolding initial_locale as_locale is_language text_eq starts_with
region_run = refl

-- "rue" is no Russian, and the last resort is Chinese.
unknown_run : initial_locale (some (some (codes "fr-FR"))) [] (codes "rue") ≡ zh_cn
unfolding initial_locale as_locale is_language text_eq starts_with
unknown_run = refl

invalid_run : relative_time (λ t. none) (λ past x. codes "now") 0 (some (codes "soon")) ≡ codes "—"
unfolding relative_time format_date
invalid_run = refl

label_run : label (λ t. none) (λ t. []) (codes "draft") ≡ codes "draft"
unfolding label
label_run = refl

-- A value that is no locale changes nothing, and a full storage does not keep the choice.
choice_run :
    choose_all (codes "ru-RU" ∷ codes "xx" ∷ []) (mount (some none) [] (codes "en"))
    ≡ record { locale = ru_ru; lang = codes "ru-RU"; saved = some (some (codes "ru-RU")) }
unfolding choose_all set_locale mount show_locale as_locale initial_locale is_language text_eq
    starts_with
choice_run = refl

full_run :
    set_locale false (codes "ru-RU") (mount (some none) [] (codes "en"))
    ≡ record { locale = ru_ru; lang = codes "ru-RU"; saved = some none }
unfolding set_locale mount show_locale as_locale initial_locale is_language text_eq starts_with
full_run = refl
