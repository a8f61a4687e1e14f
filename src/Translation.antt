-- ===== src/Translation.antt =====
-- web/src/i18n.tsx: the locale, the messages with their placeholders, and relative times. What `Intl`
-- formats is a parameter, and so are the catalogues.
pub mod Holes
pub mod Provider
pub mod Units
mod Tests
use accp.Prelude.{
  ℕ, suc, ◌+◌, ◌-◌, ◌*◌, ◌/◌, Bool, true, false, not, ◌&&◌, ◌||◌, List, [], ◌∷◌, ◌++◌, map, Option,
  none, some, ◌==◌, leb, if◌then◌else◌,
}
use accp.Text.{Text, codes, text_eq, is_empty, starts_with}
use accp.Assoc.{lookup}

pub data Locale : Type 0 where
  zh_cn : Locale
  en_us : Locale
  ru_ru : Locale

abbrev pub locale_text : Locale → Text
locale_text zh_cn = codes "zh-CN"
locale_text en_us = codes "en-US"
locale_text ru_ru = codes "ru-RU"

-- `isLocale`, with the locale that the value is
pub as_locale : Text → Option Locale
as_locale value =
    if text_eq value (codes "zh-CN")
    then some zh_cn
    else (if text_eq value (codes "en-US")
        then some en_us
        else (if text_eq value (codes "ru-RU") then some ru_ru else none))

-- the `i` flag, on ASCII
abbrev fold_case : Text → Text
fold_case = map (λ c. if leb 65 c && leb c 90 then c + 32 else c)

-- `/^zh(?:-|$)/i`, for a language of two letters
pub is_language : (two : Text) → Text → Bool
is_language two value =
    text_eq (fold_case value) two || starts_with (two ++ 45 ∷ []) (fold_case value)

abbrev pub by_languages : List Text → Locale
by_languages [] = zh_cn
by_languages (l ∷ ls) =
    let rest = by_languages ls in
    if is_language (codes "zh") l
    then zh_cn
    else (if is_language (codes "en") l
        then en_us
        else (if is_language (codes "ru") l then ru_ru else rest))

abbrev or_languages : Option Locale → List Text → Locale
or_languages none languages = by_languages languages
or_languages (some l) languages = l

abbrev saved_locale : Option (Option Text) → Option Locale
saved_locale (some (some value)) = as_locale value
saved_locale _ = none

abbrev languages_or : List Text → Text → List Text
languages_or [] language = language ∷ []
languages_or (l ∷ ls) language = l ∷ ls

-- `saved` is what the storage has, with `none` where it throws; `languages` is [] where the browser
-- has none.
pub initial_locale :
    (saved : Option (Option Text)) → (languages : List Text) → (language : Text) → Locale
unfolding as_locale is_language
initial_locale saved languages language =
    or_languages (saved_locale saved) (languages_or languages language)

-- `\w`
abbrev pub is_word : ℕ → Bool
is_word c = leb 65 c && leb c 90 || leb 97 c && leb c 122 || leb 48 c && leb c 57 || c == 95

-- A parameter: a text, or a number as its digits.
pub data Value : Type 0 where
  text : Text → Value
  number : Text → Value

pub data Message : Type 0 where
  plain : Text → Message
  plural : (forms : List (Text × Text)) → (other : Text) → Message

abbrev or_text : Option Text → Text → Text
or_text none d = d
or_text (some s) d = s

abbrev pub placeholder : Text → Text
placeholder name = 123 ∷ (name ++ 125 ∷ [])

-- `select` is that of `Intl.PluralRules` for the parameter `count`.
abbrev pub template_of :
    (select : List (Text × Value) → Text) → List (Text × Value) → Message → Text
template_of select ps (plain t) = t
template_of select ps (plural forms other) = or_text (lookup (select ps) forms) other

abbrev or_message : Option Message → Message → Message
or_message none d = d
or_message (some m) d = m

abbrev pub shown : (format : Text → Text) → Option Value → (placeholder : Text) → Text
shown format none placeholder = placeholder
shown format (some (text s)) placeholder = s
shown format (some (number n)) placeholder = format n

abbrev pub or_inherited : Option Value → Option Text → Option Value
or_inherited (some v) i = some v
or_inherited none (some t) = some (text t)
or_inherited none none = none

-- `parameters[name]`
abbrev pub parameter :
    (inherited : Text → Option Text) → List (Text × Value) → (name : Text) → Option Value
parameter inherited ps name = or_inherited (lookup name ps) (inherited name)

-- `format` is that of `Intl.NumberFormat`. `inherited` is what every object has under a name, such as
-- "constructor", as `replace` writes it.
module _ (format : Text → Text) (inherited : Text → Option Text) where
  -- The replacement of `/\{(\w+)\}/g`: behind a "{", `word` has the word that was read so far.
  unfoldable pub interpolate : List (Text × Value) → (word : Option Text) → Text → Text
  unfolding lookup
  interpolate ps none [] = []
  interpolate ps (some w) [] = 123 ∷ w
  interpolate ps none (c ∷ s) =
      let opened = interpolate ps (some []) s in
      let rest = interpolate ps none s in if c == 123 then opened else c ∷ rest
  interpolate ps (some w) (c ∷ s) =
      let longer = interpolate ps (some (w ++ c ∷ [])) s in
      let closed = interpolate ps none s in
      let opened = interpolate ps (some []) s in
      if is_word c
      then longer
      else (if c == 125 && not (is_empty w)
          then shown format (parameter inherited ps w) (placeholder w) ++ closed
          else (if c == 123 then 123 ∷ (w ++ opened) else 123 ∷ (w ++ c ∷ closed)))

  -- `catalog` is that of the locale, `source` the one of Chinese, which has every key.
  pub translate :
      (select : List (Text × Value) → Text)
      → (catalog : Text → Option Message) → (source : Text → Message) → (key : Text)
      → List (Text × Value)
      → Text
  unfolding interpolate
  translate select catalog source key ps =
      interpolate ps none (template_of select ps (or_message (catalog key) (source key)))

pub data TimeUnit : Type 0 where
  year : TimeUnit
  month : TimeUnit
  day : TimeUnit
  hour : TimeUnit
  minute : TimeUnit
  second : TimeUnit

abbrev pub size : TimeUnit → ℕ
size year = 31536000
size month = 2592000
size day = 86400
size hour = 3600
size minute = 60
size second = 1

-- `Math.round(n / d)` for `n` or, if it is `past`, for `-n`: a half is rounded up.
abbrev pub round : (past : Bool) → (n d : ℕ) → ℕ
round true n d = (2 * n + d - 1) / (2 * d)
round false n d = (2 * n + d) / (2 * d)

-- The unit and the amount, for a number of seconds.
pub in_unit : (past : Bool) → (seconds : ℕ) → TimeUnit × ℕ
in_unit past seconds =
    if leb (size year) seconds
    then (year, round past seconds (size year))
    else (if leb (size month) seconds
        then (month, round past seconds (size month))
        else (if leb (size day) seconds
            then (day, round past seconds (size day))
            else (if leb (size hour) seconds
                then (hour, round past seconds (size hour))
                else (if leb (size minute) seconds
                    then (minute, round past seconds (size minute))
                    else (second, seconds)))))

-- What `relativeTime.format` is given, by the milliseconds from or to the time.
pub relative : (past : Bool) → (milliseconds : ℕ) → TimeUnit × ℕ
unfolding in_unit
relative past ms = in_unit past (round past ms 1000)

-- `formatDate`: `parse` is `new Date`, with `none` where it is invalid.
pub format_date : (parse : Text → Option ℕ) → (formatter : ℕ → Text) → (value : Option Text) → Text
format_date parse formatter none = codes "—"
format_date parse formatter (some value) =
    if is_empty value
    then codes "—"
    else elim (parse value) [ none ↦ codes "—" | some date ↦ formatter date ]

-- `relative` of a time, with `format` for `relativeTime.format`: before `now` the amount is negative.
pub relative_time :
    (parse : Text → Option ℕ)
    → (format : (past : Bool) → TimeUnit × ℕ → Text) → (now : ℕ) → (value : Option Text) → Text
unfolding format_date relative
relative_time parse format now = format_date parse (λ date.
    if leb now date
    then format false (relative false (date - now))
    else format true (relative true (now - date)))

-- `label_keys` has the keys of the values that are named.
pub label :
    (label_keys : Text → Option Text) → (translate_key : Text → Text) → (value : Text) → Text
label label_keys translate_key value = elim (label_keys value) [
  | none ↦ value
  | some key ↦ translate_key key
]
