-- ===== src/Translation/Units.antt =====
-- web/src/i18n.tsx: the unit of a relative time.
use accp.Prelude.{ℕ, ◌+◌, ◌*◌, ◌≤◌, ◌<◌, ◌≡◌, Bool, true, false, leb, leb→le, arith, if_cases}
use accp.Translation.{TimeUnit, year, month, day, hour, minute, second, size, round, in_unit}

-- What an amount of the unit can be, before the next larger unit is taken.
pub CanShow : TimeUnit × ℕ → Type 0
CanShow (year, n) = 1 ≤ n
CanShow (month, n) = (1 ≤ n) × (n ≤ 12)
CanShow (day, n) = (1 ≤ n) × (n ≤ 30)
CanShow (hour, n) = (1 ≤ n) × (n ≤ 24)
CanShow (minute, n) = (1 ≤ n) × (n ≤ 60)
CanShow (second, n) = n ≤ 59

not_leb : (a b : ℕ) → leb a b ≡ false → b < a
not_leb a b h = ground arith

year_fits : (past : Bool) (s : ℕ) → 31536000 ≤ s → 1 ≤ round past s 31536000
year_fits true s h = omega (arith, h)
year_fits false s h = omega (arith, h)

month_fits :
    (past : Bool) (s : ℕ)
    → s < 31536000
    → 2592000 ≤ s
    → (1 ≤ round past s 2592000) × (round past s 2592000 ≤ 12)
month_fits true s h k = (omega (arith, h, k), omega (arith, h, k))
month_fits false s h k = (omega (arith, h, k), omega (arith, h, k))

day_fits :
    (past : Bool) (s : ℕ)
    → s < 2592000
    → 86400 ≤ s
    → (1 ≤ round past s 86400) × (round past s 86400 ≤ 30)
day_fits true s h k = (omega (arith, h, k), omega (arith, h, k))
day_fits false s h k = (omega (arith, h, k), omega (arith, h, k))

hour_fits :
    (past : Bool) (s : ℕ)
    → s < 86400
    → 3600 ≤ s
    → (1 ≤ round past s 3600) × (round past s 3600 ≤ 24)
hour_fits true s h k = (omega (arith, h, k), omega (arith, h, k))
hour_fits false s h k = (omega (arith, h, k), omega (arith, h, k))

minute_fits :
    (past : Bool) (s : ℕ) → s < 3600 → 60 ≤ s → (1 ≤ round past s 60) × (round past s 60 ≤ 60)
minute_fits true s h k = (omega (arith, h, k), omega (arith, h, k))
minute_fits false s h k = (omega (arith, h, k), omega (arith, h, k))

-- The amount is the nearest one, to a half of the unit.
pub IsNear : (seconds : ℕ) → TimeUnit × ℕ → Type 0
IsNear s (u, n) = (2 * (n * size u) ≤ 2 * s + size u) × (2 * s ≤ 2 * (n * size u) + size u)

year-IsNear : (past : Bool) (s : ℕ) → IsNear s (year, round past s 31536000)
unfolding IsNear
year-IsNear true s = (omega arith, omega arith)
year-IsNear false s = (omega arith, omega arith)

month-IsNear : (past : Bool) (s : ℕ) → IsNear s (month, round past s 2592000)
unfolding IsNear
month-IsNear true s = (omega arith, omega arith)
month-IsNear false s = (omega arith, omega arith)

day-IsNear : (past : Bool) (s : ℕ) → IsNear s (day, round past s 86400)
unfolding IsNear
day-IsNear true s = (omega arith, omega arith)
day-IsNear false s = (omega arith, omega arith)

hour-IsNear : (past : Bool) (s : ℕ) → IsNear s (hour, round past s 3600)
unfolding IsNear
hour-IsNear true s = (omega arith, omega arith)
hour-IsNear false s = (omega arith, omega arith)

minute-IsNear : (past : Bool) (s : ℕ) → IsNear s (minute, round past s 60)
unfolding IsNear
minute-IsNear true s = (omega arith, omega arith)
minute-IsNear false s = (omega arith, omega arith)

second-IsNear : (s : ℕ) → IsNear s (second, s)
unfolding IsNear
second-IsNear s = (omega arith, omega arith)

pub Fits : ℕ → TimeUnit × ℕ → Type 0
Fits s x = CanShow x × IsNear s x

-- For every number of seconds, and both directions, the relative time shows at least 1 of its unit
-- where that is not the second, at most 12 months, 30 days, 24 hours, 60 minutes or 59 seconds, and
-- differs from the time by at most half a unit.
pub in_unit-IsNear : (past : Bool) (s : ℕ) → Fits s (in_unit past s)
unfolding in_unit CanShow Fits
in_unit-IsNear past s =
    if_cases (Fits s) (leb 31536000 s)
      (λ h. (year_fits past s (leb→le 31536000 s h), year-IsNear past s))
      (λ h.
        if_cases (Fits s) (leb 2592000 s)
          (λ k.
            (month_fits past s (not_leb 31536000 s h) (leb→le 2592000 s k), month-IsNear past s))
          (λ k.
            if_cases (Fits s) (leb 86400 s)
              (λ m. (day_fits past s (not_leb 2592000 s k) (leb→le 86400 s m), day-IsNear past s))
              (λ m.
                if_cases (Fits s) (leb 3600 s)
                  (λ n.
                    (hour_fits past s (not_leb 86400 s m) (leb→le 3600 s n), hour-IsNear past s))
                  (λ n.
                    if_cases (Fits s) (leb 60 s)
                      (λ o. (
                        minute_fits past s (not_leb 3600 s n) (leb→le 60 s o),
                        minute-IsNear past s,
                      ))
                      (λ o. (ground (arith, not_leb 60 s o), second-IsNear s))))))
