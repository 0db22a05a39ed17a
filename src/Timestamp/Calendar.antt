-- ===== src/Timestamp/Calendar.antt =====
-- Reading and printing ISO timestamps, as Python's `datetime` does.
use exposure_atlas.Base.{
  ℕ, zero, suc, ◌+◌, ◌-◌, ◌*◌, ◌/◌, ◌%◌, String, ◌^^◌, Bool, true, false, ◌&&◌, ◌||◌, Option, none,
  some, List, [], ◌∷◌, ltb, leb, eqb, if◌then◌else◌, ◌≡◌, refl,
}
use exposure_atlas.Base.Text.{codes, digit}

-- An aware `datetime`: its moment in microseconds, and the day number of `.date()`. Both count
-- from one day before 0001-01-01, so that an offset from UTC stays above zero.
pub record Moment : Type 0 where
  pub instant : ℕ
  pub day : ℕ

infixl 5 ◌>>=◌
abbrev ◌>>=◌ : {A B : Type 0} → Option A → (A → Option B) → Option B
none >>= f = none
some a >>= f = f a

when : Bool → Option (Unit {0})
when true = some tt
when false = none

abbrev ◌>>◌ : {B : Type 0} → Option (Unit {0}) → Option B → Option B

infixl 5 ◌>>◌
m >> k = m >>= λ _. k

-- `ts.replace("Z", "+00:00")`
replace_z : List ℕ → List ℕ
replace_z [] = []
replace_z (c ∷ cs) =
    let rest = replace_z cs in
    if eqb c b'Z' then b'+' ∷ b'0' ∷ b'0' ∷ b':' ∷ b'0' ∷ b'0' ∷ rest else c ∷ rest

is_digit : ℕ → Bool
is_digit c = leb b'0' c && leb c b'9'

-- `n` digits, and the rest
number : ℕ → ℕ → List ℕ → Option (ℕ × List ℕ)
number zero acc cs = some (acc, cs)
number (suc n) acc [] = none
number (suc n) acc (c ∷ cs) =
    let rest = number n (acc * 10 + (c - b'0')) cs in if is_digit c then rest else none

-- one given character
skip : ℕ → List ℕ → Option (List ℕ)
skip k [] = none
skip k (c ∷ cs) = if eqb c k then some cs else none

-- the digits of a fraction, the first six of which count
fraction_digits : ℕ → ℕ → List ℕ → ℕ × List ℕ
fraction_digits weight acc [] = (acc, [])
fraction_digits weight acc (c ∷ cs) =
    let rest = fraction_digits (weight / 10) (acc + (c - b'0') * weight) cs in
    if is_digit c then rest else (acc, c ∷ cs)

fraction : List ℕ → Option (ℕ × List ℕ)
fraction [] = none
fraction (c ∷ []) = none
fraction (c ∷ d ∷ cs) =
    if eqb c b'.'
    then (if is_digit d then some (fraction_digits 100000 0 (d ∷ cs)) else none)
    else some (0, c ∷ d ∷ cs)

is_leap : ℕ → Bool
is_leap y = eqb (y % 4) 0 && (leb 1 (y % 100) || eqb (y % 400) 0)

days_in_month : ℕ → ℕ → ℕ
days_in_month y m =
    if eqb m 2
    then (if is_leap y then 29 else 28)
    else if eqb m 4 || eqb m 6 || eqb m 9 || eqb m 11
    then 30
    else 31

-- the days of the year's months before month `m`
days_before_month : ℕ → ℕ → ℕ
days_before_month y zero = 0
days_before_month y (suc zero) = 0
days_before_month y (suc (suc m)) = days_before_month y (suc m) + days_in_month y (suc m)

-- the days from 0001-01-01 to the date
pub date_days : ℕ → ℕ → ℕ → ℕ
unfolding is_leap days_in_month days_before_month
date_days y m d =
    let p = y - 1 in p * 365 + p / 4 - p / 100 + p / 400 + days_before_month y m + (d - 1)

-- the text after the seconds: `+hh:mm` or `-hh:mm`, as minutes ahead or behind
offset : List ℕ → Option (Bool × ℕ)
offset [] = none
offset (sign ∷ cs) = do
  when (eqb sign b'+' || eqb sign b'-')
  (h, cs) ← number 2 0 cs
  cs ← skip b':' cs
  (m, cs) ← number 2 0 cs
  when (ltb h 24 && ltb m 60)
  elim cs [ [] ↦ some (eqb sign b'+', h * 60 + m) | _ ∷ _ ↦ none ]

-- The moment of a local time with its offset.
moment : ℕ → ℕ → Bool × ℕ → Moment
moment days micros (ahead, minutes) =
    let local = (days + 1) * 86400000000 + micros in
    let shift = minutes * 60000000 in
    record { instant = if ahead then local - shift else local + shift; day = days + 1 }

unfoldable pub parse : String → Option Moment
unfolding when replace_z is_digit number skip fraction_digits fraction is_leap days_in_month
    days_before_month date_days offset moment
parse ts = do
  (y, cs) ← number 4 0 (replace_z (codes ts))
  cs ← skip b'-' cs
  (m, cs) ← number 2 0 cs
  cs ← skip b'-' cs
  (d, cs) ← number 2 0 cs
  cs ← skip b'T' cs
  (hour, cs) ← number 2 0 cs
  cs ← skip b':' cs
  (minute, cs) ← number 2 0 cs
  cs ← skip b':' cs
  (second, cs) ← number 2 0 cs
  (micros, cs) ← fraction cs
  zone ← offset cs
  when (leb 1 y && leb 1 m && leb m 12 && leb 1 d && leb d (days_in_month y m))
  when (ltb hour 24 && ltb minute 60 && ltb second 60)
  some (moment (date_days y m d) (((hour * 60 + minute) * 60 + second) * 1000000 + micros) zone)

-- `astimezone(utc).strftime("%Y-%m-%dT%H:%M:%SZ")`
two : ℕ → String
two n = digit (n / 10 % 10) ^^ digit (n % 10)

-- the month and day of a day of the year, by the months from `m` on
month_day : ℕ → ℕ → ℕ → ℕ → String
month_day zero y m n = ""
month_day (suc left) y m n =
    let rest = month_day left y (m + 1) (n - days_in_month y m) in
    if ltb n (days_in_month y m) then two m ^^ "-" ^^ two (n + 1) else rest

calendar : ℕ → String
calendar days =
    let r400 = days % 146097 in
    let n100 = r400 / 36524 in
    let r100 = r400 % 36524 in
    let n1 = r100 % 1461 / 365 in
    let y = days / 146097 * 400 + n100 * 100 + r100 / 1461 * 4 + n1 + 1 in
    if eqb n1 4 || eqb n100 4
    then two ((y - 1) / 100) ^^ two ((y - 1) % 100) ^^ "-12-31"
    else two (y / 100) ^^ two (y % 100) ^^ "-" ^^ month_day 12 y 1 (r100 % 1461 % 365)

unfoldable pub iso : ℕ → String
unfolding is_leap days_in_month two month_day calendar
iso instant =
    let seconds = instant / 1000000 % 86400 in
    calendar (instant / 86400000000 - 1)
    ^^ "T"
    ^^ two (seconds / 3600)
    ^^ ":"
    ^^ two (seconds / 60 % 60)
    ^^ ":"
    ^^ two (seconds % 60)
    ^^ "Z"

-- The two are inverse at a date past a leap day, and offsets are taken off.
iso-parse_leap :
    (parse "2024-02-29T23:30:05Z" ≡ some (record { instant = 63844932605000000; day = 738945 }))
    × (parse "2024-03-01T01:30:05.25+02:00"
        ≡ some (record { instant = 63844932605250000; day = 738946 }))
    × (iso 63844932605250000 ≡ "2024-02-29T23:30:05Z")
unfolding parse iso codes digit
iso-parse_leap = (refl, refl, refl)
