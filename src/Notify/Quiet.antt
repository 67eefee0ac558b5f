-- ===== src/Notify/Quiet.antt =====
-- Quiet hours: `parseHHMM` and `toPrefsView` of internal/server/reminders.go, `isInQuietHours` of
-- internal/jobs/reminder_dispatcher.go.
use mathlib.Core.Option
use zymobrew.Base.{
  ℕ, ◌+◌, ◌-◌, ◌*◌, ◌/◌, ◌%◌, ◌<◌, ◌≡◌, ap, subst, inl, inr, Bool, false, ◌&&◌, ◌||◌, Option, none,
  some, Bytes, arith, ltb, leb, if◌then◌else◌, Option-cases,
}
use zymobrew.Notify.{NotificationPref}

abbrev pub hour : ℕ
hour = 3600000000

abbrev pub minute : ℕ
minute = 60000000

abbrev pub day : ℕ
day = 86400000000

-- `int64(t.Hour())*3600000000 + int64(t.Minute())*60000000`
abbrev pub clock_micros : ℕ × ℕ → ℕ
clock_micros t = t.0 * hour + t.1 * minute

-- What the package takes from time and fmt: `time.Parse("15:04", _)` as hour and minute, and
-- `fmt.Sprintf("%02d:%02d", _, _)`.
pub record Clock : Type 0 where
  pub parse_clock : Bytes → Option (ℕ × ℕ)
  pub format_clock : ℕ × ℕ → Bytes

-- A parsed time is a time of the day, and what is printed is parsed as what it was.
pub record IsClock (c : Clock) : Type 0 where
  pub in_day : (s : Bytes) (t : ℕ × ℕ) → c.parse_clock s ≡ some t → (t.0 < 24) × (t.1 < 60)
  pub printed : (t : ℕ × ℕ) → t.0 < 24 → t.1 < 60 → c.parse_clock (c.format_clock t) ≡ some t

module _ (c : Clock) where
  unfoldable pub parse_hhmm : Bytes → Option ℕ
  parse_hhmm s = Option.map clock_micros (c.parse_clock s)

  -- A quiet-hours field of `toPrefsView`.
  unfoldable pub shown_time : ℕ → Bytes
  shown_time micros = c.format_clock (micros / hour, micros % hour / minute)

  clock_back :
      (h m : ℕ)
      → h < 24
      → m < 60
      → (clock_micros (h, m) / hour ≡ h) × (clock_micros (h, m) % hour / minute ≡ m)
  clock_back h m k l = (omega arith, omega arith)

  shown_clock : (t : ℕ × ℕ) → t.0 < 24 → t.1 < 60 → shown_time (clock_micros t) ≡ c.format_clock t
  unfolding shown_time
  shown_clock t k l = let (h, m) = clock_back t.0 t.1 k l in ap c.format_clock (λ i. (h i, m i))

  shown_back :
      IsClock c
      → (t : ℕ × ℕ) → t.0 < 24
      → t.1 < 60
      → parse_hhmm (shown_time (clock_micros t)) ≡ some (clock_micros t)
  unfolding parse_hhmm
  shown_back f t k l = rw (shown_clock t k l, f.printed t k l)

  -- The time that the preferences show is the time that was set: sending it back changes nothing,
  -- and it is a time of the day; if the clock parses times of a day and what it prints.
  pub quiet_hours_back :
      IsClock c
      → (s : Bytes) (micros : ℕ) → parse_hhmm s ≡ some micros
      → (parse_hhmm (shown_time micros) ≡ some micros) × (micros < day)
  unfolding parse_hhmm
  quiet_hours_back f s micros h = elim (Option-cases (c.parse_clock s)) [
    | inl e ↦ absurd (cc (h, e))
    | inr (t, e) ↦
        let (k, l) = f.in_day s t e in
        let same : clock_micros t ≡ micros = parsed t e in
        (
          subst (λ n. parse_hhmm (shown_time n) ≡ some n) same (shown_back f t k l),
          omega (arith, same, k, l),
        )
  ]
    where
      parsed : (t : ℕ × ℕ) → c.parse_clock s ≡ some t → clock_micros t ≡ micros
      parsed t e = cc (h, e)

-- `local` is the hour and minute in the user's location, or `none` if time.LoadLocation fails.
unfoldable pub is_in_quiet_hours : NotificationPref → Option (ℕ × ℕ) → Bool
is_in_quiet_hours prefs local = elim prefs.quiet_hours_start [
  | none ↦ false
  | some start ↦ elim prefs.quiet_hours_end [
    | none ↦ false
    | some end ↦ elim local [
      | none ↦ false
      | some now ↦
          if leb start end
          then leb start (clock_micros now) && ltb (clock_micros now) end
          else leb start (clock_micros now) || ltb (clock_micros now) end
    ]
  ]
]

-- How far into the day `b` comes after `a`.
abbrev pub after : ℕ → ℕ → ℕ
after a b = (b + day - a) % day

-- Where both times are set and all are times of a day, the quiet hours are the stretch of the day
-- that begins at their start and ends before their end, across midnight where the end is the
-- earlier: the time since the start is less than their length.
pub quiet_hours_cyclic :
    (prefs : NotificationPref) (now : ℕ × ℕ) (start end : ℕ)
    → prefs.quiet_hours_start ≡ some start
    → prefs.quiet_hours_end ≡ some end
    → start < day
    → end < day
    → now.0 < 24
    → now.1 < 60
    → is_in_quiet_hours prefs (some now) ≡ ltb (after start (clock_micros now)) (after start end)
unfolding is_in_quiet_hours
quiet_hours_cyclic prefs now start end hs he s e h m = rw (hs, he, is_in_quiet_hours) (ground arith)
