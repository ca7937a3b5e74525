-- ===== src/Format.antt =====
-- web/src/lib/format.ts: the texts that the dashboard's tiles show. A count of bytes, seconds or
-- milliseconds is a natural number; `print` is `String(n)`, and `to_fixed` the text of a fraction with a
-- number of decimals, as `toFixed` rounds it.
pub mod Bounds
use control_room.Base.{
  ℕ, zero, suc, ◌+◌, ◌*◌, ◌/◌, ◌%◌, String, Bool, true, false, List, [], ◌∷◌, ltb, leb, ◌<>◌,
  if◌then◌else◌, ◌≡◌, refl,
}

-- The parts of `formatUptime`.
pub record Uptime : Type 0 where
  pub days : ℕ
  pub h : ℕ
  pub m : ℕ

unfoldable pub uptime_of : ℕ → Uptime
uptime_of seconds = record {
  days = seconds / 86_400;
  h = seconds % 86_400 / 3600;
  m = seconds % 3600 / 60;
}

-- `units`, without the first.
abbrev pub larger_units : List String
larger_units = "MiB" ∷ "GiB" ∷ "TiB" ∷ "PiB" ∷ []

-- A number of bytes as the fraction `bytes / scale` of a unit.
pub record Scaled : Type 0 where
  pub bytes : ℕ
  pub scale : ℕ
  pub unit : String

-- The loop of `formatBytes`: while the value is at least 1024 and a larger unit is left, it is divided
-- by 1024. The value is `n / scale`.
unfoldable pub scale_up : ℕ → ℕ → String → List String → Scaled
scale_up n scale unit [] = record { bytes = n; scale = scale; unit = unit }
scale_up n scale unit (u ∷ us) =
    let larger = scale_up n (1024 * scale) u us in
    if leb (1024 * scale) n then larger else record { bytes = n; scale = scale; unit = unit }

-- The unit of `formatBytes`.
unfoldable pub scaled_bytes : ℕ → Scaled
unfolding scale_up
scaled_bytes n =
    if ltb n 1024
    then record { bytes = n; scale = 1; unit = "B" }
    else scale_up n 1024 "KiB" larger_units

module _ (print : ℕ → String) (to_fixed : ℕ → ℕ → ℕ → String) where
  unfoldable pub format_uptime : ℕ → String
  unfolding uptime_of
  format_uptime seconds =
      let u = uptime_of seconds in
      if ltb 0 u.days
      then print u.days <> "d " <> print u.h <> "h " <> print u.m <> "m"
      else if ltb 0 u.h
      then print u.h <> "h " <> print u.m <> "m"
      else print u.m <> "m"

  -- A number of bytes is shown whole, and a larger unit with `fixed` decimals.
  unfoldable pub format_bytes : ℕ → ℕ → String
  unfolding scaled_bytes
  format_bytes n fixed =
      let s = scaled_bytes n in
      (if ltb n 1024 then print n else to_fixed s.bytes s.scale fixed) <> " " <> s.unit

  unfoldable pub format_rate : ℕ → String
  unfolding format_bytes
  format_rate bytes_per_sec = format_bytes bytes_per_sec 1 <> "/s"

  -- A percentage and a temperature as a fraction.
  unfoldable pub format_percent : ℕ → ℕ → ℕ → String
  format_percent p q fixed = to_fixed p q fixed <> "%"

  unfoldable pub format_temp : ℕ → ℕ → String
  format_temp p q = to_fixed p q 1 <> "°C"

  -- `formatRelativeTime` of a time that lies `ms` milliseconds back.
  unfoldable pub format_relative_time : ℕ → String
  format_relative_time ms =
      let s = ms / 1000 in
      let m = s / 60 in
      let h = m / 60 in
      if ltb s 60
      then print s <> "s"
      else if ltb m 60
      then print m <> "m"
      else if ltb h 24
      then print h <> "h"
      else print (h / 24) <> "d"
