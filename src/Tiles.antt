-- ===== src/Tiles.antt =====
-- The figures of web/src/components/dashboard: shares in percent, the widths of bars, and their colours.
-- A share is a fraction of natural numbers; `value` is the number that a text stands for.
pub mod Bars
use control_room.Base.{
  ℕ, zero, suc, ◌+◌, ◌*◌, String, Bool, true, false, List, [], ◌∷◌, map, Option, none, some, ltb,
  leb, ◌is◌, if◌then◌else◌,
}
use control_room.Queries.Types.{Number, SystemMemory, SystemDisk, SystemNet}

pub record Fraction : Type 0 where
  pub num : ℕ
  pub den : ℕ

-- `total > 0 ? (used / total) * 100 : 0`
unfoldable pub share : ℕ → ℕ → Fraction
share used total =
    if ltb 0 total then record { num = 100 * used; den = total } else record { num = 0; den = 1 }

-- `f >= n`
abbrev pub at_least : ℕ → Fraction → Bool
at_least n f = leb (n * f.den) f.num

-- `Math.min(100, Math.max(low, f))`
unfoldable pub clamped : ℕ → Fraction → Fraction
clamped low f =
    if at_least 100 f
    then record { num = 100; den = 1 }
    else if at_least low f
    then f
    else record { num = low; den = 1 }

-- `Bar` and `CoreBar`
unfoldable pub bar_width : Fraction → Fraction
unfolding clamped
bar_width f = clamped 0 f

unfoldable pub core_height : Fraction → Fraction
unfolding clamped
core_height f = clamped 2 f

pub data Colour : Type 0 where
  calm warning danger : Colour

-- The colours of the memory and disk bars, of the processor's, and of a temperature.
unfoldable pub usage_colour : Fraction → Colour
usage_colour f = if at_least 90 f then danger else if at_least 75 f then warning else calm

unfoldable pub cpu_colour : Fraction → Colour
cpu_colour f = if at_least 90 f then danger else if at_least 70 f then warning else calm

unfoldable pub temp_colour : Fraction → Colour
temp_colour f = if at_least 80 f then danger else if at_least 65 f then warning else calm

-- `list.find((d) => d.mount === '/')`
unfoldable pub find_root : List SystemDisk → Option SystemDisk
find_root [] = none
find_root (d ∷ ds) = let rest = find_root ds in if d.mount is "/" then some d else rest

-- The disk of the headline: the root, else the first one.
unfoldable pub headline_disk : List SystemDisk → Option SystemDisk
unfolding find_root
headline_disk [] = none
headline_disk (d ∷ ds) = elim (find_root (d ∷ ds)) [ none ↦ some d | some r ↦ some r ]

module _ (value : Number → ℕ) where
  -- The shares of the memory and of its swap, which is shown where there is any.
  unfoldable pub memory_share : Option SystemMemory → Fraction
  unfolding share
  memory_share none = share 0 0
  memory_share (some m) = share (value m.used) (value m.total)

  unfoldable pub swap_share : SystemMemory → Option Fraction
  swap_share m =
      if ltb 0 (value m.swap_total)
      then some (record { num = 100 * value m.swap_used; den = value m.swap_total })
      else none

  unfoldable pub disk_share : SystemDisk → Fraction
  unfolding share
  disk_share d = share (value d.used) (value d.total)

  -- `list.reduce((s, n) => s + n.rx_rate, 0)`, and that of the other direction.
  unfoldable pub sum_from : (SystemNet → Number) → ℕ → List SystemNet → ℕ
  sum_from rate s [] = s
  sum_from rate s (n ∷ ns) = sum_from rate (s + value (rate n)) ns

  unfoldable pub total_rx : List SystemNet → ℕ
  unfolding sum_from
  total_rx = sum_from (λ n. n.rx_rate) 0

  unfoldable pub total_tx : List SystemNet → ℕ
  unfolding sum_from
  total_tx = sum_from (λ n. n.tx_rate) 0
