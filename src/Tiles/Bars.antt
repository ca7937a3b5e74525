-- ===== src/Tiles/Bars.antt =====
-- The bars of web/src/components/dashboard.
use control_room.Base.{ℕ, ◌+◌, ◌*◌, ◌≤◌, ◌<◌, true, ltb, leb, ◌≡◌, arith, Bool-cases, inl, inr}
use control_room.Tiles.{
  share, clamped, bar_width, core_height, Colour, calm, warning, danger, usage_colour,
}

-- The order of the colours.
abbrev pub severity : Colour → ℕ
severity calm = 0
severity warning = 1
severity danger = 2

-- The bar of a memory or a disk, whatever is used of whatever total, is between 0 and 100 percent wide,
-- the bar of a processor's core between 2 and 100 percent high, and when more of the same total is used,
-- the colour is no less severe.
pub bar_lem :
    (used more total : ℕ)
    → let f = share used total in
      let g = share (used + more) total in
      ((bar_width f).num ≤ 100 * (bar_width f).den)
      × (0 < (bar_width f).den)
      × (2 * (core_height f).den ≤ (core_height f).num)
      × ((core_height f).num ≤ 100 * (core_height f).den)
      × (severity (usage_colour f) ≤ severity (usage_colour g))
unfolding share bar_width core_height clamped usage_colour
bar_lem used more total = (ground arith, ground arith, ground arith, ground arith, ground arith)

-- Where no more than the total is used, the bar is exactly as wide as the share.
pub bar_exact :
    (used total : ℕ)
    → used ≤ total
    → 0 < total
    → (bar_width (share used total)).num * total ≡ 100 * used * (bar_width (share used total)).den
unfolding share bar_width clamped
bar_exact used total h k = elim (Bool-cases (leb (100 * total) (100 * used))) [
  | inl e ↦ let p : ltb 0 total ≡ true = ground arith in rw p (rw e (ground arith))
  | inr e ↦ let p : ltb 0 total ≡ true = ground arith in rw p (rw e (ground arith))
]
