-- ===== src/Format/Bounds.antt =====
-- The ranges of the numbers that web/src/lib/format.ts shows.
use native.Mathlib.Nat.{mul-le-mul_right}
use control_room.Base.{
  ℕ, String, ◌<>◌, true, false, ◌∙◌, ◌⊎◌, subst, ap, ◌+◌, ◌*◌, ◌≤◌, ◌<◌, ◌^◌, ltb, leb, ◌≡◌, refl,
  arith, inl, inr, Bool-cases,
}
use control_room.Format.{format_bytes, uptime_of, Scaled, scale_up, scaled_bytes}

-- The three parts of an uptime make up its whole minutes, with less than 24 hours and less than 60
-- minutes beside the days, so that no two uptimes a minute or more apart look the same.
pub uptime_bounds :
    (s : ℕ)
    → let u = uptime_of s in
      (86_400 * u.days + 3600 * u.h + 60 * u.m ≤ s)
      × (s < 86_400 * u.days + 3600 * u.h + 60 * u.m + 60)
      × (u.h < 24)
      × (u.m < 60)
unfolding uptime_of
uptime_bounds s = omega arith

-- The binary unit that a number of bytes is to be shown in.
pub data Reads (n : ℕ) (r : Scaled) : Type 0 where
  b : n < 1024 → r ≡ record { bytes = n; scale = 1; unit = "B" } → Reads n r
  kib : 1024 ≤ n → n < 1024 ^ 2 → r ≡ record { bytes = n; scale = 1024; unit = "KiB" } → Reads n r
  mib :
      1024 ^ 2 ≤ n
      → n < 1024 ^ 3
      → r ≡ record { bytes = n; scale = 1024 ^ 2; unit = "MiB" }
      → Reads n r
  gib :
      1024 ^ 3 ≤ n
      → n < 1024 ^ 4
      → r ≡ record { bytes = n; scale = 1024 ^ 3; unit = "GiB" }
      → Reads n r
  tib :
      1024 ^ 4 ≤ n
      → n < 1024 ^ 5
      → r ≡ record { bytes = n; scale = 1024 ^ 4; unit = "TiB" }
      → Reads n r
  pib : 1024 ^ 5 ≤ n → r ≡ record { bytes = n; scale = 1024 ^ 5; unit = "PiB" } → Reads n r

-- The fraction that is shown, before it is rounded: a number of bytes is read in bytes below 1024, and
-- otherwise in the largest unit from KiB to PiB that does not exceed it.
pub scaled_bytes-Reads : (n : ℕ) → Reads n (scaled_bytes n)
unfolding scaled_bytes scale_up
scaled_bytes-Reads n = elim (Bool-cases (ltb n 1024)) [
  | inl small ↦ rw small (b (ground arith) refl)
  | inr no_b ↦ rw no_b (elim (Bool-cases (leb (1024 ^ 2) n)) [
    | inr k ↦ rw k (kib (ground arith) (ground arith) refl)
    | inl m ↦ rw m (elim (Bool-cases (leb (1024 ^ 3) n)) [
      | inr k ↦ rw k (mib (ground arith) (ground arith) refl)
      | inl g ↦ rw g (elim (Bool-cases (leb (1024 ^ 4) n)) [
        | inr k ↦ rw k (gib (ground arith) (ground arith) refl)
        | inl t ↦ rw t (elim (Bool-cases (leb (1024 ^ 5) n)) [
          | inr k ↦ rw k (tib (ground arith) (ground arith) refl)
          | inl p ↦ rw p (pib (ground arith) refl)
        ])
      ])
    ])
  ])
]

-- `toFixed(1)` gives the text of a number of tenths that lies as near to the fraction `p / q` as any.
pub record RoundsTo (to_fixed : ℕ → ℕ → ℕ → String) (tenths : ℕ → String) : Type 0 where
  pub nearest : ℕ → ℕ → ℕ
  pub text : (p q : ℕ) → 0 < q → to_fixed p q 1 ≡ tenths (nearest p q)
  pub above : (p q : ℕ) → 0 < q → 20 * p ≤ nearest p q * (2 * q) + q
  pub below : (p q : ℕ) → 0 < q → nearest p q * (2 * q) ≤ 20 * p + q

-- `t` tenths of the unit `s.unit` are as near to `n` bytes as one decimal allows.
pub record IsNear (n t : ℕ) (s : Scaled) : Type 0 where
  pub reads : Reads n s
  pub above : 20 * n ≤ t * (2 * s.scale) + s.scale
  pub below : t * (2 * s.scale) ≤ 20 * n + s.scale
  pub at_least_one : 10 ≤ t
  pub at_most_1024 : n < 1024 ^ 6 → t ≤ 10_240

-- A fraction that is at least 1 is not rounded below 10 tenths, and one below 1024 not above 10240.
at_least_one : (n t c : ℕ) → 0 < c → c ≤ n → 20 * n ≤ t * (2 * c) + c → 10 ≤ t
at_least_one n t c pos lo up = elim (Bool-cases (leb 10 t)) [
  | inl e ↦ ground (arith, e)
  | inr e ↦ absurd (omega (arith, mul-le-mul_right {m = t} {n = 9} (2 * c) (ground (arith, e))))
]

at_most_1024 : (n t c : ℕ) → n < 1024 * c → t * (2 * c) ≤ 20 * n + c → t ≤ 10_240
at_most_1024 n t c hi down = elim (Bool-cases (leb t 10_240)) [
  | inl e ↦ ground (arith, e)
  | inr e ↦
      absurd (omega (arith, mul-le-mul_right {m = 10_241} {n = t} (2 * c) (ground (arith, e))))
]

scaled-IsNear :
    (n t : ℕ) (s : Scaled) (unit : String) (scale : ℕ)
    → s ≡ record { bytes = n; scale = scale; unit = unit }
    → Reads n s
    → 0 < scale
    → 20 * s.bytes ≤ t * (2 * s.scale) + s.scale
    → t * (2 * s.scale) ≤ 20 * s.bytes + s.scale
    → scale ≤ n
    → (n < 1024 ^ 6 → n < 1024 * scale)
    → IsNear n t s
scaled-IsNear n t s unit scale e v pos up down lo hi = record {
  reads = v;
  above = subst (λ m. 20 * m ≤ t * (2 * s.scale) + s.scale) (ap (λ r. r.bytes) e) up;
  below = subst (λ m. t * (2 * s.scale) ≤ 20 * m + s.scale) (ap (λ r. r.bytes) e) down;
  at_least_one =
      at_least_one n t scale pos lo (subst (λ r. 20 * r.bytes ≤ t * (2 * r.scale) + r.scale) e up);
  at_most_1024 = λ h.
      at_most_1024 n t scale (hi h)
        (subst (λ r. t * (2 * r.scale) ≤ 20 * r.bytes + r.scale) e down);
}

Reads-IsNear :
    (n t : ℕ) (s : Scaled)
    → 1024 ≤ n
    → Reads n s
    → 20 * s.bytes ≤ t * (2 * s.scale) + s.scale
    → t * (2 * s.scale) ≤ 20 * s.bytes + s.scale
    → IsNear n t s
Reads-IsNear n t s big (b small e) up down = absurd (omega arith)
Reads-IsNear n t s big (kib lo hi e) up down =
    scaled-IsNear n t s _ 1024 e (kib lo hi e) (omega arith) up down lo (λ h. omega arith)
Reads-IsNear n t s big (mib lo hi e) up down =
    scaled-IsNear n t s _ (1024 ^ 2) e (mib lo hi e) (omega arith) up down lo (λ h. omega arith)
Reads-IsNear n t s big (gib lo hi e) up down =
    scaled-IsNear n t s _ (1024 ^ 3) e (gib lo hi e) (omega arith) up down lo (λ h. omega arith)
Reads-IsNear n t s big (tib lo hi e) up down =
    scaled-IsNear n t s _ (1024 ^ 4) e (tib lo hi e) (omega arith) up down lo (λ h. omega arith)
Reads-IsNear n t s big (pib lo e) up down =
    scaled-IsNear n t s _ (1024 ^ 5) e (pib lo e) (omega arith) up down lo (λ h. omega arith)

Reads-positive : (n : ℕ) (s : Scaled) → Reads n s → 0 < s.scale
Reads-positive n s (b small e) = rw e (omega arith)
Reads-positive n s (kib lo hi e) = rw e (omega arith)
Reads-positive n s (mib lo hi e) = rw e (omega arith)
Reads-positive n s (gib lo hi e) = rw e (omega arith)
Reads-positive n s (tib lo hi e) = rw e (omega arith)
Reads-positive n s (pib lo e) = rw e (omega arith)

module _ (print : ℕ → String) (to_fixed : ℕ → ℕ → ℕ → String) where
  shown_whole : (n : ℕ) → ltb n 1024 ≡ true → format_bytes print to_fixed n 1 ≡ print n <> " B"
  unfolding format_bytes scaled_bytes
  shown_whole n h = rw h refl

  shown_scaled :
      (n : ℕ)
      → ltb n 1024 ≡ false
      → let s = scaled_bytes n in
        format_bytes print to_fixed n 1 ≡ to_fixed s.bytes s.scale 1 <> " " <> s.unit
  unfolding format_bytes scaled_bytes
  shown_scaled n h = rw h refl

-- A number of bytes below 1024 is shown whole. A larger one is shown as tenths of a unit that are as near
-- to it as one decimal allows, of the largest unit from KiB to PiB that does not exceed it: at least 1.0
-- of that unit, and below 1024 PiB at most 1024.0. Of `toFixed` only the rounding to a nearest tenth is
-- relied on.
pub format_bytes-IsNear :
    (print : ℕ → String) (to_fixed : ℕ → ℕ → ℕ → String) (tenths : ℕ → String)
    → RoundsTo to_fixed tenths
    → (n : ℕ)
    → ((n < 1024) × (format_bytes print to_fixed n 1 ≡ print n <> " B"))
      ⊎ ((1024 ≤ n)
          × ((t : ℕ) × (s : Scaled) × IsNear n t s
              × (format_bytes print to_fixed n 1 ≡ tenths t <> " " <> s.unit)))
format_bytes-IsNear print to_fixed tenths r n =
    let s = scaled_bytes n in
    let v = scaled_bytes-Reads n in
    let pos = Reads-positive n s v in
    elim (Bool-cases (ltb n 1024)) [
      | inl small ↦ inl (ground (arith, small), shown_whole print to_fixed n small)
      | inr large ↦ inr (
        ground (arith, large),
        (
          r.nearest s.bytes s.scale,
          s,
          Reads-IsNear n (r.nearest s.bytes s.scale) s (ground (arith, large)) v
              (r.above s.bytes s.scale pos) (r.below s.bytes s.scale pos),
          shown_scaled print to_fixed n large
              ∙ ap (λ x. x <> " " <> s.unit) (r.text s.bytes s.scale pos),
        ),
      )
    ]
