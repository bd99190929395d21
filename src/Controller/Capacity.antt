-- ===== src/Controller/Capacity.antt =====
-- pkg/driver/controller.go: `getRoundedCapacity`, over int64.
use csi_hostpath.Base.{
  ℕ, ◌+◌, ◌-◌, ◌*◌, ◌/◌, ◌%◌, ◌^◌, ◌≤◌, ◌<◌, ◌≡◌, ◌↔◌, ap, sym, ◌∙◌, true, false, inl, inr, arith,
  ltb, if◌then◌else◌, Bool-cases,
}
use csi_hostpath.Base.Int.{
  ℤ, pos, ltb_ℤ, add64, sub64, mul64, quot64, add64-pos, sub64-pos, quot64-pos, mul64-pos,
}

abbrev pub mi : ℕ
mi = 1048576

abbrev pub gi : ℕ
gi = 1073741824

-- `((size + unit - 1) / unit) * unit`
abbrev round_up : ℤ → ℕ → ℤ
round_up size unit = mul64 (quot64 (sub64 (add64 size (pos unit)) (pos 1)) unit) unit

unfoldable pub get_rounded_capacity : ℤ → ℤ
get_rounded_capacity size = if ltb_ℤ (pos gi) size then round_up size gi else round_up size mi

-- The unit that a size is rounded to.
abbrev pub unit_of : ℕ → ℕ
unit_of n = if ltb gi n then gi else mi

lt→ltb : (a b : ℕ) → a < b → ltb a b ≡ true
lt→ltb a b h = ground arith

le→ltb : (a b : ℕ) → a ≤ b → ltb b a ≡ false
le→ltb a b h = ground arith

ltb→lt : (a b : ℕ) → ltb a b ≡ true → a < b
ltb→lt a b h = ground arith

ltb→le : (a b : ℕ) → ltb b a ≡ false → a ≤ b
ltb→le a b h = ground arith

pos_injective : (a b : ℕ) → pos a ≡ pos b → a ≡ b
pos_injective a b e = cc

again_gi : (n : ℕ) → ((n + gi - 1) / gi * gi + gi - 1) / gi * gi ≡ (n + gi - 1) / gi * gi
again_gi n = omega arith

again_mi : (n : ℕ) → ((n + mi - 1) / mi * mi + mi - 1) / mi * mi ≡ (n + mi - 1) / mi * mi
again_mi n = omega arith

module _ (n : ℕ) (fits : n + gi < 2 ^ 63) where
  -- Nothing wraps while a size and a Gi fit an int64 together.
  rounded_gi : gi < n → get_rounded_capacity (pos n) ≡ pos ((n + gi - 1) / gi * gi)
  unfolding get_rounded_capacity
  rounded_gi large =
      rw
        (
          lt→ltb gi (n + 0) (omega arith),
          add64-pos n gi fits,
          sub64-pos (n + gi) 1 (omega arith) fits,
          quot64-pos (n + gi - 1) gi,
        )
        (mul64-pos ((n + gi - 1) / gi) gi (omega arith))

  rounded_mi : n ≤ gi → get_rounded_capacity (pos n) ≡ pos ((n + mi - 1) / mi * mi)
  unfolding get_rounded_capacity
  rounded_mi small =
      rw
        (
          le→ltb (n + 0) gi (omega arith),
          add64-pos n mi (omega arith),
          sub64-pos (n + mi) 1 (omega arith) (omega arith),
          quot64-pos (n + mi - 1) mi,
        )
        (mul64-pos ((n + mi - 1) / mi) mi (omega arith))

  -- A size that fits an int64 together with a Gi is rounded up to the next multiple of its unit, a
  -- Gi for sizes above a Gi and a Mi for others: no smaller multiple holds it.
  pub get_rounded_capacity_lem :
      (k : ℕ) × (get_rounded_capacity (pos n) ≡ pos k)
      × (n ≤ k)
      × (k < n + unit_of n)
      × (k % unit_of n ≡ 0)
  get_rounded_capacity_lem = elim (Bool-cases (ltb gi n)) [
    | inl large ↦ (
      (n + gi - 1) / gi * gi,
      rounded_gi (ltb→lt gi n large),
      omega arith,
      rw large (omega arith),
      rw large (omega arith),
    )
    | inr small ↦ (
      (n + mi - 1) / mi * mi,
      rounded_mi (ltb→le n gi small),
      omega arith,
      rw small (omega arith),
      rw small (omega arith),
    )
  ]

  -- Of the sizes that fit an int64 together with a Gi, 0 is rounded to 0, and no other is.
  get_rounded_capacity-zero : (get_rounded_capacity (pos n) ≡ pos 0) ↔ (n ≡ 0)
  get_rounded_capacity-zero = (
    λ e.
        let (k, r, le, lt, m) = get_rounded_capacity_lem in
        let none_left : k ≡ 0 = pos_injective k 0 (sym r ∙ e) in omega arith,
    λ e. rounded_mi (omega arith) ∙ ap (λ x. pos ((x + mi - 1) / mi * mi)) e,
  )

-- Rounding again changes nothing, for a size that fits an int64 together with two Gi.
get_rounded_capacity_idem :
    (n : ℕ)
    → n + gi + gi < 2 ^ 63
    → get_rounded_capacity (get_rounded_capacity (pos n)) ≡ get_rounded_capacity (pos n)
get_rounded_capacity_idem n fits = elim (Bool-cases (ltb gi n)) [
  | inl large ↦
      let k = (n + gi - 1) / gi * gi in
      let r = rounded_gi n (omega arith) (ltb→lt gi n large) in
      let over : gi < n = ltb→lt gi n large in
      ap get_rounded_capacity r
      ∙ rounded_gi k (omega arith) (omega arith)
      ∙ ap pos (again_gi n)
      ∙ sym r
  | inr small ↦
      let k = (n + mi - 1) / mi * mi in
      let r = rounded_mi n (omega arith) (ltb→le n gi small) in
      let under : n ≤ gi = ltb→le n gi small in
      ap get_rounded_capacity r
      ∙ rounded_mi k (omega arith) (omega arith)
      ∙ ap pos (again_mi n)
      ∙ sym r
]
