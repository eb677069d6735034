-- ===== src/Polygons/Decode.antt =====
-- The packing that ex1/q1/main.c reads: flags in the low byte, then four vertices of two six-bit
-- coordinates each.
use operating_systems_soluti.Base.{
  ℕ, zero, suc, ◌+◌, ◌-◌, ◌*◌, ◌/◌, ◌%◌, ◌^◌, ◌<◌, ◌≡◌, refl, arith, ◌==◌, ℤ, pos, negsuc,
}
use operating_systems_soluti.Polygons.{
  is_last_iteration, is_new_polygon, get_polygon_type, get_action, get_whom_run_on, get_x, get_y,
  get_xy, sign_extend,
}

-- A coordinate of six bits: -32 to 31.
abbrev pub IsCoordinate : ℤ → Type 0
IsCoordinate (pos n) = n < 32
IsCoordinate (negsuc n) = n < 32

-- Its two's complement.
abbrev pub encode : ℤ → ℕ
encode (pos n) = n
encode (negsuc n) = 63 - n

encode-lt : (z : ℤ) → IsCoordinate z → encode z < 64
encode-lt (pos n) h = omega arith
encode-lt (negsuc n) h = omega arith

sign_extend-encode : (z : ℤ) → IsCoordinate z → sign_extend (encode z) ≡ z
sign_extend-encode (pos n) h = ground arith
sign_extend-encode (negsuc n) h = ground arith

-- A command by its parts: last, new, square, the three action bits, whom to run on, the vertices.
pub record Command : Type 0 where
  pub last : ℕ
  pub fresh : ℕ
  pub kind : ℕ
  pub action : ℕ
  pub whom : ℕ
  pub x : ℕ → ℤ
  pub y : ℕ → ℤ

pub record IsCommand (c : Command) : Type 0 where
  pub last_bit : c.last < 2
  pub fresh_bit : c.fresh < 2
  pub kind_bit : c.kind < 2
  pub action_bits : c.action < 8
  pub whom_bits : c.whom < 4
  pub x_ok : (v : ℕ) → IsCoordinate (c.x v)
  pub y_ok : (v : ℕ) → IsCoordinate (c.y v)

abbrev pub vertex : Command → ℕ → ℕ
vertex c v = encode (c.x v) + 64 * encode (c.y v)

unfoldable pub pack : Command → ℕ
pack c =
    c.last
    + 2 * c.fresh
    + 4 * c.kind
    + 8 * c.action
    + 64 * c.whom
    + 2 ^ 8 * (vertex c 0 + 2 ^ 12 * (vertex c 1 + 2 ^ 12 * (vertex c 2 + 2 ^ 12 * vertex c 3)))

module _ (c : Command) (h : IsCommand c) where
  coords : (v : ℕ) → (encode (c.x v) < 64) × (encode (c.y v) < 64)
  coords v = (encode-lt (c.x v) (h.x_ok v), encode-lt (c.y v) (h.y_ok v))

  pack-lt : pack c < 2 ^ 64
  unfolding pack
  pack-lt = omega (
    arith,
    h.last_bit,
    h.fresh_bit,
    h.kind_bit,
    h.action_bits,
    h.whom_bits,
    coords 0,
    coords 1,
    coords 2,
    coords 3,
  )

  pack-flags :
      (is_last_iteration (pack c) ≡ (c.last == 1))
      × (is_new_polygon (pack c) ≡ (c.fresh == 1))
      × (get_polygon_type (pack c) ≡ 4 * c.kind)
      × (get_action (pack c) ≡ 8 * c.action)
      × (get_whom_run_on (pack c) ≡ c.whom)
  unfolding pack
  pack-flags = ground (arith, h.last_bit, h.fresh_bit, h.kind_bit, h.action_bits, h.whom_bits)

  -- The two six-bit fields of a vertex.
  fields :
      (v : ℕ)
      → v < 4
      → (pack c / 2 ^ (8 + v * 12) % 64 ≡ encode (c.x v))
        × (pack c / 2 ^ (14 + v * 12) % 64 ≡ encode (c.y v))
  unfolding pack
  fields zero lt =
      omega (arith, h.last_bit, h.fresh_bit, h.kind_bit, h.action_bits, h.whom_bits, coords 0)
  fields (suc zero) lt =
      omega
        (arith, h.last_bit, h.fresh_bit, h.kind_bit, h.action_bits, h.whom_bits, coords 0, coords 1)
  fields (suc (suc zero)) lt = omega (
    arith,
    h.last_bit,
    h.fresh_bit,
    h.kind_bit,
    h.action_bits,
    h.whom_bits,
    coords 0,
    coords 1,
    coords 2,
  )
  fields (suc (suc (suc zero))) lt = omega (
    arith,
    h.last_bit,
    h.fresh_bit,
    h.kind_bit,
    h.action_bits,
    h.whom_bits,
    coords 0,
    coords 1,
    coords 2,
    coords 3,
  )
  fields (suc (suc (suc (suc v)))) lt = absurd (omega arith)

  pack-xy : (v : ℕ) → v < 4 → get_xy (pack c) v ≡ (c.x v, c.y v)
  unfolding get_x get_y
  pack-xy v lt =
      let (fx, fy) = fields v lt in
      rw (fx, fy, sign_extend-encode (c.x v) (h.x_ok v), sign_extend-encode (c.y v) (h.y_ok v)) refl

-- Decoding inverts the packing: for all flags and all coordinates from -32 to 31, the packed command
-- is below 2^64, and `isLastIteration`, `isNewPolygon`, `getPolygonType`, `getAction`, `getWhomRunOn`
-- and `getXAndY` at each of the four vertices return the parts that were packed.
pub decode-pack :
    (c : Command)
    → IsCommand c
    → (pack c < 2 ^ 64)
      × (is_last_iteration (pack c) ≡ (c.last == 1))
      × (is_new_polygon (pack c) ≡ (c.fresh == 1))
      × (get_polygon_type (pack c) ≡ 4 * c.kind)
      × (get_action (pack c) ≡ 8 * c.action)
      × (get_whom_run_on (pack c) ≡ c.whom)
      × ((v : ℕ) → v < 4 → get_xy (pack c) v ≡ (c.x v, c.y v))
decode-pack c h = let f = pack-flags c h in (pack-lt c h, f.0, f.1, f.2, f.3, f.4, pack-xy c h)
