-- ===== src/Polygons/Area.antt =====
-- `polygonArea` of ex1/q1/main.c is the shoelace formula.
use operating_systems_soluti.Base.{
  ℕ, ◌*◌, ◌≡◌, ap, List, [], ◌∷◌, arith, ℤ, pos, pos_part, neg_part, ◌+ℤ◌, ◌-ℤ◌, ◌*ℤ◌, +ℤ_parts,
  -ℤ_parts, *ℤ_parts, eq_of_parts, int_laws,
}
use operating_systems_soluti.Polygons.{Point, area_from, last_point, polygon_area}

-- x₁ y₂ - x₂ y₁
abbrev pub cross : Point → Point → ℤ
cross (x₁, y₁) (x₂, y₂) = x₁ *ℤ y₂ -ℤ x₂ *ℤ y₁

-- The sum of the cross products of each vertex with the one before it.
pub cross_from : Point → List Point → ℤ
cross_from j [] = pos 0
cross_from j (i ∷ ps) = cross i j +ℤ cross_from i ps

-- One term of the loop is the cross product, up to a difference of products that telescopes.
edge_term :
    (xj yj xi yi : ℤ) → (xj +ℤ xi) *ℤ (yj -ℤ yi) ≡ (xi *ℤ yj -ℤ xj *ℤ yi) +ℤ (xj *ℤ yj -ℤ xi *ℤ yi)
edge_term xj yj xi yi =
    let s = +ℤ_parts xj xi in
    let d = -ℤ_parts yj yi in
    eq_of_parts ((xj +ℤ xi) *ℤ (yj -ℤ yi)) ((xi *ℤ yj -ℤ xj *ℤ yi) +ℤ (xj *ℤ yj -ℤ xi *ℤ yi)) (
      omega (
        arith,
        *ℤ_parts (xj +ℤ xi) (yj -ℤ yi),
        *ℤ_parts xi yj,
        *ℤ_parts xj yi,
        *ℤ_parts xj yj,
        *ℤ_parts xi yi,
        +ℤ_parts (xi *ℤ yj -ℤ xj *ℤ yi) (xj *ℤ yj -ℤ xi *ℤ yi),
        -ℤ_parts (xi *ℤ yj) (xj *ℤ yi),
        -ℤ_parts (xj *ℤ yj) (xi *ℤ yi),
        ap (λ (t : ℕ). t * pos_part (yj -ℤ yi)) s,
        ap (λ (t : ℕ). t * neg_part (yj -ℤ yi)) s,
        ap (λ (t : ℕ). pos_part xj * t) d,
        ap (λ (t : ℕ). neg_part xj * t) d,
        ap (λ (t : ℕ). pos_part xi * t) d,
        ap (λ (t : ℕ). neg_part xi * t) d,
      ))

abbrev diagonal : Point → ℤ
diagonal (x, y) = x *ℤ y

area_from-cross :
    (j : Point) (acc : ℤ) (ps : List Point)
    → area_from j acc ps +ℤ diagonal (last_point j ps) ≡ acc +ℤ cross_from j ps +ℤ diagonal j
unfolding area_from cross_from
area_from-cross j acc [] = omega int_laws
area_from-cross (xj, yj) acc ((xi, yi) ∷ ps) =
    let ih = area_from-cross (xi, yi) (acc +ℤ (xj +ℤ xi) *ℤ (yj -ℤ yi)) ps in
    let e = edge_term xj yj xi yi in
    omega (int_laws, ap pos_part ih, ap neg_part ih, ap pos_part e, ap neg_part e)

-- The area loop computes the shoelace formula, for every polygon: the sum, over the vertices, of the
-- cross product of a vertex with its predecessor, the last vertex being the predecessor of the first.
pub polygon_area-cross :
    (p : Point) (ps : List Point) → polygon_area (p ∷ ps) ≡ cross_from (last_point p ps) (p ∷ ps)
unfolding polygon_area
polygon_area-cross p ps =
    let e = area_from-cross (last_point p ps) (pos 0) (p ∷ ps) in
    omega (int_laws, ap pos_part e, ap neg_part e)
