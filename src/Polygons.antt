-- ===== src/Polygons.antt =====
-- ex1/q1/main.c: polygons packed into 64-bit commands (ex2/q1/main.c repeats these functions word for
-- word). A command is a number below 2^64; masks and shifts are written as `/` and `%`. Coordinates are
-- what `getXAndY` stores into a `char`. What the program prints is a list of lines, where a perimeter is
-- given by the squared lengths under its square roots, and an area by the `int` that is halved: the
-- floating-point arithmetic of libm and printf is not code of the repository.
pub mod Area
pub mod Decode
pub mod Chain
pub mod Runs
mod Tests
use operating_systems_soluti.Base.{
  ℕ, zero, suc, ◌+◌, ◌-◌, ◌*◌, ◌/◌, ◌%◌, ◌^◌, ◌≤◌, ◌<◌, ◌≡◌, refl, sym, ap, subst, fun_ext, ◌∙◌,
  ◌≢◌, ◌↔◌, ◌⊎◌, inl, inr, Bool, true, false, not, ◌&&◌, ◌||◌, Option, none, some, List, [], ◌∷◌,
  ◌++◌, map, arith, dec_lt, ℕ_discrete, ltb, leb, ◌==◌, if◌then◌else◌, ltb→lt, lt→ltb, ==_refl,
  Bool-cases, Option-cases, length, get_elem?, take, drop, length-append, take-append-drop,
  length-take, length-drop, update, find_from, find, find_from-some, find_from-before,
  find_from-none, find_from-intro, find_from-eq_none, total, total-update, total-weight_le,
  total-bound, total-const, seek, ℤ, pos, negsuc, pos_part, neg_part, sub_ℕ, ◌+ℤ◌, ◌-ℤ◌, ◌*ℤ◌, ◌≤ℤ◌,
  ◌<ℤ◌, ltb_ℤ, eqb_ℤ, +ℤ_parts, -ℤ_parts, *ℤ_parts, eq_of_parts, int_laws, int_max, inc, dec,
}

abbrev pub is_last_iteration : ℕ → Bool
is_last_iteration input = input % 2 == 1

abbrev pub is_new_polygon : ℕ → Bool
is_new_polygon input = input / 2 % 2 == 1

-- 0 or `SQUARE`
abbrev pub get_polygon_type : ℕ → ℕ
get_polygon_type input = input / 4 % 2 * 4

abbrev pub get_action : ℕ → ℕ
get_action input = input / 8 % 8 * 8

abbrev pub get_whom_run_on : ℕ → ℕ
get_whom_run_on input = input / 64 % 4

abbrev pub square : ℕ
square = 4

-- `x < 32 ? x : x ^ 0xc0`, as a signed `char`, for a six-bit `x`
abbrev pub sign_extend : ℕ → ℤ
sign_extend x = if ltb x 32 then pos x else negsuc (63 - x)

unfoldable pub get_x : ℕ → ℕ → ℤ
get_x input v = sign_extend (input / 2 ^ (8 + v * 12) % 64)

unfoldable pub get_y : ℕ → ℕ → ℤ
get_y input v = sign_extend (input / 2 ^ (14 + v * 12) % 64)

abbrev pub Point : Type 0
Point = ℤ × ℤ

abbrev pub get_xy : ℕ → ℕ → Point
get_xy input v = (get_x input v, get_y input v)

abbrev pub is_square : ℕ → Bool
is_square input = get_polygon_type input == square

-- The vertices that the functions below fetch: four of a square, three of a triangle.
abbrev pub vertices : ℕ → List Point
vertices input =
    if is_square input
    then get_xy input 0 ∷ get_xy input 1 ∷ get_xy input 2 ∷ get_xy input 3 ∷ []
    else get_xy input 0 ∷ get_xy input 1 ∷ get_xy input 2 ∷ []

-- What `edgeLength` takes the root of.
abbrev pub edge_squared : Point → Point → ℤ
edge_squared (x₁, y₁) (x₂, y₂) = (x₁ -ℤ x₂) *ℤ (x₁ -ℤ x₂) +ℤ (y₁ -ℤ y₂) *ℤ (y₁ -ℤ y₂)

-- The edges that `perimeter` adds up.
unfoldable pub perimeter : ℕ → List ℤ
perimeter input =
    let a = get_xy input 0 in
    let b = get_xy input 1 in
    let c = get_xy input 2 in
    let d = get_xy input 3 in
    if is_square input
    then edge_squared a b ∷ edge_squared b c ∷ edge_squared c d ∷ edge_squared d a ∷ []
    else edge_squared a b ∷ edge_squared b c ∷ edge_squared c a ∷ []

-- The loop of `polygonArea`: the vertex `j`, the sum so far, the vertices from `i` on.
pub area_from : Point → ℤ → List Point → ℤ
area_from j area [] = area
area_from (xj, yj) area ((xi, yi) ∷ ps) = area_from (xi, yi) (area +ℤ (xj +ℤ xi) *ℤ (yj -ℤ yi)) ps

abbrev pub last_point : Point → List Point → Point
last_point p [] = p
last_point p (q ∷ qs) = last_point q qs

-- The `int` of `polygonArea`, before it is halved; with no vertex the array is not read.
unfoldable pub polygon_area : List Point → ℤ
unfolding area_from
polygon_area [] = pos 0
polygon_area (p ∷ ps) = area_from (last_point p ps) (pos 0) (p ∷ ps)

unfoldable pub area : ℕ → ℤ
unfolding polygon_area
area input = polygon_area (vertices input)

pub data Line : Type 0 where
  polygon : Bool → List Point → Line
  perimeter_line : List ℤ → Line
  area_line : ℤ → Line

abbrev pub when : Bool → Line → List Line
when b l = if b then l ∷ [] else []

-- The three tests of `runAction`, on the bits 8, 16 and 32 of the action.
unfoldable pub run_action : ℕ → ℕ → List Line
run_action action input =
    when (action / 8 % 2 == 1) (polygon (is_square input) (vertices input))
    ++ (when (action / 16 % 2 == 1) (perimeter_line (perimeter input))
        ++ when (action / 32 % 2 == 1) (area_line (area input)))

unfoldable pub do_current : ℕ → List Line
do_current input = run_action (get_action input) input

-- `shouldRunOnThisPolygon`
abbrev pub should_run : ℕ → ℕ → Bool
should_run run_on type =
    (run_on == 3) || (((run_on == 1) && (type == 0)) || ((run_on == 2) && (type == square)))

-- The linked list: `malloc`ed nodes by address, `head` and `tail`.
pub record Store : Type 0 where
  pub head : Option ℕ
  pub tail : Option ℕ
  pub polygon_at : ℕ → ℕ
  pub next : ℕ → Option ℕ

-- `item` is what `malloc` returns, not NULL; with a head, the tail is dereferenced.
unfoldable pub add_polygon : ℕ → ℕ → Store → Store
add_polygon item input s =
    let polys = update s.polygon_at item input in
    let nexts = update s.next item none in
    elim s.head [
      | none ↦ record { head = some item; tail = some item; polygon_at = polys; next = nexts }
      | some _ ↦ record {
        head = s.head;
        tail = some item;
        polygon_at = polys;
        next = elim s.tail [ none ↦ nexts | some t ↦ update nexts t (some item) ];
      }
    ]

-- The loop of `do_all`, on fuel: the lines printed from `itr` on; `none` if the fuel runs out.
pub do_all_from : ℕ → ℕ → Option ℕ → Store → Option (List Line)
do_all_from zero input itr s = none
do_all_from (suc n) input none s = some []
do_all_from (suc n) input (some p) s = elim (do_all_from n input (s.next p) s) [
  | none ↦ none
  | some rest ↦ some (
      (if should_run (get_whom_run_on input) (get_polygon_type (s.polygon_at p))
        then run_action (get_action input) (s.polygon_at p)
        else [])
      ++ rest)
]

-- The body of the loop of `main`: the store and the lines; `fuel` bounds the walk of `do_all`.
unfoldable pub run_on_polygon : ℕ → ℕ → ℕ → Store → Store × Option (List Line)
run_on_polygon fuel item input s =
    let s' = if is_new_polygon input then add_polygon item input s else s in
    (
      s',
      if get_whom_run_on input == 0
          then some (do_current input)
          else do_all_from fuel input s'.head s',
    )

-- What is printed by this round, and by the later ones if this was not the last.
abbrev pub and_then : Option (List Line) → Bool → Option (List Line) → Option (List Line)
and_then none done rest = none
and_then (some now) true rest = some now
and_then (some now) false none = none
and_then (some now) false (some more) = some (now ++ more)

-- The loop of `main` over the commands that `scanf` reads, each with the address that `malloc` would
-- return for it. At the end of the input `scanf` fails for ever and the last command is repeated: that
-- is `none`, as is a walk that runs out of fuel.
pub main_loop : ℕ → List (ℕ × ℕ) → Store → Option (List Line)
main_loop fuel [] s = none
main_loop fuel ((item, input) ∷ cs) s =
    let r = run_on_polygon fuel item input s in
    let rest = main_loop fuel cs r.0 in and_then r.1 (is_last_iteration input) rest

-- The loop of `freeList`: the addresses freed, in order. `tmp->next` is read before `tmp` is freed.
pub free_from : ℕ → Option ℕ → Store → Option (List ℕ)
free_from zero head s = none
free_from (suc n) none s = some []
free_from (suc n) (some p) s = elim (free_from n (s.next p) s) [
  | none ↦ none
  | some ps ↦ some (p ∷ ps)
]
