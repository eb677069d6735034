-- ===== src/Polygons/Tests.antt =====
-- Runs of ex1/q1/main.c, and its theorems at concrete commands.
use operating_systems_soluti.Base.{
  ℕ, ◌*◌, ◌^◌, ◌<◌, ◌≡◌, refl, none, List, [], ◌∷◌, arith, ◌==◌, pos, negsuc, ◌+ℤ◌, ◌-ℤ◌, ◌*ℤ◌,
}
use operating_systems_soluti.Polygons.{
  Point, Store, polygon_area, area_from, last_point, get_xy, is_last_iteration, is_new_polygon,
  get_polygon_type, get_action, get_whom_run_on, main_loop,
}
use operating_systems_soluti.Polygons.Area.{cross_from, polygon_area-cross}
use operating_systems_soluti.Polygons.Decode.{Command, IsCommand, pack, decode-pack}
use operating_systems_soluti.Polygons.Chain.{Cells}
use operating_systems_soluti.Polygons.Runs.{spec_loop, main_loop-spec_loop}

-- The unit square, clockwise: the loop adds up twice its area.
abbrev origin : Point
origin = (pos 0, pos 0)

abbrev corners : List Point
corners = (pos 0, pos 1) ∷ (pos 1, pos 1) ∷ (pos 1, pos 0) ∷ []

square_area : polygon_area (origin ∷ corners) ≡ pos 2
unfolding polygon_area area_from ◌+ℤ◌ ◌-ℤ◌ ◌*ℤ◌
square_area = refl

polygon_area-cross_example :
    polygon_area (origin ∷ corners) ≡ cross_from (last_point origin corners) (origin ∷ corners)
polygon_area-cross_example = polygon_area-cross origin corners

abbrev small_command : Command
small_command = record {
  last = 1;
  fresh = 1;
  kind = 1;
  action = 7;
  whom = 0;
  x = λ v. pos 1;
  y = λ v. negsuc 31;
}

small_command-IsCommand : IsCommand small_command
small_command-IsCommand = record {
  last_bit = omega arith;
  fresh_bit = omega arith;
  kind_bit = omega arith;
  action_bits = omega arith;
  whom_bits = omega arith;
  x_ok = λ v. omega arith;
  y_ok = λ v. omega arith;
}

decode-pack_example :
    (pack small_command < 2 ^ 64)
    × (is_last_iteration (pack small_command) ≡ (small_command.last == 1))
    × (is_new_polygon (pack small_command) ≡ (small_command.fresh == 1))
    × (get_polygon_type (pack small_command) ≡ 4 * small_command.kind)
    × (get_action (pack small_command) ≡ 8 * small_command.action)
    × (get_whom_run_on (pack small_command) ≡ small_command.whom)
    × ((v : ℕ) → v < 4 → get_xy (pack small_command) v ≡ (small_command.x v, small_command.y v))
decode-pack_example = decode-pack small_command small_command-IsCommand

abbrev no_polygons : Store
no_polygons = record { head = none; tail = none; polygon_at = λ a. 0; next = λ a. none }

-- A new triangle with its vertices printed, then all polygons printed, and the end.
abbrev commands : Cells
commands = (100, 10) ∷ (200, 201) ∷ []

main_loop-spec_loop_example : main_loop 5 commands no_polygons ≡ spec_loop (10 ∷ 201 ∷ []) []
main_loop-spec_loop_example =
    main_loop-spec_loop 5 commands no_polygons refl refl (refl, (refl, tt)) (omega arith)
