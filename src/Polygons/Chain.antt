-- ===== src/Polygons/Chain.antt =====
-- The linked list of ex1/q1/main.c against the list of polygons that it stands for.
use operating_systems_soluti.Base.{
  ℕ, zero, suc, ◌<◌, ◌≡◌, refl, sym, ap, Bool, true, false, ◌||◌, Option, none, some, List, [], ◌∷◌,
  ◌++◌, map, arith, ◌==◌, if◌then◌else◌, length, update,
}
use operating_systems_soluti.Polygons.{
  Line, Store, add_polygon, do_all_from, should_run, run_action, get_action, get_whom_run_on,
  get_polygon_type, free_from,
}

abbrev pub Cells : Type 0
Cells = List (ℕ × ℕ)

abbrev pub has : ℕ → Cells → Bool
has a [] = false
has a ((b, v) ∷ xs) = (b == a) || has a xs

abbrev pub last_address : ℕ → Cells → ℕ
last_address a [] = a
last_address a ((b, v) ∷ xs) = last_address b xs

abbrev pub address_of_last : Cells → Option ℕ
address_of_last [] = none
address_of_last ((a, v) ∷ xs) = some (last_address a xs)

-- From `p` the `next` fields lead through the distinct cells `xs` to NULL.
abbrev pub Walk : Store → Option ℕ → Cells → Type 0
Walk s p [] = p ≡ none
Walk s p ((a, v) ∷ xs) =
    (p ≡ some a) × (s.polygon_at a ≡ v) × (has a xs ≡ false) × Walk s (s.next a) xs

pub record IsList (s : Store) (xs : Cells) : Type 0 where
  pub walk : Walk s s.head xs
  pub ends : s.tail ≡ address_of_last xs

has-last_address : (b w : ℕ) (ys : Cells) → has (last_address b ys) ((b, w) ∷ ys) ≡ true
has-last_address b w [] = ground arith
has-last_address b w ((c, v) ∷ ys) = ground (arith, has-last_address c v ys)

has-append :
    (c item input : ℕ) (zs : Cells) → has c (zs ++ ((item, input) ∷ [])) ≡ (has c zs || (item == c))
has-append c item input [] = ground arith
has-append c item input ((b, v) ∷ zs) = ground (arith, has-append c item input zs)

-- The store after the writes of `add_polygon` behind the cell `t`.
abbrev linked : Store → ℕ → ℕ → ℕ → Store
linked s item input t = record {
  head = s.head;
  tail = some item;
  polygon_at = update s.polygon_at item input;
  next = update (update s.next item none) t (some item);
}

Walk-append :
    (s : Store) (item input : ℕ) (p : Option ℕ) (a v : ℕ) (xs : Cells)
    → Walk s p ((a, v) ∷ xs)
    → has item ((a, v) ∷ xs) ≡ false
    → Walk (linked s item input (last_address a xs)) p ((a, v) ∷ (xs ++ ((item, input) ∷ [])))
Walk-append s item input p a v [] h out = ground arith
Walk-append s item input p a v ((b, w) ∷ ys) h out =
    let ih = Walk-append s item input (s.next a) b w ys h.3 (ground arith) in
    let t = last_address b ys in
    let apart : (t == a) ≡ false = ground (arith, has-last_address b w ys) in
    let apart' : (item == a) ≡ false = ground arith in
    let step : (linked s item input t).next a ≡ s.next a = ground arith in
    (h.0, ground (arith, h.1), ground (arith, h.2, has-append a item input ys), rw step ih)

add_to_empty :
    (s : Store) (item input : ℕ)
    → s.head ≡ none
    → add_polygon item input s ≡ record {
      head = some item;
      tail = some item;
      polygon_at = update s.polygon_at item input;
      next = update s.next item none;
    }
unfolding add_polygon
add_to_empty s item input h = ground arith

add_to_list :
    (s : Store) (item input a t : ℕ)
    → s.head ≡ some a
    → s.tail ≡ some t
    → add_polygon item input s ≡ linked s item input t
unfolding add_polygon
add_to_list s item input a t h e = ground arith

last_address-append :
    (a item input : ℕ) (xs : Cells) → last_address a (xs ++ ((item, input) ∷ [])) ≡ item
last_address-append a item input [] = refl
last_address-append a item input ((b, v) ∷ xs) = last_address-append b item input xs

-- `add_polygon` at an unused address appends the polygon: the new list is the old one with the new cell
-- at its end, and `tail` points to it.
pub add_polygon-append :
    (s : Store) (item input : ℕ) (xs : Cells)
    → IsList s xs
    → has item xs ≡ false
    → IsList (add_polygon item input s) (xs ++ ((item, input) ∷ []))
unfolding add_polygon
add_polygon-append s item input [] h out =
    rw (add_to_empty s item input h.walk) (record { walk = ground arith; ends = refl })
add_polygon-append s item input ((a, v) ∷ xs) h out =
    rw (add_to_list s item input a (last_address a xs) h.walk.0 h.ends) (record {
      walk = Walk-append s item input s.head a v xs h.walk out;
      ends = ap some (sym (last_address-append a item input xs));
    })

-- What `do_all` prints for the polygons `ps`, in order.
abbrev pub all_lines : ℕ → Cells → List Line
all_lines input [] = []
all_lines input ((a, v) ∷ xs) =
    (if should_run (get_whom_run_on input) (get_polygon_type v)
      then run_action (get_action input) v
      else [])
    ++ all_lines input xs

pub do_all-all_lines :
    (n input : ℕ) (s : Store) (p : Option ℕ) (xs : Cells)
    → Walk s p xs
    → length xs < n
    → do_all_from n input p s ≡ some (all_lines input xs)
unfolding do_all_from
do_all-all_lines zero input s p xs h lt = absurd (omega arith)
do_all-all_lines (suc n) input s p [] h lt = rw h
do_all-all_lines (suc n) input s p ((a, v) ∷ xs) h lt =
    rw (h.0, do_all-all_lines n input s (s.next a) xs h.3 (omega arith), h.1)

-- `freeList` frees every node, once each, and stops.
pub free_from-addresses :
    (n : ℕ) (s : Store) (p : Option ℕ) (xs : Cells)
    → Walk s p xs
    → length xs < n
    → free_from n p s ≡ some (map (λ c. c.0) xs)
unfolding free_from
free_from-addresses zero s p xs h lt = absurd (omega arith)
free_from-addresses (suc n) s p [] h lt = rw h
free_from-addresses (suc n) s p ((a, v) ∷ xs) h lt =
    rw (h.0, free_from-addresses n s (s.next a) xs h.3 (omega arith))
