-- ===== src/Kernel/Pipe/Fifo.antt =====
-- The ring of ex3/q1/xv6/pipe.c against the queue of bytes that it stands for.
use operating_systems_soluti.Base.{
  ℕ, zero, suc, ◌+◌, ◌%◌, ◌^◌, ◌≤◌, ◌<◌, ◌≡◌, refl, ap, ◌≢◌, inl, inr, Bool, true, false, not, ◌||◌,
  List, [], ◌∷◌, ◌++◌, arith, ◌==◌, Bool-cases, length, take, drop, length-append, update,
}
use mathlib.Core.List.{append-nil, append_assoc}
use operating_systems_soluti.Kernel.Pipe.{
  Pipe, pipe_size, uint, is_full, is_empty, put, Ending, returned, failed, asleep, pipewrite,
  read_loop,
}

-- From position `r` on, the ring holds the bytes `xs`.
abbrev pub HoldsFrom : (ℕ → ℕ) → ℕ → List ℕ → Type 0
HoldsFrom f r [] = Unit
HoldsFrom f r (x ∷ xs) = (f (r % 512) ≡ x) × HoldsFrom f (uint (r + 1)) xs

-- The pipe holds exactly the bytes `xs`.
pub record Holds (p : Pipe) (xs : List ℕ) : Type 0 where
  pub small : p.nread < 2 ^ 32
  pub fits : length xs ≤ pipe_size
  pub span : p.nwrite ≡ uint (p.nread + length xs)
  pub content : HoldsFrom p.buffer p.nread xs

-- A write at the end of the queue adds its byte, and spares the others as long as there is room.
HoldsFrom-snoc :
    (f : ℕ → ℕ) (b r : ℕ) (xs : List ℕ)
    → length xs < pipe_size
    → HoldsFrom f r xs
    → HoldsFrom (update f (uint (r + length xs) % 512) b) r (xs ++ (b ∷ []))
HoldsFrom-snoc f b r [] room h = (ground arith, tt)
HoldsFrom-snoc f b r (x ∷ xs) room h =
    let here : uint (uint (r + 1) + length xs) ≡ uint (r + suc (length xs)) = omega arith in
    let apart : (uint (r + suc (length xs)) % 512 == (r % 512)) ≡ false = ground arith in
    (
      ground (arith, apart, h.0),
      rw here at (HoldsFrom-snoc f b (uint (r + 1)) xs (omega arith) h.1),
    )

put-Holds :
    (b : ℕ) {p : Pipe} {xs : List ℕ}
    → Holds p xs
    → length xs < pipe_size
    → Holds (put b p) (xs ++ (b ∷ []))
put-Holds b {p} {xs} h room = record {
  small = h.small;
  fits = omega (arith, length-append xs (b ∷ []));
  span = omega (arith, length-append xs (b ∷ []), h.span);
  content = rw h.span (HoldsFrom-snoc p.buffer b p.nread xs room h.content);
}

-- The tests for a full and for an empty ring are exact, also after `nread` and `nwrite` have wrapped.
pub is_full-Holds : {p : Pipe} {xs : List ℕ} → Holds p xs → is_full p ≡ (length xs == pipe_size)
is_full-Holds h = ground (arith, h.small, h.fits, h.span)

pub is_empty-Holds : {p : Pipe} {xs : List ℕ} → Holds p xs → is_empty p ≡ (length xs == 0)
is_empty-Holds h = ground (arith, h.small, h.fits, h.span)

-- `pipewrite` appends a part of its bytes to the queue, in order, and leaves the rest: none if it
-- returns, and else with the ring full.
pub record Written (p : Pipe) (xs bs : List ℕ) (r : Pipe × Ending × List ℕ) : Type 0 where
  pub taken : List ℕ
  pub split : taken ++ r.2 ≡ bs
  pub holds : Holds r.0 (xs ++ taken)
  pub flags : (r.0.readopen ≡ p.readopen) × (r.0.writeopen ≡ p.writeopen)
  pub finish : r.1 ≡ returned → r.2 ≡ []
  pub block : r.1 ≢ returned → length (xs ++ taken) ≡ pipe_size

blocked :
    {p : Pipe} {xs bs : List ℕ} (e : Ending)
    → Holds p xs
    → is_full p ≡ true
    → e ≢ returned
    → Written p xs bs (p, e, bs)
blocked {p} {xs} e h full ne = record {
  taken = [];
  split = refl;
  holds = rw (append-nil xs) h;
  flags = (refl, refl);
  finish = λ eq. absurd (ne eq);
  block = λ _. ground (arith, append-nil xs, is_full-Holds h);
}

pub pipewrite-Written :
    (killed : Bool) (bs : List ℕ) {p : Pipe} {xs : List ℕ}
    → Holds p xs
    → Written p xs bs (pipewrite killed bs p)
unfolding pipewrite
pipewrite-Written killed [] {p} {xs} h = record {
  taken = [];
  split = refl;
  holds = rw (append-nil xs) h;
  flags = (refl, refl);
  finish = λ e. refl;
  block = λ ne. absurd (ne refl);
}
pipewrite-Written killed (b ∷ bs) {p} {xs} h = elim (Bool-cases (is_full p)) [
  | inl full ↦ rw full (elim (Bool-cases (not p.readopen || killed)) [
    | inl stop ↦ rw stop (blocked failed h full (λ e. cc))
    | inr go_on ↦ rw go_on (blocked asleep h full (λ e. cc))
  ])
  | inr free ↦
      let w =
        pipewrite-Written killed bs (put-Holds b h (ground (arith, is_full-Holds h, h.fits))) in
      let join : (xs ++ (b ∷ [])) ++ w.taken ≡ xs ++ (b ∷ w.taken) =
        append_assoc xs (b ∷ []) w.taken in
      rw free (record {
        taken = b ∷ w.taken;
        split = ap (λ l. b ∷ l) w.split;
        holds = rw join at w.holds;
        flags = w.flags;
        finish = w.finish;
        block = λ ne. rw join at (w.block ne);
      })
]

-- What the copying loop takes is the front of the queue.
pub record Read (n : ℕ) (p : Pipe) (xs : List ℕ) (r : Pipe × List ℕ) : Type 0 where
  pub front : r.1 ≡ take n xs
  pub holds : Holds r.0 (drop n xs)
  pub flags : (r.0.readopen ≡ p.readopen) × (r.0.writeopen ≡ p.writeopen)

pub read_loop-Read : (n : ℕ) (xs : List ℕ) {p : Pipe} → Holds p xs → Read n p xs (read_loop n p)
unfolding read_loop
read_loop-Read zero xs h = record { front = refl; holds = h; flags = (refl, refl) }
read_loop-Read (suc n) [] h =
    rw (is_empty-Holds h) (record { front = refl; holds = h; flags = (refl, refl) })
read_loop-Read (suc n) (x ∷ xs) {p} h =
    let more : is_empty p ≡ false = ground (arith, is_empty-Holds h) in
    let q : Pipe = record p { nread = uint (p.nread + 1) } in
    let h' : Holds q xs = record {
      small = omega arith;
      fits = omega (arith, h.fits);
      span = omega (arith, h.span);
      content = h.content.1;
    } in
    let r = read_loop-Read n xs h' in
    rw more (record { front = rw (r.front, h.content.0); holds = r.holds; flags = r.flags })
