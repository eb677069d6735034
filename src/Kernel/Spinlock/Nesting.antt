-- ===== src/Kernel/Spinlock/Nesting.antt =====
-- Interrupts and nested locks in ex3/q1/xv6/spinlock.c.
use operating_systems_soluti.Base.{
  ℕ, zero, suc, ◌+◌, ◌-◌, ◌<◌, ◌≡◌, refl, subst, inl, inr, Bool, true, false, ◌&&◌, ◌||◌, Option,
  none, some, List, [], ◌∷◌, arith, ◌==◌, ==_refl, Bool-cases,
}
use operating_systems_soluti.Kernel.Spinlock.{
  Cpu, Lock, pushcli, popcli, holding, got, acquire, release,
}

-- A processor that entered `depth` sections with its interrupts at `enabled` before the first.
pub record IsNested (enabled : Bool) (depth : ℕ) (c : Cpu) : Type 0 where
  pub nesting : c.ncli ≡ depth
  pub flag : c.interrupts ≡ (depth == 0 && enabled)
  pub saved : 0 < depth → c.intena ≡ enabled

pushcli-IsNested :
    {enabled : Bool} {depth : ℕ} {c : Cpu}
    → IsNested enabled depth c
    → IsNested enabled (depth + 1) (pushcli c)
unfolding pushcli
pushcli-IsNested {enabled} {depth} {c} h = record {
  nesting = omega (arith, h.nesting);
  flag = ground arith;
  saved = λ lt. elim (Bool-cases (depth == 0)) [
    | inl z ↦ ground (arith, z, h.nesting, h.flag)
    | inr nz ↦ ground (arith, nz, h.nesting, h.saved)
  ];
}

popped : Cpu → Cpu
popped c = record c { ncli = c.ncli - 1; interrupts = c.ncli == 1 && c.intena }

popcli-IsNested :
    {enabled : Bool} {depth : ℕ} {c : Cpu}
    → IsNested enabled (depth + 1) c
    → (popcli c ≡ some (popped c)) × IsNested enabled depth (popped c)
unfolding popcli popped
popcli-IsNested {enabled} {depth} {c} h =
    let off : (c.interrupts || c.ncli == 0) ≡ false = ground (arith, h.flag, h.nesting) in
    let one : (c.ncli == 1) ≡ (depth == 0) = ground (arith, h.nesting) in
    (
      rw off refl,
      record {
        nesting = omega (arith, h.nesting);
        flag = rw (one, h.saved (omega arith)) refl;
        saved = λ lt. h.saved (omega arith);
      },
    )

popcli-outermost : {enabled : Bool} {c : Cpu} → IsNested enabled 0 c → popcli c ≡ none
unfolding popcli
popcli-outermost h = ground (arith, h.nesting)

-- A run of `pushcli` (true) and `popcli` (false), and the depth that it leads to.
pub run : List Bool → Cpu → Option Cpu
run [] c = some c
run (true ∷ ops) c = run ops (pushcli c)
run (false ∷ ops) c = elim (popcli c) [ none ↦ none | some c' ↦ run ops c' ]

pub depth_after : List Bool → ℕ → Option ℕ
depth_after [] d = some d
depth_after (true ∷ ops) d = depth_after ops (d + 1)
depth_after (false ∷ ops) zero = none
depth_after (false ∷ ops) (suc d) = depth_after ops d

-- The processor that a run leaves is at the depth of the run, or both fail.
pub data Follows (enabled : Bool) : Option Cpu → Option ℕ → Type 0 where
  both_fail : Follows enabled none none
  at_depth : (c : Cpu) (d : ℕ) → IsNested enabled d c → Follows enabled (some c) (some d)

-- From any depth, a run of `pushcli` and `popcli` panics exactly when it pops more often than was pushed;
-- else interrupts are off at the end, unless every section was left and they were on before the first.
pub run-Follows :
    (ops : List Bool) (enabled : Bool) (d : ℕ) (c : Cpu)
    → IsNested enabled d c
    → Follows enabled (run ops c) (depth_after ops d)
unfolding run depth_after
run-Follows [] enabled d c h = at_depth c d h
run-Follows (true ∷ ops) enabled d c h =
    run-Follows ops enabled (d + 1) (pushcli c) (pushcli-IsNested h)
run-Follows (false ∷ ops) enabled zero c h = rw (run, popcli-outermost h) both_fail
run-Follows (false ∷ ops) enabled (suc d) c h =
    let p =
      popcli-IsNested {enabled = enabled} {depth = d} {c = c}
        (subst (λ k. IsNested enabled k c) (omega arith) h) in
    rw (run, p.0) (run-Follows ops enabled d (popped c) p.1)

-- At any depth a processor gets a free lock at once, holds it with interrupts off, and a release frees it and
-- leaves the processor at the depth of before.
pub acquire-release :
    (id : ℕ) (lk : Lock) (enabled : Bool) (d : ℕ) (c : Cpu)
    → IsNested enabled d c
    → lk.locked ≡ false
    → (c1 : Cpu) × (l1 : Lock) × (c2 : Cpu) × (acquire id c lk ≡ got c1 l1)
      × (holding id l1 ≡ true)
      × (c1.interrupts ≡ false)
      × (release id c1 l1 ≡ some (c2, record { locked = false; cpu = none }))
      × IsNested enabled d c2
unfolding acquire release holding
acquire-release id lk enabled d c h free =
    let p = popcli-IsNested (pushcli-IsNested h) in
    let q = pushcli-IsNested h in
    (
      pushcli c,
      record { locked = true; cpu = some id },
      popped (pushcli c),
      rw free refl,
      ==_refl id,
      ground (arith, q.flag),
      rw (==_refl id, p.0) refl,
      p.1,
    )
