-- ===== src/Kernel/Files/Writes.antt =====
-- How `filewrite` of ex3/q1/xv6/file.c cuts a write into transactions.
use operating_systems_soluti.Base.{
  ℕ, zero, suc, ◌+◌, ◌-◌, ◌%◌, ◌^◌, ◌≤◌, ◌<◌, ◌≡◌, refl, sym, subst, true, Option, some, List, [],
  ◌∷◌, arith, ==_refl, ℤ, pos,
}
use operating_systems_soluti.Kernel.Files.{
  File, fd_inode, advance, max_write, chunk, Written, ended, write_loop, filewrite,
}

-- The calls cover `n` bytes from `off` on, one behind the other, none empty and none above the limit.
abbrev pub Covers : ℕ → ℕ → List (ℕ × ℕ) → Type 0
Covers off n [] = n ≡ 0
Covers off n ((o, k) ∷ cs) =
    (o ≡ off) × (0 < k) × (k ≤ max_write) × (k ≤ n) × Covers ((off + k) % 2 ^ 32) (n - k) cs

-- A write of `left` bytes that ends with the result `n`.
pub record Complete (n left : ℕ) (f : File) (r : Option Written) : Type 0 where
  pub calls : List (ℕ × ℕ)
  pub returns : r ≡ some (ended (advance f (pos left)) (pos n) calls)
  pub covers : Covers f.off left calls

write_loop-Complete :
    (fuel : ℕ) (writei : ℕ → ℕ → ℤ) (n left : ℕ) (f : File)
    → (top : ℕ) → top < 2 ^ 32
    → ((off k : ℕ) → off + k ≤ top → writei off k ≡ pos k)
    → f.off + left ≤ top
    → left < fuel
    → Complete n left f (write_loop fuel writei n left f)
unfolding write_loop
write_loop-Complete zero writei n left f top small whole fits lt = absurd (omega arith)
write_loop-Complete (suc fuel) writei n zero f top small whole fits lt =
    let same : f.off ≡ (f.off + 0) % 2 ^ 32 = omega arith in
    record { calls = []; returns = rw⁻¹ same refl; covers = refl }
write_loop-Complete (suc fuel) writei n (suc left) f top small whole fits lt =
    let n1 : ℕ = chunk (suc left) in
    let bound : (0 < n1) × (n1 ≤ max_write) × (n1 ≤ suc left) = ground arith in
    let r =
      write_loop-Complete fuel writei n (suc left - n1) (advance f (pos n1)) top small whole
        (omega (arith, bound, fits)) (omega (arith, bound)) in
    let total_off : ((f.off + n1) % 2 ^ 32 + (suc left - n1)) % 2 ^ 32
        ≡ (f.off + suc left) % 2 ^ 32 =
      omega (arith, bound) in
    record {
      calls = (f.off, n1) ∷ r.calls;
      returns =
          rw
            (
              write_loop,
              whole f.off n1 (omega (arith, bound, fits)),
              r.returns,
              ==_refl n1,
              total_off,
            )
            refl;
      covers = (refl, bound.0, bound.1, bound.2, r.covers);
    }

-- When `writei` writes all that it is given as long as that ends at `top` or before, as it does up to the
-- largest file, and the whole write ends there or before, `filewrite` to an inode with more fuel than bytes
-- returns the count of all bytes and moves the offset by it, in calls that cover the bytes one behind the
-- other, none longer than `max` (6656 bytes).
pub filewrite-Complete :
    (fuel : ℕ) (pipewrite : ℤ) (writei : ℕ → ℕ → ℤ) (n : ℕ) (f : File)
    → (top : ℕ) → top < 2 ^ 32
    → ((off k : ℕ) → off + k ≤ top → writei off k ≡ pos k)
    → f.off + n ≤ top
    → f.writable ≡ true
    → f.type ≡ fd_inode
    → n < fuel
    → Complete n n f (filewrite fuel pipewrite writei n f)
unfolding filewrite
filewrite-Complete fuel pipewrite writei n f top small whole fits w ty lt =
    let loop : filewrite fuel pipewrite writei n f ≡ write_loop fuel writei n n f =
      simp (w, ty) refl in
    subst (λ r. Complete n n f r) (sym loop)
      (write_loop-Complete fuel writei n n f top small whole fits lt)
