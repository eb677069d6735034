-- ===== src/Kernel/Inodes/Whole.antt =====
-- `readi` of ex3/q1/xv6/fs.c on files without holes, which it leaves as they are.
use operating_systems_soluti.Base.{
  ℕ, zero, suc, ◌+◌, ◌-◌, ◌*◌, ◌/◌, ◌%◌, ◌^◌, ◌≤◌, ◌<◌, ◌≡◌, refl, ap, ◌∙◌, ◌≢◌, inl, inr, true,
  false, Option, some, arith, ltb, ◌==◌, if◌then◌else◌, Bool-cases, pos,
}
use operating_systems_soluti.Kernel.Blocks.{Superblock, Disk, bsize}
use operating_systems_soluti.Kernel.Inodes.{Inode, maxfile, bmap, piece, read_loop, readi}
use operating_systems_soluti.Kernel.Inodes.Pointers.{slot}
use operating_systems_soluti.Kernel.Inodes.Contents.{file_at}
use operating_systems_soluti.Kernel.Inodes.{map_addr}
use operating_systems_soluti.Kernel.Inodes.Pointers.{ptr}
use operating_systems_soluti.Kernel.Inodes.{map_entry}
use operating_systems_soluti.Kernel.Inodes.{ndirect}
use operating_systems_soluti.Kernel.Inodes.{nindirect}
use operating_systems_soluti.Kernel.Inodes.{read_uint}
use operating_systems_soluti.Kernel.Inodes.Reads.{available}

-- The block that the file has.
bmap-there :
    (sb : Superblock) (bn : ℕ) (ip : Inode) (d : Disk)
    → bn < 140
    → ptr d ip (slot bn) ≢ 0
    → bmap sb bn ip d ≡ some (d, ip, ptr d ip (slot bn))
unfolding bmap map_addr map_entry
bmap-there sb bn ip d lt there = elim (Bool-cases (ltb bn ndirect)) [
  | inl direct ↦
      let low : ltb bn 13 ≡ true = ground arith in
      let e : ptr d ip (slot bn) ≡ ip.addrs bn = rw (direct, low) refl in
      let nz : (ip.addrs bn == 0) ≡ false = ground (arith, e, there) in rw (direct, nz, low) refl
  | inr behind ↦
      let below : ltb (bn - ndirect) nindirect ≡ true = ground arith in
      let high : ltb (bn + 1) 13 ≡ false = ground arith in
      elim (Bool-cases (ip.addrs 12 == 0)) [
        | inl missing ↦
            let z : ptr d ip (slot bn) ≡ 0 = rw (behind, high, missing) refl in absurd (there z)
        | inr ind ↦
            let back : bn + 1 - 13 ≡ bn - 12 = omega arith in
            let e : ptr d ip (slot bn) ≡ read_uint d (ip.addrs 12) (bn - 12) =
              rw (behind, high, ind, back) refl in
            let nz : (read_uint d (ip.addrs 12) (bn - 12) == 0) ≡ false =
              ground (arith, e, there) in
            rw (behind, below, ind, nz, high, back) refl
      ]
]

-- The bytes of a range that `readi` copies from an unchanged disk.
abbrev pub Copied : Disk → Inode → ℕ → ℕ → Option (Disk × Inode × (ℕ → ℕ)) → Type 0
Copied d ip off left r =
    (dst : ℕ → ℕ) × (r ≡ some (d, ip, dst)) × ((k : ℕ) → k < left → dst k ≡ file_at d ip (off + k))

read_loop-there :
    (sb : Superblock) (fuel off left : ℕ) (d : Disk) (ip : Inode)
    → ((k : ℕ) → off ≤ k → k < off + left → ptr d ip (slot (k / bsize)) ≢ 0)
    → off + left ≤ maxfile * bsize
    → left < fuel
    → Copied d ip off left (read_loop sb fuel off left ip d)
unfolding read_loop
read_loop-there sb zero off left d ip there top lt = absurd (omega arith)
read_loop-there sb (suc fuel) off left d ip there top lt = elim (Bool-cases (left == 0)) [
  | inl done ↦ rw done ((λ k. 0), refl, λ k lk. absurd (ground arith))
  | inr more ↦
      let some_left : 0 < left = ground arith in
      let block =
        bmap-there sb (off / bsize) ip d (omega arith) (there off (omega arith) (omega arith)) in
      let (dst, e, bytes) =
        read_loop-there sb fuel (off + piece left off) (left - piece left off) d ip
          (λ k le lk. there k (ground arith) (ground arith)) (ground arith) (ground arith) in
      rw (read_loop, more, block, e)
        (
          (λ k.
              if ltb k (piece left off)
              then d.byte (ptr d ip (slot (off / bsize))) (off % bsize + k)
              else dst (k - piece left off)),
          refl,
          λ k lk. elim (Bool-cases (ltb k (piece left off))) [
            | inl now ↦
                let q : (off + k) / bsize ≡ off / bsize = ground arith in
                let m : (off + k) % bsize ≡ off % bsize + k = ground arith in
                let nz : (ptr d ip (slot (off / bsize)) == 0) ≡ false =
                  let ne = there off (omega arith) (omega arith) in ground (arith, ne) in
                rw (now, q, m, nz) refl
            | inr later ↦
                let back : off + piece left off + (k - piece left off) ≡ off + k = ground arith in
                rw later (bytes (k - piece left off) (ground arith) ∙ ap (file_at d ip) back)
          ],
        )
]

pub readi-there :
    (sb : Superblock) (off n : ℕ) (d : Disk) (ip : Inode)
    → ((k : ℕ) → k < ip.size → ptr d ip (slot (k / bsize)) ≢ 0)
    → off ≤ ip.size
    → off + n < 2 ^ 32
    → ip.size ≤ maxfile * bsize
    → (dst : ℕ → ℕ) × (readi sb ip off n d ≡ some (d, ip, pos (available ip off n), dst))
      × ((k : ℕ) → k < available ip off n → dst k ≡ file_at d ip (off + k))
unfolding readi
readi-there sb off n d ip there inside top size =
    let early : ltb ip.size off ≡ false = ground arith in
    let wraps : (off + n) % 2 ^ 32 ≡ off + n = omega arith in
    let over : ltb (off + n) off ≡ false = ground arith in
    let (dst, e, bytes) =
      read_loop-there sb (available ip off n + 1) off (available ip off n) d ip
        (λ k le lk. there k (ground arith)) (ground arith) (omega arith) in
    (dst, rw (early, wraps, over, e) refl, bytes)
