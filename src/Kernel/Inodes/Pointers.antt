-- ===== src/Kernel/Inodes/Pointers.antt =====
-- The blocks that an inode of ex3/q1/xv6/fs.c points to.
use operating_systems_soluti.Base.{
  ℕ, ◌+◌, ◌-◌, ◌*◌, ◌/◌, ◌%◌, ◌^◌, ◌≤◌, ◌<◌, ◌≡◌, refl, sym, ◌∙◌, ◌≢◌, inl, inr, true, false, arith,
  ltb, ◌==◌, if◌then◌else◌, ==_refl, Bool-cases,
}
use operating_systems_soluti.Kernel.Blocks.{Superblock, Disk, bitmap_block, is_used, bsize}
use operating_systems_soluti.Kernel.Blocks.Alloc.{IsLaidOut, Claimed, free-ne-bitmap}
use operating_systems_soluti.Kernel.Inodes.{Inode, ndirect, read_uint, write_uint, byte_at}

-- The pointers by their slots: the direct ones, the indirect block, and the entries of that block.
abbrev pub ptr : Disk → Inode → ℕ → ℕ
ptr d ip k =
    if ltb k 13
    then ip.addrs k
    else if ip.addrs 12 == 0
    then 0
    else read_uint d (ip.addrs 12) (k - 13)

abbrev pub slots : ℕ
slots = 141

-- The slot of block `bn` of the file.
abbrev pub slot : ℕ → ℕ
slot bn = if ltb bn ndirect then bn else bn + 1

-- The byte at `off` in block `bn` of the file; a block that is not there reads as zero.
abbrev pub file_byte : Disk → Inode → ℕ → ℕ → ℕ
file_byte d ip bn off = if ptr d ip (slot bn) == 0 then 0 else d.byte (ptr d ip (slot bn)) off

-- A block that a file may hold: not the boot block, on the disk, in use, and none of the bitmap.
pub record IsData (sb : Superblock) (d : Disk) (b : ℕ) : Type 0 where
  pub not_boot : b ≢ 0
  pub in_range : b < sb.size
  pub used : is_used sb d b ≡ true
  pub no_map : (k : ℕ) → k < sb.size → bitmap_block sb k ≢ b

-- The pointers of a file that are not 0 lead to blocks in use, each to another one.
pub record IsFile (sb : Superblock) (d : Disk) (ip : Inode) : Type 0 where
  pub laid_out : IsLaidOut sb d
  pub word_size : sb.size ≤ 2 ^ 32
  pub boot : is_used sb d 0 ≡ true
  pub blocks : (k : ℕ) → k < slots → ptr d ip k ≢ 0 → IsData sb d (ptr d ip k)
  pub distinct :
      (j k : ℕ) → j < slots → k < slots → ptr d ip j ≢ 0 → ptr d ip j ≡ ptr d ip k → j ≡ k

write_uint-byte :
    (b i v : ℕ) (d : Disk) (j k : ℕ)
    → k < 4
    → (write_uint b i v d).byte b (4 * j + k)
      ≡ (if j == i then byte_at v k else d.byte b (4 * j + k))
write_uint-byte b i v d j k lt =
    let q : (4 * j + k) / 4 ≡ j = omega arith in
    let m : (4 * j + k) % 4 ≡ k = omega arith in rw (==_refl b, q, m) refl

bytes_of_word :
    (v : ℕ)
    → v < 2 ^ 32
    → byte_at v 0 + 256 * byte_at v 1 + 65536 * byte_at v 2 + 16777216 * byte_at v 3 ≡ v
bytes_of_word v lt = omega arith

-- A number that is written into a block of numbers is read back, and the others are as before.
pub read_uint-write_uint :
    (b i v : ℕ) (d : Disk) (j : ℕ)
    → v < 2 ^ 32
    → read_uint (write_uint b i v d) b j ≡ (if j == i then v else read_uint d b j)
read_uint-write_uint b i v d j lt =
    let b0 = write_uint-byte b i v d j 0 (omega arith) in
    let b1 = write_uint-byte b i v d j 1 (omega arith) in
    let b2 = write_uint-byte b i v d j 2 (omega arith) in
    let b3 = write_uint-byte b i v d j 3 (omega arith) in
    let start : 4 * j + 0 ≡ 4 * j = omega arith in
    elim (Bool-cases (j == i)) [
      | inl here ↦ rw here (
          omega (
            arith,
            rw (here, start) at b0,
            rw here at b1,
            rw here at b2,
            rw here at b3,
            bytes_of_word v lt,
          ))
      | inr there ↦
          rw there
            (omega (arith, rw (there, start) at b0, rw there at b1, rw there at b2, rw there at b3))
    ]

-- Two disks that agree on a block agree on its numbers.
pub read_uint-kept :
    (d d' : Disk) (b : ℕ)
    → ((off : ℕ) → d'.byte b off ≡ d.byte b off)
    → (j : ℕ) → read_uint d' b j ≡ read_uint d b j
read_uint-kept d d' b e j = rw (e (4 * j), e (4 * j + 1), e (4 * j + 2), e (4 * j + 3)) refl

module _ (sb : Superblock) {d : Disk} {ip : Inode} (h : IsFile sb d ip) where
  -- A block that was free is none of the file's.
  pub ptr-ne-free : (r k : ℕ) → is_used sb d r ≡ false → k < slots → ptr d ip k ≢ r
  ptr-ne-free r k free lt e =
      let boot : r ≢ 0 = λ z. ground (arith, h.boot, z, free) in
      let b = h.blocks k lt (λ z. boot (sym e ∙ z)) in ground (arith, b.used, e, free)

  -- The file after `balloc` has taken a free block: the same pointers, and the same contents.
  module _ {d' : Disk} {r : ℕ} (c : Claimed sb d h.laid_out r d') where
    pub ptr-claimed : (k : ℕ) → k < slots → ptr d' ip k ≡ ptr d ip k
    ptr-claimed k lt = elim (Bool-cases (ltb k 13)) [
      | inl direct ↦ rw direct refl
      | inr behind ↦ elim (Bool-cases (ip.addrs 12 == 0)) [
        | inl missing ↦ rw (behind, missing) refl
        | inr there ↦
            let ne : ip.addrs 12 ≢ r = ptr-ne-free r 12 c.was_free (omega arith) in
            let b = h.blocks 12 (omega arith) (ground (arith, there)) in
            rw (behind, there)
              (read_uint-kept d d' (ip.addrs 12)
                (λ off. c.kept (ip.addrs 12) off ne (λ e. b.no_map r c.in_range (sym e))) (k - 13))
      ]
    ]

    IsData-claimed : (b : ℕ) → IsData sb d b → IsData sb d' b
    IsData-claimed b x = record {
      not_boot = x.not_boot;
      in_range = x.in_range;
      used = ground (arith, c.used b x.in_range, x.used);
      no_map = x.no_map;
    }

    pub claimed-IsData : IsData sb d' r
    claimed-IsData = record {
      not_boot = λ z. ground (arith, h.boot, z, c.was_free);
      in_range = c.in_range;
      used = ground (arith, c.used r c.in_range);
      no_map = λ k lt. free-ne-bitmap sb d h.laid_out r k c.was_free lt;
    }

    -- The file after a slot that was empty has been given the new block, on a disk that differs from that of the
    -- allocation in no data block of the file.
    module _ (d2 : Disk) (ip2 : Inode) (s : ℕ) (lt : s < slots) (empty : ptr d ip s ≡ 0)
        (laid : IsLaidOut sb d2) (marks : (b : ℕ) → b < sb.size → is_used sb d2 b ≡ is_used sb d' b)
        (ptrs : (k : ℕ) → k < slots → ptr d2 ip2 k ≡ (if k == s then r else ptr d ip k)) where
      IsData-later : (b : ℕ) → IsData sb d' b → IsData sb d2 b
      IsData-later b x = record {
        not_boot = x.not_boot;
        in_range = x.in_range;
        used = marks b x.in_range ∙ x.used;
        no_map = x.no_map;
      }

      pub extended-IsFile : IsFile sb d2 ip2
      extended-IsFile = record {
        laid_out = laid;
        word_size = h.word_size;
        boot =
            marks 0 (omega (arith, c.in_range))
            ∙ ground (arith, c.used 0 (omega (arith, c.in_range)), h.boot);
        blocks = λ k lk nz. elim (Bool-cases (k == s)) [
          | inl new ↦
              let e : ptr d2 ip2 k ≡ r = rw new at (ptrs k lk) in
              rw e (IsData-later r claimed-IsData)
          | inr old ↦
              let e : ptr d2 ip2 k ≡ ptr d ip k = rw old at (ptrs k lk) in
              rw e (
                IsData-later (ptr d ip k)
                  (IsData-claimed (ptr d ip k) (h.blocks k lk (λ z. nz (e ∙ z)))))
        ];
        distinct = λ j k lj lk nz e. ground (
          arith,
          ptrs j lj,
          ptrs k lk,
          h.distinct j k lj lk,
          ptr-ne-free r j c.was_free lj,
          ptr-ne-free r k c.was_free lk,
        );
      }

      pub extended-file_byte :
          ((k off : ℕ)
            → k < slots
            → k ≢ 12
            → ptr d ip k ≢ 0
            → d2.byte (ptr d ip k) off ≡ d.byte (ptr d ip k) off)
          → ((off : ℕ) → off < bsize → d2.byte r off ≡ 0)
          → (bn off : ℕ) → bn < 140
          → off < bsize
          → file_byte d2 ip2 bn off ≡ file_byte d ip bn off
      extended-file_byte same zero_block bn off lb lo =
          let ls : slot bn < slots = ground arith in
          let ns : slot bn ≢ 12 = ground arith in
          elim (Bool-cases (slot bn == s)) [
            | inl new ↦
                let e : ptr d2 ip2 (slot bn) ≡ r = rw new at (ptrs (slot bn) ls) in
                let z : ptr d ip (slot bn) ≡ 0 = ground (arith, new, empty) in
                rw (e, z) (ground (arith, zero_block off lo))
            | inr old ↦
                let e : ptr d2 ip2 (slot bn) ≡ ptr d ip (slot bn) = rw old at (ptrs (slot bn) ls) in
                rw e (ground (arith, same (slot bn) off ls ns))
          ]
