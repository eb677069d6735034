-- ===== src/Kernel/Blocks.antt =====
-- ex3/q1/xv6/fs.c, its first layer: the allocator of disk blocks. The disk is a function from the block
-- and the offset to the byte, as `bread` sees it: with the writes of this transaction. The blocks of the inode
-- table are kept apart, as a table by the numbers of the inodes. `logged` is the list of blocks that `log_write`
-- has collected, as `log.lh` keeps it, `outstanding` and `log_blocks` are `log.outstanding` and `log.size`. A panic
-- of `log_write` sets `stopped`: the program has ended, and what a function here returns is void. There is one
-- device.
pub mod Bits
pub mod Space
pub mod Alloc
pub mod Room
pub mod Tests
use operating_systems_soluti.Base.{
  ℕ, zero, suc, ◌+◌, ◌-◌, ◌*◌, ◌/◌, ◌%◌, ◌^◌, ◌≤◌, ◌<◌, ◌≡◌, refl, sym, ap, subst, fun_ext, ◌∙◌,
  ◌≢◌, ◌↔◌, ◌⊎◌, inl, inr, Bool, true, false, not, ◌&&◌, ◌||◌, Option, none, some, List, [], ◌∷◌,
  ◌++◌, map, arith, dec_lt, ℕ_discrete, ltb, leb, ◌==◌, if◌then◌else◌, ltb→lt, lt→ltb, ==_refl,
  Bool-cases, Option-cases, length, get_elem?, take, drop, length-append, take-append-drop,
  length-take, length-drop, count, count-append, update, find_from, find, find_from-some,
  find_from-before, find_from-none, find_from-intro, find_from-eq_none, total, total-update,
  total-weight_le, total-bound, total-const, seek, update_self, update-ne, update_twice-ne, ℤ, pos,
  negsuc, pos_part, neg_part, sub_ℕ, ◌+ℤ◌, ◌-ℤ◌, ◌*ℤ◌, ◌≤ℤ◌, ◌<ℤ◌, ltb_ℤ, eqb_ℤ, +ℤ_parts, -ℤ_parts,
  *ℤ_parts, eq_of_parts, int_laws, int_max, inc, dec,
}
use operating_systems_soluti.Kernel.Log.{absorb, log_size}

abbrev pub bsize : ℕ
bsize = 512

-- Bitmap bits per block
abbrev pub bpb : ℕ
bpb = 4096

pub record Superblock : Type 0 where
  pub size : ℕ
  pub ninodes : ℕ
  pub inodestart : ℕ
  pub bmapstart : ℕ

pub record Inode : Type 0 where
  pub inum : ℕ
  pub type : ℕ
  pub nlink : ℕ
  pub size : ℕ
  pub addrs : ℕ → ℕ

pub record Disk : Type 0 where
  pub byte : ℕ → ℕ → ℕ
  pub dinode : ℕ → Inode
  pub logged : List ℕ
  pub outstanding : ℕ
  pub log_blocks : ℕ
  pub stopped : Bool

-- `bp->data[off] = v`
abbrev pub set_byte : ℕ → ℕ → ℕ → Disk → Disk
set_byte b off v d = record d { byte = update d.byte b (update (d.byte b) off v) }

-- `log_write` does not panic: the log has room, and a transaction is open.
abbrev pub accepts : Disk → Bool
accepts d =
    not (leb log_size (length d.logged) || leb (d.log_blocks - 1) (length d.logged))
    && not (d.outstanding == 0)

-- `log_write` of a block
unfoldable pub log_block : ℕ → Disk → Disk
log_block b d = record d {
  logged = if accepts d then absorb b d.logged else d.logged;
  stopped = if accepts d then d.stopped else true;
}

-- `memset(bp->data, 0, BSIZE); log_write(bp)`
unfoldable pub bzero : ℕ → Disk → Disk
unfolding log_block
bzero b d =
    log_block b
      (record d { byte = update d.byte b (λ off. if ltb off bsize then 0 else d.byte b off) })

-- `v & (1 << k)`, `v | (1 << k)` and `v & ~(1 << k)` for a byte `v`
unfoldable pub has_bit : ℕ → ℕ → Bool
has_bit v k = v / 2 ^ k % 2 == 1

unfoldable pub set_bit : ℕ → ℕ → ℕ
set_bit v k = if v / 2 ^ k % 2 == 1 then v else v + 2 ^ k

unfoldable pub clear_bit : ℕ → ℕ → ℕ
clear_bit v k = if v / 2 ^ k % 2 == 1 then v - 2 ^ k else v

-- `BBLOCK(b, sb)`
abbrev pub bitmap_block : Superblock → ℕ → ℕ
bitmap_block sb b = b / bpb + sb.bmapstart

-- The byte and the bit of block `b` in its block of the bitmap: `bi/8` and `bi % 8`
abbrev pub byte_of : ℕ → ℕ
byte_of b = b % bpb / 8

abbrev pub bit_of : ℕ → ℕ
bit_of b = b % bpb % 8

unfoldable pub is_used : Superblock → Disk → ℕ → Bool
is_used sb d b = has_bit (d.byte (bitmap_block sb b) (byte_of b)) (bit_of b)

abbrev pub mark : Superblock → ℕ → Disk → Disk
mark sb b d = log_block (bitmap_block sb b) (
    set_byte (bitmap_block sb b) (byte_of b)
      (set_bit (d.byte (bitmap_block sb b) (byte_of b)) (bit_of b)) d)

-- How far the inner loop goes from block `b` on.
abbrev pub map_length : Superblock → ℕ → ℕ
map_length sb b = if ltb bpb (sb.size - b) then bpb else sb.size - b

-- `return b + bi`, or the rest of the outer loop
abbrev pub take_found : Superblock → Disk → Option ℕ → Option (Disk × ℕ) → Option (Disk × ℕ)
take_found sb d (some r) rest = some (bzero r (mark sb r d), r)
take_found sb d none rest = rest

-- The outer loop, with `n` blocks of the bitmap to go, at block `b`; the inner loop is a search.
-- `none` is the panic.
pub balloc_from : Superblock → ℕ → ℕ → Disk → Option (Disk × ℕ)
unfolding bzero is_used log_block
balloc_from sb zero b d = none
balloc_from sb (suc n) b d =
    let rest = balloc_from sb n (b + bpb) d in
    if ltb b sb.size
    then take_found sb d (find_from (λ k. not (is_used sb d k)) (map_length sb b) b) rest
    else none

unfoldable pub balloc : Superblock → Disk → Option (Disk × ℕ)
unfolding balloc_from
balloc sb d = balloc_from sb (sb.size / bpb + 1) 0 d

-- `none` is the panic.
unfoldable pub bfree : Superblock → ℕ → Disk → Option Disk
unfolding is_used log_block
bfree sb b d =
    if is_used sb d b
    then some (
        log_block (bitmap_block sb b) (
          set_byte (bitmap_block sb b) (byte_of b)
            (clear_bit (d.byte (bitmap_block sb b) (byte_of b)) (bit_of b)) d))
    else none
