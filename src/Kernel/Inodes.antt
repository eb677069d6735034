-- ===== src/Kernel/Inodes.antt =====
-- ex3/q1/xv6/fs.c: the contents of files. An inode is the copy in memory, whose lock the caller holds; its
-- blocks are the entries of `addrs` and, behind the last of these, of the indirect block. `iupdate` stores
-- the inode in the table of the disk, and logs the block of the table that holds it. A device is not read or written through its inode here.
pub mod Pointers
pub mod Maps
pub mod Entries
pub mod Contents
pub mod Reads
pub mod Spliced
pub mod Writes
pub mod Grown
pub mod Whole
pub mod Roundtrip
pub mod Released
pub mod Truncates
pub mod Tests
use operating_systems_soluti.Base.{
  ℕ, zero, suc, ◌+◌, ◌-◌, ◌*◌, ◌/◌, ◌%◌, ◌^◌, ◌≤◌, ◌<◌, ◌≡◌, refl, sym, ap, subst, fun_ext, ◌∙◌,
  ◌≢◌, ◌↔◌, ◌⊎◌, inl, inr, Bool, true, false, not, ◌&&◌, ◌||◌, Option, none, some, List, [], ◌∷◌,
  ◌++◌, map, arith, dec_lt, ℕ_discrete, ltb, leb, ◌==◌, if◌then◌else◌, ltb→lt, lt→ltb, ==_refl,
  Bool-cases, Option-cases, length, get_elem?, take, drop, length-append, take-append-drop,
  length-take, length-drop, count, count-append, update, find_from, find, find_from-some,
  find_from-before, find_from-none, find_from-intro, find_from-eq_none, total, total-update,
  total-weight_le, total-bound, total-const, seek, update_self, update-ne, update_twice-ne, ℤ, pos,
  negsuc, pos_part, neg_part, sub_ℕ, ◌+ℤ◌, ◌-ℤ◌, ◌*ℤ◌, ◌≤ℤ◌, ◌<ℤ◌, ltb_ℤ, eqb_ℤ, +ℤ_parts, -ℤ_parts,
  *ℤ_parts, eq_of_parts, int_laws, int_max, inc, dec,
}
use operating_systems_soluti.Kernel.Arguments.{word}
use operating_systems_soluti.Kernel.Blocks.{
  Superblock, Disk, Inode, bsize, log_block, balloc, bfree,
}

abbrev pub ndirect : ℕ
ndirect = 12

abbrev pub nindirect : ℕ
nindirect = 128

abbrev pub maxfile : ℕ
maxfile = 140

abbrev pub set_addr : ℕ → ℕ → Inode → Inode
set_addr k a ip = record ip { addrs = update ip.addrs k a }

-- `((uint*)bp->data)[i]`, read and written
abbrev pub read_uint : Disk → ℕ → ℕ → ℕ
read_uint d b i = word (d.byte b) (4 * i)

abbrev pub byte_at : ℕ → ℕ → ℕ
byte_at v k =
    if k == 0
    then v % 256
    else if k == 1
    then v / 256 % 256
    else if k == 2
    then v / 65536 % 256
    else v / 16777216 % 256

abbrev pub write_uint : ℕ → ℕ → ℕ → Disk → Disk
write_uint b i v d = record d {
  byte = update d.byte b (λ off. if off / 4 == i then byte_at v (off % 4) else d.byte b off);
}

-- An entry of `addrs`, allocated if it is 0: `none` is the panic of `balloc`.
abbrev pub with_addr : ℕ → Inode → Option (Disk × ℕ) → Option (Disk × Inode × ℕ)
with_addr k ip none = none
with_addr k ip (some (d, a)) = some (d, set_addr k a ip, a)

unfoldable pub map_addr : Superblock → ℕ → Inode → Disk → Option (Disk × Inode × ℕ)
map_addr sb k ip d =
    if ip.addrs k == 0 then with_addr k ip (balloc sb d) else some (d, ip, ip.addrs k)

-- An entry `i` of the indirect block `ind`.
abbrev pub with_entry : ℕ → ℕ → Inode → Option (Disk × ℕ) → Option (Disk × Inode × ℕ)
with_entry ind i ip none = none
with_entry ind i ip (some (d, a)) = some (log_block ind (write_uint ind i a d), ip, a)

unfoldable pub map_entry : Superblock → ℕ → Option (Disk × Inode × ℕ) → Option (Disk × Inode × ℕ)
map_entry sb i none = none
map_entry sb i (some (d, ip, ind)) =
    if read_uint d ind i == 0
    then with_entry ind i ip (balloc sb d)
    else some (d, ip, read_uint d ind i)

-- The disk and inode afterwards, with the block; `none` is a panic.
unfoldable pub bmap : Superblock → ℕ → Inode → Disk → Option (Disk × Inode × ℕ)
unfolding map_addr map_entry
bmap sb bn ip d =
    if ltb bn ndirect
    then map_addr sb bn ip d
    else if ltb (bn - ndirect) nindirect
    then map_entry sb (bn - ndirect) (map_addr sb ndirect ip d)
    else none

-- `memmove(bp->data + off, src, m); log_write(bp)` on block `b`
abbrev pub copy_in : ℕ → ℕ → ℕ → (ℕ → ℕ) → Disk → Disk
copy_in b off m src d = log_block b (record d {
  byte = update d.byte b (λ o. if leb off o && ltb o (off + m) then src (o - off) else d.byte b o);
})

-- `min(n - tot, BSIZE - off%BSIZE)`
abbrev pub piece : ℕ → ℕ → ℕ
piece left off = if ltb left (bsize - off % bsize) then left else bsize - off % bsize

-- A round of the loop of `readi`, for what `bmap` returned: the bytes of this piece, and behind them those
-- of the rest of the loop.
abbrev pub put_piece :
    ℕ → ℕ → Disk → ℕ → Option (Disk × Inode × (ℕ → ℕ)) → Option (Disk × Inode × (ℕ → ℕ))
put_piece o m d b none = none
put_piece o m d b (some (d', ip', rest)) =
    some (d', ip', λ k. if ltb k m then d.byte b (o + k) else rest (k - m))

abbrev pub and_read :
    (Inode → Disk → Option (Disk × Inode × (ℕ → ℕ)))
    → ℕ
    → ℕ
    → Option (Disk × Inode × ℕ)
    → Option (Disk × Inode × (ℕ → ℕ))
and_read rest o m none = none
and_read rest o m (some (d, ip, b)) = put_piece o m d b (rest ip d)

-- The loop of `readi`, on fuel, with `left` bytes to go at `off`: the bytes, and the disk and inode, which
-- `bmap` may change. `none` is a panic, or the end of the fuel.
pub read_loop : Superblock → ℕ → ℕ → ℕ → Inode → Disk → Option (Disk × Inode × (ℕ → ℕ))
read_loop sb zero off left ip d = none
read_loop sb (suc fuel) off left ip d =
    let rest = read_loop sb fuel (off + piece left off) (left - piece left off) in
    if left == 0
    then some (d, ip, λ k. 0)
    else and_read rest (off % bsize) (piece left off) (bmap sb (off / bsize) ip d)

-- What `readi` returns, with the bytes that it copies; `none` is a panic.
abbrev pub read_some : ℕ → Option (Disk × Inode × (ℕ → ℕ)) → Option (Disk × Inode × ℤ × (ℕ → ℕ))
read_some n none = none
read_some n (some (d, ip, dst)) = some (d, ip, pos n, dst)

unfoldable pub readi : Superblock → Inode → ℕ → ℕ → Disk → Option (Disk × Inode × ℤ × (ℕ → ℕ))
unfolding read_loop
readi sb ip off n d =
    if ltb ip.size off || ltb ((off + n) % 2 ^ 32) off
    then some (d, ip, negsuc 0, λ k. 0)
    else (let m : ℕ = if ltb ip.size (off + n) then ip.size - off else n in
        read_some m (read_loop sb (m + 1) off m ip d))

-- A round of the loop of `writei`, for what `bmap` returned, with the rest of the loop.
abbrev pub and_write :
    (Inode → Disk → Option (Disk × Inode))
    → ℕ
    → ℕ
    → (ℕ → ℕ)
    → Option (Disk × Inode × ℕ)
    → Option (Disk × Inode)
and_write rest o m src none = none
and_write rest o m src (some (d, ip, b)) = rest ip (copy_in b o m src d)

-- The loop of `writei`, on fuel.
pub write_loop : Superblock → ℕ → (ℕ → ℕ) → ℕ → ℕ → Inode → Disk → Option (Disk × Inode)
write_loop sb zero src off left ip d = none
write_loop sb (suc fuel) src off left ip d =
    let rest =
      write_loop sb fuel (λ k. src (piece left off + k)) (off + piece left off)
        (left - piece left off) in
    if left == 0
    then some (d, ip)
    else and_write rest (off % bsize) (piece left off) src (bmap sb (off / bsize) ip d)

-- `IBLOCK(ip->inum, sb)`
abbrev pub inode_block : Superblock → ℕ → ℕ
inode_block sb inum = inum / 8 + sb.inodestart

-- `iupdate`: the inode in the table of the disk, and its block in the log
abbrev pub store_inode : Superblock → Inode → Disk → Disk
store_inode sb ip d =
    log_block (inode_block sb ip.inum) (record d { dinode = update d.dinode ip.inum ip })

-- What follows the loop: the size, and the result.
abbrev pub grow : Superblock → ℕ → ℕ → Option (Disk × Inode) → Option (Disk × Inode × ℤ)
grow sb n off none = none
grow sb n off (some (d, ip)) =
    if ltb 0 n && ltb ip.size off
    then some (store_inode sb (record ip { size = off }) d, record ip { size = off }, pos n)
    else some (d, ip, pos n)

unfoldable pub writei : Superblock → Inode → (ℕ → ℕ) → ℕ → ℕ → Disk → Option (Disk × Inode × ℤ)
unfolding write_loop
writei sb ip src off n d =
    if ltb ip.size off || ltb ((off + n) % 2 ^ 32) off
    then some (d, ip, negsuc 0)
    else if ltb (maxfile * bsize) ((off + n) % 2 ^ 32)
    then some (d, ip, negsuc 0)
    else grow sb n (off + n) (write_loop sb (n + 1) src off n ip d)

-- The loops of `itrunc` over entries, with `n` to go from `k` on: the blocks that are not 0 are freed.
abbrev pub free_if : Superblock → ℕ → Disk → Option Disk
free_if sb b d = if b == 0 then some d else bfree sb b d

pub free_addrs : Superblock → ℕ → ℕ → Inode → Disk → Option (Disk × Inode)
free_addrs sb zero k ip d = some (d, ip)
free_addrs sb (suc n) k ip d = elim (free_if sb (ip.addrs k) d) [
  | none ↦ none
  | some d' ↦ free_addrs sb n (k + 1) (set_addr k 0 ip) d'
]

pub free_entries : Superblock → ℕ → ℕ → ℕ → Disk → Option Disk
free_entries sb zero k ind d = some d
free_entries sb (suc n) k ind d = elim (free_if sb (read_uint d ind k) d) [
  | none ↦ none
  | some d' ↦ free_entries sb n (k + 1) ind d'
]

-- What follows the loop over the indirect block.
abbrev pub free_indirect_block : Superblock → Inode → Option Disk → Option (Disk × Inode)
free_indirect_block sb ip none = none
free_indirect_block sb ip (some d) = elim (bfree sb (ip.addrs ndirect) d) [
  | none ↦ none
  | some d' ↦ some (d', set_addr ndirect 0 ip)
]

abbrev pub free_indirect : Superblock → Option (Disk × Inode) → Option (Disk × Inode)
free_indirect sb none = none
free_indirect sb (some (d, ip)) =
    if ip.addrs ndirect == 0
    then some (d, ip)
    else free_indirect_block sb ip (free_entries sb nindirect 0 (ip.addrs ndirect) d)

-- `ip->size = 0; iupdate(ip)`
abbrev pub emptied : Superblock → Option (Disk × Inode) → Option (Disk × Inode)
emptied sb none = none
emptied sb (some (d, ip)) = some (store_inode sb (record ip { size = 0 }) d, record ip { size = 0 })

unfoldable pub itrunc : Superblock → Inode → Disk → Option (Disk × Inode)
unfolding free_addrs free_entries
itrunc sb ip d = emptied sb (free_indirect sb (free_addrs sb ndirect 0 ip d))
