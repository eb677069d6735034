-- ===== src/Kernel/Dirs.antt =====
-- ex3/q1/xv6/fs.c: the search in a directory. A directory is a file of entries of sixteen bytes, a number of two
-- bytes and a name of fourteen. The directory and the inode that `iget`
-- returns are entries of the inode cache, the latter with the offset that is stored in `*poff`. `none` is a
-- panic.
pub mod Search
mod Tests
use operating_systems_soluti.Base.{
  ℕ, zero, suc, ◌+◌, ◌-◌, ◌*◌, ◌/◌, ◌%◌, ◌^◌, ◌≤◌, ◌<◌, ◌≡◌, refl, sym, ap, subst, fun_ext, ◌∙◌,
  ◌≢◌, ◌↔◌, ◌⊎◌, inl, inr, Bool, true, false, not, ◌&&◌, ◌||◌, Option, none, some, List, [], ◌∷◌,
  ◌++◌, map, arith, dec_lt, ℕ_discrete, ltb, leb, ◌==◌, if◌then◌else◌, ltb→lt, lt→ltb, ==_refl,
  Bool-cases, Option-cases, length, get_elem?, take, drop, length-append, take-append-drop,
  length-take, length-drop, count, count-append, update, find_from, find, find_from-some,
  find_from-before, find_from-none, find_from-intro, find_from-eq_none, total, total-update,
  total-weight_le, total-bound, total-const, seek, update_self, update-ne, update_twice-ne, ℤ, pos,
  negsuc, pos_part, neg_part, sub_ℕ, ◌+ℤ◌, ◌-ℤ◌, ◌*ℤ◌, ◌≤ℤ◌, ◌<ℤ◌, ltb_ℤ, eqb_ℤ, +ℤ_parts, -ℤ_parts,
  *ℤ_parts, eq_of_parts, int_laws, int_max, inc, dec,
}
use operating_systems_soluti.Kernel.Strings.{Bytes, strncmp}
use operating_systems_soluti.Kernel.Blocks.{Superblock, Disk}
use operating_systems_soluti.Kernel.Blocks.{Inode}
use operating_systems_soluti.Kernel.Icache.{Icache, set_entry, iget}
use operating_systems_soluti.Kernel.Inodes.{readi}

abbrev pub dirsiz : ℕ
dirsiz = 14

-- `T_DIR`
abbrev pub directory : ℕ
directory = 1

abbrev pub dirent_size : ℕ
dirent_size = 16

-- The two parts of a `struct dirent`
abbrev pub inum_of : Bytes → ℕ
inum_of de = de 0 + 256 * de 1

abbrev pub name_of : Bytes → Bytes
name_of de k = de (2 + k)

abbrev pub namecmp : Bytes → Bytes → ℤ
namecmp s t = strncmp s t dirsiz

-- The entry is in use and has the name.
abbrev pub is_entry : Bytes → Bytes → Bool
is_entry name de = not (inum_of de == 0) && eqb_ℤ (namecmp name (name_of de)) (pos 0)

-- A round of the loop, for what `readi` returned, with the rest of the loop.
abbrev pub and_entry :
    Bytes
    → ℕ
    → (Inode → Disk → Option (Disk × Inode × Option (ℕ × ℕ)))
    → Option (Disk × Inode × ℤ × (ℕ → ℕ))
    → Option (Disk × Inode × Option (ℕ × ℕ))
and_entry name off rest none = none
and_entry name off rest (some (d, ip, r, de)) =
    let later = rest ip d in
    if eqb_ℤ r (pos dirent_size)
    then if is_entry name de then some (d, ip, some (inum_of de, off)) else later
    else none

-- The loop from the offset on, on fuel.
pub lookup_from : Superblock → Bytes → ℕ → ℕ → Inode → Disk → Option (Disk × Inode × Option (ℕ × ℕ))
lookup_from sb name zero off dp d = none
lookup_from sb name (suc fuel) off dp d =
    let rest = lookup_from sb name fuel (off + dirent_size) in
    if ltb off dp.size
    then and_entry name off rest (readi sb dp off dirent_size d)
    else some (d, dp, none)

-- The directory behind the entry `i` of the cache, as the loop leaves it
abbrev pub left_dir : ℕ → Disk → Inode → Icache → Icache
left_dir i d dp c = set_entry i (record (c.entry i) { node = dp }) (record c { disk = d })

-- `*poff = off`, beside what `iget` returns
abbrev pub with_offset : ℕ → Option (Icache × ℕ) → Option (Icache × Option (ℕ × ℕ))
with_offset off none = none
with_offset off (some (c, j)) = some (c, some (j, off))

-- What follows the loop: `return iget(dp->dev, inum)`, or nothing.
abbrev pub found_inode :
    ℕ → Icache → Option (Disk × Inode × Option (ℕ × ℕ)) → Option (Icache × Option (ℕ × ℕ))
found_inode i c none = none
found_inode i c (some (d, dp, none)) = some (left_dir i d dp c, none)
found_inode i c (some (d, dp, some (inum, off))) =
    with_offset off (iget (c.entry i).dev inum (left_dir i d dp c))

-- The directory is the entry `i` of the inode cache, and so is what is returned, with the offset.
unfoldable pub dirlookup : Superblock → ℕ → Bytes → Icache → Option (Icache × Option (ℕ × ℕ))
unfolding lookup_from
dirlookup sb i name c =
    let dp = (c.entry i).node in
    if dp.type == directory
    then found_inode i c (lookup_from sb name (dp.size / dirent_size + 1) 0 dp c.disk)
    else none
