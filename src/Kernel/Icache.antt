-- ===== src/Kernel/Icache.antt =====
-- ex3/q1/xv6/fs.c: the inode cache. An entry is its index in `icache.inode`, and a pointer to an inode is an
-- index. The inodes of the disk are its table by their numbers. Each function
-- runs by itself: what is done under `icache.lock` or the lock of the inode is one step, and the sleep lock
-- of the inode is that of sleeplock.c. `holders` counts the pointers that callers have been given and have not put.
pub mod Scan
pub mod Unique
pub mod Uses
mod Tests
use operating_systems_soluti.Base.{
  ℕ, zero, suc, ◌+◌, ◌-◌, ◌*◌, ◌/◌, ◌%◌, ◌^◌, ◌≤◌, ◌<◌, ◌≡◌, refl, sym, ap, subst, fun_ext, ◌∙◌,
  ◌≢◌, ◌↔◌, ◌⊎◌, inl, inr, Bool, true, false, not, ◌&&◌, ◌||◌, Option, none, some, List, [], ◌∷◌,
  ◌++◌, map, arith, dec_lt, ℕ_discrete, ltb, leb, ◌==◌, if◌then◌else◌, ltb→lt, lt→ltb, ==_refl,
  Bool-cases, Option-cases, length, get_elem?, take, drop, length-append, take-append-drop,
  length-take, length-drop, count, count-append, update, find_from, find, find_from-some,
  find_from-before, find_from-none, find_from-intro, find_from-eq_none, total, total-update,
  total-weight_le, total-bound, total-const, seek, update_self, update-ne, update_twice-ne, ℤ, pos,
  negsuc, pos_part, neg_part, sub_ℕ, ◌+ℤ◌, ◌-ℤ◌, ◌*ℤ◌, ◌≤ℤ◌, ◌<ℤ◌, ltb_ℤ, eqb_ℤ, +ℤ_parts, -ℤ_parts,
  *ℤ_parts, eq_of_parts, int_laws, int_max, inc, dec,
}
use operating_systems_soluti.Kernel.Blocks.{Superblock, Disk, log_block}
use operating_systems_soluti.Kernel.Blocks.{Inode}
use operating_systems_soluti.Kernel.Inodes.{store_inode, itrunc}

abbrev pub ninode : ℕ
ninode = 50

-- `ref` is an int: there are fewer than 2^31 pointers to an inode.
pub record Cached : Type 0 where
  pub dev : ℕ
  pub ref : ℕ
  pub valid : Bool
  pub node : Inode

pub record Icache : Type 0 where
  pub entry : ℕ → Cached
  pub disk : Disk

abbrev pub set_entry : ℕ → Cached → Icache → Icache
set_entry i e c = record c { entry = update c.entry i e }

-- `ip->ref > 0 && ip->dev == dev && ip->inum == inum`
abbrev pub is_cached : ℕ → ℕ → Cached → Bool
is_cached dev inum e = ltb 0 e.ref && (e.dev == dev && e.node.inum == inum)

-- The empty slot to remember.
abbrev pub keep_empty : Icache → ℕ → Option ℕ → Option ℕ
keep_empty c i (some e) = some e
keep_empty c i none = if (c.entry i).ref == 0 then some i else none

-- The loop of `iget`, with `n` entries to go from `i` on: the entry that it returns, if any, and the empty slot.
pub scan_from : ℕ → ℕ → ℕ → ℕ → Icache → Option ℕ → Option ℕ × Option ℕ
scan_from dev inum zero i c empty = (none, empty)
scan_from dev inum (suc n) i c empty =
    let rest = scan_from dev inum n (i + 1) c (keep_empty c i empty) in
    if is_cached dev inum (c.entry i) then (some i, empty) else rest

-- What `iget` does with the result of its loop; `none` is the panic.
abbrev pub iget_at : ℕ → ℕ → Icache → Option ℕ × Option ℕ → Option (Icache × ℕ)
iget_at dev inum c (some i, empty) =
    some (set_entry i (record (c.entry i) { ref = (c.entry i).ref + 1 }) c, i)
iget_at dev inum c (none, none) = none
iget_at dev inum c (none, some e) = some (
  set_entry e
      (record { dev = dev; ref = 1; valid = false; node = record (c.entry e).node { inum = inum } })
      c,
  e,
)

unfoldable pub iget : ℕ → ℕ → Icache → Option (Icache × ℕ)
unfolding scan_from
iget dev inum c = iget_at dev inum c (scan_from dev inum ninode 0 c none)

unfoldable pub idup : ℕ → Icache → Icache
idup i c = set_entry i (record (c.entry i) { ref = (c.entry i).ref + 1 }) c

-- `iupdate`: the inode in the table of the disk, and its block in the log.
unfoldable pub iupdate : Superblock → ℕ → Icache → Icache
iupdate sb i c = let ip = (c.entry i).node in record c { disk = store_inode sb ip c.disk }

-- `ilock`, without waiting for the lock; `none` is a panic.
unfoldable pub ilock : ℕ → Icache → Option Icache
ilock i c =
    let e = c.entry i in
    let ip = c.disk.dinode e.node.inum in
    if ltb e.ref 1
    then none
    else if e.valid
    then some c
    else if ip.type == 0
    then none
    else some (set_entry i (record e { valid = true; node = record ip { inum = e.node.inum } }) c)

-- What `iput` does when it has the last reference to an inode without links: `itrunc`, then the type and
-- `iupdate`.
abbrev pub free_inode : Superblock → ℕ → Icache → Option (Disk × Inode) → Option Icache
free_inode sb i c none = none
free_inode sb i c (some (d, ip)) =
    let c' = iupdate sb i (
      set_entry i (record (c.entry i) { node = record ip { type = 0 } }) (record c { disk = d })) in
    some (set_entry i (record (c'.entry i) { valid = false }) c')

abbrev pub is_dead : Cached → Bool
is_dead e = e.valid && (e.node.nlink == 0 && e.ref == 1)

abbrev pub drop_ref : ℕ → Option Icache → Option Icache
drop_ref i none = none
drop_ref i (some c) = some (set_entry i (record (c.entry i) { ref = (c.entry i).ref - 1 }) c)

unfoldable pub iput : Superblock → ℕ → Icache → Option Icache
unfolding itrunc iupdate
iput sb i c =
    drop_ref i (
      if is_dead (c.entry i) then free_inode sb i c (itrunc sb (c.entry i).node c.disk) else some c)

-- The loop of `ialloc` over the inode numbers: a free inode is given its type, logged and cached.
abbrev pub ialloc_at : Superblock → ℕ → ℕ → Icache → Option ℕ → Option (Icache × ℕ)
ialloc_at sb dev type c none = none
ialloc_at sb dev type c (some inum) = iget dev inum (record c {
  disk =
      store_inode sb (record { inum = inum; type = type; nlink = 0; size = 0; addrs = λ k. 0 })
        c.disk;
})

unfoldable pub ialloc : Superblock → ℕ → ℕ → Icache → Option (Icache × ℕ)
unfolding iget
ialloc sb dev type c =
    ialloc_at sb dev type c (find_from (λ k. (c.disk.dinode k).type == 0) (sb.ninodes - 1) 1)
