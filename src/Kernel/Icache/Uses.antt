-- ===== src/Kernel/Icache/Uses.antt =====
-- The life of the pointers to inodes in ex3/q1/xv6/fs.c: taken, copied, locked and put.
use operating_systems_soluti.Base.{
  ℕ, ◌+◌, ◌-◌, ◌≤◌, ◌<◌, ◌≡◌, refl, subst, ◌∙◌, ◌≢◌, inl, inr, true, false, Option, none, some,
  arith, ltb, ◌==◌, Bool-cases, update, find_from,
}
use operating_systems_soluti.Kernel.Blocks.Space.{Writable, log_block-Fits}
use operating_systems_soluti.Kernel.Blocks.{bpb, Superblock, Disk, is_used, log_block}
use operating_systems_soluti.Kernel.Blocks.{Inode}
use operating_systems_soluti.Kernel.Inodes.{itrunc}
use operating_systems_soluti.Kernel.Inodes.Pointers.{IsFile, ptr, slots}
use operating_systems_soluti.Kernel.Inodes.Truncates.{Emptied, itrunc-Emptied}
use operating_systems_soluti.Kernel.Icache.{
  Cached, Icache, ninode, set_entry, iget, idup, iupdate, ilock, free_inode, is_dead, drop_ref,
  iput, ialloc_at, ialloc,
}
use operating_systems_soluti.Kernel.Icache.Unique.{IsCache, change-IsCache, Iget, found, iget-Iget}
use operating_systems_soluti.Kernel.Inodes.{inode_block}

-- What `iput` does to the entries.
record Put (i : ℕ) (c c' : Icache) : Type 0 where
  others : (k : ℕ) → k ≢ i → c'.entry k ≡ c.entry k
  count : (c'.entry i).ref ≡ (c.entry i).ref - 1
  same_dev : (c'.entry i).dev ≡ (c.entry i).dev
  same_inum : 0 < (c.entry i).ref - 1 → (c'.entry i).node.inum ≡ (c.entry i).node.inum

data Puts (i : ℕ) (c : Icache) : Option Icache → Type 0 where
  put_done : (c' : Icache) → Put i c c' → Puts i c (some c')
  panicked : Puts i c none

dead_ref : (e : Cached) → is_dead e ≡ true → e.ref ≡ 1
dead_ref e dead = ground (arith, dead)

freed-Puts :
    (sb : Superblock) (i : ℕ) (c : Icache) (r : Option (Disk × Inode))
    → (c.entry i).ref ≡ 1
    → Puts i c (drop_ref i (free_inode sb i c r))
unfolding iupdate
freed-Puts sb i c none one = panicked
freed-Puts sb i c (some (d, ip)) one = put_done _ (record {
  others = λ k ne. ground (arith, ne);
  count = ground arith;
  same_dev = ground arith;
  same_inum = λ more. absurd (omega (arith, one));
})

iput-Puts : (sb : Superblock) (i : ℕ) (c : Icache) → Puts i c (iput sb i c)
unfolding iput
iput-Puts sb i c = elim (Bool-cases (is_dead (c.entry i))) [
  | inl dead ↦
      rw dead (freed-Puts sb i c (itrunc sb (c.entry i).node c.disk) (dead_ref (c.entry i) dead))
  | inr alive ↦ rw alive (
      put_done _ (record {
        others = λ k ne. ground (arith, ne);
        count = ground arith;
        same_dev = ground arith;
        same_inum = λ more. ground arith;
      }))
]

-- What `ilock` does to the entries.
record Relocked (i : ℕ) (c c' : Icache) : Type 0 where
  others : (k : ℕ) → k ≢ i → c'.entry k ≡ c.entry k
  count : (c'.entry i).ref ≡ (c.entry i).ref
  same_dev : (c'.entry i).dev ≡ (c.entry i).dev
  same_inum : (c'.entry i).node.inum ≡ (c.entry i).node.inum

data Locks (i : ℕ) (c : Icache) : Option Icache → Type 0 where
  lock_done : (c' : Icache) → Relocked i c c' → Locks i c (some c')
  panicked : Locks i c none

ilock-Locks : (i : ℕ) (c : Icache) → Locks i c (ilock i c)
unfolding ilock
ilock-Locks i c = elim (Bool-cases (ltb (c.entry i).ref 1)) [
  | inl free ↦ rw free panicked
  | inr used ↦ elim (Bool-cases (c.entry i).valid) [
    | inl valid ↦
        rw (used, valid)
          (lock_done c
            (record { others = λ k ne. refl; count = refl; same_dev = refl; same_inum = refl }))
    | inr read ↦ elim (Bool-cases ((c.disk.dinode (c.entry i).node.inum).type == 0)) [
      | inl no_type ↦ rw (used, read, no_type) panicked
      | inr typed ↦
          rw (used, read, typed)
            (lock_done _ (record {
              others = λ k ne. ground (arith, ne);
              count = ground arith;
              same_dev = ground arith;
              same_inum = ground arith;
            }))
    ]
  ]
]

-- A step of the callers: each uses only pointers that it holds; the holder of the lock of an inode may change
-- its contents and the disk, as `readi` and `writei` do.
pub data Step (sb : Superblock) (c : Icache) (holders : ℕ → ℕ) : Icache → (ℕ → ℕ) → Type 0 where
  got :
      (dev inum i : ℕ) (c' : Icache)
      → iget dev inum c ≡ some (c', i)
      → Step sb c holders c' (update holders i (holders i + 1))
  allocated :
      (dev type i : ℕ) (c' : Icache)
      → ialloc sb dev type c ≡ some (c', i)
      → Step sb c holders c' (update holders i (holders i + 1))
  duplicated :
      (i : ℕ) → 0 < holders i → Step sb c holders (idup i c) (update holders i (holders i + 1))
  locked :
      (i : ℕ) (c' : Icache)
      → 0 < holders i
      → ilock i c ≡ some c'
      → Step sb c holders c' (update holders i (holders i))
  changed :
      (i : ℕ) (ip : Inode) (d : Disk)
      → 0 < holders i
      → ip.inum ≡ (c.entry i).node.inum
      → Step sb c holders
          (set_entry i (record (c.entry i) { node = ip }) (record c { disk = d }))
          (update holders i (holders i))
  put :
      (i : ℕ) (c' : Icache)
      → 0 < holders i
      → iput sb i c ≡ some c'
      → Step sb c holders c' (update holders i (holders i - 1))

module _ (sb : Superblock) (c : Icache) {holders : ℕ → ℕ} (h : IsCache c.entry holders) where
  held : (i : ℕ) → 0 < holders i → (i < ninode) × ((c.entry i).ref ≡ holders i)
  held i p =
      let lt : i < ninode = elim (Bool-cases (ltb i ninode)) [
        | inl inside ↦ ground arith
        | inr outside ↦ absurd (omega (arith, h.inside i (ground arith)))
      ] in
      (lt, h.refs i lt)

  Iget-IsCache :
      {dev inum i : ℕ} {b c' : Icache}
      → Iget dev inum b holders (some (c', i))
      → IsCache c'.entry (update holders i (holders i + 1))
  Iget-IsCache (found c' i lt d n others k) = k

  put-IsCache :
      {i : ℕ} {c' : Icache}
      → 0 < holders i
      → Puts i c (some c')
      → IsCache c'.entry (update holders i (holders i - 1))
  put-IsCache {i} p (put_done c' q) =
      let (lt, ref) = held i p in
      change-IsCache i (holders i - 1) h lt q.others (omega (arith, q.count, ref))
        (λ more. (omega (arith, ref), q.same_dev, q.same_inum (omega (arith, ref))))

  lock-IsCache :
      {i : ℕ} {c' : Icache}
      → 0 < holders i
      → Locks i c (some c')
      → IsCache c'.entry (update holders i (holders i))
  lock-IsCache {i} p (lock_done c' q) =
      let (lt, ref) = held i p in
      change-IsCache i (holders i) h lt q.others (q.count ∙ ref)
        (λ _. (omega (arith, ref), q.same_dev, q.same_inum))

  ialloc-IsCache :
      (dev type : ℕ) (v : Option ℕ) {c' : Icache} {i : ℕ}
      → ialloc_at sb dev type c v ≡ some (c', i)
      → IsCache c'.entry (update holders i (holders i + 1))
  ialloc-IsCache dev type none e = absurd (ground (arith, e))
  ialloc-IsCache dev type (some inum) e =
      Iget-IsCache (subst (Iget dev inum _ holders) e (iget-Iget dev inum _ h))

  Step-IsCache :
      {c' : Icache} {holders' : ℕ → ℕ} → Step sb c holders c' holders' → IsCache c'.entry holders'
  unfolding idup ialloc
  Step-IsCache (got dev inum i c' e) =
      Iget-IsCache (subst (Iget dev inum c holders) e (iget-Iget dev inum c h))
  Step-IsCache (allocated dev type i c' e) =
      ialloc-IsCache dev type (find_from (λ k. (c.disk.dinode k).type == 0) (sb.ninodes - 1) 1) e
  Step-IsCache (duplicated i p) =
      let (lt, ref) = held i p in
      change-IsCache i (holders i + 1) h lt (λ k ne. ground (arith, ne)) (ground (arith, ref))
        (λ _. (omega (arith, ref), ground arith, ground arith))
  Step-IsCache (locked i c' p e) = lock-IsCache p (subst (Locks i c) e (ilock-Locks i c))
  Step-IsCache (changed i ip d p same) =
      let (lt, ref) = held i p in
      change-IsCache i (holders i) h lt (λ k ne. ground (arith, ne)) (ground (arith, ref))
        (λ _. (omega (arith, ref), ground arith, ground (arith, same)))
  Step-IsCache (put i c' p e) = put-IsCache p (subst (Puts i c) e (iput-Puts sb i c))

-- Any number of steps.
pub data Uses (sb : Superblock) (c : Icache) (holders : ℕ → ℕ) : Icache → (ℕ → ℕ) → Type 0 where
  unchanged : Uses sb c holders c holders
  and_step :
      (c' c2 : Icache) (holders' holders2 : ℕ → ℕ)
      → Uses sb c holders c' holders'
      → Step sb c' holders' c2 holders2
      → Uses sb c holders c2 holders2

-- Along any sequence of calls in which callers copy, lock, change and put only inodes that they hold: each
-- entry of the cache counts its pointers, and an inode has one entry at most, so that two pointers to the
-- same inode are equal.
pub Uses-IsCache :
    (sb : Superblock) {c : Icache} {holders : ℕ → ℕ} {c' : Icache} {holders' : ℕ → ℕ}
    → IsCache c.entry holders
    → Uses sb c holders c' holders'
    → IsCache c'.entry holders'
Uses-IsCache sb h unchanged = h
Uses-IsCache sb h (and_step c' c2 holders' holders2 u s) =
    Step-IsCache sb c' (Uses-IsCache sb h u) s

-- An inode that has been freed, on the disk and in its entry `i`.
pub record Dead (sb : Superblock) (i : ℕ) (c c' : Icache) : Type 0 where
  pub unreferenced : (c'.entry i).ref ≡ 0
  pub gone :
      (k : ℕ)
      → k < slots
      → ptr c.disk (c.entry i).node k ≢ 0
      → is_used sb c'.disk (ptr c.disk (c.entry i).node k) ≡ false
  pub no_type : (c'.disk.dinode (c'.entry i).node.inum).type ≡ 0
  pub no_bytes : (c'.disk.dinode (c'.entry i).node.inum).size ≡ 0
  pub running : c'.disk.stopped ≡ false

freed-Dead :
    (sb : Superblock) (i : ℕ) (c : Icache) (d : Disk) (ip : Inode)
    → (c.entry i).ref ≡ 1
    → Emptied sb c.disk (c.entry i).node (d, ip)
    → (c' : Icache) × (drop_ref i (free_inode sb i c (some (d, ip))) ≡ some c') × Dead sb i c c'
unfolding iupdate log_block is_used
freed-Dead sb i c d ip one m = (
  _,
  refl,
  record {
    unreferenced = ground (arith, one);
    gone = m.gone;
    no_type = ground arith;
    no_bytes = ground (arith, m.no_bytes);
    running =
        (log_block-Fits (inode_block sb ip.inum)
          (record d { dinode = update d.dinode ip.inum (record ip { type = 0 }) }) 0 1 (omega arith)
          m.logs).running;
  },
)

-- The last pointer to an inode without links, whose blocks are its own, on a disk with one block of bitmap, in a
-- transaction whose log has room for three more blocks: `iput` does not panic, nor does `log_write`, every block
-- of the file is free afterwards, and the inode on the disk has no type and no bytes.
pub iput-Dead :
    (sb : Superblock) (i : ℕ) (c : Icache)
    → IsFile sb c.disk (c.entry i).node
    → is_dead (c.entry i) ≡ true
    → sb.size ≤ bpb
    → Writable 3 c.disk
    → (c' : Icache) × (iput sb i c ≡ some c') × Dead sb i c c'
unfolding iput
iput-Dead sb i c h dead one_map w =
    let ((d, ip), e, _, m) = itrunc-Emptied sb h one_map w in
    let (c', q, f) = freed-Dead sb i c d ip (dead_ref (c.entry i) dead) m in (c', rw (dead, e) q, f)
