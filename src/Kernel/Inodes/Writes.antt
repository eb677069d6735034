-- ===== src/Kernel/Inodes/Writes.antt =====
-- `writei` of ex3/q1/xv6/fs.c writes a range of the bytes of a file, and nothing else.
use operating_systems_soluti.Base.{
  ℕ, zero, suc, ◌+◌, ◌-◌, ◌*◌, ◌/◌, ◌%◌, ◌≤◌, ◌<◌, ◌≡◌, refl, sym, ◌∙◌, inl, inr, ◌&&◌, Option,
  none, some, arith, ltb, leb, ◌==◌, if◌then◌else◌, Bool-cases, update,
}
use operating_systems_soluti.Kernel.Blocks.Space.{
  Fits, Fits-later, Fits-more, Fits-none, log_block-Fits,
}
use operating_systems_soluti.Kernel.Blocks.{Superblock, Disk, bsize}
use operating_systems_soluti.Kernel.Inodes.{
  Inode, maxfile, bmap, copy_in, piece, write_loop, and_write,
}
use operating_systems_soluti.Kernel.Inodes.Pointers.{file_byte, IsFile, slot}
use operating_systems_soluti.Kernel.Inodes.Spliced.{spliced, range, spliced_twice, spliced_old}
use operating_systems_soluti.Kernel.Inodes.Maps.{Filled, Mapping, filled, no_space}
use operating_systems_soluti.Kernel.Inodes.Entries.{bmap-Mapping}
use operating_systems_soluti.Kernel.Inodes.Contents.{
  file_at, copy_in-IsFile, copy_in-file_byte, copy_in-used,
}
use operating_systems_soluti.Kernel.Blocks.Room.{room, room-same}

pub record Written (sb : Superblock) (d : Disk) (ip : Inode) (off left n : ℕ) (src : ℕ → ℕ)
    (r : Disk × Inode) : Type 0 where
  pub file : IsFile sb r.0 r.1
  pub same_size : r.1.size ≡ ip.size
  pub same_inum : r.1.inum ≡ ip.inum
  pub taken : room sb d ≤ room sb r.0 + n
  pub logs : Fits (4 * n) d r.0
  pub contents :
      (k : ℕ) → k < maxfile * bsize → file_at r.0 r.1 k ≡ spliced off left src (file_at d ip) k

-- The number of blocks of the file that a write touches.
unfoldable pub touched : ℕ → ℕ → ℕ
touched off left = if left == 0 then 0 else (off + left - 1) / bsize - off / bsize + 1

-- What the loop comes to: a panic only on a disk with fewer than `n` free blocks.
pub data Writing (sb : Superblock) (d : Disk) (ip : Inode) (off left n : ℕ) (src : ℕ → ℕ)
    : Option (Disk × Inode) → Type 0 where
  written :
      (r : Disk × Inode)
      → Written sb d ip off left n src r
      → Writing sb d ip off left n src (some r)
  disk_full : room sb d < n → Writing sb d ip off left n src none

pub touched-piece :
    (off left : ℕ)
    → 0 < left
    → 2 + 2 * touched (off + piece left off) (left - piece left off) ≡ 2 * touched off left
unfolding touched
touched-piece off left lt = ground arith

copy_in-Fits : (b off m : ℕ) (src : ℕ → ℕ) (d : Disk) → Fits 1 d (copy_in b off m src d)
copy_in-Fits b off m src d = log_block-Fits b (record d {
  byte = update d.byte b (λ o. if leb off o && ltb o (off + m) then src (o - off) else d.byte b o);
})

-- One copy into the block that `bmap` returned.
copied :
    {sb : Superblock} {d : Disk} {ip : Inode} (off left : ℕ) (src : ℕ → ℕ) (d1 : Disk) (ip1 : Inode)
    (b : ℕ)
    → ((k : ℕ) → src k < 256)
    → off + left ≤ maxfile * bsize
    → 0 < left
    → Filled sb d ip (slot (off / bsize)) 2 (d1, ip1, b)
    → Written sb d ip off
        (piece left off)
        2
        src
        (copy_in b (off % bsize) (piece left off) src d1, ip1)
copied {sb} {d} {ip} off left src d1 ip1 b bytes top some_left f =
    let same_room = room-same sb d1 (copy_in b (off % bsize) (piece left off) src d1) (
      copy_in-used sb f.file (off / bsize) (omega arith) b f.block f.there (off % bsize)
        (piece left off) (ground arith) src bytes) in
    record {
      file =
          copy_in-IsFile sb f.file (off / bsize) (omega arith) b f.block f.there (off % bsize)
            (piece left off) (ground arith) src bytes;
      same_size = f.same_size;
      same_inum = f.same_inum;
      taken = omega (arith, f.taken, same_room);
      logs = Fits-more d (copy_in b (off % bsize) (piece left off) src d1) 7 8 (omega arith) (
          Fits-later d d1 (copy_in b (off % bsize) (piece left off) src d1) 6 1 f.logs
            (copy_in-Fits b (off % bsize) (piece left off) src d1));
      contents = λ k lt.
          let new =
            copy_in-file_byte sb f.file (off / bsize) (omega arith) b f.block f.there (off % bsize)
              (piece left off) (ground arith) src bytes (k / bsize) (k % bsize) (omega arith) in
          let old = f.contents (k / bsize) (k % bsize) (omega arith) (omega arith) in
          new
          ∙ rw old (
              range off (piece left off) k (file_byte d ip (k / bsize) (k % bsize)) src
                (ground arith));
    }

Writing-later :
    {sb : Superblock} {d : Disk} {ip : Inode} {off p left m n : ℕ} {src : ℕ → ℕ} {q : Disk × Inode}
    {r : Option (Disk × Inode)}
    → p ≤ left
    → Written sb d ip off p m src q
    → Writing sb q.0 q.1 (off + p) (left - p) n (λ k. src (p + k)) r
    → Writing sb d ip off left (m + n) src r
Writing-later le w (disk_full few) = disk_full (omega (arith, w.taken))
Writing-later {sb} {d} {ip} {off} {p} {left} {m} {n} {src} {q} le w (written r v) =
    written r (record {
      file = v.file;
      same_size = v.same_size ∙ w.same_size;
      same_inum = v.same_inum ∙ w.same_inum;
      taken = omega (arith, v.taken, w.taken);
      logs =
          Fits-more d r.0 (4 * m + 4 * n) (4 * (m + n)) (omega arith)
            (Fits-later d q.0 r.0 (4 * m) (4 * n) w.logs v.logs);
      contents = λ k lk.
          v.contents k lk
          ∙ spliced_old (off + p) (left - p) (λ j. src (p + j)) (file_at q.0 q.1)
              (spliced off p src (file_at d ip)) k (w.contents k lk)
          ∙ spliced_twice off p left k src (file_at d ip) le;
    })

pub write_loop-Writing :
    (sb : Superblock) (fuel : ℕ) (src : ℕ → ℕ) (off left : ℕ) {d : Disk} {ip : Inode}
    → IsFile sb d ip
    → ((k : ℕ) → src k < 256)
    → off + left ≤ maxfile * bsize
    → left < fuel
    → Writing sb d ip off left (2 * touched off left) src (write_loop sb fuel src off left ip d)
unfolding write_loop
write_loop-Writing sb zero src off left h bytes top lt = absurd (omega arith)
write_loop-Writing sb (suc fuel) src off left {d} {ip} h bytes top lt =
    elim (Bool-cases (left == 0)) [
      | inl done ↦ rw done (
          written (d, ip)
            (record {
              file = h;
              same_size = refl;
              same_inum = refl;
              taken = omega arith;
              logs = Fits-none d (4 * (2 * touched off left));
              contents = λ k lk. ground arith;
            }))
      | inr more ↦
          rw (write_loop, more)
            (go (bmap sb (off / bsize) ip d) (bmap-Mapping sb (off / bsize) h (ground arith))
              (ground arith)
              (λ ip' d' h'.
                write_loop-Writing sb fuel (λ k. src (piece left off + k)) (off + piece left off)
                  (left - piece left off) h' (λ k. bytes (piece left off + k)) (ground arith)
                  (ground arith)))
    ]
  where
    go :
        (r : Option (Disk × Inode × ℕ))
        → Mapping sb d ip (slot (off / bsize)) 2 r
        → 0 < left
        → ((ip' : Inode) (d' : Disk)
            → IsFile sb d' ip'
            → Writing sb d' ip'
                (off + piece left off)
                (left - piece left off)
                (2 * touched (off + piece left off) (left - piece left off))
                (λ k. src (piece left off + k))
                (write_loop sb fuel
                  (λ k. src (piece left off + k))
                  (off + piece left off)
                  (left - piece left off)
                  ip'
                  d'))
        → Writing sb d ip off left (2 * touched off left) src (
            and_write
              (write_loop sb fuel
                (λ k. src (piece left off + k))
                (off + piece left off)
                (left - piece left off))
              (off % bsize)
              (piece left off)
              src
              r)
    go none (no_space few) some_left rest =
        disk_full (omega (arith, touched-piece off left some_left))
    go (some (d1, ip1, b)) (filled _ f) some_left rest =
        let c = copied off left src d1 ip1 b bytes top some_left f in
        let cost = touched-piece off left some_left in
        rw (sym cost) (
          Writing-later (ground arith) c
            (rest ip1 (copy_in b (off % bsize) (piece left off) src d1) c.file))
