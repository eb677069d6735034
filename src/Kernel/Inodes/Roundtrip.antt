-- ===== src/Kernel/Inodes/Roundtrip.antt =====
-- `readi` after `writei` in ex3/q1/xv6/fs.c.
use operating_systems_soluti.Base.{
  ℕ, ◌+◌, ◌-◌, ◌*◌, ◌≤◌, ◌<◌, ◌≡◌, refl, ◌∙◌, false, Option, none, some, arith, ℤ, pos,
}
use operating_systems_soluti.Kernel.Blocks.{Superblock, Disk, bsize}
use operating_systems_soluti.Kernel.Blocks.Room.{room}
use operating_systems_soluti.Kernel.Blocks.Space.{Writable}
use operating_systems_soluti.Kernel.Inodes.{Inode, maxfile, readi, writei}
use operating_systems_soluti.Kernel.Inodes.Pointers.{IsFile}
use operating_systems_soluti.Kernel.Inodes.Writes.{touched}
use operating_systems_soluti.Kernel.Inodes.Grown.{
  WriteDone, Writei, write_done, write_full, writei-Writei,
}
use operating_systems_soluti.Kernel.Inodes.Reads.{
  Readi, read_done, read_full, readi-Readi, available,
}

-- Bytes that are written and read back.
abbrev pub ReadBack : Superblock → ℕ → ℕ → (ℕ → ℕ) → Inode → Disk → Type 0
ReadBack sb off n src ip d =
    (d1 : Disk) × (ip1 : Inode) × (d2 : Disk) × (ip2 : Inode) × (dst : ℕ → ℕ) × (writei sb ip src
        off n d
      ≡ some (d1, ip1, pos n))
    × (readi sb ip1 off n d1 ≡ some (d2, ip2, pos n, dst))
    × (d2.stopped ≡ false)
    × ((k : ℕ) → k < n → dst k ≡ src k)

-- `writei` of bytes into a file, at most up to its largest size, and `readi` of the same range in the same
-- transaction, on a disk with four free blocks for each block that the range touches and a log with room for
-- fourteen more blocks for each of them, and for one more: neither of them panics, both return the number of
-- bytes, and the bytes that are read are those that were written.
pub readi-writei :
    (sb : Superblock) (src : ℕ → ℕ) (off n : ℕ) {d : Disk} {ip : Inode}
    → IsFile sb d ip
    → ((k : ℕ) → src k < 256)
    → off ≤ ip.size
    → ip.size ≤ maxfile * bsize
    → 0 < n
    → off + n ≤ maxfile * bsize
    → 4 * touched off n ≤ room sb d
    → Writable (14 * touched off n + 1) d
    → ReadBack sb off n src ip d
readi-writei sb src off n {d} {ip} h bytes inside size more top space log =
    go (writei sb ip src off n d) refl (writei-Writei sb src off n h bytes inside top)
  where
    back :
        (d1 : Disk) (ip1 : Inode)
        → writei sb ip src off n d ≡ some (d1, ip1, pos n)
        → WriteDone sb d ip off n src (d1, ip1, pos n)
        → (r : Option (Disk × Inode × ℤ × (ℕ → ℕ))) → readi sb ip1 off n d1 ≡ r
        → Readi sb d1 ip1 off n r
        → ReadBack sb off n src ip d
    back d1 ip1 e w none e2 (read_full few) = absurd (omega (arith, w.taken))
    back d1 ip1 e w (some _) e2 (read_done d2 ip2 dst g) = (
      d1,
      ip1,
      d2,
      ip2,
      dst,
      e,
      e2,
      (g.logs 0 (6 * touched off n) (omega arith)
          (w.logs (6 * touched off n) (14 * touched off n + 1) (omega arith) log)).running,
      λ k lk.
          g.bytes k lk
          ∙ w.contents (off + k) (omega arith)
          ∙ (let at : off + k - off ≡ k = omega arith in ground arith),
    )

    go :
        (r : Option (Disk × Inode × ℤ))
        → writei sb ip src off n d ≡ r
        → Writei sb d ip off n src r
        → ReadBack sb off n src ip d
    go none e (write_full few) = absurd (omega arith)
    go (some (d1, ip1, z)) e (write_done _ w) =
        let all : available ip1 off n ≡ n = ground (arith, w.size) in
        let e' : writei sb ip src off n d ≡ some (d1, ip1, pos n) = rw w.result at e in
        back d1 ip1 e'
          (record {
            file = w.file;
            size = w.size;
            result = refl;
            taken = w.taken;
            logs = w.logs;
            contents = w.contents;
          })
          (readi sb ip1 off n d1) refl
          (rw all at (
            readi-Readi sb off n w.file (ground (arith, w.size)) (omega arith)
              (ground (arith, w.size))))
