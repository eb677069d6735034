-- ===== src/Kernel/Inodes/Reads.antt =====
-- `readi` of ex3/q1/xv6/fs.c reads a range of the bytes of a file, and changes none of them; read after `writei`
-- it returns what was written.
use operating_systems_soluti.Base.{
  ℕ, zero, suc, ◌+◌, ◌-◌, ◌*◌, ◌/◌, ◌%◌, ◌^◌, ◌≤◌, ◌<◌, ◌≡◌, refl, sym, ap, ◌∙◌, inl, inr, false,
  Option, none, some, arith, ltb, ◌==◌, if◌then◌else◌, Bool-cases, ℤ, pos,
}
use operating_systems_soluti.Kernel.Blocks.Space.{Fits, Fits-later, Fits-more, Fits-none}
use operating_systems_soluti.Kernel.Blocks.{Superblock, Disk, bsize}
use operating_systems_soluti.Kernel.Blocks.Room.{room}
use operating_systems_soluti.Kernel.Inodes.{
  Inode, maxfile, bmap, piece, read_loop, read_some, and_read, put_piece, readi,
}
use operating_systems_soluti.Kernel.Inodes.Pointers.{file_byte, IsFile, slot}
use operating_systems_soluti.Kernel.Inodes.Maps.{Filled, Mapping, filled, no_space}
use operating_systems_soluti.Kernel.Inodes.Entries.{bmap-Mapping}
use operating_systems_soluti.Kernel.Inodes.Contents.{file_at}
use operating_systems_soluti.Kernel.Inodes.Writes.{touched, touched-piece}

-- The file keeps its bytes and its size, `left` bytes from `off` on are read, and at most `n` blocks taken.
pub record Read (sb : Superblock) (d : Disk) (ip : Inode) (off left n : ℕ)
    (r : Disk × Inode × (ℕ → ℕ)) : Type 0 where
  pub file : IsFile sb r.0 r.1
  pub same_size : r.1.size ≡ ip.size
  pub taken : room sb d ≤ room sb r.0 + n
  pub logs : Fits (3 * n) d r.0
  pub contents : (k : ℕ) → k < maxfile * bsize → file_at r.0 r.1 k ≡ file_at d ip k
  pub bytes : (k : ℕ) → k < left → r.2 k ≡ file_at d ip (off + k)

pub data Reading (sb : Superblock) (d : Disk) (ip : Inode) (off left n : ℕ)
    : Option (Disk × Inode × (ℕ → ℕ)) → Type 0 where
  read :
      (r : Disk × Inode × (ℕ → ℕ)) → Read sb d ip off left n r → Reading sb d ip off left n (some r)
  read_full : room sb d < n → Reading sb d ip off left n none

-- A piece in the block that `bmap` returned, and then the rest.
Reading-later :
    {sb : Superblock} {d : Disk} {ip : Inode} (off left n : ℕ) (d1 : Disk) (ip1 : Inode) (b : ℕ)
    {r : Option (Disk × Inode × (ℕ → ℕ))}
    → 0 < left
    → off + left ≤ maxfile * bsize
    → Filled sb d ip (slot (off / bsize)) 2 (d1, ip1, b)
    → Reading sb d1 ip1 (off + piece left off) (left - piece left off) n r
    → Reading sb d ip off left (2 + n) (put_piece (off % bsize) (piece left off) d1 b r)
Reading-later off left n d1 ip1 b more top f (read_full few) = read_full (omega (arith, f.taken))
Reading-later {sb} {d} {ip} off left n d1 ip1 b more top f (read (d2, ip2, rest) g) =
    let was : (k : ℕ) → k < maxfile * bsize → file_at d1 ip1 k ≡ file_at d ip k =
      λ k lk. f.contents (k / bsize) (k % bsize) (omega arith) (omega arith) in
    let here : (o : ℕ) → file_byte d1 ip1 (off / bsize) o ≡ d1.byte b o =
      λ o. rw f.block (ground (arith, f.there)) in
    read _ (record {
      file = g.file;
      same_size = g.same_size ∙ f.same_size;
      taken = omega (arith, f.taken, g.taken);
      logs =
          Fits-more d d2 (6 + 3 * n) (3 * (2 + n)) (omega arith)
            (Fits-later d d1 d2 6 (3 * n) f.logs g.logs);
      contents = λ k lk. g.contents k lk ∙ was k lk;
      bytes = λ k lk. elim (Bool-cases (ltb k (piece left off))) [
        | inl now ↦
            let q : (off + k) / bsize ≡ off / bsize = ground arith in
            let m : (off + k) % bsize ≡ off % bsize + k = ground arith in
            rw now (
              sym (here (off % bsize + k))
              ∙ ap (file_byte d1 ip1 (off / bsize)) (sym m)
              ∙ ap (λ z. file_byte d1 ip1 z ((off + k) % bsize)) (sym q)
              ∙ was (off + k) (omega arith))
        | inr later ↦
            let back : off + piece left off + (k - piece left off) ≡ off + k = ground arith in
            rw later (
              g.bytes (k - piece left off) (ground arith)
              ∙ ap (file_at d1 ip1) back
              ∙ was (off + k) (omega arith))
      ];
    })

read_loop-Reading :
    (sb : Superblock) (fuel off left : ℕ) {d : Disk} {ip : Inode}
    → IsFile sb d ip
    → off + left ≤ maxfile * bsize
    → left < fuel
    → Reading sb d ip off left (2 * touched off left) (read_loop sb fuel off left ip d)
unfolding read_loop
read_loop-Reading sb zero off left h top lt = absurd (omega arith)
read_loop-Reading sb (suc fuel) off left {d} {ip} h top lt = elim (Bool-cases (left == 0)) [
  | inl done ↦ rw done (
      read (d, ip, λ k. 0)
        (record {
          file = h;
          same_size = refl;
          taken = omega arith;
          logs = Fits-none d (3 * (2 * touched off left));
          contents = λ k lk. refl;
          bytes = λ k lk. absurd (ground arith);
        }))
  | inr more ↦
      rw (read_loop, more)
        (go (bmap sb (off / bsize) ip d) (bmap-Mapping sb (off / bsize) h (ground arith))
          (ground arith)
          (λ ip' d' h'.
            read_loop-Reading sb fuel (off + piece left off) (left - piece left off) h'
              (ground arith) (ground arith)))
]
  where
    go :
        (r : Option (Disk × Inode × ℕ))
        → Mapping sb d ip (slot (off / bsize)) 2 r
        → 0 < left
        → ((ip' : Inode) (d' : Disk)
            → IsFile sb d' ip'
            → Reading sb d' ip'
                (off + piece left off)
                (left - piece left off)
                (2 * touched (off + piece left off) (left - piece left off))
                (read_loop sb fuel (off + piece left off) (left - piece left off) ip' d'))
        → Reading sb d ip off left (2 * touched off left) (
            and_read
              (read_loop sb fuel (off + piece left off) (left - piece left off))
              (off % bsize)
              (piece left off)
              r)
    go none (no_space few) more rest = read_full (omega (arith, touched-piece off left more))
    go (some (d1, ip1, b)) (filled _ f) more rest = rw (sym (touched-piece off left more)) (
        Reading-later off left (2 * touched (off + piece left off) (left - piece left off)) d1 ip1 b
          more top f (rest ip1 d1 f.file))

-- How many bytes a read of `n` at `off` returns.
abbrev pub available : Inode → ℕ → ℕ → ℕ
available ip off n = if ltb ip.size (off + n) then ip.size - off else n

-- The outcome of `readi`.
pub data Readi (sb : Superblock) (d : Disk) (ip : Inode) (off m : ℕ)
    : Option (Disk × Inode × ℤ × (ℕ → ℕ)) → Type 0 where
  read_done :
      (d' : Disk) (ip' : Inode) (dst : ℕ → ℕ)
      → Read sb d ip off m (2 * touched off m) (d', ip', dst)
      → Readi sb d ip off m (some (d', ip', pos m, dst))
  read_full : room sb d < 2 * touched off m → Readi sb d ip off m none

read_some-Readi :
    {sb : Superblock} {d : Disk} {ip : Inode} {off m : ℕ} {r : Option (Disk × Inode × (ℕ → ℕ))}
    → Reading sb d ip off m (2 * touched off m) r
    → Readi sb d ip off m (read_some m r)
read_some-Readi (read_full few) = read_full few
read_some-Readi (read (d', ip', dst) g) = read_done d' ip' dst g

-- All that `readi` does, where it may have to fill holes, with the room in the log that it takes.
pub readi-Readi :
    (sb : Superblock) (off n : ℕ) {d : Disk} {ip : Inode}
    → IsFile sb d ip
    → off ≤ ip.size
    → off + n < 2 ^ 32
    → ip.size ≤ maxfile * bsize
    → Readi sb d ip off (available ip off n) (readi sb ip off n d)
unfolding readi
readi-Readi sb off n {d} {ip} h inside top size =
    let early : ltb ip.size off ≡ false = ground arith in
    let wraps : (off + n) % 2 ^ 32 ≡ off + n = omega arith in
    let over : ltb (off + n) off ≡ false = ground arith in
    rw (early, wraps, over)
      (read_some-Readi (
        read_loop-Reading sb (available ip off n + 1) off (available ip off n) h (ground arith)
          (omega arith)))
