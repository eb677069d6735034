-- ===== src/Kernel/Inodes/Tests.antt =====
-- An open file of 100 bytes in one block of the small disk, which has been unlinked.
use operating_systems_soluti.Base.{ℕ, ◌≤◌, ◌≡◌, refl, false, some, arith, ◌==◌, if◌then◌else◌}
use operating_systems_soluti.Kernel.Blocks.{Disk, is_used, has_bit}
use operating_systems_soluti.Kernel.Blocks.Space.{Writable, stops}
use operating_systems_soluti.Kernel.Blocks.Room.{room, unused}
use operating_systems_soluti.Kernel.Blocks.Tests.{small, five_used, five_used-IsLaidOut}
use operating_systems_soluti.Kernel.Inodes.{Inode, bmap, writei, itrunc}
use operating_systems_soluti.Kernel.Inodes.Pointers.{ptr, slot, IsFile}
use operating_systems_soluti.Kernel.Inodes.Maps.{Mapping}
use operating_systems_soluti.Kernel.Inodes.Entries.{bmap-in_transaction}
use operating_systems_soluti.Kernel.Inodes.Writes.{touched}
use operating_systems_soluti.Kernel.Inodes.Grown.{Writei, writei-in_transaction}
use operating_systems_soluti.Kernel.Inodes.Roundtrip.{ReadBack, readi-writei}
use operating_systems_soluti.Kernel.Inodes.Truncates.{Emptied, itrunc-Emptied}

abbrev pub note : Inode
note = record { inum = 1; type = 2; nlink = 0; size = 100; addrs = λ k. if k == 0 then 4 else 0 }

note-ptr : (k : ℕ) → ptr five_used note k ≡ (if k == 0 then 4 else 0)
note-ptr k = ground arith

pub note-IsFile : IsFile small five_used note
unfolding is_used has_bit
note-IsFile = record {
  laid_out = five_used-IsLaidOut;
  word_size = omega arith;
  boot = refl;
  blocks = λ k lt nz.
      let e : ptr five_used note k ≡ 4 = ground (arith, note-ptr k) in
      rw e (record {
        not_boot = omega arith;
        in_range = omega arith;
        used = refl;
        no_map = λ b lb e. omega arith;
      });
  distinct = λ j k lj lk nz e. ground (arith, note-ptr j, note-ptr k);
}

eleven_free : room small five_used ≡ 11
unfolding unused is_used has_bit
eleven_free = refl

-- The disk is in a transaction that has logged nothing.
pub five_used-Writable : (n : ℕ) → n ≤ 29 → Writable n five_used
five_used-Writable n le = record {
  running = refl;
  in_transaction = omega arith;
  fits = omega (arith, le);
  in_log = omega (arith, le);
}

bmap-in_transaction_example :
    Mapping small five_used note (slot 20) 2 (bmap small 20 note five_used)
    × (stops (bmap small 20 note five_used) ≡ false)
bmap-in_transaction_example =
    bmap-in_transaction small 20 note-IsFile (omega arith) (five_used-Writable 6 (omega arith))

writei-in_transaction_example :
    Writei small five_used note 90 30 (λ k. 7) (writei small note (λ k. 7) 90 30 five_used)
    × (stops (writei small note (λ k. 7) 90 30 five_used) ≡ false)
unfolding touched
writei-in_transaction_example =
    writei-in_transaction small (λ k. 7) 90 30 note-IsFile (λ k. omega arith) (omega arith)
      (omega arith) (five_used-Writable 9 (omega arith))

readi-writei_example : ReadBack small 90 30 (λ k. 7) note five_used
unfolding touched
readi-writei_example =
    readi-writei small (λ k. 7) 90 30 note-IsFile (λ k. omega arith) (omega arith) (omega arith)
      (omega arith) (omega arith) (omega (arith, eleven_free)) (five_used-Writable 15 (omega arith))

itrunc-Emptied_example :
    (r : Disk × Inode) × (itrunc small note five_used ≡ some r)
    × (r.0.stopped ≡ false)
    × Emptied small five_used note r
itrunc-Emptied_example =
    itrunc-Emptied small note-IsFile (omega arith) (five_used-Writable 3 (omega arith))
