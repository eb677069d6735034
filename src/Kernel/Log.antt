-- ===== src/Kernel/Log.antt =====
-- ex3/q1/xv6/log.c: the redo log of the file system. The disk is a function from the block number to
-- its contents, except for the block `log.start`, which is kept decoded as the list `block[0..n)` of
-- its `struct logheader`. `left` is the number of block writes that reach the disk before the machine
-- stops: a `bwrite` after that changes nothing, so that a run with `left = k` ends with the disk that a
-- crash after `k` writes leaves behind. A log block is only written through `bwrite`, so its buffer
-- and the disk agree, and reading it is reading the disk; `cache` is what the buffers of the home
-- blocks hold.
pub mod Crash
pub mod Space
mod Tests
pub mod Writes
use operating_systems_soluti.Base.{
  ℕ, zero, suc, ◌+◌, ◌-◌, ◌*◌, ◌/◌, ◌%◌, ◌^◌, ◌≤◌, ◌<◌, ◌≡◌, refl, sym, ap, subst, fun_ext, ◌∙◌,
  ◌≢◌, ◌↔◌, ◌⊎◌, inl, inr, Bool, true, false, not, ◌&&◌, ◌||◌, Option, none, some, List, [], ◌∷◌,
  ◌++◌, map, arith, dec_lt, ℕ_discrete, ltb, leb, ◌==◌, if◌then◌else◌, ltb→lt, lt→ltb, ==_refl,
  Bool-cases, Option-cases, length, get_elem?, take, drop, length-append, take-append-drop,
  length-take, length-drop, count, count-append, update, find_from, find, find_from-some,
  find_from-before, find_from-none, find_from-intro, find_from-eq_none, total, total-update,
  total-weight_le, total-bound, total-const, seek, update_self, update-ne, update_twice-ne, ℤ, pos,
  negsuc, pos_part, neg_part, sub_ℕ, ◌+ℤ◌, ◌-ℤ◌, ◌*ℤ◌, ◌≤ℤ◌, ◌<ℤ◌, ltb_ℤ, eqb_ℤ, +ℤ_parts, -ℤ_parts,
  *ℤ_parts, eq_of_parts, int_laws, int_max, inc, dec,
}

-- What survives a crash, and the writes that the run may still make.
pub record Machine (A : Type 0) : Type 0 where
  pub block : ℕ → A
  pub header : List ℕ
  pub left : ℕ

module _ {A : Type 0} where
  abbrev pub write_block : ℕ → ℕ → A → Machine A → Machine A
  write_block zero b v m = m
  write_block (suc k) b v m = record m { block = update m.block b v; left = k }

  unfoldable pub bwrite : ℕ → A → Machine A → Machine A
  bwrite b v m = write_block m.left b v m

  abbrev pub write_header : ℕ → List ℕ → Machine A → Machine A
  write_header zero lh m = m
  write_header (suc k) lh m = record m { header = lh; left = k }

  unfoldable pub write_head : List ℕ → Machine A → Machine A
  write_head lh m = write_header m.left lh m

  -- The loops over `tail`: the blocks of the header from `tail` on.
  pub write_log : ℕ → (ℕ → A) → ℕ → List ℕ → Machine A → Machine A
  write_log start cache tail [] m = m
  write_log start cache tail (b ∷ bs) m =
      write_log start cache (tail + 1) bs (bwrite (start + tail + 1) (cache b) m)

  pub install_trans : ℕ → ℕ → List ℕ → Machine A → Machine A
  install_trans start tail [] m = m
  install_trans start tail (b ∷ bs) m =
      install_trans start (tail + 1) bs (bwrite b (m.block (start + tail + 1)) m)

  unfoldable pub commit : ℕ → (ℕ → A) → List ℕ → Machine A → Machine A
  commit start cache lh m =
      if ltb 0 (length lh)
      then write_head [] (install_trans start 0 lh (write_head lh (write_log start cache 0 lh m)))
      else m

  -- `read_head` is the use of `m.header`.
  unfoldable pub recover_from_log : ℕ → Machine A → Machine A
  recover_from_log start m = write_head [] (install_trans start 0 m.header m)

-- Boots that stop after as many writes as the list says, each beginning with a recovery.
pub boots : {A : Type 0} → ℕ → List ℕ → Machine A → Machine A
boots start [] m = m
boots start (k ∷ ks) m = boots start ks (recover_from_log start (record m { left = k }))

-- The state under `log.lock`.
pub record Log : Type 0 where
  pub size : ℕ
  pub outstanding : ℕ
  pub committing : Bool
  pub lh : List ℕ

abbrev pub max_op_blocks : ℕ
max_op_blocks = 10

abbrev pub log_size : ℕ
log_size = 30

-- One pass of the loop of `begin_op`; `none` is a sleep on the log.
unfoldable pub begin_op : Log → Option Log
begin_op l =
    if l.committing
    then none
    else if ltb log_size (length l.lh + (l.outstanding + 1) * max_op_blocks)
    then none
    else some (record l { outstanding = l.outstanding + 1 })

-- The first critical section of `end_op`, with `do_commit`. `none` is the panic, and a call that no
-- `begin_op` precedes, which would make `outstanding` negative.
unfoldable pub end_op : Log → Option (Log × Bool)
end_op l =
    if l.committing || l.outstanding == 0
    then none
    else if l.outstanding == 1
    then some (record l { outstanding = 0; committing = true }, true)
    else some (record l { outstanding = l.outstanding - 1 }, false)

-- The end of `commit`, and the second critical section of `end_op`.
unfoldable pub commit_done : Log → Log
commit_done l = record l { lh = []; committing = false }

-- The loop of `log_write`: a block that is in the header already is absorbed.
unfoldable pub absorb : ℕ → List ℕ → List ℕ
absorb b [] = b ∷ []
absorb b (x ∷ xs) = if x == b then b ∷ xs else x ∷ absorb b xs

-- `none` is one of the two panics.
unfoldable pub log_write : ℕ → Log → Option Log
log_write b l =
    if leb log_size (length l.lh) || leb (l.size - 1) (length l.lh)
    then none
    else if l.outstanding == 0
    then none
    else some (record l { lh = absorb b l.lh })
