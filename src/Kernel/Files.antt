-- ===== src/Kernel/Files.antt =====
-- ex3/q1/xv6/file.c: the table of open files. The table is a function from the slot to its `struct file`;
-- what a closed file leaves to do with its pipe or inode is returned. What `piperead`, `pipewrite`, `readi`
-- and `writei` return are arguments; `off` wraps at 2^32.
pub mod Counts
pub mod Writes
mod Tests
use operating_systems_soluti.Base.{
  ℕ, zero, suc, ◌+◌, ◌-◌, ◌*◌, ◌/◌, ◌%◌, ◌^◌, ◌≤◌, ◌<◌, ◌≡◌, refl, sym, ap, subst, fun_ext, ◌∙◌,
  ◌≢◌, ◌↔◌, ◌⊎◌, inl, inr, Bool, true, false, not, ◌&&◌, ◌||◌, Option, none, some, List, [], ◌∷◌,
  ◌++◌, map, arith, dec_lt, ℕ_discrete, ltb, leb, ◌==◌, if◌then◌else◌, ltb→lt, lt→ltb, ==_refl,
  Bool-cases, Option-cases, length, get_elem?, take, drop, length-append, take-append-drop,
  length-take, length-drop, count, count-append, update, find_from, find, find_from-some,
  find_from-before, find_from-none, find_from-intro, find_from-eq_none, total, total-update,
  total-weight_le, total-bound, total-const, seek, update_self, update-ne, update_twice-ne, ℤ, pos,
  negsuc, pos_part, neg_part, sub_ℕ, ◌+ℤ◌, ◌-ℤ◌, ◌*ℤ◌, ◌≤ℤ◌, ◌<ℤ◌, ltb_ℤ, eqb_ℤ, +ℤ_parts, -ℤ_parts,
  *ℤ_parts, eq_of_parts, int_laws, int_max, inc, dec,
}

abbrev pub nfile : ℕ
nfile = 100

pub data FileType : Type 0 where
  fd_none fd_pipe fd_inode : FileType

pub record File : Type 0 where
  pub type : FileType
  pub ref : ℤ
  pub readable : Bool
  pub writable : Bool
  pub off : ℕ

abbrev pub FileTable : Type 0
FileTable = ℕ → File

abbrev pub set_ref : FileTable → ℕ → ℤ → FileTable
set_ref t i n = update t i (record (t i) { ref = n })

abbrev pub take_file : FileTable → Option ℕ → FileTable × Option ℕ
take_file t none = (t, none)
take_file t (some i) = (set_ref t i (pos 1), some i)

unfoldable pub filealloc : FileTable → FileTable × Option ℕ
filealloc t = take_file t (find (λ i. eqb_ℤ (t i).ref (pos 0)) nfile)

-- `none` is the panic.
unfoldable pub filedup : FileTable → ℕ → Option FileTable
filedup t i = if ltb_ℤ (t i).ref (pos 1) then none else some (set_ref t i (inc (t i).ref))

-- What `fileclose` calls behind its critical section.
pub data Cleanup : Type 0 where
  nothing put_inode : Cleanup
  close_pipe : Bool → Cleanup

abbrev pub cleanup : File → Cleanup
cleanup f = elim f.type [
  | fd_none ↦ nothing
  | fd_pipe ↦ close_pipe f.writable
  | fd_inode ↦ put_inode
]

unfoldable pub fileclose : FileTable → ℕ → Option (FileTable × Cleanup)
fileclose t i =
    let r = dec (t i).ref in
    if ltb_ℤ (t i).ref (pos 1)
    then none
    else if ltb_ℤ (pos 0) r
    then some (set_ref t i r, nothing)
    else some (update t i (record (t i) { ref = pos 0; type = fd_none }), cleanup (t i))

abbrev pub advance : File → ℤ → File
advance f (pos r) = record f { off = (f.off + r) % 2 ^ 32 }
advance f (negsuc r) = f

-- `readi` is given the offset. `none` is the panic.
unfoldable pub fileread : ℤ → (ℕ → ℤ) → File → Option (File × ℤ)
fileread piperead readi f = if not f.readable then some (f, negsuc 0) else elim f.type [
  | fd_none ↦ none
  | fd_pipe ↦ some (f, piperead)
  | fd_inode ↦ some (advance f (readi f.off), readi f.off)
]

-- `((LOGSIZE-1-1-2) / 2) * 512`
abbrev pub max_write : ℕ
max_write = 13 * 512

abbrev pub chunk : ℕ → ℕ
chunk left = if ltb max_write left then max_write else left

-- The result of the loop, with the calls of `writei`, each as its offset and length: each is a
-- transaction of its own.
pub data Written : Type 0 where
  panicked : Written
  ended : File → ℤ → List (ℕ × ℕ) → Written

abbrev pub add_call : ℕ × ℕ → Written → Written
add_call c panicked = panicked
add_call c (ended f r cs) = ended f r (c ∷ cs)

-- What follows the call of `writei` that returned a count, with what the rest of the loop does.
abbrev pub after_write : ℕ → ℕ → Written → Written
after_write n1 r rest = if r == n1 then rest else panicked

-- The loop of `filewrite`, on fuel, with `left` bytes to go out of `n`.
unfoldable pub write_loop : ℕ → (ℕ → ℕ → ℤ) → ℕ → ℕ → File → Option Written
write_loop zero writei n left f = none
write_loop (suc fuel) writei n zero f = some (ended f (pos n) [])
write_loop (suc fuel) writei n (suc left) f =
    let n1 = chunk (suc left) in
    elim (writei f.off n1) [
      | negsuc k ↦ some (ended f (negsuc 0) ((f.off, n1) ∷ []))
      | pos r ↦ elim (write_loop fuel writei n (suc left - n1) (advance f (pos r))) [
        | none ↦ none
        | some rest ↦ some (add_call (f.off, n1) (after_write n1 r rest))
      ]
    ]

-- `n` is not negative.
unfoldable pub filewrite : ℕ → ℤ → (ℕ → ℕ → ℤ) → ℕ → File → Option Written
filewrite fuel pipewrite writei n f =
    if not f.writable then some (ended f (negsuc 0) []) else elim f.type [
      | fd_none ↦ some panicked
      | fd_pipe ↦ some (ended f pipewrite [])
      | fd_inode ↦ write_loop fuel writei n n f
    ]
