-- ===== src/Kernel/Descriptors/Calls.antt =====
-- Any sequence of calls of `dup` and `close` in ex3/q1/xv6.
use operating_systems_soluti.Base.{ℕ, ◌<◌, ◌≡◌, refl, Option, none, some, List, [], ◌∷◌, ℤ}
use operating_systems_soluti.Kernel.Proc.{nproc}
use operating_systems_soluti.Kernel.Descriptors.{Fds, sys_dup, sys_close}
use operating_systems_soluti.Kernel.Descriptors.Refs.{
  AreCounted, sys_dup-AreCounted, sys_close-AreCounted,
}

-- A call by a process with an argument.
pub data Call : Type 0 where
  dup_call close_call : ℕ → Option ℤ → Call

abbrev caller : Call → ℕ
caller (dup_call p arg) = p
caller (close_call p arg) = p

abbrev pub make_call : Call → Fds → Option Fds
make_call (dup_call p arg) s = elim (sys_dup p arg s) [ none ↦ none | some (t, r) ↦ some t ]
make_call (close_call p arg) s = elim (sys_close p arg s) [ none ↦ none | some (t, c, r) ↦ some t ]

unfoldable pub make_calls : List Call → Fds → Option Fds
make_calls [] s = some s
make_calls (c ∷ cs) s = elim (make_call c s) [ none ↦ none | some t ↦ make_calls cs t ]

abbrev pub InTable : List Call → Type 0
InTable [] = Unit
InTable (c ∷ cs) = (caller c < nproc) × InTable cs

make_call-AreCounted :
    (c : Call) (s : Fds)
    → AreCounted s
    → caller c < nproc
    → (t : Fds) × (make_call c s ≡ some t) × AreCounted t
make_call-AreCounted (dup_call p arg) s h lt =
    let ((t, r), e, k) = sys_dup-AreCounted s h p lt arg in (t, rw (make_call, e) refl, k)
make_call-AreCounted (close_call p arg) s h lt =
    let ((t, c, r), e, k) = sys_close-AreCounted s h p lt arg in (t, rw (make_call, e) refl, k)

-- However the processes of the table call `dup` and `close`, with whatever arguments, no call panics, and every file
-- has as many references as there are descriptors of all processes that lead to it.
pub make_calls-AreCounted :
    (cs : List Call) (s : Fds)
    → AreCounted s
    → InTable cs
    → (t : Fds) × (make_calls cs s ≡ some t) × AreCounted t
unfolding make_calls
make_calls-AreCounted [] s h all = (s, refl, h)
make_calls-AreCounted (c ∷ cs) s h all =
    let (t, e, k) = make_call-AreCounted c s h all.0 in
    let (u, e', k') = make_calls-AreCounted cs t k all.1 in (u, rw (make_calls, e) e', k')
