-- ===== src/Kernel/Log/Crash.antt =====
-- A crash at any point of `commit` of ex3/q1/xv6/log.c, and at any point of the recoveries after it.
use operating_systems_soluti.Base.{
  ℕ, ◌≤◌, ◌<◌, ◌≡◌, refl, ◌∙◌, inl, inr, false, ◌&&◌, List, [], ◌∷◌, arith, ltb, if◌then◌else◌,
  ltb→lt, lt→ltb, Bool-cases, length,
}
use operating_systems_soluti.Kernel.Log.{
  Machine, write_head, write_log, install_trans, commit, recover_from_log, boots,
}
use operating_systems_soluti.Kernel.Log.Writes.{
  AllHome, IsHome, Logged, Logged-frame, install_trans-Install, install_trans-stopped, mem,
  mem-empty, mem-take-false, not-mem-log, take-all, write_head-stopped, write_head_lem,
  write_log-WriteLog,
}

-- The three kinds of disk that a crash can leave, for a transaction on the blocks `lh` whose new
-- contents are in `cache`, over a disk that held `old`.
module _ {A : Type 0} (start : ℕ) (cache old : ℕ → A) (lh : List ℕ) where
  abbrev pub new : ℕ → A
  new a = if mem a lh then cache a else old a

  abbrev Home : ℕ → Type 0
  Home a = IsHome start (length lh) a

  record IsClean (f : ℕ → A) (m : Machine A) : Type 0 where
    header : m.header ≡ []
    home : (a : ℕ) → Home a → m.block a ≡ f a

  -- The header is on the disk, with all log blocks; home blocks may be installed or not.
  record IsCommitted (m : Machine A) : Type 0 where
    header : m.header ≡ lh
    logged : Logged start cache 0 lh m.block
    home : (a : ℕ) → Home a → mem a lh ≡ false → m.block a ≡ old a

  module _ (homes : AllHome start (length lh) lh) where
    recover-IsClean :
        (f : ℕ → A) (m : Machine A) → IsClean f m → IsClean f (recover_from_log start m)
    unfolding recover_from_log install_trans
    recover-IsClean f m c = rw c.header (
        let w = write_head_lem [] (let m' : Machine A = record m { header = [] } in m') in
        record { header = ground (arith, w.header); home = λ a h. w.block a ∙ c.home a h })

    recover-IsCommitted :
        (m : Machine A)
        → IsCommitted m
        → (length lh < m.left → IsClean new (recover_from_log start m))
          × (m.left ≤ length lh → IsCommitted (recover_from_log start m))
    unfolding recover_from_log
    recover-IsCommitted m c =
        let m' : Machine A = record m { header = lh } in
        let r = install_trans start 0 lh m' in
        let i =
          install_trans-Install start cache (length lh) 0 lh m' homes (omega arith) c.logged in
        let w = write_head_lem [] r in
        rw c.header (
          λ enough. record {
            header = ground (arith, w.header, i.left);
            home = λ a h.
                w.block a
                ∙ i.block a
                ∙ rw (take-all start cache m.left lh (omega arith)) (ground (arith, c.home a h));
          },
          λ few. record {
            header = ground (arith, w.header, i.left, i.header);
            logged =
                Logged-frame start cache 0 lh m.block (write_head [] r).block
                  (λ a lo hi.
                    w.block a
                    ∙ i.block a
                    ∙ rw
                        (mem-take-false m.left a lh
                          (not-mem-log start (length lh) a lh homes (omega arith) (omega arith)))
                        refl)
                  c.logged;
            home = λ a h out.
                w.block a ∙ i.block a ∙ rw (mem-take-false m.left a lh out) (c.home a h out);
          },
        )

    abbrev outcome : ℕ → ℕ → A
    outcome k = if ltb (length lh) k then new else old

    -- Where the writes of `commit` stop, and what the disk is then.
    data Stopped (k : ℕ) (m : Machine A) : Type 0 where
      clean : IsClean (outcome k) m → Stopped k m
      committed : length lh < k → IsCommitted m → Stopped k m

    stopped_early :
        (m : Machine A)
        → IsClean old m
        → m.left ≤ length lh
        → IsClean old (
            write_head [] (install_trans start 0 lh (write_head lh (write_log start cache 0 lh m))))
    stopped_early m c few =
        let m₁ = write_log start cache 0 lh m in
        let w = write_log-WriteLog start cache 0 lh m in
        let none_left : m₁.left ≡ 0 = omega (arith, w.left) in
        rw
          (
            write_head-stopped lh m₁ none_left,
            install_trans-stopped start 0 lh m₁ none_left,
            write_head-stopped [] m₁ none_left,
          )
          (record {
            header = w.header ∙ c.header;
            home = λ a h. w.kept a (omega arith) ∙ c.home a h;
          })

    header_written :
        (m : Machine A)
        → IsClean old m
        → length lh < m.left
        → IsCommitted (write_head lh (write_log start cache 0 lh m))
    header_written m c enough =
        let m₁ = write_log start cache 0 lh m in
        let w = write_log-WriteLog start cache 0 lh m in
        let h = write_head_lem lh m₁ in
        record {
          header = ground (arith, h.header, w.left);
          logged =
              Logged-frame start cache 0 lh m₁.block (write_head lh m₁).block (λ a lo hi. h.block a)
                (w.logged (omega arith));
          home = λ a at out. h.block a ∙ w.kept a (omega arith) ∙ c.home a at;
        }

    commit-Stopped : (m : Machine A) → IsClean old m → Stopped m.left (commit start cache lh m)
    unfolding commit recover_from_log write_head
    commit-Stopped m c = elim (Bool-cases (ltb 0 (length lh))) [
      | inr empty ↦ rw empty (
          clean (record {
            header = c.header;
            home = λ a h. c.home a h ∙ ground (arith, mem-empty a lh);
          }))
      | inl some_blocks ↦ rw some_blocks (elim (Bool-cases (ltb (length lh) m.left)) [
        | inr few ↦ clean (
            let r = stopped_early m c (ground arith) in
            record { header = r.header; home = λ a h. r.home a h ∙ ground arith })
        | inl enough ↦
            let lt = ltb→lt (length lh) m.left enough in
            let m₂ = write_head lh (write_log start cache 0 lh m) in
            let d = header_written m c lt in
            let (done, again) = recover-IsCommitted m₂ d in
            elim (Bool-cases (ltb (length lh) m₂.left)) [
              | inl all ↦ clean (
                  let r = rw d.header at (done (ltb→lt _ _ all)) in
                  record { header = r.header; home = λ a h. r.home a h ∙ ground arith })
              | inr part ↦ committed lt (rw d.header at (again (ground arith)))
            ]
      ])
    ]

    reboot-Stopped :
        (k j : ℕ) (m : Machine A)
        → Stopped k m
        → Stopped k (recover_from_log start (record m { left = j }))
    reboot-Stopped k j m (clean c) = clean (
        recover-IsClean (outcome k) (record m { left = j })
          (record { header = c.header; home = c.home }))
    reboot-Stopped k j m (committed lt c) =
        let c' : IsCommitted (record m { left = j }) = record {
          header = c.header;
          logged = c.logged;
          home = c.home;
        } in
        let (done, again) = recover-IsCommitted (record m { left = j }) c' in
        elim (Bool-cases (ltb (length lh) j)) [
          | inl all ↦ clean (
              let r = done (ltb→lt _ _ all) in
              record { header = r.header; home = λ a h. r.home a h ∙ ground arith })
          | inr part ↦ committed lt (again (ground arith))
        ]

    boots-Stopped :
        (k : ℕ) (ks : List ℕ) (m : Machine A) → Stopped k m → Stopped k (boots start ks m)
    unfolding boots
    boots-Stopped k [] m s = s
    boots-Stopped k (j ∷ ks) m s =
        boots-Stopped k ks (recover_from_log start (record m { left = j })) (reboot-Stopped k j m s)

    full_recovery :
        (k j : ℕ) (m : Machine A)
        → Stopped k m
        → length lh < j
        → IsClean (outcome k) (recover_from_log start (record m { left = j }))
    full_recovery k j m (clean c) enough =
        recover-IsClean (outcome k) (record m { left = j })
          (record { header = c.header; home = c.home })
    full_recovery k j m (committed lt c) enough =
        let c' : IsCommitted (record m { left = j }) = record {
          header = c.header;
          logged = c.logged;
          home = c.home;
        } in
        let r = (recover-IsCommitted (record m { left = j }) c').0 enough in
        record {
          header = r.header;
          home = λ a h. r.home a h ∙ ground (arith, lt→ltb (length lh) k lt);
        }

-- A transaction is atomic under crashes. Let `commit` run over a disk with an empty header, stop after
-- any number of block writes, let any number of recoveries be cut short anywhere in turn, and let one
-- recovery run to its end. Then the header is empty again, and the home blocks, those outside the log,
-- hold the old contents, all of them, if the machine stopped before the write of the header, and
-- otherwise the transaction's contents for each of its blocks and the old contents elsewhere. No block
-- of the transaction may lie in the log.
pub commit_atomic :
    {A : Type 0} (start : ℕ) (cache : ℕ → A) (lh : List ℕ) (m : Machine A) (ks : List ℕ) (j : ℕ)
    → m.header ≡ []
    → AllHome start (length lh) lh
    → length lh < j
    → let after = boots start ks (commit start cache lh m) in
      let final = recover_from_log start (record after { left = j }) in
      (final.header ≡ [])
      × ((a : ℕ)
          → IsHome start (length lh) a
          → final.block a ≡ (if ltb (length lh) m.left && mem a lh then cache a else m.block a))
commit_atomic start cache lh m ks j empty homes enough =
    let first =
      commit-Stopped start cache m.block lh homes m
        (record { header = empty; home = λ a h. refl }) in
    let later =
      boots-Stopped start cache m.block lh homes m.left ks (commit start cache lh m) first in
    let c =
      full_recovery start cache m.block lh homes m.left j (boots start ks (commit start cache lh m))
        later enough in
    (c.header, λ a h. c.home a h ∙ ground arith)
