-- ===== src/Kernel/Strings/Blocks.antt =====
-- What `memset` of ex3/q1/xv6/string.c fills, and what `memcmp` finds.
use operating_systems_soluti.Base.{
  ℕ, zero, suc, ◌+◌, ◌*◌, ◌/◌, ◌%◌, ◌≤◌, ◌<◌, ◌≡◌, refl, ◌↔◌, inl, inr, ◌&&◌, arith, ltb, leb, ◌==◌,
  if◌then◌else◌, Bool-cases, update, pos,
}
use operating_systems_soluti.Kernel.Strings.{
  Bytes, set_bytes, set_words, memset, memcmp_from, memcmp,
}

-- The bytes from `dst` to `dst + n` are `c`, all others those of `m`.
abbrev pub filled : Bytes → ℕ → ℕ → ℕ → Bytes
filled m dst c n k = if leb dst k && ltb k (dst + n) then c else m k

set_bytes-filled : (n : ℕ) (m : Bytes) (dst c k : ℕ) → set_bytes n m dst c k ≡ filled m dst c n k
unfolding set_bytes
set_bytes-filled zero m dst c k = ground arith
set_bytes-filled (suc n) m dst c k =
    ground (arith, set_bytes-filled n (update m dst c) (dst + 1) c k)

set_words-filled :
    (n : ℕ) (m : Bytes) (dst c k : ℕ) → set_words n m dst c k ≡ filled m dst c (4 * n) k
unfolding set_words
set_words-filled zero m dst c k = ground arith
set_words-filled (suc n) m dst c k =
    ground
      (arith, set_words-filled n (set_bytes 4 m dst c) (dst + 4) c k, set_bytes-filled 4 m dst c k)

-- `memset` by words and `memset` by bytes fill the same range, with the low byte of the value, and nothing else.
pub memset-filled : (m : Bytes) (dst c n k : ℕ) → memset m dst c n k ≡ filled m dst (c % 256) n k
unfolding memset
memset-filled m dst c n k = elim (Bool-cases ((dst % 4 == 0) && (n % 4 == 0))) [
  | inl words ↦
      let whole : 4 * (n / 4) ≡ n = ground arith in
      rw words (rw whole at (set_words-filled (n / 4) m dst (c % 256) k))
  | inr bytes ↦ rw bytes (set_bytes-filled n m dst (c % 256) k)
]

memcmp_from-zero :
    (n i : ℕ) (s1 s2 : Bytes)
    → (memcmp_from n i s1 s2 ≡ pos 0) ↔ ((k : ℕ) → i ≤ k → k < i + n → s1 k ≡ s2 k)
unfolding memcmp_from
memcmp_from-zero zero i s1 s2 = (λ e k lo hi. absurd (omega arith), λ all. refl)
memcmp_from-zero (suc n) i s1 s2 =
    let next = memcmp_from-zero n (i + 1) s1 s2 in
    elim (Bool-cases (s1 i == s2 i)) [
      | inl same ↦ rw same (
        λ e k lo hi. elim (Bool-cases (i == k)) [
          | inl here ↦ ground (arith, same, here)
          | inr later ↦ next.0 e k (ground arith) (omega arith)
        ],
        λ all. next.1 (λ k lo hi. all k (omega arith) (omega arith)),
      )
      | inr differ ↦
          rw differ (λ e k lo hi. absurd (ground arith), λ all. absurd (ground (arith, all i)))
    ]

-- `memcmp` returns 0 exactly when the first `n` bytes agree.
pub memcmp-zero :
    (n : ℕ) (v1 v2 : Bytes) → (memcmp v1 v2 n ≡ pos 0) ↔ ((k : ℕ) → k < n → v1 k ≡ v2 k)
unfolding memcmp
memcmp-zero n v1 v2 =
    let h = memcmp_from-zero n 0 v1 v2 in
    (λ e k lt. h.0 e k (omega arith) (omega arith), λ all. h.1 (λ k lo hi. all k (omega arith)))
