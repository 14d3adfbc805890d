-- ===== src/Libc/Memory/Move.antt =====
-- Copies: what memmove leaves in the memory.
use mathlib.Core.Path.{subst}
use bztsrc_osz.Prelude.{
  ℕ_discrete, ℕ, zero, suc, ◌+◌, ◌-◌, ◌<◌, ◌≤◌, ◌≡◌, ◌≢◌, refl, ap, ◌∙◌, arith, dec_lt, Bool-cases,
  inl, inr,
}
use bztsrc_osz.Libc.Memory.{Memory, put, copy_up, copy_down, overlaps, memmove}

-- The `n` bytes from `b` on in `m` are those from `a` on in `m'`, and nothing else changed.
pub record Moved (m m' : Memory) (a b n : ℕ) : Type 0 where
  pub inside : (i : ℕ) → i < n → m' (a + i) ≡ m (b + i)
  pub outside : (x : ℕ) → (a ≤ x → a + n ≤ x) → m' x ≡ m x

-- The upward copy is right when the target begins before the source, or behind its end.
copy_up-Moved : (m : Memory) (a b n : ℕ) → (b < a → b + n ≤ a) → Moved m (copy_up m a b n) a b n
unfolding copy_up
copy_up-Moved m a b zero apart = record {
  inside = λ i h. absurd (omega arith);
  outside = λ x h. refl;
}
copy_up-Moved m a b (suc n) apart =
    let rest : Moved (put m a (m b)) (copy_up (put m a (m b)) (a + 1) (b + 1) n) (a + 1) (b + 1) n =
      copy_up-Moved (put m a (m b)) (a + 1) (b + 1) n (λ h. omega (arith, apart)) in
    record {
      inside = λ i h. elim (ℕ_discrete i 0) [
        | yes first ↦
            let e : a + i ≡ a = omega arith in
            let f : b + i ≡ b = omega arith in
            rw (e, f) (rest.outside a (λ g. absurd (omega arith)) ∙ ground arith)
        | no later ↦
            let e : a + 1 + (i - 1) ≡ a + i = omega arith in
            let f : b + 1 + (i - 1) ≡ b + i = omega arith in
            let g : copy_up (put m a (m b)) (a + 1) (b + 1) n (a + i) ≡ put m a (m b) (b + i) =
              subst (λ x. copy_up (put m a (m b)) (a + 1) (b + 1) n x ≡ put m a (m b) (b + i)) e
                (rest.inside (i - 1) (omega arith) ∙ ap (put m a (m b)) f) in
            g ∙ ground (arith, apart)
      ];
      outside = λ x h. rest.outside x (λ g. omega (arith, h)) ∙ ground (arith, h);
    }

-- The downward copy is right when the target begins behind the source, or ends before it.
copy_down-Moved : (m : Memory) (a b n : ℕ) → (a < b → a + n ≤ b) → Moved m (copy_down m a b n) a b n
unfolding copy_down
copy_down-Moved m a b zero apart = record {
  inside = λ i h. absurd (omega arith);
  outside = λ x h. refl;
}
copy_down-Moved m a b (suc n) apart =
    let m1 : Memory = put m (a + n) (m (b + n)) in
    let rest : Moved m1 (copy_down m1 a b n) a b n =
      copy_down-Moved m1 a b n (λ h. omega (arith, apart)) in
    record {
      inside = λ i h. elim (dec_lt i n) [
        | yes lower ↦ rest.inside i lower ∙ ground (arith, apart)
        | no last ↦
            let e : a + i ≡ a + n = omega arith in
            let f : b + i ≡ b + n = omega arith in
            rw (e, f) (rest.outside (a + n) (λ g. omega arith) ∙ ground arith)
      ];
      outside = λ x h. rest.outside x (λ g. omega (arith, h)) ∙ ground (arith, h);
    }

-- memmove copies, and changes nothing else, between addresses that are not null, when the target begins
-- behind the source, or the areas are apart, or are the same.
pub memmove-Moved :
    (m : Memory) (dst src n : ℕ)
    → dst ≢ 0
    → src ≢ 0
    → (dst < src → dst + n ≤ src)
    → Moved m (memmove m dst src n) dst src n
unfolding memmove
memmove-Moved m dst src zero d e apart = record {
  inside = λ i h. absurd (omega arith);
  outside = λ x h. ground (arith, d, e);
}
memmove-Moved m dst src (suc n) d e apart = elim (Bool-cases (overlaps dst src (suc n))) [
  | inl over ↦
      let run : memmove m dst src (suc n) ≡ copy_down m dst src (suc n) =
        ground (arith, d, e, over) in
      rw run (copy_down-Moved m dst src (suc n) apart)
  | inr free ↦
      let run : memmove m dst src (suc n) ≡ copy_up m dst src (suc n) =
        ground (arith, d, e, free) in
      rw run (copy_up-Moved m dst src (suc n) (λ h. ground (arith, h, free)))
]

copy_down-behind : (m : Memory) (a b n x : ℕ) → a + n ≤ x → copy_down m a b n x ≡ m x
unfolding copy_down
copy_down-behind m a b zero x h = refl
copy_down-behind m a b (suc n) x h =
    copy_down-behind (put m (a + n) (m (b + n))) a b n x (omega arith) ∙ ground (arith, h)

-- The downward copy to the place one below repeats the last byte.
copy_down-below : (m : Memory) (a n i : ℕ) → i < n → copy_down m a (a + 1) n (a + i) ≡ m (a + n)
unfolding copy_down
copy_down-below m a zero i h = absurd (omega arith)
copy_down-below m a (suc n) i h =
    let m1 : Memory = put m (a + n) (m (a + 1 + n)) in
    let e : a + 1 + n ≡ a + suc n = omega arith in
    let here : m1 (a + n) ≡ m (a + suc n) = ground (arith, e) in
    elim (dec_lt i n) [
      | yes lower ↦ copy_down-below m1 a n i lower ∙ here
      | no last ↦
          let f : i ≡ n = omega arith in
          rw f (copy_down-behind m1 a (a + 1) n (a + n) (omega arith) ∙ here)
    ]

-- memmove to the place one below its source, with at least two bytes and a target that is not null, fills
-- the target with the last byte of the source.
pub memmove-below :
    (m : Memory) (dst n i : ℕ)
    → dst ≢ 0
    → 1 < n
    → i < n
    → memmove m dst (dst + 1) n (dst + i) ≡ m (dst + n)
unfolding memmove
memmove-below m dst n i d two h =
    let run : memmove m dst (dst + 1) n ≡ copy_down m dst (dst + 1) n = ground (arith, d, two) in
    rw run (copy_down-below m dst n i h)
