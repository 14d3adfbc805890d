-- ===== src/Vmm/Text/Swap.antt =====
-- The exchange of the code segment and its buffer.
pub mod Tests
use bztsrc_osz.Prelude.{
  ℕ, zero, suc, ◌+◌, ◌-◌, ◌<◌, ◌≤◌, ◌≡◌, ◌≢◌, ◌⊎◌, inl, inr, refl, sym, ap, ◌∙◌, ◌==◌, ◌&&◌, Bool,
  true, false, arith, if◌then◌else◌, ℕ_discrete, dec_lt,
}
use bztsrc_osz.Vmm.Text.{swap_entries}

swap_other :
    (n page j : ℕ) (t : ℕ → ℕ → ℕ) (p k : ℕ)
    → (p ≡ page → (n ≤ k) × ((k < j) ⊎ (j + n ≤ k)))
    → swap_entries n page j t p k ≡ t p k
unfolding swap_entries
swap_other zero page j t p k h = refl
swap_other (suc n) page j t p k h =
    let rest = swap_other n page j t p k (λ z.
      let (a, b) = h z in
      (omega (arith, a), elim b [ inl l ↦ inl l | inr l ↦ inr (omega (arith, l)) ])) in
    elim (ℕ_discrete p page) [
      | no differ ↦ ground (arith, differ, rest)
      | yes same ↦
          let (a, b) = h same in
          let n1 : k ≢ n = omega (arith, a) in
          let n2 : k ≢ j + n = elim b [ inl l ↦ omega (arith, l) | inr l ↦ omega (arith, l) ] in
          ground (arith, n1, n2, rest)
    ]

swap_below :
    (n page j : ℕ) (t : ℕ → ℕ → ℕ) (k : ℕ)
    → n ≤ j
    → k < n
    → swap_entries n page j t page k ≡ t page (j + k)
unfolding swap_entries
swap_below zero page j t k h l = absurd (omega (arith, l))
swap_below (suc n) page j t k h l = elim (ℕ_discrete k n) [
  | yes same ↦
      let z : j + n ≡ j + k = omega (arith, same) in
      let rest = swap_other n page j t page (j + n) (λ y. (omega (arith, h), inr (omega arith))) in
      ground (arith, same, rest) ∙ ap (t page) z
  | no differ ↦
      let rest = swap_below n page j t k (omega (arith, h)) (omega (arith, l, differ)) in
      let apart : k ≢ j + n = omega (arith, l, h) in ground (arith, differ, apart, rest)
]

swap_above :
    (n page j : ℕ) (t : ℕ → ℕ → ℕ) (k : ℕ)
    → n ≤ j
    → k < n
    → swap_entries n page j t page (j + k) ≡ t page k
unfolding swap_entries
swap_above zero page j t k h l = absurd (omega (arith, l))
swap_above (suc n) page j t k h l = elim (ℕ_discrete k n) [
  | yes same ↦
      let z : n ≡ k = omega (arith, same) in
      let one : j + k ≢ n = omega (arith, h, l) in
      let two : j + k ≡ j + n = omega (arith, same) in
      let rest = swap_other n page j t page n (λ y. (omega arith, inl (omega (arith, h)))) in
      ground (arith, one, two, rest) ∙ ap (t page) z
  | no differ ↦
      let rest = swap_above n page j t k (omega (arith, h)) (omega (arith, l, differ)) in
      let one : j + k ≢ n = omega (arith, l, h) in
      let two : j + k ≢ j + n = omega (arith, differ) in ground (arith, one, two, rest)
]

-- The exchange twice is none.
swap_entries-twice :
    (n page j : ℕ) (t : ℕ → ℕ → ℕ) (p k : ℕ)
    → n ≤ j
    → swap_entries n page j (swap_entries n page j t) p k ≡ t p k
swap_entries-twice n page j t p k h =
    let u = swap_entries n page j t in
    elim (ℕ_discrete p page) [
      | no differ ↦
          swap_other n page j u p k (λ z. absurd (differ z))
          ∙ swap_other n page j t p k (λ z. absurd (differ z))
      | yes same ↦ elim (dec_lt k n) [
        | yes low ↦
            ap (λ q. swap_entries n page j u q k) same
            ∙ swap_below n page j u k h low
            ∙ swap_above n page j t k h low
            ∙ ap (λ q. t q k) (sym same)
        | no high ↦ elim (dec_lt k j) [
          | yes between ↦
              swap_other n page j u p k (λ z. (omega (arith, high), inl between))
              ∙ swap_other n page j t p k (λ z. (omega (arith, high), inl between))
          | no above ↦ elim (dec_lt k (j + n)) [
            | yes inside ↦
                let z : j + (k - j) ≡ k = omega (arith, above) in
                let l : k - j < n = omega (arith, above, inside) in
                ap (λ q. swap_entries n page j u q k) same
                ∙ ap (swap_entries n page j u page) (sym z)
                ∙ swap_above n page j u (k - j) h l
                ∙ swap_below n page j t (k - j) h l
                ∙ ap (t page) z
                ∙ ap (λ q. t q k) (sym same)
            | no beyond ↦
                swap_other n page j u p k (λ z. (omega (arith, high), inr (omega (arith, beyond))))
                ∙ swap_other n page j t p k
                    (λ z. (omega (arith, high), inr (omega (arith, beyond))))
          ]
        ]
      ]
    ]

-- The entries of the two parts of the table at `page` have changed places, and no other entry of a table has changed.
pub record Swapped (n page j : ℕ) (t u : ℕ → ℕ → ℕ) : Type 0 where
  pub first : (k : ℕ) → k < n → u page k ≡ t page (j + k)
  pub second : (k : ℕ) → k < n → u page (j + k) ≡ t page k
  pub between : (k : ℕ) → n ≤ k → (k < j) ⊎ (j + n ≤ k) → u page k ≡ t page k
  pub tables : (p k : ℕ) → p ≢ page → u p k ≡ t p k

-- The loop of vmm_swaptextbuf exchanges the first `n` entries of a table with those from `j` on, each with the one at its
-- place in the other part, when the two parts do not overlap, and changes no other entry of a table; done again, it
-- brings every entry back.
pub swap_entries-Swapped :
    (n page j : ℕ) (t : ℕ → ℕ → ℕ)
    → n ≤ j
    → Swapped n page j t (swap_entries n page j t)
      × ((p k : ℕ) → swap_entries n page j (swap_entries n page j t) p k ≡ t p k)
swap_entries-Swapped n page j t h = (
  record {
    first = λ k l. swap_below n page j t k h l;
    second = λ k l. swap_above n page j t k h l;
    between = λ k l m. swap_other n page j t page k (λ z. (l, m));
    tables = λ p k ne. swap_other n page j t p k (λ z. absurd (ne z));
  },
  λ p k. swap_entries-twice n page j t p k h,
)
