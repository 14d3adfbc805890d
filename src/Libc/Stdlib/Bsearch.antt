-- ===== src/Libc/Stdlib/Bsearch.antt =====
-- bsearch on a sorted array.
use bztsrc_osz.Prelude.{
  ℕ, zero, suc, ◌+◌, ◌-◌, ◌*◌, ◌/◌, ◌≤◌, ◌<◌, ◌≡◌, ◌≢◌, refl, Option, none, some, arith, inl, inr,
  ◌⊎◌, dec_lt,
}
use bztsrc_osz.Libc.Stdlib.{Sign, bsearch_loop, bsearch}

-- The comparison of the key with the element of an index.
abbrev pub at : (ℕ → Sign) → ℕ → ℕ → ℕ → Sign
at cmp base size i = cmp (base + i * size)

-- The array is sorted as the comparison sees it: before an element that is not above the key there is none that
-- is, nor behind one that is not below it.
pub record IsSorted (cmp : ℕ → Sign) (base size nmemb : ℕ) : Type 0 where
  pub above :
      (i j : ℕ)
      → i ≤ j
      → j < nmemb
      → at cmp base size i ≡ Sign.negative
      → at cmp base size j ≡ Sign.negative
  pub below :
      (i j : ℕ)
      → i ≤ j
      → j < nmemb
      → at cmp base size j ≡ Sign.positive
      → at cmp base size i ≡ Sign.positive

-- What a search between two indices says: the address of an element that is the same as the key, or that there
-- is none.
pub Searched : (ℕ → Sign) → ℕ → ℕ → ℕ → ℕ → Option ℕ → Type 0
Searched cmp base size s e none = (i : ℕ) → s ≤ i → i < e → at cmp base size i ≢ Sign.same
Searched cmp base size s e (some p) =
    (i : ℕ) × (s ≤ i) × (i < e) × (p ≡ base + i * size) × (at cmp base size i ≡ Sign.same)

-- Nothing of the searched half is lost in the whole.
widen :
    (cmp : ℕ → Sign) (base size s e s' e' : ℕ) (o : Option ℕ)
    → s ≤ s'
    → e' ≤ e
    → ((i : ℕ) → s ≤ i → i < s' → at cmp base size i ≢ Sign.same)
    → ((i : ℕ) → e' ≤ i → i < e → at cmp base size i ≢ Sign.same)
    → Searched cmp base size s' e' o
    → Searched cmp base size s e o
unfolding Searched
widen cmp base size s e s' e' none h k l r t = λ i a b. elim (dec_lt i s') [
  | yes low ↦ l i a low
  | no not_low ↦ elim (dec_lt i e') [
    | yes mid ↦ t i (omega arith) mid
    | no not_mid ↦ r i (omega arith) b
  ]
]
widen cmp base size s e s' e' (some p) h k l r (i, a, b, q, f) = (i, omega arith, omega arith, q, f)

Sign-cases : (x : Sign) → (x ≡ Sign.negative) ⊎ ((x ≡ Sign.same) ⊎ (x ≡ Sign.positive))
Sign-cases Sign.negative = inl refl
Sign-cases Sign.same = inr (inl refl)
Sign-cases Sign.positive = inr (inr refl)

bsearch_loop-Searched :
    (cmp : ℕ → Sign) (base size nmemb : ℕ)
    → IsSorted cmp base size nmemb
    → (fuel s e : ℕ) → e ≤ nmemb
    → e - s < fuel
    → (o : Option ℕ) × (bsearch_loop fuel cmp base size s e ≡ some o) × Searched cmp base size s e o
unfolding bsearch_loop Searched
bsearch_loop-Searched cmp base size nmemb sorted zero s e h k = absurd (omega arith)
bsearch_loop-Searched cmp base size nmemb sorted (suc fuel) s e h k = elim (dec_lt s e) [
  | no empty ↦ (none, ground (arith, empty), λ i a b. absurd (omega arith))
  | yes some_left ↦
      let m : ℕ = s + (e - s) / 2 in
      let in_range : (s ≤ m) × (m < e) = (omega arith, omega arith) in
      elim (Sign-cases (at cmp base size m)) [
        | inr (inl found) ↦ (
          some (base + m * size),
          ground (arith, found, some_left),
          (m, in_range.0, in_range.1, refl, found),
        )
        | inl neg ↦
            let (o, run, t) =
              bsearch_loop-Searched cmp base size nmemb sorted fuel s m (omega arith)
                (omega arith) in
            (
              o,
              ground (arith, neg, some_left, run),
              widen cmp base size s e s m o (omega arith) (omega arith)
                  (λ i a b. absurd (omega arith))
                  (λ i a b f.
                    let g : at cmp base size i ≡ Sign.negative =
                      sorted.above m i (omega arith) (omega arith) neg in
                    cc)
                  t,
            )
        | inr (inr pos) ↦
            let (o, run, t) =
              bsearch_loop-Searched cmp base size nmemb sorted fuel (m + 1) e (omega arith)
                (omega arith) in
            (
              o,
              ground (arith, pos, some_left, run),
              widen cmp base size s e (m + 1) e o (omega arith) (omega arith)
                  (λ i a b f.
                    let g : at cmp base size i ≡ Sign.positive =
                      sorted.below i m (omega arith) (omega arith) pos in
                    cc)
                  (λ i a b. absurd (omega arith)) t,
            )
      ]
]

-- bsearch in an array that is sorted, as the comparison sees it, ends with more fuel than there are elements: it
-- returns the address of an element that is the same as the key, or none when there is no such element.
pub bsearch-Searched :
    (cmp : ℕ → Sign) (base size nmemb fuel : ℕ)
    → IsSorted cmp base size nmemb
    → nmemb < fuel
    → (o : Option ℕ) × (bsearch fuel cmp base nmemb size ≡ some o)
      × Searched cmp base size 0 nmemb o
unfolding bsearch
bsearch-Searched cmp base size nmemb fuel sorted h =
    bsearch_loop-Searched cmp base size nmemb sorted fuel 0 nmemb (omega arith) (omega arith)
