-- ===== src/Sched/Queue/Chain.antt =====
-- Doubly linked task queues, as lists of pids.
use mathlib.Core.Path.{subst}
use mathlib.Core.Bool.{false≢true}
use bztsrc_osz.Prelude.{
  ap, ==_iff, ℕ, ◌≡◌, ◌≢◌, refl, sym, ◌∙◌, not, ◌&&◌, ℕ_discrete, ◌⊎◌, inl, inr, ◌==◌, ◌||◌, Bool,
  true, false, List, [], ◌∷◌, if◌then◌else◌, arith,
}
use bztsrc_osz.Sched.State.{Tcb}

abbrev pub has : ℕ → List ℕ → Bool
has a [] = false
has a (x ∷ xs) = (a == x) || has a xs

abbrev pub erase : ℕ → List ℕ → List ℕ
erase p [] = []
erase p (x ∷ xs) = if x == p then xs else x ∷ erase p xs

abbrev pub Distinct : List ℕ → Type 0
Distinct [] = Unit {0}
Distinct (x ∷ xs) = (has x xs ≡ false) × Distinct xs

-- A task of the list is none that is not.
pub has_apart : (a b : ℕ) (xs : List ℕ) → has a xs ≡ true → has b xs ≡ false → a ≢ b
has_apart a b xs i o e = false≢true (sym o ∙ ap (λ k. has k xs) (sym e) ∙ i)

pub beq_false : (a b : ℕ) → a ≢ b → (a == b) ≡ false
beq_false a b ne = ground arith

-- From `h` on the `next` links lead through the tasks of the list to 0, and each `prev` link names the
-- task before, `q` for the first one.
abbrev pub Chain : (ℕ → Tcb) → ℕ → ℕ → List ℕ → Type 0
Chain t q h [] = h ≡ 0
Chain t q h (x ∷ xs) = (h ≡ x) × (x ≢ 0) × ((t x).prev ≡ q) × Chain t x (t x).next xs

-- A chain survives any change that spares the links of its tasks.
pub Chain-frame :
    (t t' : ℕ → Tcb) (q h : ℕ) (xs : List ℕ)
    → ((a : ℕ) → has a xs ≡ true → ((t' a).next ≡ (t a).next) × ((t' a).prev ≡ (t a).prev))
    → Chain t q h xs
    → Chain t' q h xs
Chain-frame t t' q h [] same c = c
Chain-frame t t' q h (x ∷ xs) same c =
    let here : ((t' x).next ≡ (t x).next) × ((t' x).prev ≡ (t x).prev) = same x (ground arith) in
    let rest : Chain t' x (t x).next xs =
      Chain-frame t t' x (t x).next xs (λ a i. same a (ground arith)) c.3 in
    (c.0, c.1, here.1 ∙ c.2, rw here.0 rest)

-- The head of a chain is one of its tasks, or 0.
pub Chain-head :
    (t : ℕ → Tcb) (q h : ℕ) (xs : List ℕ) → Chain t q h xs → (h ≡ 0) ⊎ (has h xs ≡ true)
Chain-head t q h [] c = inl c
Chain-head t q h (x ∷ xs) c = inr (ground (arith, c.0))

-- The neighbours of a task of a chain.
pub Chain-prev :
    (t : ℕ → Tcb) (q h p : ℕ) (xs : List ℕ)
    → Chain t q h xs
    → has p xs ≡ true
    → ((h ≡ p) × ((t p).prev ≡ q)) ⊎ ((h ≢ p) × (has (t p).prev xs ≡ true))
Chain-prev t q h p [] c i = cc
Chain-prev t q h p (x ∷ xs) c i = elim (ℕ_discrete p x) [
  | yes same ↦ inl (c.0 ∙ sym same, rw same c.2)
  | no other ↦ elim (Chain-prev t x (t x).next p xs c.3 (ground arith)) [
    | inl (_, back) ↦ inr (λ e. other (sym e ∙ c.0), ground arith)
    | inr (_, within) ↦ inr (λ e. other (sym e ∙ c.0), ground arith)
  ]
]

pub Chain-next :
    (t : ℕ → Tcb) (q h p : ℕ) (xs : List ℕ)
    → Chain t q h xs
    → has p xs ≡ true
    → ((t p).next ≡ 0) ⊎ (has (t p).next xs ≡ true)
Chain-next t q h p [] c i = cc
Chain-next t q h p (x ∷ xs) c i = elim (ℕ_discrete p x) [
  | yes same ↦ elim (Chain-head t x (t x).next xs c.3) [
    | inl none_left ↦ inl (rw same none_left)
    | inr within ↦
        let near : has (t p).next xs ≡ true =
          subst (λ k. has (t k).next xs ≡ true) (sym same) within in
        inr (ground arith)
  ]
  | no other ↦ elim (Chain-next t x (t x).next p xs c.3 (ground arith)) [
    | inl last ↦ inl last
    | inr within ↦ inr (ground arith)
  ]
]

-- The links of the other tasks after task `p` was taken out between its neighbours.
pub record Unlinked (t t' : ℕ → Tcb) (p : ℕ) : Type 0 where
  pub next_of :
      (a : ℕ)
      → (t' a).next
        ≡ (if not ((t p).prev == 0) && (a == (t p).prev) then (t p).next else (t a).next)
  pub prev_of :
      (a : ℕ)
      → (t' a).prev
        ≡ (if not ((t p).next == 0) && (a == (t p).next) then (t p).prev else (t a).prev)

-- What follows the first task of a chain, once that is taken out.
Chain-after :
    (t t' : ℕ → Tcb) (q k p : ℕ) (xs : List ℕ)
    → Unlinked t t' p
    → k ≡ (t p).next
    → (t p).prev ≡ q
    → Chain t p k xs
    → Distinct xs
    → has q xs ≡ false
    → Chain t' q k xs
Chain-after t t' q k p [] u e back c d o = c
Chain-after t t' q k p (y ∷ ys) u e back c d o =
    let next : (t' y).next ≡ (t y).next = ground (arith, u.next_of y) in
    (
      c.0,
      c.1,
      ground (arith, u.prev_of y),
      rw next (
          Chain-frame t t' y (t y).next ys
            (λ a i. (
              ground (arith, u.next_of a, has_apart a q ys i),
              ground (arith, u.prev_of a, has_apart a y ys i),
            ))
            c.3),
    )

-- The links of a task before the one that is taken out.
Chain-before :
    (t t' : ℕ → Tcb) (k p x : ℕ) (xs : List ℕ)
    → Unlinked t t' p
    → x ≢ 0
    → has x xs ≡ false
    → Chain t x k xs
    → has p xs ≡ true
    → ((t' x).prev ≡ (t x).prev)
      × ((t x).next ≡ k → (t' x).next ≡ (if k == p then (t p).next else k))
Chain-before t t' k p x xs u nz out c i = (
  elim (Chain-next t x k p xs c i) [
    | inl last ↦ ground (arith, u.prev_of x)
    | inr within ↦ ground (arith, u.prev_of x, has_apart (t p).next x xs within)
  ],
  λ e. elim (Chain-prev t x k p xs c i) [
    | inl (first, back) ↦ ground (arith, u.next_of x)
    | inr (later, within) ↦ ground (arith, u.next_of x, has_apart (t p).prev x xs within)
  ],
)

-- The chain without the task.
pub Chain-erase :
    (t t' : ℕ → Tcb) (q h p : ℕ) (xs : List ℕ)
    → Unlinked t t' p
    → Chain t q h xs
    → has p xs ≡ true
    → Distinct xs
    → has q xs ≡ false
    → Chain t' q (if h == p then (t p).next else h) (erase p xs)
Chain-erase t t' q h p [] u c i d o = cc
Chain-erase t t' q h p (x ∷ xs) u c i d o = elim (ℕ_discrete x p) [
  | yes same ↦
      rw ((==_iff h p).1 (c.0 ∙ same), (==_iff x p).1 same)
        (Chain-after t t' q (t p).next p xs u refl (rw (← same) c.2)
          (subst (λ k. Chain t k (t k).next xs) same c.3) d.1 (ground arith))
  | no other ↦
      let b : ((t' x).prev ≡ (t x).prev)
          × ((t x).next ≡ (t x).next
              → (t' x).next ≡ (if (t x).next == p then (t p).next else (t x).next)) =
        Chain-before t t' (t x).next p x xs u c.1 d.0 c.3 (ground arith) in
      let rest : Chain t' x (if (t x).next == p then (t p).next else (t x).next) (erase p xs) =
        Chain-erase t t' x (t x).next p xs u c.3 (ground arith) d.1 d.0 in
      rw (beq_false h p (λ e. other (sym c.0 ∙ e)), beq_false x p other)
        (c.0, c.1, b.0 ∙ c.2, rw (b.1 refl) rest)
]
