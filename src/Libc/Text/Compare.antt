-- ===== src/Libc/Text/Compare.antt =====
-- What strcmp says of two strings.
use mathlib.Core.Path.{subst}
use bztsrc_osz.Prelude.{
  ℕ_discrete, ℕ, zero, suc, ◌+◌, ◌-◌, ◌<◌, ◌≤◌, ◌≡◌, ◌≢◌, refl, sym, ap, ◌∙◌, some, arith,
}
use bztsrc_osz.Libc.Memory.{Memory}
use bztsrc_osz.Libc.Memory.Strings.{IsString}
use bztsrc_osz.Libc.Text.{compare_up, strcmp, compare_to, strncmp}

-- The first `n` bytes, and the one behind them, are the same.
abbrev pub Same : Memory → ℕ → ℕ → ℕ → Type 0
Same m a b n = (i : ℕ) → i ≤ n → m (a + i) ≡ m (b + i)

Same-next : (m : Memory) (a b n : ℕ) → Same m a b (suc n) → Same m (a + 1) (b + 1) n
Same-next m a b n same i h = ap m (omega arith) ∙ same (suc i) (omega arith) ∙ ap m (omega arith)

Same-first : (m : Memory) (a b n : ℕ) → m a ≡ m b → Same m (a + 1) (b + 1) n → Same m a b (suc n)
Same-first m a b n first rest i h = elim (ℕ_discrete i 0) [
  | yes z ↦ ap m (omega arith) ∙ first ∙ ap m (omega arith)
  | no later ↦ ap m (omega arith) ∙ rest (i - 1) (omega arith) ∙ ap m (omega arith)
]

compare_up-Same :
    (m : Memory) (a b n fuel : ℕ)
    → ((i : ℕ) → i ≤ n → m (a + i) ≢ 0)
    → m (a + suc n) ≡ 0
    → n < fuel
    → (x y : ℕ) × (compare_up fuel m a b ≡ some (x, y))
      × (x ≡ y → Same m a b (suc n))
      × (Same m a b (suc n) → x ≡ y)
unfolding compare_up
compare_up-Same m a b n zero bytes last h = absurd (omega arith)
compare_up-Same m a b n (suc fuel) bytes last h = elim (ℕ_discrete (m a) (m b)) [
  | no differ ↦ (
    m a,
    m b,
    ground (arith, differ),
    λ e. absurd (differ e),
    λ same. ap m (omega arith) ∙ same 0 (omega arith) ∙ ap m (omega arith),
  )
  | yes first ↦ elim (ℕ_discrete n 0) [
    | yes one ↦
        let z : m (a + 1) ≡ 0 = ap m (omega arith) ∙ last in
        (
          m (a + 1),
          m (b + 1),
          ground (arith, first, z),
          λ e.
              rw one
                (Same-first m a b 0 first (λ i g. ap m (omega arith) ∙ e ∙ ap m (omega arith))),
          λ same. same 1 (omega arith),
        )
    | no more ↦
        let nz : m (a + 1) ≢ 0 = bytes 1 (omega arith) in
        let (x, y, run, to, back) =
          compare_up-Same m (a + 1) (b + 1) (n - 1) fuel
            (λ i g z. bytes (i + 1) (omega arith) (ap m (omega arith) ∙ z))
            (ap m (omega arith) ∙ last) (omega arith) in
        let up : suc (n - 1) ≡ n = omega arith in
        (
          x,
          y,
          ground (arith, first, nz, run),
          λ e. Same-first m a b n first (subst (Same m (a + 1) (b + 1)) up (to e)),
          λ same. back (subst (Same m (a + 1) (b + 1)) (sym up) (Same-next m a b n same)),
        )
  ]
]

-- strcmp of a string that is not empty, at another address than the other one, returns a difference of 0
-- exactly when both are the same, with their ends. Neither pointer is null, and as much fuel as the string has
-- bytes is enough.
pub strcmp-Same :
    (m : Memory) (s1 s2 n fuel : ℕ)
    → s1 ≢ 0
    → s2 ≢ 0
    → s1 ≢ s2
    → IsString m s1 (suc n)
    → n < fuel
    → (x y : ℕ) × (strcmp fuel m s1 s2 ≡ some (x, y))
      × (x ≡ y → Same m s1 s2 (suc n))
      × (Same m s1 s2 (suc n) → x ≡ y)
unfolding strcmp
strcmp-Same m s1 s2 n fuel a b c t h =
    let (x, y, run, to, back) =
      compare_up-Same m s1 s2 n fuel (λ i g. t.bytes i (omega arith)) t.last h in
    (x, y, ground (arith, a, b, c, run), to, back)

-- strcmp of two empty strings at different addresses, neither of them null, reads on behind their ends: when
-- the byte there is 0 for the first one, the difference is that of the two bytes behind the ends.
pub strcmp-empty :
    (m : Memory) (s1 s2 fuel : ℕ)
    → s1 ≢ 0
    → s2 ≢ 0
    → s1 ≢ s2
    → IsString m s1 0
    → IsString m s2 0
    → m (s1 + 1) ≡ 0
    → 0 < fuel
    → strcmp fuel m s1 s2 ≡ some (0, m (s2 + 1))
unfolding strcmp compare_up
strcmp-empty m s1 s2 zero a b c t u z h = absurd (omega arith)
strcmp-empty m s1 s2 (suc fuel) a b c t u z h =
    let e1 : m s1 ≡ 0 = ap m (omega arith) ∙ t.last in
    let e2 : m s2 ≡ 0 = ap m (omega arith) ∙ u.last in ground (arith, a, b, c, e1, e2, z)

compare_to-beyond :
    (m : Memory) (a b n : ℕ)
    → ((i : ℕ) → i < n → (m (a + i) ≢ 0) × (m (a + i) ≡ m (b + i)))
    → compare_to m a b n ≡ (m (a + n), m (b + n))
unfolding compare_to
compare_to-beyond m a b zero same =
    let e : a + 0 ≡ a = omega arith in let f : b + 0 ≡ b = omega arith in rw (e, f) refl
compare_to-beyond m a b (suc n) same =
    let first : m a ≡ m b = ap m (omega arith) ∙ (same 0 (omega arith)).1 ∙ ap m (omega arith) in
    let e : a + 1 + n ≡ a + suc n = omega arith in
    let f : b + 1 + n ≡ b + suc n = omega arith in
    elim (ℕ_discrete n 0) [
      | yes one ↦ rw one (ground (arith, first, one))
      | no more ↦
          let nz : m (a + 1) ≢ 0 = (same 1 (omega arith)).0 in
          let rest : compare_to m (a + 1) (b + 1) n ≡ (m (a + 1 + n), m (b + 1 + n)) =
            compare_to-beyond m (a + 1) (b + 1) n (λ i g.
              let at : a + suc i ≡ a + 1 + i = omega arith in
              let bt : b + suc i ≡ b + 1 + i = omega arith in
              rw (← at, ← bt) (same (suc i) (omega arith))) in
          ground (arith, first, nz, rest, e, f, more)
    ]

-- strncmp of two strings at different addresses, neither of them null, whose first `n` bytes are the same,
-- with none of them the end and `n` not 0, returns the difference of the bytes behind those.
pub strncmp-beyond :
    (m : Memory) (s1 s2 n : ℕ)
    → s1 ≢ 0
    → s2 ≢ 0
    → s1 ≢ s2
    → 0 < n
    → ((i : ℕ) → i < n → (m (s1 + i) ≢ 0) × (m (s1 + i) ≡ m (s2 + i)))
    → strncmp m s1 s2 n ≡ (m (s1 + n), m (s2 + n))
unfolding strncmp
strncmp-beyond m s1 s2 n a b c d same = ground (arith, a, b, c, d, compare_to-beyond m s1 s2 n same)
