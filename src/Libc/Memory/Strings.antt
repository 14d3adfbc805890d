-- ===== src/Libc/Memory/Strings.antt =====
-- Strings: their length, and copies of them.
use mathlib.Core.Path.{subst}
use bztsrc_osz.Prelude.{
  ℕ, zero, suc, ◌+◌, ◌-◌, ◌<◌, ◌≤◌, ◌≡◌, ◌≢◌, refl, ap, ◌∙◌, some, arith, inl, inr, ◌⊎◌, ℕ_discrete,
}
use bztsrc_osz.Libc.Memory.{Memory, put, count, strlen, copy_string, strcpy, strcat}

-- At an address stands a string of `n` bytes.
pub record IsString (m : Memory) (s n : ℕ) : Type 0 where
  pub bytes : (i : ℕ) → i < n → m (s + i) ≢ 0
  pub last : m (s + n) ≡ 0

IsString-next : (m : Memory) (s n : ℕ) → IsString m s (suc n) → IsString m (s + 1) n
IsString-next m s n t = record {
  bytes = λ i h z. t.bytes (suc i) (omega arith) (ap m (omega arith) ∙ z);
  last = ap m (omega arith) ∙ t.last;
}

IsString-first : (m : Memory) (s n : ℕ) → IsString m s (suc n) → m s ≢ 0
IsString-first m s n t z = t.bytes 0 (omega arith) (ap m (omega arith) ∙ z)

count-IsString : (m : Memory) (s n fuel : ℕ) → IsString m s n → n < fuel → count fuel m s ≡ some n
unfolding count
count-IsString m s n zero t h = absurd (omega arith)
count-IsString m s zero (suc fuel) t h =
    let z : m s ≡ 0 = ap m (omega arith) ∙ t.last in ground (arith, z)
count-IsString m s (suc n) (suc fuel) t h = ground (
  arith,
  IsString-first m s n t,
  count-IsString m (s + 1) n fuel (IsString-next m s n t) (omega arith),
)

-- strlen returns the length of a string that is not at the null pointer, with more fuel than that.
pub strlen-IsString :
    (m : Memory) (s n fuel : ℕ) → s ≢ 0 → IsString m s n → n < fuel → strlen fuel m s ≡ some n
unfolding strlen
strlen-IsString m s n fuel nz t h = ground (arith, nz, count-IsString m s n fuel t h)

-- A string of `n` bytes from `src` stands at `dst`, with its end, and nothing else changed.
pub record Copied (m m' : Memory) (dst src n : ℕ) : Type 0 where
  pub inside : (i : ℕ) → i ≤ n → m' (dst + i) ≡ m (src + i)
  pub outside : (x : ℕ) → (dst ≤ x → dst + n < x) → m' x ≡ m x

-- The areas of the string and of its copy are apart.
abbrev pub Apart : ℕ → ℕ → ℕ → Type 0
Apart dst src n = (dst + n < src) ⊎ (src + n < dst)

IsString-put :
    (m : Memory) (a v s n : ℕ) → (s ≤ a → s + n < a) → IsString m s n → IsString (put m a v) s n
IsString-put m a v s n h t = record {
  bytes = λ i g z. t.bytes i g (ground (arith, z, h));
  last = ground (arith, t.last, h);
}

copy_string-Copied :
    (m : Memory) (dst src n fuel : ℕ)
    → IsString m src n
    → Apart dst src n
    → n < fuel
    → (m' : Memory) × (copy_string fuel m dst src ≡ some (m', dst + n)) × Copied m m' dst src n
unfolding copy_string
copy_string-Copied m dst src n zero t apart h = absurd (omega arith)
copy_string-Copied m dst src zero (suc fuel) t apart h =
    let z : m src ≡ 0 = ap m (omega arith) ∙ t.last in
    let e : dst + 0 ≡ dst = omega arith in
    (
      put m dst 0,
      rw (z, e) refl,
      record {
        inside = λ i g.
            (let d : dst + i ≡ dst = omega arith in
              let f : src + i ≡ src = omega arith in rw (d, f, z) (ground arith));
        outside = λ x g. ground (arith, g);
      },
    )
copy_string-Copied m dst src (suc n) (suc fuel) t apart h =
    let m1 : Memory = put m dst (m src) in
    let t1 : IsString m1 (src + 1) n =
      IsString-put m dst (m src) (src + 1) n (λ g. omega (arith, apart))
        (IsString-next m src n t) in
    let nz : m src ≢ 0 = IsString-first m src n t in
    let near : Apart (dst + 1) (src + 1) n = elim apart [
      | inl below ↦ inl (omega arith)
      | inr above ↦ inr (omega arith)
    ] in
    let end : dst + 1 + n ≡ dst + suc n = omega arith in
    let (m', run, c) = copy_string-Copied m1 (dst + 1) (src + 1) n fuel t1 near (omega arith) in
    (
      m',
      ground (arith, nz, run, end),
      record {
        inside = λ i g. elim (ℕ_discrete i 0) [
          | yes first ↦
              (let d : dst + i ≡ dst = omega arith in
                let f : src + i ≡ src = omega arith in
                rw (d, f) (c.outside dst (λ k. absurd (omega arith)) ∙ ground arith))
          | no later ↦
              (let d : dst + 1 + (i - 1) ≡ dst + i = omega arith in
                let f : src + 1 + (i - 1) ≡ src + i = omega arith in
                subst (λ x. m' x ≡ m (src + i)) d
                  (c.inside (i - 1) (omega arith) ∙ ap m1 f ∙ ground (arith, apart)))
        ];
        outside = λ x g. c.outside x (λ k. omega (arith, g)) ∙ ground (arith, g);
      },
    )

-- strcpy copies a string, with its end, to an area apart from it, and returns the end of the copy, with more
-- fuel than the string has bytes. Neither pointer is null.
pub strcpy-Copied :
    (m : Memory) (dst src n fuel : ℕ)
    → dst ≢ 0
    → src ≢ 0
    → IsString m src n
    → Apart dst src n
    → n < fuel
    → (m' : Memory) × (strcpy fuel m dst src ≡ some (m', dst + n)) × Copied m m' dst src n
unfolding strcpy
strcpy-Copied m dst src n fuel d e t apart h =
    let (m', run, c) = copy_string-Copied m dst src n fuel t apart h in
    (m', ground (arith, d, e, run), c)

-- strcat puts a string behind the one that stands at the target, and returns the end of both, when the area
-- behind the first one is apart from the second, with more fuel than either has bytes. Neither pointer is
-- null.
pub strcat-Copied :
    (m : Memory) (dst src k n fuel : ℕ)
    → dst ≢ 0
    → src ≢ 0
    → IsString m dst k
    → IsString m src n
    → Apart (dst + k) src n
    → k < fuel
    → n < fuel
    → (m' : Memory) × (strcat fuel m dst src ≡ some (m', dst + k + n)) × Copied m m' (dst + k) src n
unfolding strcat
strcat-Copied m dst src k n fuel d e t u apart g h =
    let (m', run, c) = copy_string-Copied m (dst + k) src n fuel u apart h in
    let found : strlen fuel m dst ≡ some k = strlen-IsString m dst k fuel d t g in
    (m', ground (arith, d, e, found, run), c)
