-- ===== src/Env/Values.antt =====
-- What the values of the configuration are.
pub mod Tests
use bztsrc_osz.Prelude.{
  ℕ, zero, suc, ◌+◌, ◌-◌, ◌*◌, ◌%◌, ◌^◌, ◌<◌, ◌≤◌, ◌≡◌, ◌≢◌, refl, sym, ap, ◌∙◌, inl, inr, ◌==◌,
  ◌&&◌, ◌||◌, not, Bool, true, false, Option, none, some, List, [], ◌∷◌, ◌++◌, arith, ltb, leb,
  if◌then◌else◌, length, Bool-cases, if_both, if_cases, option_both,
}
use mathlib.Core.Option.{some-injective}
use bztsrc_osz.Env.{
  skip_blanks, hex_loop, dec_loop, hex_step, dec_step, is_digit, is_hex, limited, has_prefix,
  skip_prefix, env_hex, env_dec, letters, is_letter, env_lang,
}

-- A value between the limits.
abbrev Within : ℕ → ℕ → ℕ → Type 0
Within min max v = (min ≤ v) × (v ≤ max)

limited-Within : (v min max : ℕ) → max ≢ 0 → min ≤ max → Within min max (limited v min max)
unfolding limited
limited-Within v min max nz h = elim (Bool-cases (ltb v min)) [
  | inl low ↦ (ground (arith, nz, h, low), ground (arith, nz, h, low))
  | inr high ↦ (ground (arith, nz, h, high), ground (arith, nz, h, high))
]

abbrev Bounded : ℕ → ℕ → Option (List ℕ × ℕ) → Type 0
Bounded min max o = (rest : List ℕ) (v : ℕ) → o ≡ some (rest, v) → Within min max v

some-Bounded :
    (min max : ℕ) (rest : List ℕ) (w : ℕ)
    → max ≢ 0
    → min ≤ max
    → Bounded min max (some (rest, limited w min max))
some-Bounded min max rest w nz h rest' v e =
    let (a, b) = limited-Within w min max nz h in
    let same : limited w min max ≡ v =
      ap (λ (x : List ℕ × ℕ). x.1) (some-injective (rest, limited w min max) (rest', v) e) in
    (omega (arith, a, same), omega (arith, b, same))

env_hex-Bounded :
    (s : List ℕ) (v min max : ℕ) → max ≢ 0 → min ≤ max → Bounded min max (env_hex s v min max)
unfolding env_hex
env_hex-Bounded s v min max nz h =
    go (if has_prefix (skip_blanks s) then skip_prefix (skip_blanks s) else skip_blanks s)
  where
    go :
        (t : List ℕ)
        → Bounded min max (elim t as (λ t. Option (List ℕ × ℕ)) [
          | [] ↦ none
          | c ∷ cs ↦
              some ((hex_loop cs (hex_step v c)).0, limited (hex_loop cs (hex_step v c)).1 min max)
        ])
    go [] = λ r w e. cc
    go (c ∷ cs) =
        some-Bounded min max (hex_loop cs (hex_step v c)).0 (hex_loop cs (hex_step v c)).1 nz h

-- A value that env_dec reads is between the limits, whatever the string is and the variable held before.
pub env_dec-Within :
    (s rest : List ℕ) (v min max w : ℕ)
    → max ≢ 0
    → min ≤ max
    → env_dec s v min max ≡ some (rest, w)
    → (min ≤ w) × (w ≤ max)
unfolding env_dec
env_dec-Within s rest v min max w nz h =
    if_both (λ o. o ≡ some (rest, w) → Within min max w) (has_prefix (skip_blanks s))
      (env_hex-Bounded (skip_prefix (skip_blanks s)) v min max nz h rest w)
      (go (skip_blanks s) rest w)
  where
    go :
        (t : List ℕ)
        → Bounded min max (elim t as (λ t. Option (List ℕ × ℕ)) [
          | [] ↦ none
          | c ∷ cs ↦
              some ((dec_loop cs (dec_step 0 c)).0, limited (dec_loop cs (dec_step 0 c)).1 min max)
        ])
    go [] = λ r w e. cc
    go (c ∷ cs) =
        some-Bounded min max (dec_loop cs (dec_step 0 c)).0 (dec_loop cs (dec_step 0 c)).1 nz h

letters_le : (n : ℕ) (s : List ℕ) → length (letters n s).0 ≤ n
unfolding letters
letters_le zero s = omega arith
letters_le (suc n) [] = omega arith
letters_le (suc n) (c ∷ s) =
    if_both (λ (r : List ℕ × List ℕ). length r.0 ≤ suc n) (is_letter c)
      (omega (arith, letters_le n s)) (omega arith)

-- The language that env_lang finds has two characters or more, and fits into the six bytes of `lang` with its 0.
pub env_lang-length : (s : List ℕ) → (2 ≤ length (env_lang s).0) × (length (env_lang s).0 + 1 ≤ 6)
unfolding env_lang
env_lang-length s =
    if_cases (λ (r : List ℕ × List ℕ). (2 ≤ length r.0) × (length r.0 + 1 ≤ 6))
      (ltb (length (letters 5 (skip_blanks s)).0) 2) (λ e. (omega arith, omega arith))
      (λ e. (ground (arith, e), omega (arith, letters_le 5 (skip_blanks s))))
