-- ===== src/Env.antt =====
-- The configuration that the core reads at its start, src/core/env.c: env_hex, env_dec, env_tz, env_bool and env_lang. A
-- string is the list of its bytes before the 0. Where a function reads behind that 0, or returns an address behind it,
-- there is no result.
pub mod Values
use Prim.Native.Nat.{bit_or}
use bztsrc_osz.Prelude.{
  ℕ, zero, suc, ◌+◌, ◌-◌, ◌*◌, ◌/◌, ◌%◌, ◌^◌, ◌==◌, ◌||◌, ◌&&◌, not, Bool, true, false, Option,
  none, some, ◌>>=◌, List, [], ◌∷◌, ◌++◌, ltb, leb, if◌then◌else◌, add64, sub64, length, get_elem?,
}

-- The character of a string at an index, which is 0 at its end.
abbrev pub char : List ℕ → ℕ → ℕ
char s i = elim (get_elem? s i) [ none ↦ 0 | some c ↦ c ]

abbrev pub is_digit : ℕ → Bool
is_digit c = leb 48 c && leb c 57

abbrev pub is_hex : ℕ → Bool
is_hex c = is_digit c || ((leb 97 c && leb c 102) || (leb 65 c && leb c 70))

-- Blanks and tabs
pub skip_blanks : List ℕ → List ℕ
skip_blanks [] = []
skip_blanks (c ∷ s) = let rest = skip_blanks s in if (c == 32) || (c == 9) then rest else c ∷ s

-- One digit more; another character adds nothing.
abbrev pub hex_step : ℕ → ℕ → ℕ
hex_step v c = add64 ((v * 16) % 2 ^ 64) (
    if is_digit c
    then c - 48
    else if leb 97 c && leb c 102
    then c - 87
    else if leb 65 c && leb c 70
    then c - 55
    else 0)

abbrev pub dec_step : ℕ → ℕ → ℕ
dec_step v c = add64 ((v * 10) % 2 ^ 64) (sub64 c 48)

-- The loops behind the first character.
pub hex_loop : List ℕ → ℕ → List ℕ × ℕ
hex_loop [] v = ([], v)
hex_loop (c ∷ s) v = let rest = hex_loop s (hex_step v c) in if is_hex c then rest else (c ∷ s, v)

pub dec_loop : List ℕ → ℕ → List ℕ × ℕ
dec_loop [] v = ([], v)
dec_loop (c ∷ s) v = let rest = dec_loop s (dec_step v c) in if is_digit c then rest else (c ∷ s, v)

-- The limits of a value; a maximum of 0 is none.
pub limited : ℕ → ℕ → ℕ → ℕ
limited v min max =
    let w = if ltb v min then min else v in if not (max == 0) && ltb max w then max else w

abbrev pub has_prefix : List ℕ → Bool
has_prefix s = (char s 0 == 48) && (char s 1 == 120)

abbrev pub skip_prefix : List ℕ → List ℕ
skip_prefix [] = []
skip_prefix (c ∷ []) = []
skip_prefix (c ∷ d ∷ s) = s

-- env_hex; `v` is what the variable held before. The first character counts whatever it is.
pub env_hex : List ℕ → ℕ → ℕ → ℕ → Option (List ℕ × ℕ)
env_hex s v min max =
    let t = skip_blanks s in
    elim (if has_prefix t then skip_prefix t else t) [
      | [] ↦ none
      | c ∷ cs ↦
          some ((hex_loop cs (hex_step v c)).0, limited (hex_loop cs (hex_step v c)).1 min max)
    ]

-- env_dec
pub env_dec : List ℕ → ℕ → ℕ → ℕ → Option (List ℕ × ℕ)
env_dec s v min max =
    let t = skip_blanks s in
    let hex = env_hex (skip_prefix t) v min max in
    let dec : Option (List ℕ × ℕ) = elim t [
      | [] ↦ none
      | c ∷ cs ↦
          some ((dec_loop cs (dec_step 0 c)).0, limited (dec_loop cs (dec_step 0 c)).1 min max)
    ] in
    if has_prefix t then hex else dec

-- The time zone, whether it is to the west, and whether the user is asked for the time.
pub record Zone : Type 0 where
  pub minutes : ℕ
  pub west : Bool
  pub asktime : Bool

abbrev pub zone : ℕ → Bool → Bool → Zone
zone minutes west asktime = record { minutes = minutes; west = west; asktime = asktime }

-- The rest of a string behind its first character.
abbrev pub behind_first : List ℕ → Option (List ℕ)
behind_first [] = none
behind_first (c ∷ s) = some s

-- env_tz, with what its variable held before.
pub env_tz : List ℕ → ℕ → Zone → Option (List ℕ × Zone)
env_tz s v z =
    let t = skip_blanks s in
    let west = char t 0 == 45 in
    let u = if west then elim t [ [] ↦ [] | c ∷ cs ↦ cs ] else t in
    let number = env_dec u v 0 1440 >>= λ (rest, n). some (rest, zone n west false) in
    let word =
      behind_first u >>= λ rest. some (rest, if char u 0 == 97 then zone 0 false true else z) in
    if is_digit (char u 0) then number else word

-- The first characters of a word for false.
abbrev pub says_no : List ℕ → Bool
says_no s =
    let c = char s 0 in
    let d = char s 1 in
    (c == 48)
    || ((c == 102)
        || ((c == 70)
            || ((c == 110)
                || ((c == 78)
                    || ((c == 104)
                        || ((c == 72)
                            || ((c == 107)
                                || ((c == 75)
                                    || ((c == 100)
                                        || ((c == 68)
                                            || (((c == 111) && (d == 102))
                                                || ((c == 79) && (d == 70)))))))))))))

-- env_bool: the flag is set unless the word says no.
pub env_bool : List ℕ → ℕ → ℕ → Option (List ℕ × ℕ)
env_bool s v flag =
    let t = skip_blanks s in
    behind_first t >>= λ rest. some (rest, if says_no t then v else bit_or v flag)

abbrev pub is_letter : ℕ → Bool
is_letter c = (leb 97 c && leb c 122) || ((leb 65 c && leb c 90) || (c == 95))

-- The loop of env_lang, with room for `room` characters: they come with the rest.
pub letters : ℕ → List ℕ → List ℕ × List ℕ
letters zero s = ([], s)
letters (suc room) [] = ([], [])
letters (suc room) (c ∷ s) =
    let (ls, rest) = letters room s in if is_letter c then (c ∷ ls, rest) else ([], c ∷ s)

-- env_lang: the characters of `lang` before its 0, with the rest.
pub env_lang : List ℕ → List ℕ × List ℕ
env_lang s =
    let (ls, rest) = letters 5 (skip_blanks s) in
    if ltb (length ls) 2 then (101 ∷ 110 ∷ [], rest) else (ls, rest)
