-- ===== src/Fs/Vfs/Parts.antt =====
-- One part of a path in canonize goes on in the path, and keeps the beginning of what was written.
use bztsrc_osz.Prelude.{
  ℕ, zero, suc, ◌+◌, ◌-◌, ◌≤◌, ◌≡◌, sym, ap, ◌∙◌, ◌==◌, ◌||◌, ◌&&◌, not, Bool, true, List, [], ◌∷◌,
  ◌++◌, ltb, leb, if◌then◌else◌, length, drop, arith, if_both, if_given,
}
use bztsrc_osz.Fs.Vfs.{
  slash, colon, dot, semicolon, hash, minus, is_end, char, ends_with, ends_in_joker, skip_slashes,
  copy_name, copy_digits, Step, further, finished, behind_sign, version, offset, after_name, part,
  with_slash, parts, tail_slash, ended, name_end, onto, root_name, devpath, start, canonize,
}

-- "/dev/" and the 0 behind it, the last character first.
abbrev pub base : List ℕ
base = 0 ∷ 47 ∷ 118 ∷ 101 ∷ 100 ∷ 47 ∷ []

-- The result begins with them.
abbrev pub HasDev : List ℕ → Type 0
HasDev r = (xs : List ℕ) × (r ≡ xs ++ base)

-- A part of the path goes on in the path, and keeps the beginning of the result.
unfoldable pub Further : ℕ → Step → Type 0
Further i (further k r) = (i ≤ k) × HasDev r
Further i (finished k r) = HasDev r

pub push-HasDev : (c : ℕ) (r : List ℕ) → HasDev r → HasDev (c ∷ r)
push-HasDev c r (xs, e) = (c ∷ xs, ap (λ l. c ∷ l) e)

joker-HasDev : (r : List ℕ) → ends_in_joker r ≡ true → HasDev r → HasDev (drop 4 r)
joker-HasDev r j ([], e) = absurd (ground (arith, ap ends_in_joker (sym e) ∙ j))
joker-HasDev r j (a ∷ [], e) = absurd (ground (arith, ap ends_in_joker (sym e) ∙ j))
joker-HasDev r j (a ∷ b ∷ [], e) = absurd (ground (arith, ap ends_in_joker (sym e) ∙ j))
joker-HasDev r j (a ∷ b ∷ c ∷ [], e) = absurd (ground (arith, ap ends_in_joker (sym e) ∙ j))
joker-HasDev r j (a ∷ b ∷ c ∷ d ∷ xs, e) = (xs, ap (drop 4) e)

pub skip_slashes_le : (n : ℕ) (path : List ℕ) (i : ℕ) → i ≤ skip_slashes n path i
unfolding skip_slashes
skip_slashes_le zero path i = omega arith
skip_slashes_le (suc n) path i = ground (arith, skip_slashes_le n path (i + 1))

-- Copies go on in the path.
Copied : ℕ → ℕ × List ℕ → Type 0
Copied i p = (i ≤ p.0) × HasDev p.1

copy_name-Copied :
    (n : ℕ) (path : List ℕ) (i : ℕ) (r : List ℕ) → HasDev r → Copied i (copy_name n path i r)
unfolding copy_name Copied
copy_name-Copied zero path i r h = (omega arith, h)
copy_name-Copied (suc n) path i r h =
    let rest : Copied (i + 1) (copy_name n path (i + 1) (char path i ∷ r)) =
      copy_name-Copied n path (i + 1) (char path i ∷ r) (push-HasDev (char path i) r h) in
    if_both (Copied i)
      ((ltb i (length path) && not (char path i == slash)) && not (is_end (char path i)))
      (omega (arith, rest.0), rest.1) (omega arith, h)

copy_digits-Copied :
    (n : ℕ) (path : List ℕ) (i : ℕ) (r : List ℕ) → HasDev r → Copied i (copy_digits n path i r)
unfolding copy_digits Copied
copy_digits-Copied zero path i r h = (omega arith, h)
copy_digits-Copied (suc n) path i r h =
    let rest : Copied (i + 1) (copy_digits n path (i + 1) (char path i ∷ r)) =
      copy_digits-Copied n path (i + 1) (char path i ∷ r) (push-HasDev (char path i) r h) in
    if_both (Copied i) (ltb i (length path) && bztsrc_osz.Fs.Vfs.is_digit (char path i))
      (omega (arith, rest.0), rest.1) (omega arith, h)

sign_le : (path : List ℕ) (i : ℕ) → i ≤ behind_sign path i
sign_le path i = ground arith

kept_by : (k : ℕ) (p : ℕ × List ℕ) → Copied k p → HasDev p.1
unfolding Copied
kept_by k p c = c.1

later : (i k : ℕ) (x : Step) → i ≤ k → Further (k + 1) x → Further (i + 1) x
unfolding Further
later i k (further m r) h t = (omega (arith, t.0), t.1)
later i k (finished m r) h t = t

version-Further : (path : List ℕ) (i : ℕ) (r : List ℕ) → HasDev r → Further i (version path i r)
unfolding version Further
version-Further path i r h =
    let k : ℕ = behind_sign path (i + 1) in
    let c : ℕ = char path k in
    let up : i + 1 ≤ k = sign_le path (i + 1) in
    if_both (Further i) (not (char path i == semicolon)) (omega arith, h)
      (if_both (Further i) (ends_with r slash) h (
        if_both (Further i)
          ((ltb (k + 1) (length path) && (leb 49 c && leb c 57))
            && ((char path (k + 1) == hash) || (char path (k + 1) == 0)))
          (omega (arith, up), push-HasDev c (semicolon ∷ r) (push-HasDev semicolon r h))
          (omega (arith, up), h)))

offset-Further : (path : List ℕ) (i : ℕ) (r : List ℕ) → HasDev r → Further (i + 1) (offset path i r)
unfolding offset Further
offset-Further path i r h =
    let k : ℕ = behind_sign path (i + 1) in
    let c : ℕ = char path k in
    let r' : List ℕ = if char path (k - 1) == minus then minus ∷ hash ∷ r else hash ∷ r in
    let marked : HasDev r' =
      if_both HasDev (char path (k - 1) == minus)
        (push-HasDev minus (hash ∷ r) (push-HasDev hash r h)) (push-HasDev hash r h) in
    let copied : Copied k (copy_digits (length path) path k r') =
      copy_digits-Copied (length path) path k r' marked in
    if_both (Further (i + 1)) (not (char path i == hash)) (omega arith, h)
      (if_both (Further (i + 1)) (ends_with r slash) h (
        if_both (Further (i + 1)) (ltb k (length path) && (leb 49 c && leb c 57))
          (kept_by k (copy_digits (length path) path k r') copied) h))

-- What follows the version.
abbrev behind_version : List ℕ → Step → Step
behind_version path x = elim x [ finished k r ↦ finished k r | further k r ↦ offset path k r ]

behind_version-Further :
    (path : List ℕ) (i : ℕ) (x : Step) → Further i x → Further (i + 1) (behind_version path x)
unfolding Further
behind_version-Further path i (finished k r) h = h
behind_version-Further path i (further k r) h =
    later i k (offset path k r) h.0 (offset-Further path k r h.1)

after_name-Further :
    (path : List ℕ) (i : ℕ) (r : List ℕ) → HasDev r → Further (i + 1) (after_name path i r)
unfolding after_name
after_name-Further path i r h =
    behind_version-Further path i (version path i r) (version-Further path i r h)

last_conjunct : (a b c d : Bool) → (a && b) && (c && d) ≡ true → d ≡ true
last_conjunct a b c d e = ground (arith, e)

pub part-Further : (path : List ℕ) (i : ℕ) (r : List ℕ) → HasDev r → Further (i + 1) (part path i r)
unfolding part Further Copied
part-Further path i r h =
    let copied : Copied i (copy_name (length path) path i r) =
      copy_name-Copied (length path) path i r h in
    let next_dot : Bool = char path (i + 1) == dot in
    let ends : Bool =
      ltb (i + 2) (length path) && ((char path (i + 2) == slash) || is_end (char path (i + 2))) in
    if_both (Further (i + 1))
      ((char path i == dot)
        && (ltb (i + 1) (length path)
            && ((char path (i + 1) == slash) || is_end (char path (i + 1)))))
      (omega arith, h)
      (if_given (Further (i + 1)) (((char path i == dot) && next_dot) && (ends && ends_in_joker r))
        (λ e. (
          omega arith,
          joker-HasDev r (last_conjunct (char path i == dot) next_dot ends (ends_in_joker r) e) h,
        ))
        (later i (copy_name (length path) path i r).0
          (after_name path (copy_name (length path) path i r).0
            (copy_name (length path) path i r).1)
          copied.0
          (after_name-Further path (copy_name (length path) path i r).0
            (copy_name (length path) path i r).1 copied.1)))
