-- ===== src/Fs/Vfs/Devices.antt =====
-- canonize of a path that begins with the name of a device and a colon.
use bztsrc_osz.Prelude.{
  ℕ, zero, suc, ◌+◌, ◌-◌, ◌≤◌, ◌<◌, ◌≡◌, refl, ap, ◌∙◌, ◌==◌, ◌&&◌, not, true, false, Option, none,
  some, List, [], ◌∷◌, ◌++◌, ltb, if◌then◌else◌, length, take, arith, inl, inr, Bool-cases, ==_iff,
  if_both,
}
use bztsrc_osz.Fs.Fcb.{same_path}
use bztsrc_osz.Fs.Vfs.{
  slash, colon, is_end, char, ends_with, skip_slashes, Step, further, finished, part, with_slash,
  parts, tail_slash, ended, name_end, onto, root_name, start, canonize,
}
use bztsrc_osz.Fs.Vfs.Parts.{base, HasDev, Further, push-HasDev, skip_slashes_le, part-Further}

with_slash-HasDev : (r : List ℕ) → HasDev r → HasDev (with_slash r)
with_slash-HasDev r h = if_both HasDev (ends_with r slash) h (push-HasDev slash r h)

-- What is left of the loop behind a part.
abbrev behind_part : ℕ → List ℕ → Step → Option (ℕ × List ℕ)
behind_part fuel path x = elim x [ finished k r ↦ some (k, r) | further k r ↦ parts fuel path k r ]

abbrev Ends : Option (ℕ × List ℕ) → Type 0
Ends o = (k : ℕ) × (r : List ℕ) × (o ≡ some (k, r)) × HasDev r

behind_part-Ends :
    (fuel : ℕ) (path : List ℕ) (i : ℕ) (x : Step)
    → ((k : ℕ) (r : List ℕ) → i ≤ k → HasDev r → Ends (parts fuel path k r))
    → Further i x
    → Ends (behind_part fuel path x)
unfolding Further
behind_part-Ends fuel path i (finished k r) go h = (k, r, refl, h)
behind_part-Ends fuel path i (further k r) go h = go k r h.0 h.1

-- Every round goes on in the path, so more fuel than the path has characters is enough.
parts-Ends :
    (fuel : ℕ) (path : List ℕ) (i : ℕ) (r : List ℕ)
    → HasDev r
    → length path - i < fuel
    → Ends (parts fuel path i r)
unfolding parts
parts-Ends zero path i r h f = absurd (omega arith)
parts-Ends (suc fuel) path i r h f =
    elim (Bool-cases (ltb i (length path) && not (is_end (char path i)))) [
      | inr over ↦ (i, r, rw over refl, h)
      | inl more ↦
          let from : ℕ = skip_slashes (length path) path i in
          let in_path : i < length path = ground (arith, more) in
          let low : i ≤ from = skip_slashes_le (length path) path i in
          let p : Further (from + 1) (part path from (with_slash r)) =
            part-Further path from (with_slash r) (with_slash-HasDev r h) in
          let (k, r', run, dev) =
            behind_part-Ends fuel path (from + 1) (part path from (with_slash r))
              (λ k x up d. parts-Ends fuel path k x d (omega (arith, up, low, in_path, f))) p in
          (k, r', rw more run, dev)
    ]

tail_slash-HasDev : (r : List ℕ) → HasDev r → HasDev (tail_slash r)
tail_slash-HasDev r ([], e) = ([], ap tail_slash e)
tail_slash-HasDev r (x ∷ xs, e) = elim (Bool-cases (x == slash)) [
  | inl s ↦ (xs, ap tail_slash e ∙ rw s refl)
  | inr n ↦ (x ∷ xs, ap tail_slash e ∙ rw n refl)
]

ended-HasDev : (path : List ℕ) (i : ℕ) (r : List ℕ) → HasDev r → HasDev (ended path i r)
ended-HasDev path i r h =
    if_both HasDev (ltb 0 i && (char path (i - 1) == slash))
      (push-HasDev slash (tail_slash r) (tail_slash-HasDev r h)) (tail_slash-HasDev r h)

onto-HasDev : (cs r : List ℕ) → HasDev r → HasDev (onto cs r)
onto-HasDev [] r h = h
onto-HasDev (c ∷ cs) r h = onto-HasDev cs (c ∷ r) (push-HasDev c r h)

-- The string that a list of characters holds: those before the first 0.
abbrev pub c_string : List ℕ → List ℕ
c_string [] = []
c_string (c ∷ cs) = if c == 0 then [] else c ∷ c_string cs

onto-append : (xs ys zs : List ℕ) → onto (xs ++ ys) zs ≡ onto ys (onto xs zs)
onto-append [] ys zs = refl
onto-append (x ∷ xs) ys zs = onto-append xs ys (x ∷ zs)

HasDev-c_string : (r : List ℕ) → HasDev r → c_string (onto r []) ≡ 47 ∷ 100 ∷ 101 ∷ 118 ∷ 47 ∷ []
HasDev-c_string r (xs, e) = ap (λ l. c_string (onto l [])) e ∙ ap c_string (onto-append xs base [])

start_device :
    (path root work : List ℕ)
    → char path (name_end (length path) path 0) ≡ colon
    → (name_end (length path) path 0 == 4) && same_path (take 4 path) root_name ≡ false
    → HasDev (start path root work).1
unfolding start
start_device path root work at other =
    let is_colon : (char path (name_end (length path) path 0) == colon) ≡ true =
      (==_iff (char path (name_end (length path) path 0)) colon).1 at in
    rw (is_colon, other)
      (push-HasDev slash (onto (take (name_end (length path) path 0) path) base)
        (onto-HasDev (take (name_end (length path) path 0) path) base ([], refl)))

-- canonize of a path that begins with the name of a device and a colon, the name not being "root", ends with more
-- fuel than the path has characters. It returns NULL where malloc fails; where it does not, and the buffer is long
-- enough, the string that it returns is "/dev/", whatever the device and the rest of the path are: a 0 stands behind
-- it.
pub canonize-c_string :
    (fuel : ℕ) (path root work : List ℕ)
    → char path (name_end (length path) path 0) ≡ colon
    → (name_end (length path) path 0 == 4) && same_path (take 4 path) root_name ≡ false
    → length path < fuel
    → (canonize fuel false path root work ≡ some none)
      × ((r : List ℕ) × (canonize fuel true path root work ≡ some (some r))
          × (c_string (onto r []) ≡ 47 ∷ 100 ∷ 101 ∷ 118 ∷ 47 ∷ []))
unfolding canonize
canonize-c_string fuel [] root work at other f = absurd (omega (arith, at))
canonize-c_string fuel (x ∷ xs) root work at other f =
    let path : List ℕ = x ∷ xs in
    let s : ℕ × List ℕ = start path root work in
    let h : HasDev (start path root work).1 = start_device path root work at other in
    let (k, r, run, dev) =
      parts-Ends fuel path (start path root work).0 (start path root work).1 h (omega (arith, f)) in
    let some_path : (length path == 0) ≡ false = ground arith in
    (
      ground (arith, some_path),
      (
        ended path k r,
        ground (arith, run, some_path),
        HasDev-c_string (ended path k r) (ended-HasDev path k r dev),
      ),
    )
