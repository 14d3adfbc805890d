-- ===== src/Fs/Fcb/Write/Buffers.antt =====
-- What fcb_write does to the bytes that are buffered.
use bztsrc_osz.Prelude.{
  ℕ, zero, suc, ◌+◌, ◌-◌, ◌<◌, ◌≤◌, ◌≡◌, refl, sym, ap, ◌∙◌, ◌&&◌, Bool, true, false, Option, none,
  some, List, [], ◌∷◌, ◌++◌, arith, ltb, leb, if◌then◌else◌, length, take, drop, get_elem?,
  length-take, get_elem?-take, dec_lt, leb→le,
}
use mathlib.Core.Option.{some-injective}
use bztsrc_osz.Fs.Fcb.Write.{Writebuf, end_offs, overlay}

get_left : (xs ys : List ℕ) (k : ℕ) → k < length xs → get_elem? (xs ++ ys) k ≡ get_elem? xs k
get_left [] ys k h = absurd (omega arith)
get_left (x ∷ xs) ys zero h = refl
get_left (x ∷ xs) ys (suc k) h = get_left xs ys k (omega arith)

get_right :
    (xs ys : List ℕ) (k : ℕ) → length xs ≤ k → get_elem? (xs ++ ys) k ≡ get_elem? ys (k - length xs)
get_right [] ys k h = ap (get_elem? ys) (omega arith)
get_right (x ∷ xs) ys zero h = absurd (omega arith)
get_right (x ∷ xs) ys (suc k) h = get_right xs ys k (omega arith) ∙ ap (get_elem? ys) (omega arith)

get_drop : (n : ℕ) (xs : List ℕ) (k : ℕ) → get_elem? (drop n xs) k ≡ get_elem? xs (n + k)
get_drop zero xs k = ap (get_elem? xs) (omega arith)
get_drop (suc n) [] k = refl
get_drop (suc n) (x ∷ xs) k =
    let z : suc n + k ≡ suc (n + k) = omega arith in
    get_drop n xs k ∙ ap (get_elem? (x ∷ xs)) (sym z)

-- The bytes of an overlay.
pub get_overlay :
    (old : List ℕ) (i : ℕ) (bytes : List ℕ) (k : ℕ)
    → i + length bytes ≤ length old
    → get_elem? (overlay old i bytes) k
      ≡ (if leb i k && ltb k (i + length bytes) then get_elem? bytes (k - i) else get_elem? old k)
get_overlay old i bytes k h =
    let n : length (take i old) ≡ i = omega (arith, length-take i old, h) in
    let rest = bytes ++ drop (i + length bytes) old in
    elim (dec_lt k i) [
      | yes low ↦
          let z : leb i k ≡ false = ground (arith, low) in
          rw z (get_left (take i old) rest k (omega (arith, n, low)) ∙ get_elem?-take old i k low)
      | no high ↦
          let z : leb i k ≡ true = ground (arith, high) in
          let here : get_elem? (take i old ++ rest) k ≡ get_elem? rest (k - i) =
            get_right (take i old) rest k (omega (arith, n, high))
            ∙ ap (λ x. get_elem? rest (k - x)) n in
          elim (dec_lt k (i + length bytes)) [
            | yes inside ↦
                let y : ltb k (i + length bytes) ≡ true = ground (arith, inside) in
                rw (z, y)
                  (here
                    ∙ get_left bytes (drop (i + length bytes) old) (k - i)
                        (omega (arith, inside, high)))
            | no behind ↦
                let y : ltb k (i + length bytes) ≡ false = ground (arith, behind) in
                let at : i + length bytes + (k - i - length bytes) ≡ k =
                  omega (arith, behind, high) in
                rw (z, y)
                  (here
                    ∙ get_right bytes (drop (i + length bytes) old) (k - i)
                        (omega (arith, behind, high))
                    ∙ get_drop (i + length bytes) old (k - i - length bytes)
                    ∙ ap (get_elem? old) at)
          ]
    ]

-- The byte at an offset of the file, where one is buffered.
unfoldable pub view : List Writebuf → ℕ → Option ℕ
view [] x = none
view (w ∷ ws) x =
    let rest = view ws x in
    if leb w.offs x && ltb x (end_offs w) then get_elem? w.data_of (x - w.offs) else rest

-- The buffers are in order from `lo` on, with a gap behind each.
unfoldable pub apart : ℕ → List Writebuf → Bool
apart lo [] = true
apart lo (w ∷ ws) = leb lo w.offs && apart (end_offs w + 1) ws

pub apart_le :
    (lo : ℕ) (ws : List Writebuf) (i : ℕ) (w : Writebuf)
    → apart lo ws ≡ true
    → get_elem? ws i ≡ some w
    → lo ≤ w.offs
unfolding apart
apart_le lo [] i w a e = cc
apart_le lo (v ∷ ws) zero w a e =
    let same : v.offs ≡ w.offs = ap (λ (x : Writebuf). x.offs) (some-injective v w e) in
    ground (arith, a, same)
apart_le lo (v ∷ ws) (suc i) w a e =
    let first : leb lo v.offs ≡ true = ground (arith, a) in
    let behind : apart (end_offs v + 1) ws ≡ true = ground (arith, a) in
    omega (arith, leb→le lo v.offs first, apart_le (end_offs v + 1) ws i w behind e)
