-- ===== src/Libc/Bztalloc/Alloc/Found.antt =====
-- What the loops of bzt_alloc over the maps of the arena find.
use bztsrc_osz.Prelude.{
  ℕ, zero, suc, ◌+◌, ◌/◌, ◌%◌, ◌<◌, ◌≤◌, ◌≡◌, inl, inr, refl, sym, ap, ◌∙◌, ◌==◌, ◌&&◌, Bool, true,
  false, Option, none, some, List, [], ◌∷◌, arith, ltb, if◌then◌else◌, get_elem?, length,
  Option-cases, Bool-cases, if_given,
}
use bztsrc_osz.Libc.Bztalloc.{
  Chunk, Allocmap, Arena, Scan, alloc_size, units, max_chunks, max_arena, map_at, chunk_at,
  free_unit, scan_chunk, scan_chunks, scan_map, scan_maps,
}
use bztsrc_osz.Libc.Bztalloc.Units.{chunk_at_in}

free_unit-free :
    (n : ℕ) (used : ℕ → Bool) (step k x : ℕ)
    → free_unit n used step k ≡ some x
    → (used x ≡ false) × (x < units)
unfolding free_unit
free_unit-free zero used step k x e = cc
free_unit-free (suc n) used step k x e = elim (Bool-cases (ltb k 512)) [
  | inr big ↦ absurd (ground (arith, big, e))
  | inl small ↦ elim (Bool-cases (used k)) [
    | inl taken ↦ free_unit-free n used step (k + step) x (ground (arith, small, taken, e))
    | inr clear ↦
        let at : k ≡ x = ground (arith, small, clear, e) in
        (ap used (sym at) ∙ clear, ground (arith, small, at))
  ]
]

-- The chunk that was found for blocks of `q` bytes is one of the arena, and its unit is not in use.
pub record IsFree (s : Arena) (q i j k : ℕ) : Type 0 where
  pub chunk : Chunk
  pub there : chunk_at s i j ≡ some chunk
  pub same : chunk.quantum ≡ q
  pub clear : chunk.used k ≡ false
  pub bound : k < units

-- Every chunk that was found so far is like that, and every map that has room is there.
pub record IsSound (s : Arena) (q : ℕ) (t : Scan) : Type 0 where
  pub unit : (i j k : ℕ) → t.ncm ≡ some (i, j, k) → IsFree s q i j k
  pub room : (i : ℕ) → t.fc ≡ some i → (m : Allocmap) × (map_at s i ≡ some m)

tail_at :
    (xs : List (Option Allocmap)) (i : ℕ) (m : Option Allocmap) (ms : List (Option Allocmap))
    → ((x : ℕ) → get_elem? xs (i + x) ≡ get_elem? (m ∷ ms) x)
    → (x : ℕ) → get_elem? xs (suc i + x) ≡ get_elem? ms x
tail_at xs i m ms at x =
    let step : suc i + x ≡ i + suc x = omega arith in ap (get_elem? xs) step ∙ at (suc x)

abbrev AllFree : Arena → ℕ → Option (ℕ × ℕ × ℕ) → Type 0
AllFree s q o = (i j k : ℕ) → o ≡ some (i, j, k) → IsFree s q i j k

fits-AllFree :
    (s : Arena) (q a i j : ℕ) (c : Chunk) (old : Option (ℕ × ℕ × ℕ))
    → chunk_at s i j ≡ some c
    → c.quantum ≡ q
    → AllFree s q old
    → AllFree s q (elim (free_unit units c.used (a / q) 0) [ none ↦ old | some k ↦ some (i, j, k) ])
fits-AllFree s q a i j c old at same h x y z e =
    elim (Option-cases (free_unit units c.used (a / q) 0)) [
      | inl missing ↦ h x y z (ground (arith, missing, e))
      | inr (k, f) ↦
          let zx : i ≡ x = ground (arith, f, e) in
          let zy : j ≡ y = ground (arith, f, e) in
          let zz : k ≡ z = ground (arith, f, e) in
          let (clear, bound) = free_unit-free units c.used (a / q) 0 k f in
          record {
            chunk = c;
            there = ap (λ v. chunk_at s v y) (sym zx) ∙ ap (chunk_at s i) (sym zy) ∙ at;
            same = same;
            clear = ap c.used (sym zz) ∙ clear;
            bound = omega (arith, bound, zz);
          }
    ]

scan_chunk-IsSound :
    (s : Arena) (q a p i j : ℕ) (c : Chunk) (t : Scan)
    → chunk_at s i j ≡ some c
    → IsSound s q t
    → IsSound s q (scan_chunk q a p i j c t)
unfolding scan_chunk
scan_chunk-IsSound s q a p i j c t at h =
    let fits = (c.quantum == q) && (ltb q alloc_size && ((c.ptr % a) == 0)) in
    record {
      unit =
          if_given (AllFree s q) fits
            (λ e. fits-AllFree s q a i j c t.ncm at (ground (arith, e)) h.unit) h.unit;
      room = h.room;
    }

scan_chunks-IsSound :
    (s : Arena) (q a p i j : ℕ) (cs : List Chunk) (t : Scan)
    → ((x : ℕ) (c : Chunk) → get_elem? cs x ≡ some c → chunk_at s i (j + x) ≡ some c)
    → IsSound s q t
    → IsSound s q (scan_chunks q a p i j cs t)
unfolding scan_chunks
scan_chunks-IsSound s q a p i j [] t at h = h
scan_chunks-IsSound s q a p i j (c ∷ cs) t at h =
    let first : j ≡ j + 0 = omega arith in
    scan_chunks-IsSound s q a p i (suc j) cs (scan_chunk q a p i j c t)
      (λ x d e.
        let step : suc j + x ≡ j + suc x = omega arith in ap (chunk_at s i) step ∙ at (suc x) d e)
      (scan_chunk-IsSound s q a p i j c t (ap (chunk_at s i) first ∙ at 0 c refl) h)

scan_map-IsSound :
    (s : Arena) (q i : ℕ) (m : Allocmap) (t : Scan)
    → map_at s i ≡ some m
    → IsSound s q t
    → IsSound s q (scan_map i m t)
unfolding scan_map
scan_map-IsSound s q i m t at h = record {
  unit = h.unit;
  room = go t.fc h.room (ltb (length m.chunks) max_chunks);
}
  where
    go :
        (o : Option ℕ)
        → ((x : ℕ) → o ≡ some x → (n : Allocmap) × (map_at s x ≡ some n))
        → (b : Bool) (x : ℕ)
        → (elim o as (λ x. Option ℕ) [ some f ↦ some f | none ↦ if b then some i else none ])
          ≡ some x
        → (n : Allocmap) × (map_at s x ≡ some n)
    go (some f) g b x e = g x e
    go none g true x e = (m, ap (map_at s) (sym (ground (arith, e))) ∙ at)
    go none g false x e = cc

-- The maps from `i` on.
pub scan_maps-IsSound :
    (s : Arena) (q a p i : ℕ) (ms : List (Option Allocmap)) (left : ℕ) (t : Scan)
    → ((x : ℕ) → get_elem? s.maps (i + x) ≡ get_elem? ms x)
    → IsSound s q t
    → IsSound s q (scan_maps q a p i ms left t).0
unfolding scan_maps
scan_maps-IsSound s q a p i [] zero t at h = h
scan_maps-IsSound s q a p i [] (suc left) t at h = h
scan_maps-IsSound s q a p i (m ∷ ms) zero t at h = h
scan_maps-IsSound s q a p i (none ∷ ms) (suc left) t at h =
    scan_maps-IsSound s q a p (suc i) ms (suc left) t (tail_at s.maps i none ms at) h
scan_maps-IsSound s q a p i (some m ∷ ms) (suc left) t at h =
    let first : i ≡ i + 0 = omega arith in
    let here : map_at s i ≡ some m =
      ap (map_at s) first
      ∙ ap (λ o. elim o as (λ x. Option Allocmap) [ none ↦ none | some m ↦ m ]) (at 0) in
    scan_maps-IsSound s q a p (suc i) ms left (scan_chunks q a p i 0 m.chunks (scan_map i m t))
      (tail_at s.maps i (some m) ms at)
      (scan_chunks-IsSound s q a p i 0 m.chunks (scan_map i m t)
        (λ x c e.
          let step : 0 + x ≡ x = omega arith in
          ap (chunk_at s i) step ∙ chunk_at_in s i x m here ∙ e)
        (scan_map-IsSound s q i m t here h))

scan_chunks-ocm :
    (q a i j : ℕ) (cs : List Chunk) (t : Scan) → (scan_chunks q a 0 i j cs t).ocm ≡ t.ocm
unfolding scan_chunks scan_chunk
scan_chunks-ocm q a i j [] t = refl
scan_chunks-ocm q a i j (c ∷ cs) t = scan_chunks-ocm q a i (suc j) cs (scan_chunk q a 0 i j c t)

-- Without an old block, none is found.
pub scan_maps-ocm :
    (q a i : ℕ) (ms : List (Option Allocmap)) (left : ℕ) (t : Scan)
    → (scan_maps q a 0 i ms left t).0.ocm ≡ t.ocm
unfolding scan_maps scan_map
scan_maps-ocm q a i [] zero t = refl
scan_maps-ocm q a i [] (suc left) t = refl
scan_maps-ocm q a i (m ∷ ms) zero t = refl
scan_maps-ocm q a i (none ∷ ms) (suc left) t = scan_maps-ocm q a (suc i) ms (suc left) t
scan_maps-ocm q a i (some m ∷ ms) (suc left) t =
    scan_maps-ocm q a (suc i) ms left (scan_chunks q a 0 i 0 m.chunks (scan_map i m t))
    ∙ scan_chunks-ocm q a i 0 m.chunks (scan_map i m t)

-- The loop looks at one word or more for each map.
pub scan_maps_le :
    (q a p v i : ℕ) (ms : List (Option Allocmap)) (left : ℕ) (t : Scan)
    → v ≤ i
    → v + left < max_arena
    → v + left ≤ (scan_maps q a p i ms left t).1
unfolding scan_maps
scan_maps_le q a p v i [] zero t l h = omega arith
scan_maps_le q a p v i [] (suc left) t l h = omega arith
scan_maps_le q a p v i (m ∷ ms) zero t l h = omega arith
scan_maps_le q a p v i (none ∷ ms) (suc left) t l h =
    scan_maps_le q a p v (suc i) ms (suc left) t (omega arith) h
scan_maps_le q a p v i (some m ∷ ms) (suc left) t l h = omega (
  arith,
  scan_maps_le q a p (suc v) (suc i) ms left (scan_chunks q a p i 0 m.chunks (scan_map i m t))
      (omega arith) (omega arith),
)
