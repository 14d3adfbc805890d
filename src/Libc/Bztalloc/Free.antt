-- ===== src/Libc/Bztalloc/Free.antt =====
-- What bzt_free does with an address.
use bztsrc_osz.Prelude.{
  ℕ, zero, suc, ◌+◌, ◌-◌, ◌*◌, ◌/◌, ◌<◌, ◌≡◌, ◌≢◌, inl, inr, refl, sym, ap, ◌∙◌, ◌==◌, Bool, true,
  false, Option, none, some, List, [], ◌∷◌, ◌++◌, arith, ltb, length, get_elem?, lt_of_get,
  get_elem?-set_self, erase_idx, Option-cases, Bool-cases, ℕ_discrete,
}
use bztsrc_osz.Libc.Bztalloc.{
  Chunk, Allocmap, Arena, Effect, alloc_size, page_size, units, chunksize, word_bits, emit,
  unmapped, bitmap_size, covers, find_chunk, find_map, sum_words, mark, give_back, keep_chunks,
  release, map_at, chunk_at, bzt_free,
}
use bztsrc_osz.Libc.Bztalloc.Units.{
  Marks, mark-Marks, chunk_at-map, map_at_there, map_at-set_map, map_at-set_map_ne,
}

-- A chunk that is found has the address.
find_chunk-covers :
    (cs : List Chunk) (p j : ℕ)
    → find_chunk cs p ≡ some j
    → (c : Chunk) × (get_elem? cs j ≡ some c) × (covers c p ≡ true)
unfolding find_chunk
find_chunk-covers [] p j e = cc
find_chunk-covers (c ∷ cs) p j e = elim (Bool-cases (covers c p)) [
  | inl here ↦ let z : 0 ≡ j = ground (arith, here, e) in (c, ap (get_elem? (c ∷ cs)) (sym z), here)
  | inr off ↦ elim (Option-cases (find_chunk cs p)) [
    | inl missing ↦ absurd (ground (arith, off, missing, e))
    | inr (x, f) ↦
        let (d, at, h) = find_chunk-covers cs p x f in
        let z : suc x ≡ j = ground (arith, off, f, e) in
        (d, ap (get_elem? (c ∷ cs)) (sym z) ∙ at, h)
  ]
]

map_of : List (Option Allocmap) → ℕ → Option Allocmap
map_of ms i = elim (get_elem? ms i) [ none ↦ none | some m ↦ m ]

-- The block that is found is a chunk of the arena, and has the address.
pub find_map-covers :
    (ms : List (Option Allocmap)) (left p i j : ℕ)
    → find_map ms left p ≡ some (i, j)
    → (m : Allocmap) × (c : Chunk) × (get_elem? ms i ≡ some (some m))
      × (get_elem? m.chunks j ≡ some c)
      × (covers c p ≡ true)
unfolding find_map
find_map-covers [] left p i j e = cc
find_map-covers (m ∷ ms) zero p i j e = cc
find_map-covers (none ∷ ms) (suc left) p i j e = elim (Option-cases (find_map ms (suc left) p)) [
  | inl missing ↦ absurd (ground (arith, missing, e))
  | inr ((x, y), f) ↦
      let (m, c, at, there, h) = find_map-covers ms (suc left) p x y f in
      let zi : suc x ≡ i = ground (arith, f, e) in
      let zj : y ≡ j = ground (arith, f, e) in
      (m, c, ap (get_elem? (none ∷ ms)) (sym zi) ∙ at, ap (get_elem? m.chunks) (sym zj) ∙ there, h)
]
find_map-covers (some a ∷ ms) (suc left) p i j e = elim (Option-cases (find_chunk a.chunks p)) [
  | inr (y, f) ↦
      let (c, at, h) = find_chunk-covers a.chunks p y f in
      let zi : 0 ≡ i = ground (arith, f, e) in
      let zj : y ≡ j = ground (arith, f, e) in
      (a, c, ap (get_elem? (some a ∷ ms)) (sym zi), ap (get_elem? a.chunks) (sym zj) ∙ at, h)
  | inl skip ↦ elim (Option-cases (find_map ms left p)) [
    | inl missing ↦ absurd (ground (arith, skip, missing, e))
    | inr ((x, y), f) ↦
        let (m, c, at, there, h) = find_map-covers ms left p x y f in
        let zi : suc x ≡ i = ground (arith, skip, f, e) in
        let zj : y ≡ j = ground (arith, skip, f, e) in
        (
          m,
          c,
          ap (get_elem? (some a ∷ ms)) (sym zi) ∙ at,
          ap (get_elem? m.chunks) (sym zj) ∙ there,
          h,
        )
  ]
]

-- The chunk stays while another unit of it is in use, as far as the sum of the words shows it.
give_back-stays :
    (c : Chunk) (p : ℕ)
    → c.quantum < alloc_size
    → sum_words (mark c.used ((p - c.ptr) / c.quantum) false) bitmap_size ≢ 0
    → ((give_back c p).0 ≡ record c { used = mark c.used ((p - c.ptr) / c.quantum) false })
      × ((give_back c p).1 ≡ false)
unfolding give_back
give_back-stays c p small more = elim (Bool-cases (ltb c.quantum 4096)) [
  | inl tiny ↦ (ground (arith, tiny), ground (arith, tiny))
  | inr medium ↦ (ground (arith, medium), ground (arith, medium))
]

release-unit :
    (s : Arena) (i j : ℕ) (a : Allocmap) (c : Chunk) (p : ℕ) (kept : List Chunk)
    → map_at s i ≡ some a
    → get_elem? a.chunks j ≡ some c
    → c.quantum < alloc_size
    → sum_words (mark c.used ((p - c.ptr) / c.quantum) false) bitmap_size ≢ 0
    → Marks s (release s i j a c p kept) i j ((p - c.ptr) / c.quantum) false
unfolding release
release-unit s i j a c p kept e at small more =
    let (same, stays) = give_back-stays c p small more in
    let s' : Arena = record s { effects = (give_back c p).2 ++ s.effects } in
    let m = mark-Marks s' i j ((p - c.ptr) / c.quantum) a c false e at in
    rw (same, stays) record { marked = m.marked; others = m.others }

-- A block of up to half of `alloc_size` bytes is given back: the first chunk in the order of the maps that has the
-- address gets the unit of the address back, and no other unit of the arena changes, when the sum of the words of
-- its map is not 0 after it.
pub bzt_free-Marks :
    (s : Arena) (p i j : ℕ) (c : Chunk)
    → p ≢ 0
    → find_map s.maps s.nummaps p ≡ some (i, j)
    → chunk_at s i j ≡ some c
    → c.quantum < alloc_size
    → sum_words (mark c.used ((p - c.ptr) / c.quantum) false) bitmap_size ≢ 0
    → Marks s (bzt_free s p) i j ((p - c.ptr) / c.quantum) false
unfolding bzt_free
bzt_free-Marks s p i j c nz found there small more =
    let z : (p == 0) ≡ false = ground (arith, nz) in
    let (a, e, at) = chunk_at-map s i j c there in
    rw (z, found, e, at) (release-unit s i j a c p (erase_idx a.chunks j) e at small more)

word_bits-zero :
    (used : ℕ → Bool) (k n : ℕ) → ((x : ℕ) → x < n → used (k + x) ≡ false) → word_bits used k n ≡ 0
unfolding word_bits
word_bits-zero used k zero h = refl
word_bits-zero used k (suc n) h =
    ground (arith, h n (omega arith), word_bits-zero used k n (λ x l. h x (omega (arith, l))))

-- Words without a unit in use add up to 0.
sum_words-zero :
    (used : ℕ → Bool) (n : ℕ) → ((k : ℕ) → k < 64 * n → used k ≡ false) → sum_words used n ≡ 0
unfolding sum_words
sum_words-zero used zero h = refl
sum_words-zero used (suc n) h =
    let w = word_bits-zero used (64 * n) 64 (λ x l. h (64 * n + x) (omega (arith, l))) in
    let r = sum_words-zero used n (λ k l. h k (omega (arith, l))) in rw (r, w) refl

-- The map without the chunk: none, when that was its only one.
abbrev pub kept_map : Allocmap → List Chunk → Option Allocmap
kept_map a [] = none
kept_map a (c ∷ cs) = some (record a { chunks = c ∷ cs })

-- What the system gets with the chunk: the map too, when that was its only one.
abbrev pub freed : Allocmap → List Chunk → List Effect
freed a [] = unmapped a.address 0x200000 ∷ []
freed a (c ∷ cs) = []

-- Chunk `j` has left map `a` at place `i`, which has left the arena without any chunk, and the system has their memory.
pub record Gone (s s' : Arena) (i j : ℕ) (a : Allocmap) (c : Chunk) : Type 0 where
  pub map : map_at s' i ≡ kept_map a (erase_idx a.chunks j)
  pub others : (x : ℕ) → i ≢ x → map_at s' x ≡ map_at s x
  pub count : s'.nummaps ≡ s.nummaps - length (freed a (erase_idx a.chunks j))
  pub system :
      s'.effects
      ≡ freed a (erase_idx a.chunks j) ++ (unmapped c.ptr (chunksize c.quantum) ∷ s.effects)

keep_chunks-map :
    (s : Arena) (i : ℕ) (a : Allocmap) (cs : List Chunk)
    → map_at s i ≡ some a
    → map_at (keep_chunks s i a cs) i ≡ kept_map a cs
unfolding keep_chunks
keep_chunks-map s i a [] e =
    ap (λ o. elim o as (λ x. Option Allocmap) [ none ↦ none | some m ↦ m ])
      (get_elem?-set_self s.maps i none (lt_of_get s.maps i (some a) (map_at_there s i a e)))
keep_chunks-map s i a (c ∷ cs) e = map_at-set_map s i a (record a { chunks = c ∷ cs }) e

keep_chunks-others :
    (s : Arena) (i x : ℕ) (a : Allocmap) (cs : List Chunk)
    → i ≢ x
    → map_at (keep_chunks s i a cs) x ≡ map_at s x
unfolding keep_chunks
keep_chunks-others s i x a [] n = map_at-set_map_ne s i x none n
keep_chunks-others s i x a (c ∷ cs) n =
    map_at-set_map_ne s i x (some (record a { chunks = c ∷ cs })) n

keep_chunks-count :
    (s : Arena) (i : ℕ) (a : Allocmap) (cs : List Chunk)
    → ((keep_chunks s i a cs).nummaps ≡ s.nummaps - length (freed a cs))
      × ((keep_chunks s i a cs).effects ≡ freed a cs ++ s.effects)
unfolding keep_chunks
keep_chunks-count s i a [] = (refl, refl)
keep_chunks-count s i a (c ∷ cs) = (omega arith, refl)

free_last :
    (s : Arena) (p i j : ℕ) (a : Allocmap) (c : Chunk)
    → p ≢ 0
    → find_map s.maps s.nummaps p ≡ some (i, j)
    → map_at s i ≡ some a
    → get_elem? a.chunks j ≡ some c
    → c.quantum < page_size
    → ((k : ℕ) → k < units → k ≢ ((p - c.ptr) / c.quantum) → c.used k ≡ false)
    → bzt_free s p
      ≡ keep_chunks (emit s (unmapped c.ptr (chunksize c.quantum))) i a (erase_idx a.chunks j)
unfolding bzt_free release give_back
free_last s p i j a c nz found e at small alone =
    let k = (p - c.ptr) / c.quantum in
    let z : (p == 0) ≡ false = ground (arith, nz) in
    let large : ltb c.quantum alloc_size ≡ true = ground (arith, small) in
    let tiny : ltb c.quantum page_size ≡ true = ground (arith, small) in
    let clear : (x : ℕ) → x < 64 * 8 → mark c.used k false x ≡ false = λ x l.
      elim (ℕ_discrete x k) [
        | yes same ↦ ground (arith, same)
        | no differ ↦ ground (arith, differ, alone x l differ)
      ] in
    let sum : sum_words (mark c.used k false) bitmap_size ≡ 0 =
      sum_words-zero (mark c.used k false) 8 clear in
    rw (z, found, e, at, large, tiny, sum) refl

-- A block below a page is given back, and no other unit of its chunk is in use: the chunk leaves its map, and the system
-- gets its memory; when it was the only one, the map leaves the arena, which counts one map less, and the system gets
-- its memory too. No other map changes.
pub bzt_free_last :
    (s : Arena) (p i j : ℕ) (a : Allocmap) (c : Chunk)
    → p ≢ 0
    → find_map s.maps s.nummaps p ≡ some (i, j)
    → map_at s i ≡ some a
    → get_elem? a.chunks j ≡ some c
    → c.quantum < page_size
    → ((k : ℕ) → k < units → k ≢ ((p - c.ptr) / c.quantum) → c.used k ≡ false)
    → Gone s (bzt_free s p) i j a c
bzt_free_last s p i j a c nz found e at small alone =
    let s1 : Arena = emit s (unmapped c.ptr (chunksize c.quantum)) in
    let cs : List Chunk = erase_idx a.chunks j in
    let (count, system) = keep_chunks-count s1 i a cs in
    rw (free_last s p i j a c nz found e at small alone) record {
      map = keep_chunks-map s1 i a cs e;
      others = λ x n. keep_chunks-others s1 i x a cs n;
      count = count;
      system = system;
    }
