-- ===== src/Libc/Bztalloc/Alloc.antt =====
-- bzt_alloc of src/libc/bztalloc.c, a part at a time. `can_map` says whether mmap can map so many bytes at an address
-- during the call, and `sparse` is MAP_SPARSE of the flags. Where a part returns `none` behind the arena, the
-- source sets ENOMEM and returns NULL.
pub mod Found
pub mod Fresh
pub mod Maps
pub mod Tests
use bztsrc_osz.Prelude.{
  ℕ, zero, suc, ◌+◌, ◌-◌, ◌*◌, ◌/◌, ◌%◌, ◌==◌, ◌||◌, ◌&&◌, not, Bool, true, false, Option, none,
  some, List, [], ◌∷◌, ◌++◌, ltb, leb, if◌then◌else◌, length, set, take, erase_idx,
}
use bztsrc_osz.Libc.Bztalloc.{
  Chunk, Allocmap, Effect, Arena, Scan, mapped, zeroed, copied, page_size, alloc_size, arena_size,
  enomem, chunksize, seterr, emit, mark, set_map, map_at, chunk_at, release, bzt_free, quantum_of,
  scan_maps,
}

-- A map is written to a word of the arena.
pub put_map : List (Option Allocmap) → ℕ → Allocmap → List (Option Allocmap)
put_map [] zero m = some m ∷ []
put_map [] (suc i) m = none ∷ put_map [] i m
put_map (x ∷ xs) zero m = some m ∷ xs
put_map (x ∷ xs) (suc i) m = x ∷ put_map xs i m

abbrev pub round_up : ℕ → ℕ → ℕ
round_up n a = ((n + a - 1) / a) * a

-- The fields of a scan before the loops.
pub scan_start : Arena → Scan
scan_start s = record {
  ncm = none;
  ocm = none;
  fc = none;
  am = 0;
  sp = none;
  lp = none;
  fp = s.base + arena_size + alloc_size;
}

-- Where a new chunk begins: behind the lowest map where `n` bytes fit below the lowest chunk, or behind everything.
pub room : Scan → ℕ → ℕ → ℕ
room t n a = elim t.lp [
  | none ↦ t.fp
  | some l ↦ elim t.sp [
    | none ↦ t.fp
    | some p ↦ if ltb (l + round_up n alloc_size) p && ((l % a) == 0) then l else t.fp
  ]
]

-- The old block gets the same address.
pub same_chunk : Scan → ℕ → ℕ → Bool
same_chunk t q p =
    ltb q alloc_size
    && (not (p == 0) && elim t.ncm [
      | none ↦ false
      | some (i, j, k) ↦ elim t.ocm [ none ↦ false | some (i', j') ↦ (i == i') && (j == j') ]
    ])

-- A chunk of the arena is changed.
pub set_chunk : Arena → ℕ → ℕ → Chunk → Arena
set_chunk s i j c = elim (map_at s i) [
  | none ↦ s
  | some m ↦ set_map s i (some (record m { chunks = set m.chunks j c }))
]

-- The old block is given back. `m` is the map that the source last looked at.
pub drop_old : Arena → ℕ → Option (ℕ × ℕ) → ℕ → Arena
drop_old s m old p =
    let n : ℕ = elim (map_at s m) [ none ↦ 0 | some a ↦ length a.chunks ] in
    elim old [
      | none ↦ s
      | some (i, j) ↦ elim (map_at s i) [
        | none ↦ s
        | some a ↦ elim (chunk_at s i j) [
          | none ↦ s
          | some c ↦
              let kept =
                if ltb (j + 1) n
                then erase_idx a.chunks j
                else take (length a.chunks - 1) a.chunks in
              release s i j a c p kept
        ]
      ]
    ]

-- The bytes of a unit of the old block's chunk.
pub old_bytes : Arena → Option (ℕ × ℕ) → Option ℕ
old_bytes s none = none
old_bytes s (some (i, j)) = elim (chunk_at s i j) [ none ↦ none | some c ↦ some c.quantum ]

module _ (can_map : ℕ → ℕ → Bool) (sparse : Bool) where
  -- The first map of an arena without any.
  pub first_map : Arena → Option Arena
  first_map s =
      let at = s.base + arena_size in
      let m : Allocmap = record { address = at; chunks = [] } in
      if not (s.nummaps == 0)
      then some s
      else if can_map at page_size
      then some (record s {
        nummaps = 1;
        maps = put_map s.maps 0 m;
        effects = mapped at page_size ∷ s.effects;
      })
      else none

  -- A new map at `at`, in word `i` of the arena.
  pub new_map : Arena → ℕ → ℕ → Arena × Option ℕ
  new_map s i at =
      let m : Allocmap = record { address = at; chunks = [] } in
      let n = s.nummaps + 1 in
      let s' : Arena = record s { nummaps = n; effects = mapped at alloc_size ∷ s.effects } in
      let word = s.base + n * 8 in
      let crossed = not ((n * 8 / page_size) == ((n + 1) * 8 / page_size)) in
      let s'' : Arena = if crossed then emit s' (mapped word page_size) else s' in
      if leb s.nummaps i || not (can_map at alloc_size)
      then (s, none)
      else if crossed && not (can_map word page_size)
      then (s', none)
      else (record s'' { maps = put_map s.maps (i - 1) m }, some (i - 1))

  -- A new chunk for blocks of `q` bytes at `at`, behind the others of map `f`, which is `m`, with its first unit.
  pub add_chunk : Arena → ℕ → ℕ → ℕ → Allocmap → Arena × Option (ℕ × ℕ × ℕ)
  add_chunk s f q at m =
      let c : Chunk = record { quantum = q; ptr = at; used = λ k. false; size = 0 } in
      let s' = set_map s f (some (record m { chunks = m.chunks ++ (c ∷ []) })) in
      if not (not sparse && ltb q page_size)
      then (s', some (f, length m.chunks, 0))
      else if can_map at (chunksize q)
      then (emit s' (mapped at (chunksize q)), some (f, length m.chunks, 0))
      else (s', none)

  pub new_chunk : Arena → ℕ → ℕ → ℕ → Arena × Option (ℕ × ℕ × ℕ)
  new_chunk s f q at = elim (map_at s f) [ none ↦ (s, none) | some m ↦ add_chunk s f q at m ]

  -- A new chunk behind the others of map `f`, which for large blocks is aligned.
  pub in_map : Arena → ℕ → ℕ → ℕ → ℕ → (Arena × Option (ℕ × ℕ × ℕ)) × ℕ
  in_map s f q a at =
      let at' = if not (ltb q alloc_size) then round_up at a else at in (new_chunk s f q at', at')

  pub in_new_map : Arena × Option ℕ → ℕ → ℕ → ℕ → (Arena × Option (ℕ × ℕ × ℕ)) × ℕ
  in_new_map (s, none) q a at = ((s, none), at)
  in_new_map (s, some f) q a at = in_map s f q a (at + alloc_size)

  -- The chunk of the new block, and where a large block begins: the chunk that was found, or a new one in a map with
  -- room or in a new map.
  pub pick_chunk :
      Option (ℕ × ℕ × ℕ) → Option ℕ → Arena → ℕ → ℕ → ℕ → ℕ → (Arena × Option (ℕ × ℕ × ℕ)) × ℕ
  pick_chunk (some u) f s i q a at = ((s, some u), at)
  pick_chunk none (some f) s i q a at = in_map s f q a at
  pick_chunk none none s i q a at = in_new_map (new_map s i at) q a at

  -- The block is taken: unit `k` of the chunk, or a large one at `at`.
  pub take_block : Arena → ℕ → ℕ → ℕ → Chunk → ℕ → ℕ → ℕ → Arena × Option ℕ
  take_block s i j k c q n at =
      let unit = c.ptr + k * c.quantum in
      let marked = set_chunk s i j (record c { used = mark c.used k true }) in
      let n' = round_up n alloc_size in
      let sized = set_chunk s i j (record c { size = n' }) in
      if ltb q alloc_size
      then (if sparse || ltb q page_size
          then (marked, some unit)
          else if can_map unit c.quantum
          then (emit marked (mapped unit c.quantum), some unit)
          else (marked, none))
      else if sparse
      then (sized, some at)
      else if can_map at n'
      then (emit sized (mapped at n'), some at)
      else (s, none)

  -- What is written to the new block of `q` bytes at `at`; `old` are the bytes of the old one at `p`.
  pub fill : Arena → ℕ → ℕ → ℕ → Option ℕ → Arena
  fill s q at p old = if sparse then s else elim old [
    | none ↦ emit s (zeroed at q)
    | some o ↦
        let s' = emit s (copied at p o) in if ltb o q then emit s' (zeroed (at + o) (q - o)) else s'
  ]

  -- The end of bzt_alloc, with the block that was taken.
  pub finish : Arena × Option ℕ → ℕ → Option (ℕ × ℕ) → ℕ → ℕ → Option ℕ → Arena × ℕ
  finish (s, none) m old q p bytes = (seterr s enomem, 0)
  finish (s, some b) m old q p bytes = (drop_old (fill s q b p bytes) m old p, b)

  -- A block is taken from this chunk; `m` is the map of a chunk that is new.
  pub on_unit : (Arena × Option (ℕ × ℕ × ℕ)) × ℕ → Scan → ℕ → ℕ → ℕ → Arena × ℕ
  on_unit ((s, none), at) t q p n = (seterr s enomem, 0)
  on_unit ((s, some (i, j, k)), at) t q p n =
      let m : ℕ = elim t.ncm [ none ↦ i | some u ↦ t.am ] in
      elim (chunk_at s i j) [
        | none ↦ (s, 0)
        | some c ↦ finish (take_block s i j k c q n at) m t.ocm q p (old_bytes s t.ocm)
      ]

  -- From the scan on; `i` is the word behind the last one that was looked at.
  pub alloc_from : Arena → Scan → ℕ → ℕ → ℕ → ℕ → ℕ → Arena × ℕ
  alloc_from s t i q a p n =
      let picked = pick_chunk t.ncm t.fc s i q a (room t n a) in
      if same_chunk t q p then (s, p) else on_unit picked t q p n

  -- From the loops on.
  pub alloc_in : Arena → ℕ → ℕ → ℕ → ℕ → Arena × ℕ
  alloc_in s q a p n =
      let (t, i) = scan_maps q a p 0 s.maps s.nummaps (scan_start s) in
      alloc_from s t (i + 1) q a p n

  -- bzt_alloc of `n` bytes, aligned to `a`, for the block at `p`; `none` is a loop that does not end.
  pub bzt_alloc : Arena → ℕ → ℕ → ℕ → Option (Arena × ℕ)
  bzt_alloc s a p n = if n == 0 then some (bzt_free s p, 0) else elim (quantum_of n) [
    | none ↦ none
    | some q ↦
        let a' = if ltb a q then q else a in
        elim (first_map s) [
          | none ↦ some (seterr s enomem, 0)
          | some s' ↦ some (alloc_in s' q a' p n)
        ]
  ]
