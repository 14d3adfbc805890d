-- ===== src/Libc/Bztalloc.antt =====
-- The memory allocator, src/libc/bztalloc.c as it is compiled for a task: bzt_alloc and bzt_free. An arena has
-- allocation maps, and these have chunks of 512 units of one size, or of one large block. Unit `k` of a chunk is
-- bit `k` of its map; the first word of the map is the size of a large block, here `size`. A parameter says
-- whether mmap can map so many bytes at an address. An alignment is a power of two.
pub mod Units
pub mod Free
pub mod Alloc
use bztsrc_osz.Prelude.{
  ℕ, zero, suc, ◌+◌, ◌-◌, ◌*◌, ◌/◌, ◌%◌, ◌^◌, ◌==◌, ◌||◌, ◌&&◌, not, Bool, true, false, Option,
  none, some, List, [], ◌∷◌, ◌++◌, ltb, leb, if◌then◌else◌, add64, length, get_elem?, set, take,
  erase_idx,
}

abbrev pub page_size : ℕ
page_size = 4096

abbrev pub alloc_size : ℕ
alloc_size = 0x200000

abbrev pub arena_size : ℕ
arena_size = alloc_size

abbrev pub max_arena : ℕ
max_arena = 262143

-- The units of a chunk, 64 in a word.
abbrev pub bitmap_size : ℕ
bitmap_size = 8

abbrev pub units : ℕ
units = bitmap_size * 64

abbrev pub max_chunks : ℕ
max_chunks = (alloc_size - 8) / 80

abbrev pub enomem : ℕ
enomem = 8

abbrev pub efault : ℕ
efault = 4

abbrev pub chunksize : ℕ → ℕ
chunksize q = (q * bitmap_size * 8 * 8 / page_size) * page_size

-- chunkmap_t
pub record Chunk : Type 0 where
  pub quantum : ℕ
  pub ptr : ℕ
  pub used : ℕ → Bool
  pub size : ℕ

-- allocmap_t at an address.
pub record Allocmap : Type 0 where
  pub address : ℕ
  pub chunks : List Chunk

-- What the system is asked for, and what is written to the memory of the caller.
pub data Effect : Type 0 where
  mapped unmapped zeroed : ℕ → ℕ → Effect
  copied : ℕ → ℕ → ℕ → Effect

-- An arena: its address, the number of its maps in its first word, and the words behind it, of which those behind
-- the list are 0. The latest effect comes first.
pub record Arena : Type 0 where
  pub base : ℕ
  pub nummaps : ℕ
  pub maps : List (Option Allocmap)
  pub errno : ℕ
  pub effects : List Effect

abbrev pub seterr : Arena → ℕ → Arena
seterr s e = record s { errno = e }

abbrev pub emit : Arena → Effect → Arena
emit s e = record s { effects = e ∷ s.effects }

-- The bytes of a chunk, and whether an address is one of them.
abbrev pub extent : Chunk → ℕ
extent c = if ltb c.quantum alloc_size then chunksize c.quantum else c.size

abbrev pub covers : Chunk → ℕ → Bool
covers c p = leb c.ptr p && ltb p (c.ptr + extent c)

abbrev pub shift_map : Option (ℕ × ℕ) → Option (ℕ × ℕ)
shift_map none = none
shift_map (some (i, j)) = some (suc i, j)

-- The first chunk of an address.
pub find_chunk : List Chunk → ℕ → Option ℕ
find_chunk [] p = none
find_chunk (c ∷ cs) p =
    let rest = find_chunk cs p in
    if covers c p then some 0 else elim rest [ none ↦ none | some j ↦ some (suc j) ]

-- The loops of bzt_free, with the number of maps that are left: the map and the chunk of an address.
pub find_map : List (Option Allocmap) → ℕ → ℕ → Option (ℕ × ℕ)
find_map [] left p = none
find_map (m ∷ ms) zero p = none
find_map (none ∷ ms) (suc left) p = shift_map (find_map ms (suc left) p)
find_map (some a ∷ ms) (suc left) p =
    let rest = shift_map (find_map ms left p) in
    elim (find_chunk a.chunks p) [ some j ↦ some (0, j) | none ↦ rest ]

-- The lower `n` bits of the word of the map that begins at unit `k`.
pub word_bits : (ℕ → Bool) → ℕ → ℕ → ℕ
word_bits used k zero = 0
word_bits used k (suc n) = word_bits used k n + (if used (k + n) then 2 ^ n else 0)

-- The sum of the first `n` words of the map, with the wrap of 64 bits.
pub sum_words : (ℕ → Bool) → ℕ → ℕ
sum_words used zero = 0
sum_words used (suc n) = add64 (sum_words used n) (word_bits used (64 * n) 64)

abbrev pub mark : (ℕ → Bool) → ℕ → Bool → ℕ → Bool
mark used k b x = if x == k then b else used x

-- A unit, or a large block, is given back: the chunk, whether that was the last one, and what the system gets.
pub give_back : Chunk → ℕ → Chunk × Bool × List Effect
give_back c p =
    let c' : Chunk = record c { used = mark c.used ((p - c.ptr) / c.quantum) false } in
    let l = sum_words c'.used bitmap_size in
    if not (ltb c.quantum alloc_size)
    then (c, true, unmapped c.ptr c.size ∷ [])
    else if not (ltb c.quantum page_size)
    then (c', l == 0, unmapped p c.quantum ∷ [])
    else (c', l == 0, if l == 0 then unmapped c.ptr (chunksize c.quantum) ∷ [] else [])

abbrev pub set_map : Arena → ℕ → Option Allocmap → Arena
set_map s i m = record s { maps = set s.maps i m }

-- The map has these chunks; without any, it leaves the arena.
pub keep_chunks : Arena → ℕ → Allocmap → List Chunk → Arena
keep_chunks s i a [] = record (set_map s i none) {
  nummaps = s.nummaps - 1;
  effects = unmapped a.address alloc_size ∷ s.effects;
}
keep_chunks s i a (c ∷ cs) = set_map s i (some (record a { chunks = c ∷ cs }))

-- A block of chunk `j` of map `i` is given back; these chunks stay when it was the last one of its chunk.
pub release : Arena → ℕ → ℕ → Allocmap → Chunk → ℕ → List Chunk → Arena
release s i j a c p kept =
    let (c', last, effects) = give_back c p in
    let s' : Arena = record s { effects = effects ++ s.effects } in
    if last
    then keep_chunks s' i a kept
    else set_map s' i (some (record a { chunks = set a.chunks j c' }))

abbrev pub map_at : Arena → ℕ → Option Allocmap
map_at s i = elim (get_elem? s.maps i) [ none ↦ none | some m ↦ m ]

abbrev pub chunk_at : Arena → ℕ → ℕ → Option Chunk
chunk_at s i j = elim (map_at s i) [ none ↦ none | some a ↦ get_elem? a.chunks j ]

-- bzt_free. What is found is in the arena.
pub bzt_free : Arena → ℕ → Arena
bzt_free s p = if p == 0 then s else elim (find_map s.maps s.nummaps p) [
  | none ↦ seterr s efault
  | some (i, j) ↦ elim (map_at s i) [
    | none ↦ s
    | some a ↦ elim (get_elem? a.chunks j) [
      | none ↦ s
      | some c ↦ release s i j a c p (erase_idx a.chunks j)
    ]
  ]
]

-- The smallest power of two, from `q` on, that is not below `s`; `none` is a shift that gives 0, and a loop that
-- does not end.
pub quantum_from : ℕ → ℕ → ℕ → Option ℕ
quantum_from zero q s = none
quantum_from (suc n) q s = let rest = quantum_from n (q * 2) s in if ltb q s then rest else some q

abbrev pub quantum_of : ℕ → Option ℕ
quantum_of s = quantum_from 61 8 s

-- The first unit that is not in use, of every `step`, from unit `k` on.
pub free_unit : ℕ → (ℕ → Bool) → ℕ → ℕ → Option ℕ
free_unit zero used step k = none
free_unit (suc n) used step k =
    let rest = free_unit n used step (k + step) in
    if not (ltb k units) then none else if used k then rest else some k

-- What the loops of bzt_alloc find: the chunk for the new block with its unit, the chunk of the old block, a map
-- with room, the last map, the lowest chunk, the end of the lowest map, and the end of everything.
pub record Scan : Type 0 where
  pub ncm : Option (ℕ × ℕ × ℕ)
  pub ocm : Option (ℕ × ℕ)
  pub fc : Option ℕ
  pub am : ℕ
  pub sp : Option ℕ
  pub lp : Option ℕ
  pub fp : ℕ

abbrev pub lower : Option ℕ → ℕ → Option ℕ
lower none x = some x
lower (some y) x = if ltb x y then some x else some y

abbrev pub higher : ℕ → ℕ → ℕ
higher x y = if ltb y x then x else y

-- Chunk `j` of map `i`, for blocks of `q` bytes aligned to `a`.
pub scan_chunk : ℕ → ℕ → ℕ → ℕ → ℕ → Chunk → Scan → Scan
scan_chunk q a p i j c t =
    let fits = (c.quantum == q) && (ltb q alloc_size && ((c.ptr % a) == 0)) in
    let unit = free_unit units c.used (a / q) 0 in
    record t {
      ncm = if fits then elim unit [ none ↦ t.ncm | some k ↦ some (i, j, k) ] else t.ncm;
      ocm = if not (p == 0) && covers c p then some (i, j) else t.ocm;
      sp = lower t.sp c.ptr;
      fp = higher (c.ptr + extent c) t.fp;
    }

pub scan_chunks : ℕ → ℕ → ℕ → ℕ → ℕ → List Chunk → Scan → Scan
scan_chunks q a p i j [] t = t
scan_chunks q a p i j (c ∷ cs) t = scan_chunks q a p i (suc j) cs (scan_chunk q a p i j c t)

-- The part of the loop for a map, before its chunks.
pub scan_map : ℕ → Allocmap → Scan → Scan
scan_map i m t = record t {
  fc = elim t.fc [
    | some f ↦ some f
    | none ↦ if ltb (length m.chunks) max_chunks then some i else none
  ];
  am = i;
  lp = lower t.lp (m.address + alloc_size);
  fp = higher (m.address + alloc_size) t.fp;
}

-- The maps from `i` on, of which `left` are left; the number of words that were looked at comes with it.
pub scan_maps : ℕ → ℕ → ℕ → ℕ → List (Option Allocmap) → ℕ → Scan → Scan × ℕ
scan_maps q a p i [] zero t = (t, i)
scan_maps q a p i [] (suc left) t = (t, max_arena - 1)
scan_maps q a p i (m ∷ ms) zero t = (t, i)
scan_maps q a p i (none ∷ ms) (suc left) t = scan_maps q a p (suc i) ms (suc left) t
scan_maps q a p i (some m ∷ ms) (suc left) t =
    scan_maps q a p (suc i) ms left (scan_chunks q a p i 0 m.chunks (scan_map i m t))
