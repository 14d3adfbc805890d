-- ===== src/Libc/Bztalloc/Alloc/Tests.antt =====
-- Runs of bzt_alloc and bzt_free.
use bztsrc_osz.Prelude.{
  ℕ, ◌-◌, ◌/◌, ◌≤◌, ◌==◌, ◌||◌, Bool, true, false, Option, none, some, List, [], ◌∷◌, ◌≡◌, refl,
  ltb, arith,
}
use bztsrc_osz.Libc.Bztalloc.{
  Arena, Chunk, Allocmap, mapped, unmapped, zeroed, copied, bitmap_size, sum_words, scan_maps,
  scan_map, scan_chunks, scan_chunk, free_unit, quantum_from, release, give_back, keep_chunks,
  word_bits, bzt_free, find_map, find_chunk,
}
use bztsrc_osz.Libc.Bztalloc.Units.{Marks}
use bztsrc_osz.Libc.Bztalloc.Free.{Gone, bzt_free-Marks, bzt_free_last}
use bztsrc_osz.Libc.Bztalloc.Alloc.{
  bzt_alloc, first_map, alloc_in, scan_start, alloc_from, same_chunk, room, pick_chunk, in_map,
  in_new_map, new_map, put_map, new_chunk, add_chunk, on_unit, take_block, set_chunk, fill, finish,
  drop_old, old_bytes,
}
use bztsrc_osz.Libc.Bztalloc.Alloc.Fresh.{Takes, bzt_alloc-Takes}
use bztsrc_osz.Libc.Bztalloc.Alloc.Maps.{bzt_alloc-one_map}

abbrev empty : Arena
empty = record { base = 0x1000000; nummaps = 0; maps = []; errno = 0; effects = [] }

abbrev any : ℕ → ℕ → Bool
any at n = true

-- mmap can map a page, and no more.
abbrev pages : ℕ → ℕ → Bool
pages at n = n == 4096

abbrev after : Option (Arena × ℕ) → Arena
after none = empty
after (some (s, p)) = s

abbrev got : Option (Arena × ℕ) → ℕ
got none = 1
got (some (s, p)) = p

abbrev alloc : Arena → ℕ → Option (Arena × ℕ)
alloc s n = bzt_alloc any false s 1 0 n

-- Two blocks of 100 bytes are units of 128 bytes.
two_blocks : got (alloc (after (alloc empty 100)) 100) ≡ 0x1400080
unfolding bzt_alloc first_map alloc_in scan_start alloc_from same_chunk room pick_chunk in_map
    in_new_map new_map put_map new_chunk add_chunk on_unit take_block set_chunk fill finish drop_old
    old_bytes scan_maps scan_map scan_chunks scan_chunk free_unit quantum_from release give_back
    keep_chunks sum_words word_bits bzt_free find_map find_chunk
two_blocks = refl

-- Where the system has no memory for the chunk, the chunk stays in the map, and the next call returns a block of it.
chunk_stays :
    got (bzt_alloc pages false (after (bzt_alloc pages false empty 1 0 100)) 1 0 100) ≡ 0x1400000
unfolding bzt_alloc first_map alloc_in scan_start alloc_from same_chunk room pick_chunk in_map
    in_new_map new_map put_map new_chunk add_chunk on_unit take_block set_chunk fill finish drop_old
    old_bytes scan_maps scan_map scan_chunks scan_chunk free_unit quantum_from release give_back
    keep_chunks sum_words word_bits bzt_free find_map find_chunk
chunk_stays = refl

-- Of 5 MB and a byte, 6 MB are mapped, and 8 MB are written.
written_beyond :
    (after (alloc empty 0x500001)).effects
    ≡ zeroed 0x1800000 0x800000 ∷ mapped 0x1800000 0x600000 ∷ mapped 0x1200000 4096 ∷ []
unfolding bzt_alloc first_map alloc_in scan_start alloc_from same_chunk room pick_chunk in_map
    in_new_map new_map put_map new_chunk add_chunk on_unit take_block set_chunk fill finish drop_old
    old_bytes scan_maps scan_map scan_chunks scan_chunk free_unit quantum_from release give_back
    keep_chunks sum_words word_bits bzt_free find_map find_chunk
written_beyond = refl

-- A block of a page that becomes one of 16 bytes: all of it is copied.
copied_beyond :
    (after (bzt_alloc any false (after (alloc empty 4096)) 1 0x1400000 16)).effects
    ≡ unmapped 0x1400000 4096
      ∷ copied 0x1600000 0x1400000 4096
      ∷ mapped 0x1600000 8192
      ∷ zeroed 0x1400000 4096
      ∷ mapped 0x1400000 4096
      ∷ mapped 0x1200000 4096
      ∷ []
unfolding bzt_alloc first_map alloc_in scan_start alloc_from same_chunk room pick_chunk in_map
    in_new_map new_map put_map new_chunk add_chunk on_unit take_block set_chunk fill finish drop_old
    old_bytes scan_maps scan_map scan_chunks scan_chunk free_unit quantum_from release give_back
    keep_chunks sum_words word_bits bzt_free find_map find_chunk
copied_beyond = refl

-- Units 63 and 127 are in use: the sum of the words wraps around to 0.
abbrev two_units : ℕ → Bool
two_units k = (k == 63) || (k == 127)

sum_wraps : sum_words two_units bitmap_size ≡ 0
unfolding sum_words word_bits
sum_wraps = refl

-- A map with a chunk of blocks of 64 bytes.
abbrev units_chunk : (ℕ → Bool) → Chunk
units_chunk used = record { quantum = 64; ptr = 0x1400000; used = used; size = 0 }

abbrev map_with : List Chunk → Allocmap
map_with cs = record { address = 0x1200000; chunks = cs }

abbrev arena_with : (ℕ → Bool) → Arena
arena_with used = record {
  base = 0x1000000;
  nummaps = 1;
  maps = some (map_with (units_chunk used ∷ [])) ∷ [];
  errno = 0;
  effects = [];
}

abbrev first_two : ℕ → Bool
first_two k = ltb k 2

abbrev only_second : ℕ → Bool
only_second k = k == 1

bzt_free_example :
    Marks
      (arena_with first_two)
      (bzt_free (arena_with first_two) 0x1400040)
      0
      0
      ((0x1400040 - 0x1400000) / 64)
      false
unfolding find_map find_chunk sum_words word_bits
bzt_free_example =
    bzt_free-Marks (arena_with first_two) 0x1400040 0 0 (units_chunk first_two) (omega arith) refl
      refl (omega arith) (omega arith)

bzt_free_last_example :
    Gone
      (arena_with only_second)
      (bzt_free (arena_with only_second) 0x1400040)
      0
      0
      (map_with (units_chunk only_second ∷ []))
      (units_chunk only_second)
unfolding find_map find_chunk
bzt_free_last_example =
    bzt_free_last (arena_with only_second) 0x1400040 0 0 (map_with (units_chunk only_second ∷ []))
      (units_chunk only_second) (omega arith) refl refl refl (omega arith)
      (λ k l n. ground (arith, n))

abbrev one_map : Arena
one_map = arena_with only_second

bzt_alloc_example :
    (i : ℕ) × (j : ℕ) × (k : ℕ) × Takes one_map (after (alloc one_map 60)) 64 i j k 0x1400000
unfolding bzt_alloc first_map alloc_in scan_start alloc_from same_chunk room pick_chunk in_map
    in_new_map new_map put_map new_chunk add_chunk on_unit take_block set_chunk fill finish drop_old
    old_bytes scan_maps scan_map scan_chunks scan_chunk free_unit quantum_from release give_back
    keep_chunks sum_words word_bits bzt_free find_map find_chunk
bzt_alloc_example =
    bzt_alloc-Takes any false one_map (after (alloc one_map 60)) 1 60 64 0x1400000 (omega arith)
      (omega arith) (omega arith) refl (omega arith) (omega arith) refl

one_map_example : (after (alloc one_map 60)).nummaps ≤ 1
unfolding bzt_alloc first_map alloc_in scan_start alloc_from same_chunk room pick_chunk in_map
    in_new_map new_map put_map new_chunk add_chunk on_unit take_block set_chunk fill finish drop_old
    old_bytes scan_maps scan_map scan_chunks scan_chunk free_unit quantum_from release give_back
    keep_chunks sum_words word_bits bzt_free find_map find_chunk
one_map_example =
    bzt_alloc-one_map any false one_map (after (alloc one_map 60)) 1 0 60 0x1400000 (omega arith)
      refl
