-- ===== src/Fs/Cache/Tests.antt =====
-- Runs of the block cache, and the theorem on a block that is used twice at a concrete line.
use bztsrc_osz.Prelude.{
  ℕ, ◌≡◌, refl, ◌==◌, Bool, true, false, Option, none, some, List, [], ◌∷◌, if◌then◌else◌, arith,
}
use bztsrc_osz.Fs.Cache.{
  Device, Entry, Cache, Request, drv_write, find, line, get_from, request, cache_getblock,
  cache_setblock, free_line, free_lines, cache_freeblocks, send_entry, flush_line, flush_lines,
  flush_prios, cache_flush,
}
use bztsrc_osz.Fs.Cache.Loop.{Endless, cache_getblock-Endless}

-- One device with the number 3.
abbrev disk : Device
disk = record { inode = 7; filesize = 40960; blksize = 512 }

abbrev devices : ℕ → Option Device
devices fd = if fd == 3 then some disk else none

abbrev nothing : Entry
nothing = record { fd = 0; prio = 0; lsn = 0; blk = []; next = 0 }

abbrev empty : Cache
empty = record {
  cachelines = 16;
  head = λ j. 0;
  entry = λ c. nothing;
  cache_inflush = 0;
  total = λ i. 0;
  out = λ i. 0;
  errno = 0;
  ackdelayed = false;
  requests = [];
}

-- Sectors 17 and 1, which are in the same line; 17 was used last.
abbrev two_blocks : Cache
two_blocks = record empty {
  head = λ j. if j == 1 then 100 else 0;
  entry = λ c.
      if c == 100
      then record { fd = 3; prio = 2; lsn = 17; blk = 5 ∷ []; next = 200 }
      else if c == 200
      then record { fd = 3; prio = 1; lsn = 1; blk = 6 ∷ []; next = 0 }
      else nothing;
}

abbrev line_of : Option (Cache × ℕ) → Option (List ℕ)
line_of none = none
line_of (some (s, c)) = line 9 s (s.head 1)

abbrev sent_of : Option Cache → List Request
sent_of none = []
sent_of (some s) = s.requests

abbrev delayed_of : Option (Cache × ℕ) → Bool
delayed_of none = false
delayed_of (some (s, c)) = s.ackdelayed

-- The block that is used comes to the front; one that is not there is asked for, but not when its line is empty.
get_runs :
    (line_of (cache_getblock devices 9 two_blocks 3 1) ≡ some (200 ∷ 100 ∷ []))
    × (delayed_of (cache_getblock devices 9 two_blocks 3 33) ≡ true)
    × (delayed_of (cache_getblock devices 9 two_blocks 3 2) ≡ false)
    × (line_of (cache_getblock devices 9 two_blocks 3 17) ≡ none)
unfolding cache_getblock get_from request find line
get_runs = (refl, refl, refl, refl)

abbrev set_of : Option (Cache × Bool) → Option (List ℕ)
set_of none = none
set_of (some (s, b)) = line 9 s (s.head 1)

set_runs :
    set_of (cache_setblock devices 9 two_blocks 3 33 (8 ∷ []) 4 300) ≡ some (300 ∷ 100 ∷ 200 ∷ [])
unfolding cache_setblock find line
set_runs = refl

-- The more urgent block is written first, and comes last in the list of requests.
flush_runs :
    sent_of (cache_flush devices 9 two_blocks)
    ≡ drv_write 3 17 (5 ∷ []) ∷ drv_write 3 1 (6 ∷ []) ∷ []
unfolding cache_flush flush_prios flush_lines flush_line send_entry line
flush_runs = refl

free_runs : line_of (cache_freeblocks devices 9 two_blocks 3 0) ≡ some []
unfolding cache_freeblocks free_lines free_line line
free_runs = refl

cache_getblock-Endless_example :
    (s' : Cache) × (cache_getblock devices 9 two_blocks 3 17 ≡ some (s', 100))
    × (s'.head 1 ≡ 100)
    × Endless s' 100
cache_getblock-Endless_example =
    cache_getblock-Endless devices two_blocks 3 17 100 8 disk refl (omega arith) (omega arith) refl
      (omega arith) refl
