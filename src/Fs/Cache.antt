-- ===== src/Fs/Cache.antt =====
-- The block cache of the file system service, src/fs/cache.c: lines of blocks, each a chain of entries in which
-- the block that was used last comes first. A walk along a line takes fuel, and `none` is fuel that ran out. The
-- parameter says which block devices there are; what malloc returns is an argument.
pub mod Loop
pub mod Tests
use bztsrc_osz.Prelude.{
  ℕ, zero, suc, ◌+◌, ◌-◌, ◌*◌, ◌%◌, ◌==◌, ◌||◌, ◌&&◌, not, Bool, true, false, Option, none, some,
  List, [], ◌∷◌, ltb, leb, if◌then◌else◌, sub64, mul64, add64, ◌>>=◌,
}
use bztsrc_osz.Fs.Pipe.{minus_one}

abbrev pub efault : ℕ
efault = 4

abbrev pub bufsiz : ℕ
bufsiz = 65536

-- BLKPRIO_*: not to be written, and from the first to the last that is.
abbrev pub blkprio_crit : ℕ
blkprio_crit = 1

abbrev pub blkprio_meta : ℕ
blkprio_meta = 4

-- The block device of an fcb.
pub record Device : Type 0 where
  pub inode : ℕ
  pub filesize : ℕ
  pub blksize : ℕ

-- cache_t. The priority is the upper four bits of the field fd, and `blk` the content of the block.
pub record Entry : Type 0 where
  pub fd : ℕ
  pub prio : ℕ
  pub lsn : ℕ
  pub blk : List ℕ
  pub next : ℕ

-- What is sent: a read to a driver, a write, and the progress of a device.
pub data Request : Type 0 where
  drv_read : ℕ → ℕ → ℕ → Request
  drv_write : ℕ → ℕ → List ℕ → Request
  devprogress : ℕ → ℕ → ℕ → Request

-- The lines, by the address of their first entry, with 0 for none, the entries by their addresses, and the
-- counters of the devices.
pub record Cache : Type 0 where
  pub cachelines : ℕ
  pub head : ℕ → ℕ
  pub entry : ℕ → Entry
  pub cache_inflush : ℕ
  pub total : ℕ → ℕ
  pub out : ℕ → ℕ
  pub errno : ℕ
  pub ackdelayed : Bool
  -- The latest request comes first.
  pub requests : List Request

abbrev pub write {ℓ} : {A : Type ℓ} → (ℕ → A) → ℕ → A → ℕ → A
write f a v x = if x == a then v else f x

abbrev pub set_next : Cache → ℕ → ℕ → Cache
set_next s c n = record s { entry = write s.entry c (record (s.entry c) { next = n }) }

abbrev pub set_head : Cache → ℕ → ℕ → Cache
set_head s j c = record s { head = write s.head j c }

-- The entry is that of a block.
abbrev pub holds : Cache → ℕ → ℕ → ℕ → Bool
holds s c fd lsn = ((s.entry c).fd == fd) && ((s.entry c).lsn == lsn)

-- The walk along a line from entry `c` behind entry `l`: the entry of the block with the one before it, or 0.
pub find : ℕ → Cache → ℕ → ℕ → ℕ → ℕ → Option (ℕ × ℕ)
find zero s fd lsn l c = none
find (suc fuel) s fd lsn l c =
    let rest = find fuel s fd lsn c (s.entry c).next in
    if c == 0 then some (l, 0) else if holds s c fd lsn then some (l, c) else rest

-- The entry leaves its place behind `l`; the first one stays.
abbrev pub cut : Cache → ℕ → ℕ → Cache
cut s l c = if l == 0 then s else set_next s l (s.entry c).next

-- The entry becomes the first of its line.
abbrev pub to_front : Cache → ℕ → ℕ → Cache
to_front s j c = set_head (set_next s c (s.head j)) j c

-- The entries of a line.
pub line : ℕ → Cache → ℕ → Option (List ℕ)
line zero s c = none
line (suc fuel) s c = elim (line fuel s (s.entry c).next) [
  | none ↦ if c == 0 then some [] else none
  | some cs ↦ if c == 0 then some [] else some (c ∷ cs)
]

-- The entries of a device leave a line, the last one first.
pub free_line : Cache → ℕ → ℕ → ℕ → List ℕ → Cache × ℕ
free_line s j fd l [] = (s, 0)
free_line s j fd l (c ∷ cs) =
    let (s', n) = free_line s j fd c cs in
    if not ((s'.entry c).fd == fd)
    then (s', n)
    else if l == 0
    then (set_head s' j (s'.entry c).next, n + 1)
    else (set_next s' l (s'.entry c).next, n + 1)

-- The lines below `n`, the last one first, until enough entries are free.
pub free_lines : ℕ → Cache → ℕ → ℕ → ℕ → ℕ → Option (Cache × ℕ)
free_lines fuel s fd needed cnt zero = some (s, cnt)
free_lines fuel s fd needed cnt (suc j) =
    if (needed == 0) || ltb cnt needed
    then elim (line fuel s (s.head j)) [
      | none ↦ none
      | some cs ↦ let (s', n) = free_line s j fd 0 cs in free_lines fuel s' fd needed (cnt + n) j
    ]
    else some (s, cnt)

module _ (device : ℕ → Option Device) where
  -- The driver is asked for a block; of the first one more is read.
  pub request : Cache → ℕ → Device → ℕ → Cache
  request s fd d lsn =
      let bs = if (lsn == 0) && ltb d.blksize bufsiz then bufsiz else d.blksize in
      record s { requests = drv_read d.inode lsn bs ∷ s.requests; ackdelayed = true }

  pub get_from : ℕ → Cache → ℕ → Device → ℕ → Option (Cache × ℕ)
  get_from fuel s fd d lsn =
      let j = lsn % s.cachelines in
      elim (find fuel s fd lsn 0 (s.head j)) [
        | none ↦ none
        | some (l, c) ↦
            if c == 0 then some (request s fd d lsn, 0) else some (to_front (cut s l c) j c, c)
      ]

  -- cache_getblock; the result is the entry of the block, or 0.
  pub cache_getblock : ℕ → Cache → ℕ → ℕ → Option (Cache × ℕ)
  cache_getblock fuel s fd lsn = elim (device fd) [
    | none ↦ some (s, 0)
    | some d ↦
        if (lsn == minus_one) || (s.head (lsn % s.cachelines) == 0)
        then some (s, 0)
        else if ltb d.filesize (mul64 (add64 lsn 1) d.blksize)
        then some (record s { errno = efault }, 0)
        else get_from fuel s fd d lsn
  ]

  -- The content of the entry at the front.
  abbrev pub fill : Cache → ℕ → ℕ → ℕ → ℕ → List ℕ → Cache
  fill s c fd lsn prio blk = record s {
    entry = write s.entry c (record (s.entry c) { fd = fd; prio = prio; lsn = lsn; blk = blk });
  }

  -- cache_setblock. `fresh` is the address of a new entry, or 0 when there is no memory.
  pub cache_setblock : ℕ → Cache → ℕ → ℕ → List ℕ → ℕ → ℕ → Option (Cache × Bool)
  cache_setblock fuel s fd lsn blk prio fresh =
      let j = lsn % s.cachelines in
      elim (device fd) [
        | none ↦ some (s, false)
        | some d ↦
            if (lsn == minus_one) || leb d.blksize 1
            then some (s, false)
            else if ltb d.filesize (mul64 (add64 lsn 1) d.blksize)
            then some (record s { errno = efault }, false)
            else elim (find fuel s fd lsn 0 (s.head j)) [
              | none ↦ none
              | some (l, c) ↦
                  let nc = if c == 0 then fresh else c in
                  let s' = if c == 0 then s else cut s l c in
                  if nc == 0
                  then some (s, false)
                  else some (fill (to_front s' j nc) nc fd lsn (prio % 16) blk, true)
            ]
      ]

  -- cache_freeblocks, when there is memory for the index of a line.
  pub cache_freeblocks : ℕ → Cache → ℕ → ℕ → Option (Cache × ℕ)
  cache_freeblocks fuel s fd needed = elim (device fd) [
    | none ↦ some (s, 0)
    | some d ↦ if leb d.blksize 1 then some (s, 0) else free_lines fuel s fd needed 0 s.cachelines
  ]

  -- An entry is sent to its driver.
  pub send_entry : Cache → ℕ → Cache
  send_entry s c = elim (device (s.entry c).fd) [
    | none ↦ s
    | some d ↦ record s {
      requests = drv_write (s.entry c).fd (s.entry c).lsn (s.entry c).blk ∷ s.requests;
      total = write s.total d.inode (s.total d.inode + 1);
      cache_inflush = s.cache_inflush + 1;
    }
  ]

  pub flush_line : Cache → ℕ → List ℕ → Cache
  flush_line s p [] = s
  flush_line s p (c ∷ cs) = flush_line (if (s.entry c).prio == p then send_entry s c else s) p cs

  -- The last `n` lines, from the first of them on.
  pub flush_lines : ℕ → Cache → ℕ → ℕ → Option Cache
  flush_lines fuel s p zero = some s
  flush_lines fuel s p (suc n) = elim (line fuel s (s.head (s.cachelines - suc n))) [
    | none ↦ none
    | some cs ↦ flush_lines fuel (flush_line s p cs) p n
  ]

  -- The last `n` priorities, from the first of them on.
  pub flush_prios : ℕ → Cache → ℕ → Option Cache
  flush_prios fuel s zero = some s
  flush_prios fuel s (suc n) = elim (flush_lines fuel s (blkprio_meta - n) s.cachelines) [
    | none ↦ none
    | some s' ↦ flush_prios fuel s' n
  ]

  pub cache_flush : ℕ → Cache → Option Cache
  cache_flush fuel s =
      flush_prios fuel (record s { cache_inflush = 0 }) (blkprio_meta + 1 - blkprio_crit)

  -- A block of a device was written: its counters, which start again when all blocks are.
  pub written : Cache → ℕ → ℕ → Cache
  written s fd i =
      let out = s.out i + 1 in
      let over = leb (s.total i) out in
      record s {
        out = write s.out i (if over then 0 else out);
        total = write s.total i (if over then 0 else s.total i);
        requests =
            devprogress fd (if over then 0 else out) (if over then 0 else s.total i) ∷ s.requests;
        cache_inflush = sub64 s.cache_inflush 1;
      }

  -- cache_cleardirty
  pub cache_cleardirty : ℕ → Cache → ℕ → ℕ → Option (Cache × Bool)
  cache_cleardirty fuel s fd lsn = elim (device fd) [
    | none ↦ some (s, false)
    | some d ↦
        if (lsn == minus_one) || (s.head (lsn % s.cachelines) == 0)
        then some (s, false)
        else elim (find fuel s fd lsn 0 (s.head (lsn % s.cachelines))) [
          | none ↦ none
          | some (l, c) ↦
              let s1 : Cache = record s {
                entry = write s.entry c (record (s.entry c) { prio = 0 });
              } in
              let s' = written (if c == 0 then s else s1) fd d.inode in
              some (s', s'.cache_inflush == 0)
        ]
  ]
