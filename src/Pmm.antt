-- ===== src/Pmm.antt =====
-- The physical memory manager, src/core/pmm.c: pmm_alloc, pmm_allocslot and pmm_free over the list
-- of free regions. `entries` is pmm_entries[0 .. pmm_size), so pmm_size is its length; the page that
-- holds the array is taken to be long enough, which the source does not check either. Physical memory
-- is a function from addresses to bytes, since a fresh block is cleared. Entropy mixing, debug output
-- and the spinlock are left out; `none` is a kernel panic.
pub mod Cover
pub mod Alloc
pub mod Merge
pub mod Free
pub mod Slot
pub mod AllocSlot
pub mod RoundTrip
mod Tests
use bztsrc_osz.Prelude.{
  ℕ, ◌+◌, ◌-◌, ◌*◌, ◌/◌, Bool, not, ◌&&◌, ◌||◌, Option, none, some, List, [], ◌∷◌, ◌++◌, ltb, leb,
  ◌==◌, if◌then◌else◌, length, get_elem?, set, erase_idx, split_at, add64, sub64, mul64,
}

abbrev pub page_size : ℕ
page_size = 4096

-- __SLOTSIZE, two megabytes: 512 pages.
abbrev pub slot_size : ℕ
slot_size = 2097152

abbrev pub slot_pages : ℕ
slot_pages = 512

abbrev pub runlvl_vmem : ℕ
runlvl_vmem = 1

abbrev pub runlvl_norm : ℕ
runlvl_norm = 3

abbrev pub enomem : ℕ
enomem = 8

-- pmm_entry_t: a free region, its base in bytes and its size in pages.
pub record Entry : Type 0 where
  pub base : ℕ
  pub size : ℕ

-- The globals of pmm.c, with the run level, the error number and the memory that a call can change.
pub record Pmm : Type 0 where
  pub entries : List Entry
  pub freepages : ℕ
  pub totalpages : ℕ
  pub runlevel : ℕ
  pub errno : ℕ
  pub mem : ℕ → ℕ

-- The part of a tcb_t that the memory manager reads and writes; `magic` says that it is a valid one.
pub record Task : Type 0 where
  pub magic : Bool
  pub allocmem : ℕ

-- memset(base, 0, bytes)
pub clear : ℕ → ℕ → (ℕ → ℕ) → ℕ → ℕ
clear base bytes mem a = if leb base a && ltb a (base + bytes) then 0 else mem a

-- The search of pmm_alloc: the first region with enough pages gives its front, and vanishes when
-- nothing is left of it. Address 0 stands for no region found.
pub first_fit : ℕ → List Entry → ℕ × List Entry
first_fit pages [] = (0, [])
first_fit pages (e ∷ es) =
    let (b, rest) = first_fit pages es in
    if leb pages e.size
    then (
      e.base,
      if (e.size - pages) == 0
          then es
          else record { base = add64 e.base (mul64 pages page_size); size = e.size - pages } ∷ es,
    )
    else (b, e ∷ rest)

-- What pmm_alloc does once the search is over.
pub alloc_found : Pmm → Task → ℕ → ℕ × List Entry → Option (ℕ × Pmm × Task)
alloc_found p t pages (b, es) =
    if b == 0
    then (if ltb p.runlevel runlvl_norm
        then none
        else some (0, record p { entries = es; errno = enomem }, t))
    else some (
      b,
      record p {
        entries = es;
        freepages = sub64 p.freepages pages;
        mem = clear b (pages * page_size) p.mem;
      },
      record t { allocmem = add64 t.allocmem pages },
    )

-- pmm_alloc
pub alloc : Pmm → Task → ℕ → Option (ℕ × Pmm × Task)
unfolding first_fit alloc_found clear
alloc p t pages =
    if ltb p.totalpages p.freepages
    then none
    else if not t.magic || pages == 0
    then some (0, p, t)
    else alloc_found p t pages (first_fit pages p.entries)

-- The next slot boundary at or above the base of a region.
abbrev pub slot_above : Entry → ℕ
slot_above e = mul64 (add64 e.base (slot_size - 1) / slot_size) slot_size

-- The end of a region, in bytes.
abbrev pub end_of : Entry → ℕ
end_of e = add64 e.base (mul64 e.size page_size)

-- The loop of pmm_allocslot: the index of the first region that holds a whole aligned slot.
pub slot_fit : List Entry → Option ℕ
slot_fit [] = none
slot_fit (e ∷ es) =
    let rest = slot_fit es in
    if leb (add64 (slot_above e) slot_size) (end_of e)
    then some 0
    else elim rest [ none ↦ none | some i ↦ some (i + 1) ]

-- The update of the list at index `i`: a region that does not begin at the slot is split, and the
-- region behind the slot is shortened. When that one is empty the source removes index `i`, whether
-- or not it was split.
pub carve : List Entry → ℕ → Entry → List Entry
carve es i e =
    let b = slot_above e in
    let s = sub64 b e.base / page_size in
    let rest = sub64 e.size (s + slot_pages) in
    let tail : Entry = record { base = add64 b slot_size; size = rest } in
    let split : List Entry =
      if b == e.base
      then set es i tail
      else split_at es i (record { base = e.base; size = s }) tail in
    if rest == 0 then erase_idx split i else split

-- What pmm_allocslot does with the region that it found.
pub allocslot_found : Pmm → Task → ℕ → Entry → Option (ℕ × Pmm × Task)
allocslot_found p t i e = some (
  slot_above e,
  record p {
    entries = carve p.entries i e;
    freepages = sub64 p.freepages slot_pages;
    mem = clear (slot_above e) slot_size p.mem;
  },
  record t { allocmem = add64 t.allocmem slot_pages },
)

-- What follows the loop of pmm_allocslot.
abbrev pub allocslot_at : Pmm → Task → Option ℕ → Option (ℕ × Pmm × Task)
allocslot_at p t none =
    if ltb p.runlevel runlvl_norm then none else some (0, record p { errno = enomem }, t)
allocslot_at p t (some i) = elim (get_elem? p.entries i) [
  | none ↦ none
  | some e ↦ allocslot_found p t i e
]

-- pmm_allocslot
pub allocslot : Pmm → Task → Option (ℕ × Pmm × Task)
unfolding slot_fit carve allocslot_found clear
allocslot p t = if not t.magic then some (0, p, t) else allocslot_at p t (slot_fit p.entries)

-- How a freed block meets a region: it ends where the region begins, or begins where it ends.
pub data Side : Type 0 where
  front back : Side

-- The first region that the block touches.
pub touching : ℕ → ℕ → List Entry → Option (ℕ × Side)
touching base s [] = none
touching base s (e ∷ es) =
    let rest = touching base s es in
    if e.base == add64 base s
    then some (0, front)
    else if end_of e == base
    then some (0, back)
    else elim rest [ none ↦ none | some (i, side) ↦ some (i + 1, side) ]

-- The first region that `x` touches, from behind or in front.
pub neighbour : Entry → List Entry → Option (ℕ × Side)
neighbour x [] = none
neighbour x (e ∷ es) =
    let rest = neighbour x es in
    if end_of x == e.base
    then some (0, back)
    else if x.base == end_of e
    then some (0, front)
    else elim rest [ none ↦ none | some (i, side) ↦ some (i + 1, side) ]

-- The two regions that meet, as one.
abbrev pub join : Entry → Entry → Side → Entry
join x e back = record { base = x.base; size = add64 x.size e.size }
join x e front = record { base = e.base; size = add64 x.size e.size }

-- The second loop of pmm_free: region `i`, which is now `x`, swallows its first neighbour.
pub merge : List Entry → ℕ → Entry → List Entry
merge es i x = elim (neighbour x es) [
  | none ↦ es
  | some (j, side) ↦ elim (get_elem? es j) [
    | none ↦ es
    | some e ↦ erase_idx (set es i (join x e side)) j
  ]
]

-- Region `e` with the block put in front of it or behind it.
abbrev pub extended : ℕ → ℕ → Entry → Side → Entry
extended base pages e front = record { base = base; size = add64 e.size pages }
extended base pages e back = record { base = e.base; size = add64 e.size pages }

-- The first loop of pmm_free and the labels behind it: extend a region, or add one at the end.
pub insert_block : List Entry → ℕ → ℕ → List Entry
insert_block es base pages = elim (touching base (mul64 pages page_size) es) [
  | none ↦
      let x : Entry = record { base = base; size = pages } in merge (es ++ (x ∷ [])) (length es) x
  | some (i, side) ↦ elim (get_elem? es i) [
    | none ↦ es
    | some e ↦ merge (set es i (extended base pages e side)) i (extended base pages e side)
  ]
]

-- pmm_free. Physical page 0 is never given back. The region count is checked at the end.
free_pages : Pmm → Task → ℕ → ℕ → Option (Pmm × Task)
free_pages p t base pages =
    if not t.magic || pages == 0
    then some (p, t)
    else (let freed = add64 p.freepages pages in
        if ltb p.totalpages freed
        then none
        else some (
          record p { entries = insert_block p.entries base pages; freepages = freed },
          record t { allocmem = sub64 t.allocmem pages },
        ))

pub free : Pmm → Task → ℕ → ℕ → Option (Pmm × Task)
unfolding touching neighbour merge insert_block free_pages
free p t base pages =
    if base == 0 && ltb 0 pages
    then free_pages p t (add64 base page_size) (pages - 1)
    else free_pages p t base pages
