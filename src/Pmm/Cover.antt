-- ===== src/Pmm/Cover.antt =====
-- The abstract view of the free list of pmm.c: how often each physical address is free, and how many
-- pages are; and the invariant of the manager.
use bztsrc_osz.Prelude.{
  ℕ, ◌+◌, ◌*◌, ◌%◌, ◌^◌, ◌≤◌, ◌<◌, ◌≡◌, ◌&&◌, List, arith, ltb, leb, if◌then◌else◌, tally, All,
}
use bztsrc_osz.Pmm.{Entry, Pmm, page_size}

-- 1 if address `a` lies in the block, 0 if not.
abbrev pub within : ℕ → ℕ → ℕ → ℕ
within a base bytes = if leb base a && ltb a (base + bytes) then 1 else 0

abbrev pub entry_cover : ℕ → Entry → ℕ
entry_cover a e = within a e.base (e.size * page_size)

-- How many free regions hold the address.
unfoldable pub cover : ℕ → List Entry → ℕ
cover a es = tally (entry_cover a) es

abbrev pub pages_of : Entry → ℕ
pages_of e = e.size

-- The pages of all free regions together.
unfoldable pub free_total : List Entry → ℕ
free_total es = tally pages_of es

-- The widest physical address of both architectures.
abbrev pub phys_limit : ℕ
phys_limit = 2 ^ 52

-- A region is not empty, does not begin at address 0, begins at a page, and lies within the physical addresses.
pub record IsRegion (e : Entry) : Type 0 where
  pub based : 0 < e.base
  pub sized : 0 < e.size
  pub aligned : e.base % page_size ≡ 0
  pub ends : e.base + e.size * page_size < phys_limit

pub record IsValid (p : Pmm) : Type 0 where
  pub regions : All IsRegion p.entries
  pub counted : free_total p.entries ≡ p.freepages
  pub bounded : p.freepages ≤ p.totalpages
  pub small : p.totalpages < 2 ^ 52

-- Two blocks that meet cover what the joined block covers.
pub within-join : (a base m n : ℕ) → within a base (m + n) ≡ within a base m + within a (base + m) n
within-join a base m n = ground arith
