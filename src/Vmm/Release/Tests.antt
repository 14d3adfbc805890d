-- ===== src/Vmm/Release/Tests.antt =====
-- Runs of vmm_free.
use bztsrc_osz.Prelude.{
  ℕ, ◌+◌, ◌<◌, ◌≤◌, ◌≡◌, ◌≢◌, ◌⊎◌, refl, ◌==◌, ◌&&◌, true, false, Option, none, some, [],
  if◌then◌else◌, arith,
}
use bztsrc_osz.Pmm.{Pmm, Task}
use bztsrc_osz.Vmm.{Space, present, write}
use bztsrc_osz.Vmm.Map.{Owner}
use bztsrc_osz.Vmm.Release.{drop_pages, free_page, free_pages, free_round, free_rounds, vmm_free}
use bztsrc_osz.Vmm.Release.Cleared.{free_pages-cleared}
use bztsrc_osz.Vmm.Release.Cleared.Ends.{free_rounds_end}

abbrev pages : Pmm
pages = record {
  entries = [];
  freepages = 0;
  totalpages = 1000;
  runlevel = 3;
  errno = 0;
  mem = λ a. 0;
}

abbrev task : Task
task = record { magic = true; allocmem = 0 }

abbrev owner : Owner
owner = record { idle = false; task = task; linkmem = 8; memroot = 4096 }

-- The tables of the page at 1 GB, which is shared: the first gigabyte has no table.
abbrev tables : ℕ → ℕ → ℕ
tables p k =
    if (p == 4096) && (k == 0)
    then 0x2001
    else if (p == 0x2000) && (k == 1)
    then 0x3001
    else if (p == 0x3000) && (k == 0)
    then 0x4001
    else if (p == 0x4000) && (k == 0)
    then 0x9801
    else 0

abbrev space : Space
space = record { pmm = pages; task = task; linkmem = 8; table = tables }

abbrev result : Option (Option Space) → ℕ
result none = 0
result (some none) = 0
result (some (some s)) = s.table 0x4000 0

-- Two pages from the last one of the first gigabyte on: the second one stays, since the first one is not there.
page_stays : result (vmm_free 4 owner owner pages tables 0x3ffff000 8192) ≡ 0x9801
unfolding vmm_free free_rounds free_round
page_stays = refl

-- The table of pages without its entry.
abbrev freed : Space
freed = record (write space 0x4000 0 0) { linkmem = 7 }

free_pages-cleared_example :
    ((x : ℕ) → x < 1 → present (freed.table 0x4000 (0 + x)) ≡ false)
    × ((q x : ℕ) → (q ≡ 0x4000 → (x < 0) ⊎ (0 + 1 ≤ x)) → freed.table q x ≡ space.table q x)
unfolding free_pages free_page drop_pages
free_pages-cleared_example =
    free_pages-cleared 1 0x4000 0 0x40001000 space freed 0x40000000 0x40001000 (omega arith)
      (omega arith) refl

free_rounds_end_example : free_rounds 2 0x2000 0x40000000 0x40001000 space 0x40000000 ≢ some none
free_rounds_end_example =
    free_rounds_end 1 2 0x2000 0x40000000 0x40001000 space 0x40000000 (omega arith) (omega arith)
      (omega arith)
