-- ===== src/Vmm/Map/Tests.antt =====
-- Runs of vmm_map.
use bztsrc_osz.Prelude.{
  ℕ, ◌*◌, ◌≡◌, ◌≢◌, refl, ◌==◌, ◌&&◌, true, false, none, some, [], ◌∷◌, if◌then◌else◌, arith,
}
use bztsrc_osz.Pmm.{Pmm, Task}
use bztsrc_osz.Vmm.{Space, efault, seterr}
use bztsrc_osz.Vmm.Map.{Rest, mapped, failed, map_pages, Owner, vmm_map}
use bztsrc_osz.Vmm.Map.Pages.{Linked, map_pages-Linked, map_pages-used}
use bztsrc_osz.Vmm.Map.Ends.{vmm_map_ends}

-- 100 pages from 1 MB on.
abbrev pages : Pmm
pages = record {
  entries = record { base = 0x100000; size = 100 } ∷ [];
  freepages = 100;
  totalpages = 1000;
  runlevel = 3;
  errno = 0;
  mem = λ a. 0;
}

abbrev task : Task
task = record { magic = true; allocmem = 0 }

-- Entry 0 of the table of 512 GB at 4096 is the table at 8192.
abbrev tables : ℕ → ℕ → ℕ
tables p k = if (p == 4096) && (k == 0) then 8193 else 0

abbrev owner : Owner
owner = record { idle = false; task = task; linkmem = 0; memroot = 4096 }

abbrev space : Space
space = record { pmm = pages; task = task; linkmem = 0; table = tables }

-- The third entry of the table at 12288 is in use.
abbrev used_third : Space
used_third = record space { table = λ p k. if (p == 12288) && (k == 2) then 1 else 0 }

abbrev three_pages : Rest
three_pages = record { bss = 0x100000000; phys = 0x200000; size = 3 * 4096 }

map_pages-Linked_example :
    (s' : Space) × (map_pages 512 0x3000 0 7 space three_pages ≡ some (mapped s'))
    × Linked space s' 0x3000 0 7 0x200000 3
map_pages-Linked_example =
    map_pages-Linked 512 0x3000 0 7 space three_pages 3 (omega arith) (omega arith) (omega arith)
      refl (omega arith) (λ k h. refl)

map_pages-used_example :
    (s' : Space) × (map_pages 512 12288 0 7 used_third three_pages
      ≡ some (failed (seterr s' efault)))
    × Linked used_third s' 12288 0 7 0x200000 2
map_pages-used_example =
    map_pages-used 512 12288 0 7 used_third three_pages 2 (omega arith) (omega arith) (omega arith)
      (omega arith) (omega arith) (λ k h. ground (arith, h)) refl

vmm_map_ends_example : vmm_map 4 owner owner pages tables 0x100000000 0 12000 7 ≢ some none
vmm_map_ends_example = vmm_map_ends 4 owner owner pages tables 0x100000000 0 12000 7 (omega arith)
