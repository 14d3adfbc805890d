-- ===== src/Pmm/Tests.antt =====
-- Runs of the physical memory manager, and its theorems at concrete inputs.
use bztsrc_osz.Prelude.{ℕ, ◌≡◌, refl, ◌⊎◌, true, some, [], ◌∷◌, arith, All, get_elem?}
use bztsrc_osz.Pmm.{Entry, Pmm, Task, alloc, allocslot, free, clear, enomem, slot_above}
use bztsrc_osz.Pmm.Cover.{free_total, IsValid}
use bztsrc_osz.Pmm.Alloc.{Small, Served, alloc_cases}
use bztsrc_osz.Pmm.Free.{Freed, free-Freed}
use bztsrc_osz.Pmm.Slot.{Fits, Leaks}
use bztsrc_osz.Pmm.AllocSlot.{SlotServed, SlotKept, SlotLost, allocslot_cases}
use bztsrc_osz.Pmm.RoundTrip.{Restored, free-alloc}

abbrev low : Entry
low = record { base = 0x1000; size = 2 }

abbrev high : Entry
high = record { base = 0x10000; size = 8 }

abbrev two_regions : Pmm
two_regions = record {
  entries = low ∷ high ∷ [];
  freepages = 10;
  totalpages = 16;
  runlevel = 3;
  errno = 0;
  mem = λ a. 255;
}

abbrev booting : Pmm
booting = record two_regions { runlevel = 0 }

abbrev task : Task
task = record { magic = true; allocmem = 4 }

two_regions-IsValid : IsValid two_regions
unfolding free_total
two_regions-IsValid = omega arith

booting-IsValid : IsValid booting
unfolding free_total
booting-IsValid = omega arith

-- The second region serves three pages from its front.
abbrev three_taken : Pmm
three_taken = record two_regions {
  entries = low ∷ record { base = 0x13000; size = 5 } ∷ [];
  freepages = 7;
  mem = clear 0x10000 0x3000 (λ a. 255);
}

alloc_three : alloc two_regions task 3 ≡ some (0x10000, three_taken, record task { allocmem = 7 })
unfolding alloc
alloc_three = refl

-- The freed block closes the gap between the two regions, which become one.
free_gap :
    free (record two_regions { totalpages = 30 }) task 0x3000 13
    ≡ some (
      record two_regions {
        entries = record { base = 0x1000; size = 23 } ∷ [];
        freepages = 23;
        totalpages = 30;
      },
      record task { allocmem = 0xffff_ffff_ffff_fff7 },
    )
unfolding free
free_gap = refl

alloc_cases_example :
    ((alloc two_regions task 3 ≡ some (0, record two_regions { errno = enomem }, task))
      × All (Small 3) (low ∷ high ∷ []))
    ⊎ (b : ℕ) × (q : Pmm) × (u : Task) × (alloc two_regions task 3 ≡ some (b, q, u))
      × Served two_regions task 3 b q u
alloc_cases_example =
    alloc_cases two_regions task 3 two_regions-IsValid refl (omega arith) (omega arith)

free-Freed_example :
    (q : Pmm) × (u : Task) × (free two_regions task 0x3000 4 ≡ some (q, u))
    × Freed two_regions task 0x3000 4 q u
free-Freed_example =
    free-Freed two_regions task 0x3000 4 two_regions-IsValid refl (omega arith) (omega arith)
      (omega arith) (omega arith) (omega arith)

free-alloc_example :
    (r : Pmm) × (w : Task) × (free three_taken (record task { allocmem = 7 }) 0x10000 3
      ≡ some (r, w))
    × Restored two_regions task r w
free-alloc_example =
    free-alloc two_regions three_taken task (record task { allocmem = 7 }) 3 0x10000
      two_regions-IsValid (omega arith) refl (omega arith) alloc_three (omega arith)

-- A region from one megabyte to four: the slot is its end, and its front is lost.
abbrev leaking : Pmm
leaking = record two_regions {
  entries = record { base = 0x100000; size = 768 } ∷ [];
  freepages = 768;
  totalpages = 768;
}

leaking-IsValid : IsValid leaking
unfolding free_total
leaking-IsValid = omega arith

allocslot_leaks :
    allocslot leaking task
    ≡ some (
      0x200000,
      record leaking {
        entries = record { base = 0x400000; size = 0 } ∷ [];
        freepages = 256;
        mem = clear 0x200000 0x200000 (λ a. 255);
      },
      record task { allocmem = 516 },
    )
unfolding allocslot
allocslot_leaks = refl

allocslot_cases_example :
    ((allocslot leaking task ≡ some (0, record leaking { errno = enomem }, task))
      × All (λ e. ¬ Fits e) leaking.entries)
    ⊎ (i : ℕ) × (e : Entry) × (q : Pmm) × (u : Task) × (get_elem? leaking.entries i ≡ some e)
      × Fits e
      × (allocslot leaking task ≡ some (slot_above e, q, u))
      × SlotServed leaking task (slot_above e) q u
      × (¬ Leaks e → SlotKept leaking (slot_above e) q)
      × (Leaks e → SlotLost leaking (slot_above e) e q)
allocslot_cases_example = allocslot_cases leaking task leaking-IsValid refl (omega arith)
