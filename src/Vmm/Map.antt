-- ===== src/Vmm/Map.antt =====
-- vmm_map of src/core/vmm.c. A round is what stands behind the label again; it ends there again, or the function
-- returns. The rounds take fuel.
pub mod Pages
pub mod Ends
pub mod Tests
use Prim.Native.Nat.{bit_or}
use bztsrc_osz.Prelude.{
  ℕ, zero, suc, ◌+◌, ◌-◌, ◌*◌, ◌/◌, ◌%◌, ◌^◌, ◌==◌, ◌||◌, ◌&&◌, not, Bool, true, false, Option,
  none, some, ◌>>=◌, ltb, leb, if◌then◌else◌, add64,
}
use bztsrc_osz.Pmm.{Pmm, Task, page_size, slot_size}
use bztsrc_osz.Vmm.{
  Space, core_rwnocache, user_rw, user_rwnocache, pg_page, pg_slot, pg_shared, pg_nx, dyn_address,
  buf_address, sdyn_address, ldyn_address, cdyn_top, einval, efault, enomem, phyaddr, present,
  whole_pages, seterr, write, new_page, new_slot, sub_table,
}

-- What is left to map: from the address `bss` on, to physical memory `phys`, or to new pages where this is 0.
pub record Rest : Type 0 where
  pub bss : ℕ
  pub phys : ℕ
  pub size : ℕ

-- How a round ends: on to the next one, with the memory mapped, or with -1.
pub data Round : Type 0 where
  again : Space → Rest → Round
  mapped : Space → Round
  failed : Space → Round

-- A step further.
abbrev pub behind : Rest → ℕ → Rest
behind r n = record {
  bss = add64 r.bss n;
  phys = if r.phys == 0 then 0 else add64 r.phys n;
  size = r.size - n;
}

-- The entry for the next page or slot, and its physical memory where it is there.
abbrev pub shared_entry : Rest → ℕ → ℕ → ℕ
shared_entry r a level = bit_or (bit_or (bit_or r.phys a) level) pg_shared

-- A page or slot is there, or there is no memory for it.
pub data Placed : Type 0 where
  placed no_memory : Space → Placed

pub place_slot : ℕ → ℕ → ℕ → Space → Rest → Option Placed
place_slot page i a s r =
    let linked : Space = record (write s page i (shared_entry r a pg_slot)) {
      linkmem = add64 s.linkmem (slot_size / page_size);
    } in
    let fresh : Option Placed = new_slot s >>= λ (b, s').
    some
      (if b == 0 then no_memory s' else placed (write s' page i (bit_or (bit_or b a) pg_slot))) in
    if not (r.phys == 0) then some (placed linked) else fresh

pub place_page : ℕ → ℕ → ℕ → Space → Rest → Option Placed
place_page page i a s r =
    let linked : Space = record (write s page i (shared_entry r a pg_page)) {
      linkmem = add64 s.linkmem 1;
    } in
    let fresh : Option Placed = new_page s >>= λ (b, s').
    some
      (if b == 0 then no_memory s' else placed (write s' page i (bit_or (bit_or b a) pg_page))) in
    if not (r.phys == 0) then some (placed linked) else fresh

-- The loop over the entries of a table of slots, of which `left` are left, from entry `i` on.
pub map_slots : ℕ → ℕ → ℕ → ℕ → Space → Rest → Option Round
map_slots zero page i a s r = some (again s r)
map_slots (suc left) page i a s r = elim (leb slot_size r.size) [
  | false ↦ some (again s r)
  | true ↦ elim (present (s.table page i)) [
    | true ↦ some (failed (seterr s efault))
    | false ↦ place_slot page i a s r >>= λ p. elim p [
      | placed s' ↦ map_slots left page (suc i) a s' (behind r slot_size)
      | no_memory s' ↦ some (failed s')
    ]
  ]
]

-- A round of the loop over pages: whether nothing is left, whether the entry is in use, and the page for it.
pub on_entry : Bool → Bool → Option Placed → Space → (Space → Option Round) → Option Round
on_entry true used page s next = some (mapped s)
on_entry false true page s next = some (failed (seterr s efault))
on_entry false false page s next =
    page >>= λ p. elim p [ placed s' ↦ next s' | no_memory s' ↦ some (failed s') ]

-- The loop over the entries of a table of pages.
pub map_pages : ℕ → ℕ → ℕ → ℕ → Space → Rest → Option Round
map_pages zero page i a s r = some (again s r)
map_pages (suc left) page i a s r =
    on_entry (r.size == 0) (present (s.table page i)) (place_page page i a s r) s
      (λ s'. map_pages left page (suc i) a s' (behind r page_size))

-- Entry `k` of a level of tables for an address.
abbrev pub index : ℕ → ℕ → ℕ
index bss level = (bss / level) % 512

-- The pages of the table below entry `i` of the table at `page`.
pub pages_round : ℕ → ℕ → ℕ → ℕ → Space → Rest → Option Round
pages_round page i a access s r = sub_table s page i access >>= λ (s', t). elim t [
  | none ↦ some (failed s')
  | some p ↦ let k = index r.bss page_size in map_pages (512 - k) p k a s' r
]

-- A round below the table at `root`.
pub round : ℕ → ℕ → ℕ → Space → Rest → Option Round
round root a access s r = sub_table s root (index r.bss 0x40000000) access >>= λ (s', t). elim t [
  | none ↦ some (failed s')
  | some page ↦
      let i = index r.bss slot_size in
      if not (present (s'.table page i))
        && (((r.phys % slot_size) == 0) && (((r.bss % slot_size) == 0) && leb slot_size r.size))
      then map_slots (512 - i) page i a s' r
      else pages_round page i a access s' r
]

-- The rounds. `none` behind the option is fuel that ran out.
pub rounds : ℕ → ℕ → ℕ → ℕ → Space → Rest → Option (Option Round)
rounds zero root a access s r = some none
rounds (suc fuel) root a access s r = round root a access s r >>= λ o. elim o [
  | again s' r' ↦ rounds fuel root a access s' r'
  | mapped s' ↦ some (some (mapped s'))
  | failed s' ↦ some (some (failed s'))
]

-- A task: whether it is that of the core, its counts, and its table of 512 GB.
pub record Owner : Type 0 where
  pub idle : Bool
  pub task : Task
  pub linkmem : ℕ
  pub memroot : ℕ

-- The access bits of the pages and those of their tables.
pub access_bits : ℕ → ℕ → ℕ × ℕ
access_bits bss access =
    if ltb bss sdyn_address
    then (if leb dyn_address bss && ltb bss buf_address
        then (bit_or pg_nx user_rw, bit_or pg_nx user_rw)
        else (bit_or access pg_nx, access))
    else if ltb bss ldyn_address
    then (bit_or access pg_nx, bit_or pg_nx user_rwnocache)
    else (bit_or pg_nx core_rwnocache, bit_or pg_nx core_rwnocache)

-- The arguments that vmm_map does not accept, with its error number where it sets one.
pub refused : Owner → ℕ → ℕ → Option (Option ℕ)
refused o bss size =
    let n = whole_pages size in
    if (n == 0)
      || ((not o.idle && (bss == 0))
          || (not ((bss / 2 ^ 39) == 0) && not (((bss / 2 ^ 39) % 512) == 511)))
    then some (some einval)
    else if ltb bss sdyn_address
    then (if not o.task.magic then some none else none)
    else if leb bss cdyn_top && leb cdyn_top (add64 bss n)
    then some (some enomem)
    else none

-- vmm_map, which returns its address where the memory is mapped, or -1. `core` is the task of the core, which memory of
-- the core is charged to.
pub vmm_map : ℕ → Owner → Owner → Pmm → (ℕ → ℕ → ℕ) → ℕ → ℕ → ℕ → ℕ → Option (Option Round)
vmm_map fuel o core p table bss phys size access =
    let c = if ltb bss sdyn_address then o else core in
    let s : Space = record { pmm = p; task = c.task; linkmem = c.linkmem; table = table } in
    let root = phyaddr (table (phyaddr c.memroot) (index bss 0x8000000000)) in
    let r : Rest = record { bss = bss; phys = phyaddr phys; size = whole_pages size } in
    elim (refused o bss size) [
      | some none ↦ some (some (failed s))
      | some (some e) ↦ some (some (failed (seterr s e)))
      | none ↦ rounds fuel root (access_bits bss access).0 (access_bits bss access).1 s r
    ]
