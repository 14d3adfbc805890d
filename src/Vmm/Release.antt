-- ===== src/Vmm/Release.antt =====
-- vmm_free and vmm_del of src/core/vmm.c. `none` is a panic of pmm_free.
pub mod Cleared
pub mod Tests
use bztsrc_osz.Prelude.{
  ℕ, zero, suc, ◌+◌, ◌-◌, ◌*◌, ◌/◌, ◌%◌, ◌^◌, ◌==◌, ◌||◌, ◌&&◌, not, Bool, true, false, Option,
  none, some, ◌>>=◌, ltb, leb, if◌then◌else◌, add64, sub64,
}
use bztsrc_osz.Pmm.{Pmm, page_size, slot_size}
use bztsrc_osz.Vmm.{
  Space, pg_page, dyn_address, buf_address, sdyn_address, einval, phyaddr, present, is_slot,
  is_shared, whole_pages, seterr, write, give_page,
}
use bztsrc_osz.Vmm.Map.{Owner, index}

-- `n` pages of an entry: they are only linked, or given back.
pub drop_pages : Space → ℕ → ℕ → Option Space
drop_pages s entry n =
    if is_shared entry
    then some (record s { linkmem = sub64 s.linkmem n })
    else give_page s (phyaddr entry) n

-- An entry of a table of pages.
pub free_page : Space → ℕ → ℕ → Option Space
free_page s page k =
    if not (present (s.table page k))
    then some s
    else drop_pages s (s.table page k) 1 >>= λ s'. some (write s' page k 0)

-- The loop over a table of pages, of which `left` entries are left, from entry `k` on, up to the address `stop`.
pub free_pages : ℕ → ℕ → ℕ → ℕ → Space → ℕ → Option (Space × ℕ)
free_pages zero page k stop s bss = some (s, bss)
free_pages (suc left) page k stop s bss = elim (ltb bss stop) [
  | false ↦ some (s, bss)
  | true ↦ free_page s page k >>= λ s'. free_pages left page (suc k) stop s' (add64 bss page_size)
]

-- One of the first `n` entries of a table is in use.
pub any_present : ℕ → (ℕ → ℕ) → Bool
any_present zero t = false
any_present (suc n) t = any_present n t || present (t n)

-- A table without entries in use leaves the table above it, where it is entry `i`.
pub drop_table : Space → ℕ → ℕ → Option Space
drop_table s page i =
    let t = phyaddr (s.table page i) in
    if any_present 512 (s.table t)
    then some s
    else give_page s t 1 >>= λ s'. some (write s' page i 0)

-- The part of a level of tables that the loops go over: it begins at the address where vmm_free begins, or at entry 0,
-- and ends where vmm_free ends, or with the table.
abbrev pub first_index : ℕ → ℕ → ℕ → ℕ
first_index start bss level = if (start / level) == (bss / level) then index bss level else 0

-- The table of pages below entry `j`.
pub free_table : ℕ → ℕ → ℕ → ℕ → Space → ℕ → Option (Space × ℕ)
free_table page j start stop s bss =
    let t = phyaddr (s.table page j) in
    let last = if (stop / slot_size) == (bss / slot_size) then index stop page_size else 511 in
    let k = first_index start bss page_size in
    free_pages (last + 1 - k) t k stop s bss >>= λ (s', bss').
    drop_table s' page j >>= λ s''. some (s'', bss')

-- An entry of a table of slots.
pub free_slot : ℕ → ℕ → ℕ → ℕ → Space → ℕ → Option (Space × ℕ)
free_slot page j start stop s bss =
    let e = s.table page j in
    let below = free_table page j start stop s bss in
    let slot = drop_pages s e (slot_size / page_size) >>= λ s'.
    some (write s' page j 0, add64 bss slot_size) in
    if not (present e) then some (s, add64 bss slot_size) else if is_slot e then slot else below

-- The loop over a table of slots.
pub free_slots : ℕ → ℕ → ℕ → ℕ → ℕ → Space → ℕ → Option (Space × ℕ)
free_slots zero page j start stop s bss = some (s, bss)
free_slots (suc left) page j start stop s bss = elim (ltb bss stop) [
  | false ↦ some (s, bss)
  | true ↦ free_slot page j start stop s bss >>= λ (s', bss').
      free_slots left page (suc j) start stop s' bss'
]

-- A round of the loop over the table at `root`.
pub free_round : ℕ → ℕ → ℕ → Space → ℕ → Option (Space × ℕ)
free_round root start stop s bss =
    let i = index bss 0x40000000 in
    let last = if (stop / slot_size) == (bss / slot_size) then index bss slot_size else 511 in
    let j = first_index start bss slot_size in
    let below =
      free_slots (last + 1 - j) (phyaddr (s.table root i)) j start stop s bss >>= λ (s', bss').
      (if ltb stop sdyn_address then drop_table s' root i else some s') >>= λ s''.
      some (s'', bss') in
    if not (present (s.table root i)) then some (s, add64 bss 0x40000000) else below

-- The rounds. `none` behind the option is fuel that ran out.
pub free_rounds : ℕ → ℕ → ℕ → ℕ → Space → ℕ → Option (Option Space)
free_rounds zero root start stop s bss = some none
free_rounds (suc fuel) root start stop s bss = elim (ltb bss stop) [
  | false ↦ some (some s)
  | true ↦
      free_round root start stop s bss >>= λ (s', bss'). free_rounds fuel root start stop s' bss'
]

-- vmm_free; `core` is the task of the core, which memory of the core is charged to.
pub vmm_free : ℕ → Owner → Owner → Pmm → (ℕ → ℕ → ℕ) → ℕ → ℕ → Option (Option Space)
vmm_free fuel o core p table bss size =
    let c = if ltb bss sdyn_address then o else core in
    let s : Space = record { pmm = p; task = c.task; linkmem = c.linkmem; table = table } in
    let n = whole_pages size in
    let root = phyaddr (table (phyaddr c.memroot) (index bss 0x8000000000)) in
    let run = free_rounds fuel root bss (add64 bss n) s bss in
    if (n == 0)
      || ((not ((bss / 2 ^ 39) == 0) && not (((bss / 2 ^ 39) % 512) == 511)) || not o.task.magic)
    then some (some (seterr s einval))
    else run

-- The loop of vmm_del along the first entries: the tables on the way to the task control block are given back. The
-- window shows the page at `page`. Fuel that ran out is `none` behind the option.
pub free_path : ℕ → ℕ → Space → Option (Option Space)
free_path zero page s = some none
free_path (suc fuel) page s =
    let e = s.table page 0 in
    elim (present e) [
      | false ↦ some (some s)
      | true ↦ give_page s (phyaddr e) 1 >>= λ s'. free_path fuel (phyaddr e) s'
    ]

-- vmm_del
pub vmm_del : ℕ → Owner → Owner → Pmm → (ℕ → ℕ → ℕ) → Option (Option Space)
vmm_del fuel o core p table =
    let s : Space = record { pmm = p; task = o.task; linkmem = o.linkmem; table = table } in
    let root = phyaddr o.memroot in
    elim o.task.magic [
      | false ↦ some (some s)
      | true ↦ vmm_free fuel o core p table 0 (buf_address + dyn_address) >>= λ r. elim r [
        | none ↦ some none
        | some s' ↦ free_path fuel root s' >>= λ r'. elim r' [
          | none ↦ some none
          | some s'' ↦ give_page s'' root 1 >>= λ s3. some (some s3)
        ]
      ]
    ]
