-- ===== src/Vmm/Text.antt =====
-- vmm_maptext, vmm_swaptextbuf and vmm_page of src/core/vmm.c, and vmm_new of src/core/x86_64/vmm.c.
pub mod Swap
pub mod Ends
use Prim.Native.Nat.{bit_or}
use bztsrc_osz.Prelude.{
  ℕ, zero, suc, ◌+◌, ◌-◌, ◌*◌, ◌/◌, ◌%◌, ◌^◌, ◌==◌, ◌||◌, ◌&&◌, not, Bool, true, false, Option,
  none, some, List, [], ◌∷◌, ◌>>=◌, ltb, leb, if◌then◌else◌, add64, sub64,
}
use bztsrc_osz.Pmm.{Pmm, Task, page_size, slot_size}
use bztsrc_osz.Vmm.{
  Space, core_rw, user_rw, user_ro, pg_page, pg_shared, pg_nx, text_address, dyn_address,
  buf_address, einval, efault, phyaddr, present, is_slot, whole_pages, seterr, write, new_page,
  sub_table,
}
use bztsrc_osz.Vmm.Map.{index}

-- What is left of a code segment: its address, the physical pages, of which those that are not in the list cannot be
-- read, and its size.
pub record Segment : Type 0 where
  pub bss : ℕ
  pub phys : List ℕ
  pub size : ℕ

-- How a round ends: on to the next one, or with the address, NULL or -1.
pub data Ending : Type 0 where
  again : Space → Segment → Ending
  mapped null minus_one : Space → Ending

-- A round of the loop over pages: whether nothing is left, whether the entry is in use, and the pages.
pub text_page : Bool → Bool → List ℕ → Space → (ℕ → List ℕ → Option Ending) → Option Ending
text_page true used ps s next = some (mapped s)
text_page false true ps s next = some (minus_one (seterr s efault))
text_page false false [] s next = none
text_page false false (p ∷ ps) s next = next p ps

-- The loop over the entries of a table of pages, of which `left` are left, from entry `i` on.
pub text_pages : ℕ → ℕ → ℕ → Space → Segment → Option Ending
text_pages zero page i s r = some (again s r)
text_pages (suc left) page i s r =
    text_page (r.size == 0) (present (s.table page i)) r.phys s (λ p ps.
      text_pages left page (suc i)
        (record (write s page i (bit_or (bit_or (bit_or p user_ro) pg_page) pg_shared)) {
          linkmem = add64 s.linkmem 1;
        })
        (record { bss = add64 r.bss page_size; phys = ps; size = r.size - page_size }))

-- A round below the table at `root`.
pub text_round : ℕ → Space → Segment → Option Ending
text_round root s r = sub_table s root (index r.bss 0x40000000) user_rw >>= λ (s', t). elim t [
  | none ↦ some (null s')
  | some page ↦ sub_table s' page (index r.bss slot_size) user_rw >>= λ (s'', t'). elim t' [
    | none ↦ some (null s'')
    | some p ↦ let k = index r.bss page_size in text_pages (512 - k) p k s'' r
  ]
]

-- The rounds. `none` behind the option is fuel that ran out.
pub text_rounds : ℕ → ℕ → Space → Segment → Option (Option Ending)
text_rounds zero root s r = some none
text_rounds (suc fuel) root s r = text_round root s r >>= λ o. elim o [
  | again s' r' ↦ text_rounds fuel root s' r'
  | mapped s' ↦ some (some (mapped s'))
  | null s' ↦ some (some (null s'))
  | minus_one s' ↦ some (some (minus_one s'))
]

-- vmm_maptext, for the task of the space, whose table of 1 GB is at `taskmemroot`.
pub vmm_maptext : ℕ → Space → ℕ → Segment → Option (Option Ending)
vmm_maptext fuel s taskmemroot r =
    let n = whole_pages r.size in
    let run = text_rounds fuel (phyaddr taskmemroot) s (record r { size = n }) in
    if (n == 0)
      || (ltb r.bss (buf_address + text_address)
          || (ltb (buf_address + dyn_address) r.bss || not s.task.magic))
    then some (some (null (seterr s einval)))
    else run

-- The entry that vmm_page writes; an address of -1 keeps that of the old entry.
pub page_entry : ℕ → ℕ → ℕ → ℕ
page_entry old phys access =
    let p = if phys == 2 ^ 64 - 1 then old else phys in
    bit_or (bit_or (phyaddr p) access) (if ((access / 2) % 2) == 1 then pg_nx else 0)

-- vmm_page for an address that is not one of a window: `none` is a panic. The table of 512 GB is at `memroot`.
pub vmm_page : (ℕ → ℕ → ℕ) → ℕ → ℕ → ℕ → ℕ → Option (ℕ → ℕ → ℕ)
vmm_page table memroot virt phys access =
    let root = table (phyaddr memroot) (index virt 0x8000000000) in
    let low = (virt / 2 ^ 39) % 512 in
    let e1 = table (phyaddr root) (index virt 0x40000000) in
    let t2 = phyaddr e1 in
    let e2 = table t2 (index virt slot_size) in
    let slot = is_slot access in
    let page = if slot then t2 else phyaddr e2 in
    let i = if slot then index virt slot_size else index virt page_size in
    let v = page_entry (table page i) phys access in
    if (not ((virt / 2 ^ 48) == 0) && not ((virt / 2 ^ 48) == 0xffff))
      || ((not ((virt / 2 ^ 39) == 0) && not (low == 511))
          || (not (present root) || (not (present e1) || (not slot && not (present e2)))))
    then none
    else some (λ p k. if (p == page) && (k == i) then v else table p k)

-- The loop of vmm_swaptextbuf: the first `n` entries of the table are exchanged with those from `j` on.
pub swap_entries : ℕ → ℕ → ℕ → (ℕ → ℕ → ℕ) → ℕ → ℕ → ℕ
swap_entries zero page j t = t
swap_entries (suc n) page j t =
    let u = swap_entries n page j t in
    λ p k.
      if (p == page) && (k == n)
      then u page (j + n)
      else if (p == page) && (k == (j + n))
      then u page n
      else u p k

-- vmm_swaptextbuf of a task; where its magic is wrong, the second part is the error number.
pub vmm_swaptextbuf : Bool → ℕ → ℕ → (ℕ → ℕ → ℕ) → Option ((ℕ → ℕ → ℕ) × Option ℕ)
vmm_swaptextbuf magic memroot taskmemroot table =
    let swapped =
      swap_entries (dyn_address / 0x40000000) (phyaddr taskmemroot) (index buf_address 0x40000000)
        table in
    let keep = 2 ^ 64 - 1 in
    let pages =
      vmm_page swapped memroot buf_address keep (bit_or (bit_or core_rw pg_page) pg_shared) >>= λ t.
      vmm_page t memroot 0 keep (bit_or core_rw pg_page) >>= λ t'.
      vmm_page t' memroot page_size keep (bit_or user_ro pg_page) >>= λ t''. some (t'', none) in
    if magic then pages else some (table, some einval)
