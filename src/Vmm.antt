-- ===== src/Vmm.antt =====
-- Virtual memory, src/core/vmm.c: vmm_map, vmm_maptext, vmm_free, vmm_swaptextbuf and vmm_page for any address but
-- those of the windows, over the page tables of x86_64. A table is its physical page, and its entries are 64-bit
-- words; a table that is read through a window of the core is read here at its page. Invalidation of the TLB and debug
-- output are left out. Pages come from pmm_alloc and pmm_allocslot of Pmm, which clear them.
pub mod Map
pub mod Text
pub mod Release
use Prim.Native.Nat.{bit_or}
use bztsrc_osz.Prelude.{
  ℕ, zero, suc, ◌+◌, ◌-◌, ◌*◌, ◌/◌, ◌%◌, ◌^◌, ◌==◌, ◌||◌, ◌&&◌, not, Bool, true, false, Option,
  none, some, ◌>>=◌, ltb, leb, if◌then◌else◌,
}
use bztsrc_osz.Pmm.{Pmm, Task, page_size, slot_size, alloc, allocslot, free}

-- PG_CORE_RW and the other access bits of a page.
abbrev pub core_rw : ℕ
core_rw = 0x0003

abbrev pub core_rwnocache : ℕ
core_rwnocache = 0x001b

abbrev pub user_rw : ℕ
user_rw = 0x0007

abbrev pub user_rwnocache : ℕ
user_rwnocache = 0x0017

abbrev pub user_ro : ℕ
user_ro = 0x0005

abbrev pub pg_page : ℕ
pg_page = 0x0001

abbrev pub pg_slot : ℕ
pg_slot = 0x0081

abbrev pub pg_shared : ℕ
pg_shared = 2048

abbrev pub pg_nx : ℕ
pg_nx = 2 ^ 63

-- The segments of an address space, and those of the core.
abbrev pub text_address : ℕ
text_address = 2 * slot_size

abbrev pub dyn_address : ℕ
dyn_address = 0x100000000

abbrev pub buf_address : ℕ
buf_address = 0x8000000000 - dyn_address

abbrev pub sdyn_address : ℕ
sdyn_address = 0xffffff8000000000

abbrev pub ldyn_address : ℕ
ldyn_address = 0xffffffff80000000

abbrev pub cdyn_top : ℕ
cdyn_top = 0xfffffffff8000000

abbrev pub einval : ℕ
einval = 5

abbrev pub efault : ℕ
efault = 4

abbrev pub enomem : ℕ
enomem = 8

-- vmm_phyaddr, vmm_ispresent, vmm_isslot, and the test of PG_SHARED
abbrev pub phyaddr : ℕ → ℕ
phyaddr x = ((x % 2 ^ 56) / page_size) * page_size

abbrev pub present : ℕ → Bool
present x = (x % 2) == 1

abbrev pub is_slot : ℕ → Bool
is_slot x = ((x / 128) % 2) == 1

abbrev pub is_shared : ℕ → Bool
is_shared x = ((x / pg_shared) % 2) == 1

-- The size in whole pages, with the wrap of 64 bits.
abbrev pub whole_pages : ℕ → ℕ
whole_pages size = (((size + page_size - 1) % 2 ^ 64) / page_size) * page_size

-- The task that is charged, its count of linked pages, the allocator with the error number, and the tables.
pub record Space : Type 0 where
  pub pmm : Pmm
  pub task : Task
  pub linkmem : ℕ
  pub table : ℕ → ℕ → ℕ

abbrev pub seterr : Space → ℕ → Space
seterr s e = record s { pmm = record s.pmm { errno = e } }

-- Entry `i` of the table at `page`.
abbrev pub write : Space → ℕ → ℕ → ℕ → Space
write s page i v = record s { table = λ p k. if (p == page) && (k == i) then v else s.table p k }

-- pmm_alloc of a page: `none` is a panic, and 0 no page. A page that is given is clear.
pub new_page : Space → Option (ℕ × Space)
new_page s = alloc s.pmm s.task 1 >>= λ (b, p, t). some (
  b,
  record s {
    pmm = p;
    task = t;
    table = λ q k. if not (b == 0) && (q == b) then 0 else s.table q k;
  },
)

-- pmm_allocslot: 512 pages.
pub new_slot : Space → Option (ℕ × Space)
new_slot s = allocslot s.pmm s.task >>= λ (b, p, t). some (
  b,
  record s {
    pmm = p;
    task = t;
    table = λ q k. if not (b == 0) && (leb b q && ltb q (b + slot_size)) then 0 else s.table q k;
  },
)

-- pmm_free
pub give_page : Space → ℕ → ℕ → Option Space
give_page s base pages =
    free s.pmm s.task base pages >>= λ (p, t). some (record s { pmm = p; task = t })

-- The table below entry `i` of a table, which is made when there is none: `none` behind the state is no memory.
pub sub_table : Space → ℕ → ℕ → ℕ → Option (Space × Option ℕ)
sub_table s page i access =
    if present (s.table page i)
    then some (s, some (phyaddr (s.table page i)))
    else (new_page s >>= λ (b, s').
        let v = bit_or (bit_or b access) pg_page in
        some (if b == 0 then (s', none) else (write s' page i v, some (phyaddr v))))
