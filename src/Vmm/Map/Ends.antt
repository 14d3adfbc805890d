-- ===== src/Vmm/Map/Ends.antt =====
-- The rounds of vmm_map end.
use mathlib.Core.Option.{some-injective}
use bztsrc_osz.Prelude.{
  ℕ, zero, suc, ◌+◌, ◌-◌, ◌*◌, ◌/◌, ◌%◌, ◌^◌, ◌<◌, ◌≤◌, ◌≡◌, ◌≢◌, refl, ap, ◌==◌, ◌&&◌, not, Bool,
  true, false, Option, none, some, ◌>>=◌, arith, leb, leb→le, if_given, option_both, bind_both,
}
use bztsrc_osz.Pmm.{page_size, slot_size, Pmm}
use bztsrc_osz.Vmm.{Space, efault, present, seterr, sub_table, whole_pages}
use bztsrc_osz.Vmm.Map.{
  Rest, Round, again, mapped, failed, behind, Placed, placed, no_memory, place_slot, place_page,
  map_slots, on_entry, map_pages, index, pages_round, round, rounds, Owner, refused, vmm_map,
}

-- Where a round goes on, a page less than `n` bytes is left, or fewer.
abbrev Leaves : ℕ → Option Round → Type 0
Leaves n o = (s : Space) (r : Rest) → o ≡ some (again s r) → r.size + page_size ≤ n

rest_of : Round → ℕ
rest_of (again s r) = r.size
rest_of (mapped s) = 0
rest_of (failed s) = 0

again-Leaves : (n : ℕ) (s : Space) (r : Rest) → r.size + page_size ≤ n → Leaves n (some (again s r))
unfolding rest_of
again-Leaves n s r h s' r' e =
    omega (arith, h, ap rest_of (some-injective (again s r) (again s' r') e))

on_entry-Leaves :
    (n : ℕ) (stop used : Bool) (p : Option Placed) (s : Space) (next : Space → Option Round)
    → ((s : Space) → stop ≡ false → Leaves n (next s))
    → Leaves n (on_entry stop used p s next)
unfolding on_entry
on_entry-Leaves n true used p s next h = λ s' r' e. cc
on_entry-Leaves n false true p s next h = λ s' r' e. cc
on_entry-Leaves n false false none s next h = λ s' r' e. cc
on_entry-Leaves n false false (some (placed x)) s next h = h x refl
on_entry-Leaves n false false (some (no_memory x)) s next h = λ s' r' e. cc

map_pages_le :
    (left page i a : ℕ) (s : Space) (r : Rest) (n : ℕ)
    → r.size + page_size ≤ n
    → Leaves n (map_pages left page i a s r)
unfolding map_pages
map_pages_le zero page i a s r n h = again-Leaves n s r h
map_pages_le (suc left) page i a s r n h =
    on_entry-Leaves n (r.size == 0) (present (s.table page i)) (place_page page i a s r) s
      (λ s'. map_pages left page (suc i) a s' (behind r page_size))
      (λ s' z. map_pages_le left page (suc i) a s' (behind r page_size) n (omega (arith, h)))

-- A loop with one entry or more maps a page before it goes on.
map_pages_less :
    (left page i a : ℕ) (s : Space) (r : Rest) (n : ℕ)
    → left ≢ 0
    → r.size ≤ page_size * n
    → Leaves (page_size * n) (map_pages left page i a s r)
unfolding map_pages
map_pages_less zero page i a s r n l h = absurd (l refl)
map_pages_less (suc left) page i a s r n l h =
    on_entry-Leaves (page_size * n) (r.size == 0) (present (s.table page i))
      (place_page page i a s r) s (λ s'. map_pages left page (suc i) a s' (behind r page_size))
      (λ s' z.
        let some_left : 1 ≤ r.size = ground (arith, z) in
        map_pages_le left page (suc i) a s' (behind r page_size) (page_size * n)
          (omega (arith, h, some_left)))

slot-Leaves :
    (n : ℕ) (p : Option Placed) (next : Space → Option Round)
    → ((s : Space) → Leaves n (next s))
    → Leaves n (p >>= λ p. elim p [ placed s' ↦ next s' | no_memory s' ↦ some (failed s') ])
slot-Leaves n none next h = λ s' r' e. cc
slot-Leaves n (some (placed x)) next h = h x
slot-Leaves n (some (no_memory x)) next h = λ s' r' e. cc

bool_both :
    (P : Option Round → Type 0) (b : Bool) (x y : Option Round)
    → (b ≡ false → P x)
    → (b ≡ true → P y)
    → P (elim b as (λ b. Option Round) [ false ↦ x | true ↦ y ])
bool_both P false x y h k = h refl
bool_both P true x y h k = k refl

bool_both' :
    (P : Option Round → Type 0) (b : Bool) (x y : Option Round)
    → P x
    → (b ≡ false → P y)
    → P (elim b as (λ b. Option Round) [ true ↦ x | false ↦ y ])
bool_both' P true x y h k = h
bool_both' P false x y h k = k refl

map_slots_le :
    (left page i a : ℕ) (s : Space) (r : Rest) (n : ℕ)
    → r.size + page_size ≤ n
    → Leaves n (map_slots left page i a s r)
unfolding map_slots
map_slots_le zero page i a s r n h = again-Leaves n s r h
map_slots_le (suc left) page i a s r n h =
    bool_both (Leaves n) (leb slot_size r.size) (some (again s r)) _ (λ z. again-Leaves n s r h)
      (λ z.
        bool_both' (Leaves n) (present (s.table page i)) (some (failed (seterr s efault))) _
          (λ s' r' e. cc)
          (λ u.
            slot-Leaves n (place_slot page i a s r)
              (λ s'. map_slots left page (suc i) a s' (behind r slot_size))
              (λ s'.
                map_slots_le left page (suc i) a s' (behind r slot_size) n (omega (arith, h)))))

map_slots_less :
    (left page i a : ℕ) (s : Space) (r : Rest) (n : ℕ)
    → left ≢ 0
    → leb slot_size r.size ≡ true
    → r.size ≤ page_size * n
    → Leaves (page_size * n) (map_slots left page i a s r)
unfolding map_slots
map_slots_less zero page i a s r n l big h = absurd (l refl)
map_slots_less (suc left) page i a s r n l big h =
    bool_both (Leaves (page_size * n)) (leb slot_size r.size) (some (again s r)) _
      (λ z. absurd (ground (arith, z, big)))
      (λ z.
        bool_both' (Leaves (page_size * n)) (present (s.table page i))
          (some (failed (seterr s efault))) _ (λ s' r' e. cc)
          (λ u.
            slot-Leaves (page_size * n) (place_slot page i a s r)
              (λ s'. map_slots left page (suc i) a s' (behind r slot_size))
              (λ s'.
                map_slots_le left page (suc i) a s' (behind r slot_size) (page_size * n)
                  (omega (arith, h, leb→le slot_size r.size big)))))

pages_round-Leaves :
    (page i a access : ℕ) (s : Space) (r : Rest) (n : ℕ)
    → r.size ≤ page_size * n
    → Leaves (page_size * n) (pages_round page i a access s r)
unfolding pages_round
pages_round-Leaves page i a access s r n h =
    bind_both (Leaves (page_size * n)) (sub_table s page i access) _ (λ s' r' e. cc)
      (λ (s', t).
        option_both (Leaves (page_size * n)) t (some (failed s')) _ (λ s' r' e. cc)
          (λ p.
            map_pages_less (512 - index r.bss page_size) p (index r.bss page_size) a s' r n
              (omega arith) h))

round-Leaves :
    (root a access : ℕ) (s : Space) (r : Rest) (n : ℕ)
    → r.size ≤ page_size * n
    → Leaves (page_size * n) (round root a access s r)
unfolding round
round-Leaves root a access s r n h =
    bind_both (Leaves (page_size * n)) (sub_table s root (index r.bss 0x40000000) access) _
      (λ s' r' e. cc)
      (λ (s', t).
        option_both (Leaves (page_size * n)) t (some (failed s')) _ (λ s' r' e. cc)
          (λ page.
            let i = index r.bss slot_size in
            if_given (Leaves (page_size * n))
              (not (present (s'.table page i))
                && (((r.phys % slot_size) == 0)
                    && (((r.bss % slot_size) == 0) && leb slot_size r.size)))
              (λ z. map_slots_less (512 - i) page i a s' r n (omega arith) (ground (arith, z)) h)
              (pages_round-Leaves page i a access s' r n h)))

-- The rounds end after as many as there are pages, and one more.
pub rounds_end :
    (n fuel root a access : ℕ) (s : Space) (r : Rest)
    → r.size ≤ page_size * n
    → n < fuel
    → rounds fuel root a access s r ≢ some none
unfolding rounds
rounds_end n zero root a access s r h l = absurd (omega (arith, l))
rounds_end n (suc fuel) root a access s r h l =
    go (round root a access s r) (round-Leaves root a access s r n h) (λ s' r' less.
      rounds_end (n - 1) fuel root a access s' r' (omega (arith, less)) (omega (arith, less, l)))
  where
    go :
        (o : Option Round)
        → Leaves (page_size * n) o
        → ((s' : Space) (r' : Rest)
            → r'.size + page_size ≤ page_size * n
            → rounds fuel root a access s' r' ≢ some none)
        → (o >>= λ o. elim o [
          | again s' r' ↦ rounds fuel root a access s' r'
          | mapped s' ↦ some (some (mapped s'))
          | failed s' ↦ some (some (failed s'))
        ])
          ≢ some none
    go none h next = λ e. cc
    go (some (again s' r')) h next = next s' r' (h s' r' refl)
    go (some (mapped s')) h next = λ e. cc
    go (some (failed s')) h next = λ e. cc

-- Whatever the arguments and the tables are, vmm_map ends: with as much fuel as there are pages and one more, it
-- returns its address or -1, unless the core panics.
pub vmm_map_ends :
    (fuel : ℕ) (o core : Owner) (p : Pmm) (table : ℕ → ℕ → ℕ) (bss phys size access : ℕ)
    → whole_pages size < page_size * fuel
    → vmm_map fuel o core p table bss phys size access ≢ some none
unfolding vmm_map
vmm_map_ends fuel o core p table bss phys size access h =
    let P : Option (Option Round) → Type 0 = λ x. x ≢ some none in
    let pages = (size + 4096 - 1) % 2 ^ 64 / 4096 in
    option_both P (refused o bss size) _ _
      (rounds_end pages fuel _ _ _ _ _ (omega arith) (omega (arith, h)))
      (λ e. option_both P e _ _ (λ z. cc) (λ n z. cc))
