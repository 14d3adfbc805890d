-- ===== src/Vmm/Release/Cleared/Ends.antt =====
-- The rounds of vmm_free end.
use mathlib.Core.Option.{some-injective}
use bztsrc_osz.Prelude.{
  ℕ, zero, suc, ◌+◌, ◌-◌, ◌*◌, ◌/◌, ◌^◌, ◌<◌, ◌≤◌, ◌≡◌, ◌≢◌, refl, ap, ◌==◌, not, Bool, true, false,
  Option, none, some, ◌>>=◌, arith, ltb, ltb→lt, ==_iff, if◌then◌else◌, add64, bind_some, if_both,
  if_cases,
}
use bztsrc_osz.Pmm.{page_size, slot_size}
use bztsrc_osz.Vmm.{Space, sdyn_address, phyaddr, present, is_slot, write}
use bztsrc_osz.Vmm.Map.{index}
use bztsrc_osz.Vmm.Release.{
  drop_pages, free_page, free_pages, drop_table, first_index, free_table, free_slot, free_slots,
  free_round, free_rounds,
}

-- Where there is a result, its address is not below this one.
abbrev Advances : ℕ → Option (Space × ℕ) → Type 0
Advances n o = (s : Space) (b : ℕ) → o ≡ some (s, b) → n ≤ b

some-Advances : (n : ℕ) (s : Space) (b : ℕ) → n ≤ b → Advances n (some (s, b))
some-Advances n s b h s' b' e =
    omega (arith, h, ap (λ (x : Space × ℕ). x.1) (some-injective (s, b) (s', b') e))

bool_both :
    (P : Option (Space × ℕ) → Type 0) (b : Bool) (x y : Option (Space × ℕ))
    → (b ≡ false → P x)
    → (b ≡ true → P y)
    → P (elim b as (λ b. Option (Space × ℕ)) [ false ↦ x | true ↦ y ])
bool_both P false x y h k = h refl
bool_both P true x y h k = k refl

free_pages-Advances :
    (left page k stop : ℕ) (s : Space) (bss n : ℕ)
    → stop + page_size ≤ 2 ^ 64
    → n ≤ bss
    → Advances n (free_pages left page k stop s bss)
unfolding free_pages
free_pages-Advances zero page k stop s bss n l h = some-Advances n s bss h
free_pages-Advances (suc left) page k stop s bss n l h =
    bool_both (Advances n) (ltb bss stop) (some (s, bss)) _ (λ z. some-Advances n s bss h)
      (λ z s' b e.
        let next : add64 bss page_size ≡ bss + page_size = ground (arith, z, l) in
        let (s1, f, g) = bind_some (free_page s page k) _ (s', b) e in
        free_pages-Advances left page (suc k) stop s1 (add64 bss page_size) n l
          (omega (arith, h, next)) s' b g)

-- With one entry or more, it goes on by a page.
free_pages-further :
    (left page k stop : ℕ) (s : Space) (bss : ℕ)
    → stop + page_size ≤ 2 ^ 64
    → left ≢ 0
    → bss < stop
    → Advances (bss + page_size) (free_pages left page k stop s bss)
unfolding free_pages
free_pages-further zero page k stop s bss l z h = absurd (z refl)
free_pages-further (suc left) page k stop s bss l z h =
    bool_both (Advances (bss + page_size)) (ltb bss stop) (some (s, bss)) _
      (λ z. absurd (ground (arith, z, h)))
      (λ z s' b e.
        let next : add64 bss page_size ≡ bss + page_size = ground (arith, h, l) in
        let (s1, f, g) = bind_some (free_page s page k) _ (s', b) e in
        free_pages-Advances left page (suc k) stop s1 (add64 bss page_size) (bss + page_size) l
          (omega (arith, next)) s' b g)

first_index_le : (start bss level : ℕ) → first_index start bss level ≤ 511
first_index_le start bss level =
    if_both (λ k. k ≤ 511) ((start / level) == (bss / level)) (omega arith) (omega arith)

-- The index of an address grows within a table of pages.
index_le :
    (bss stop : ℕ)
    → bss < stop
    → stop / slot_size ≡ bss / slot_size
    → index bss page_size ≤ index stop page_size
index_le bss stop h e = omega (arith, h, e)

first_page_le :
    (start bss stop : ℕ)
    → bss < stop
    → first_index start bss page_size
      ≤ (if (stop / slot_size) == (bss / slot_size) then index stop page_size else 511)
first_page_le start bss stop h =
    if_cases (λ x. first_index start bss page_size ≤ x) ((stop / slot_size) == (bss / slot_size))
      (λ z.
        if_both (λ k. k ≤ index stop page_size) ((start / page_size) == (bss / page_size))
          (index_le bss stop h ((==_iff (stop / slot_size) (bss / slot_size)).0 z)) (omega arith))
      (λ z. first_index_le start bss page_size)

free_table-further :
    (page j start stop : ℕ) (s : Space) (bss : ℕ)
    → stop + page_size ≤ 2 ^ 64
    → bss < stop
    → Advances (bss + page_size) (free_table page j start stop s bss)
unfolding free_table
free_table-further page j start stop s bss l h s' b e =
    let t = phyaddr (s.table page j) in
    let last = if (stop / slot_size) == (bss / slot_size) then index stop page_size else 511 in
    let k = first_index start bss page_size in
    let there : last + 1 - k ≢ 0 = omega (arith, first_page_le start bss stop h) in
    let ((s1, b1), f, g) = bind_some (free_pages (last + 1 - k) t k stop s bss) _ (s', b) e in
    let (s2, f2, g2) = bind_some (drop_table s1 page j) _ (s', b) g in
    let further = free_pages-further (last + 1 - k) t k stop s bss l there h s1 b1 f in
    omega (arith, further, ap (λ (x : Space × ℕ). x.1) (some-injective (s2, b1) (s', b) g2))

free_slot-further :
    (page j start stop : ℕ) (s : Space) (bss : ℕ)
    → stop + slot_size ≤ 2 ^ 64
    → bss < stop
    → Advances (bss + page_size) (free_slot page j start stop s bss)
unfolding free_slot
free_slot-further page j start stop s bss l h =
    let e = s.table page j in
    let next : add64 bss slot_size ≡ bss + slot_size = ground (arith, h, l) in
    if_both (Advances (bss + page_size)) (not (present e))
      (some-Advances (bss + page_size) s (add64 bss slot_size) (omega (arith, next)))
      (if_both (Advances (bss + page_size)) (is_slot e)
        (λ s' b g.
          let (s1, f, g1) = bind_some (drop_pages s e (slot_size / page_size)) _ (s', b) g in
          some-Advances (bss + page_size) (write s1 page j 0) (add64 bss slot_size)
            (omega (arith, next)) s' b g1)
        (free_table-further page j start stop s bss (omega (arith, l)) h))

free_slots-Advances :
    (left page j start stop : ℕ) (s : Space) (bss n : ℕ)
    → stop + slot_size ≤ 2 ^ 64
    → n ≤ bss
    → Advances n (free_slots left page j start stop s bss)
unfolding free_slots
free_slots-Advances zero page j start stop s bss n l h = some-Advances n s bss h
free_slots-Advances (suc left) page j start stop s bss n l h =
    bool_both (Advances n) (ltb bss stop) (some (s, bss)) _ (λ z. some-Advances n s bss h)
      (λ z s' b e.
        let ((s1, b1), f, g) = bind_some (free_slot page j start stop s bss) _ (s', b) e in
        let more = free_slot-further page j start stop s bss l (ltb→lt bss stop z) s1 b1 f in
        free_slots-Advances left page (suc j) start stop s1 b1 n l (omega (arith, h, more)) s' b g)

free_slots-further :
    (left page j start stop : ℕ) (s : Space) (bss : ℕ)
    → stop + slot_size ≤ 2 ^ 64
    → left ≢ 0
    → bss < stop
    → Advances (bss + page_size) (free_slots left page j start stop s bss)
unfolding free_slots
free_slots-further zero page j start stop s bss l z h = absurd (z refl)
free_slots-further (suc left) page j start stop s bss l z h =
    bool_both (Advances (bss + page_size)) (ltb bss stop) (some (s, bss)) _
      (λ z. absurd (ground (arith, z, h)))
      (λ z s' b e.
        let ((s1, b1), f, g) = bind_some (free_slot page j start stop s bss) _ (s', b) e in
        let more = free_slot-further page j start stop s bss l h s1 b1 f in
        free_slots-Advances left page (suc j) start stop s1 b1 (bss + page_size) l more s' b g)

first_slot_le :
    (start bss stop : ℕ)
    → first_index start bss slot_size
      ≤ (if (stop / slot_size) == (bss / slot_size) then index bss slot_size else 511)
first_slot_le start bss stop =
    if_both (λ x. first_index start bss slot_size ≤ x) ((stop / slot_size) == (bss / slot_size))
      (if_both (λ k. k ≤ index bss slot_size) ((start / slot_size) == (bss / slot_size))
        (omega arith) (omega arith))
      (first_index_le start bss slot_size)

-- Each round goes on by a page or more.
free_round-further :
    (root start stop : ℕ) (s : Space) (bss : ℕ)
    → stop + 0x40000000 ≤ 2 ^ 64
    → bss < stop
    → Advances (bss + page_size) (free_round root start stop s bss)
unfolding free_round
free_round-further root start stop s bss l h =
    let i = index bss 0x40000000 in
    let last = if (stop / slot_size) == (bss / slot_size) then index bss slot_size else 511 in
    let j = first_index start bss slot_size in
    let there : last + 1 - j ≢ 0 = omega (arith, first_slot_le start bss stop) in
    let next : add64 bss 0x40000000 ≡ bss + 0x40000000 = ground (arith, h, l) in
    if_both (Advances (bss + page_size)) (not (present (s.table root i)))
      (some-Advances (bss + page_size) s (add64 bss 0x40000000) (omega (arith, next)))
      (λ s' b e.
        let ((s1, b1), f, g) =
          bind_some (free_slots (last + 1 - j) (phyaddr (s.table root i)) j start stop s bss) _
            (s', b) e in
        let more =
          free_slots-further (last + 1 - j) (phyaddr (s.table root i)) j start stop s bss
            (omega (arith, l)) there h s1 b1 f in
        let (s2, f2, g2) =
          bind_some (if ltb stop sdyn_address then drop_table s1 root i else some s1) _ (s', b) g in
        omega (arith, more, ap (λ (x : Space × ℕ). x.1) (some-injective (s2, b1) (s', b) g2)))

-- The loop of vmm_free ends, whatever the tables are, when the address where it stops is a gigabyte or more below the
-- end of memory: as many rounds as there are pages, and one more, are enough.
pub free_rounds_end :
    (n fuel root start stop : ℕ) (s : Space) (bss : ℕ)
    → stop + 0x40000000 ≤ 2 ^ 64
    → stop ≤ bss + page_size * n
    → n < fuel
    → free_rounds fuel root start stop s bss ≢ some none
unfolding free_rounds
free_rounds_end n zero root start stop s bss l h f = absurd (omega (arith, f))
free_rounds_end n (suc fuel) root start stop s bss l h f =
    go (ltb bss stop) refl (free_round root start stop s bss) (λ s' b e z.
      let h' = ltb→lt bss stop z in
      let more = free_round-further root start stop s bss l h' s' b e in
      free_rounds_end (n - 1) fuel root start stop s' b l (omega (arith, h, more))
        (omega (arith, f, h, h')))
  where
    go :
        (c : Bool)
        → ltb bss stop ≡ c
        → (o : Option (Space × ℕ))
        → ((s' : Space) (b : ℕ)
            → o ≡ some (s', b)
            → ltb bss stop ≡ true
            → free_rounds fuel root start stop s' b ≢ some none)
        → (elim c as (λ c. Option (Option Space)) [
          | false ↦ some (some s)
          | true ↦ o >>= λ (s', b). free_rounds fuel root start stop s' b
        ])
          ≢ some none
    go false z o next = λ e. cc
    go true z none next = λ e. cc
    go true z (some (s', b)) next = next s' b refl z
