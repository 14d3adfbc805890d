-- ===== src/Vmm/Map/Pages.antt =====
-- What the loop over the pages of a table in vmm_map does with memory that is there.
use Prim.Native.Nat.{bit_or}
use bztsrc_osz.Prelude.{
  ℕ, zero, suc, ◌+◌, ◌-◌, ◌*◌, ◌<◌, ◌≤◌, ◌≡◌, ◌≢◌, ◌⊎◌, inl, inr, refl, ap, ◌∙◌, ◌^◌, ◌==◌, true,
  false, some, arith, add64,
}
use bztsrc_osz.Pmm.{page_size}
use bztsrc_osz.Vmm.{Space, pg_page, pg_shared, efault, present, seterr, write}
use bztsrc_osz.Vmm.Map.{
  Rest, mapped, failed, behind, shared_entry, placed, place_page, on_entry, map_pages,
}

-- The entry of a shared page.
abbrev pub linked_entry : ℕ → ℕ → ℕ
linked_entry phys a = bit_or (bit_or (bit_or phys a) pg_page) pg_shared

-- `n` pages from `phys` on are linked from entry `i` of the table on, and nothing else changes.
pub record Linked (s s' : Space) (page i a phys n : ℕ) : Type 0 where
  pub entries : (k : ℕ) → k < n → s'.table page (i + k) ≡ linked_entry (phys + page_size * k) a
  pub others : (q k : ℕ) → (q ≡ page → (k < i) ⊎ (i + n ≤ k)) → s'.table q k ≡ s.table q k
  pub count : s'.linkmem ≡ s.linkmem + n
  pub pmm : s'.pmm ≡ s.pmm
  pub task : s'.task ≡ s.task

abbrev linked : Space → ℕ → ℕ → ℕ → Rest → Space
linked s page i a r = record (write s page i (shared_entry r a pg_page)) {
  linkmem = add64 s.linkmem 1;
}

write_self : (s : Space) (page i v : ℕ) → (write s page i v).table page i ≡ v
write_self s page i v = ground arith

write_ne :
    (s : Space) (page i v q k : ℕ) → (q ≡ page → k ≢ i) → (write s page i v).table q k ≡ s.table q k
write_ne s page i v q k n = ground (arith, n)

place_page-linked :
    (page i a : ℕ) (s : Space) (r : Rest)
    → r.phys ≢ 0
    → place_page page i a s r ≡ some (placed (linked s page i a r))
unfolding place_page
place_page-linked page i a s r p =
    let there : (r.phys == 0) ≡ false = ground (arith, p) in rw there refl

-- One page.
map_pages-step :
    (left page i a : ℕ) (s : Space) (r : Rest)
    → r.phys ≢ 0
    → r.size ≢ 0
    → present (s.table page i) ≡ false
    → map_pages (suc left) page i a s r
      ≡ map_pages left page (suc i) a (linked s page i a r) (behind r page_size)
unfolding map_pages on_entry
map_pages-step left page i a s r p z e =
    let some_left : (r.size == 0) ≡ false = ground (arith, z) in
    rw (some_left, e, place_page-linked page i a s r p) refl

entries_from :
    (tb : ℕ → ℕ) (i a phys phys' m : ℕ)
    → phys' ≡ phys + page_size
    → tb i ≡ linked_entry phys a
    → ((k : ℕ) → k < m → tb (suc i + k) ≡ linked_entry (phys' + page_size * k) a)
    → (k : ℕ) → k < suc m
    → tb (i + k) ≡ linked_entry (phys + page_size * k) a
entries_from tb i a phys phys' m e here behind zero h =
    let zi : i + 0 ≡ i = omega arith in
    let zp : phys ≡ phys + 4096 * 0 = omega arith in ap tb zi ∙ here ∙ ap (λ x. linked_entry x a) zp
entries_from tb i a phys phys' m e here behind (suc k) h =
    let zi : i + suc k ≡ suc i + k = omega arith in
    let zp : phys' + 4096 * k ≡ phys + 4096 * suc k = omega (arith, e) in
    ap tb zi ∙ behind k (omega (arith, h)) ∙ ap (λ x. linked_entry x a) zp

-- `m` pages, where there are so many entries and none of them is in use.
pub record Steps (left page i a : ℕ) (s : Space) (r : Rest) (m : ℕ) : Type 0 where
  pub space : Space
  pub rest : Rest
  pub same : map_pages left page i a s r ≡ map_pages (left - m) page (i + m) a space rest
  pub links : Linked s space page i a r.phys m
  pub size : rest.size ≡ r.size - page_size * m
  pub phys : rest.phys ≡ r.phys + page_size * m

pub map_pages-Steps :
    (left page i a : ℕ) (s : Space) (r : Rest) (m : ℕ)
    → r.phys ≢ 0
    → r.phys + page_size * m < 2 ^ 64
    → s.linkmem + m < 2 ^ 64
    → page_size * m ≤ r.size
    → m ≤ left
    → ((k : ℕ) → k < m → present (s.table page (i + k)) ≡ false)
    → Steps left page i a s r m
map_pages-Steps left page i a s r zero p bound count enough room clear =
    let zl : left ≡ left - 0 = omega arith in
    let zi : i ≡ i + 0 = omega arith in
    record {
      space = s;
      rest = r;
      same = ap (λ l. map_pages l page i a s r) zl ∙ ap (λ j. map_pages (left - 0) page j a s r) zi;
      links = record {
        entries = λ k h. absurd (omega (arith, h));
        others = λ q k h. refl;
        count = omega arith;
        pmm = refl;
        task = refl;
      };
      size = omega arith;
      phys = omega arith;
    }
map_pages-Steps zero page i a s r (suc m) p bound count enough room clear =
    absurd (omega (arith, room))
map_pages-Steps (suc left) page i a s r (suc m) p bound count enough room clear =
    let here : present (s.table page i) ≡ false =
      ap (λ j. present (s.table page j)) (omega arith) ∙ clear 0 (omega arith) in
    let s' = linked s page i a r in
    let r' = behind r page_size in
    let there : (r.phys == 0) ≡ false = ground (arith, p) in
    let moved : r'.phys ≡ r.phys + 4096 = ground (arith, there, bound) in
    let counted : s'.linkmem ≡ s.linkmem + 1 = omega (arith, count) in
    let t =
      map_pages-Steps left page (suc i) a s' r' m (omega (arith, moved))
        (omega (arith, moved, bound)) (omega (arith, counted, count)) (omega (arith, enough))
        (omega (arith, room))
        (λ k h.
          let zk : suc i + k ≡ i + suc k = omega arith in
          let same =
            write_ne s page i (shared_entry r a pg_page) page (suc i + k) (λ z. omega arith) in
          ap present (same ∙ ap (s.table page) zk) ∙ clear (suc k) (omega (arith, h))) in
    let zi : suc i + m ≡ i + suc m = omega arith in
    let first : t.space.table page i ≡ linked_entry r.phys a =
      t.links.others page i (λ z. inl (omega arith))
      ∙ write_self s page i (shared_entry r a pg_page) in
    let zl : left - m ≡ suc left - suc m = omega arith in
    record {
      space = t.space;
      rest = t.rest;
      same =
          map_pages-step left page i a s r p (omega (arith, enough)) here
          ∙ t.same
          ∙ ap (λ l. map_pages l page (suc i + m) a t.space t.rest) zl
          ∙ ap (λ j. map_pages (suc left - suc m) page j a t.space t.rest) zi;
      links = record {
        entries =
            entries_from (t.space.table page) i a r.phys r'.phys m moved first t.links.entries;
        others = λ q k h.
            t.links.others q k
              (λ z. elim (h z) [ inl l ↦ inl (omega (arith, l)) | inr l ↦ inr (omega (arith, l)) ])
            ∙ write_ne s page i (shared_entry r a pg_page) q k
                (λ z. elim (h z) [ inl l ↦ omega (arith, l) | inr l ↦ omega (arith, l) ]);
        count = omega (arith, t.links.count, counted);
        pmm = t.links.pmm;
        task = t.links.task;
      };
      size = omega (arith, t.size);
      phys = omega (arith, t.phys, moved);
    }

-- What is left are `n` whole pages of physical memory at an address that is not 0; more than `n` entries of the table
-- are left, and the first `n` are not in use; neither the addresses nor the count of linked pages reach 2 ^ 64: the
-- loop links each page to the one of physical memory, in order, and ends with the memory mapped.
pub map_pages-Linked :
    (left page i a : ℕ) (s : Space) (r : Rest) (n : ℕ)
    → r.phys ≢ 0
    → r.phys + page_size * n < 2 ^ 64
    → s.linkmem + n < 2 ^ 64
    → r.size ≡ page_size * n
    → n < left
    → ((k : ℕ) → k < n → present (s.table page (i + k)) ≡ false)
    → (s' : Space) × (map_pages left page i a s r ≡ some (mapped s'))
      × Linked s s' page i a r.phys n
unfolding map_pages on_entry
map_pages-Linked left page i a s r n p bound count size room clear =
    let t =
      map_pages-Steps left page i a s r n p bound count (omega (arith, size)) (omega (arith, room))
        clear in
    let l : left - n ≡ suc (left - n - 1) = omega (arith, room) in
    let z : (t.rest.size == 0) ≡ true = ground (arith, t.size, size) in
    (t.space, t.same ∙ ap (λ x. map_pages x page (i + n) a t.space t.rest) l ∙ rw z refl, t.links)

-- More than `m` pages of physical memory at an address that is not 0 are left to map, and more than `m` entries of the
-- table; the first `m` are not in use, and the next one is; neither the addresses nor the count of linked pages reach
-- 2 ^ 64: the loop fails with EFAULT, and the `m` pages in front of the entry in use stay linked.
pub map_pages-used :
    (left page i a : ℕ) (s : Space) (r : Rest) (m : ℕ)
    → r.phys ≢ 0
    → r.phys + page_size * m < 2 ^ 64
    → s.linkmem + m < 2 ^ 64
    → page_size * m < r.size
    → m < left
    → ((k : ℕ) → k < m → present (s.table page (i + k)) ≡ false)
    → present (s.table page (i + m)) ≡ true
    → (s' : Space) × (map_pages left page i a s r ≡ some (failed (seterr s' efault)))
      × Linked s s' page i a r.phys m
unfolding map_pages on_entry
map_pages-used left page i a s r m p bound count size room clear used =
    let t =
      map_pages-Steps left page i a s r m p bound count (omega (arith, size)) (omega (arith, room))
        clear in
    let l : left - m ≡ suc (left - m - 1) = omega (arith, room) in
    let z : (t.rest.size == 0) ≡ false = ground (arith, t.size, size) in
    let u : present (t.space.table page (i + m)) ≡ true =
      ap present (t.links.others page (i + m) (λ z. inr (omega arith))) ∙ used in
    (
      t.space,
      t.same ∙ ap (λ x. map_pages x page (i + m) a t.space t.rest) l ∙ rw (z, u) refl,
      t.links,
    )
