-- ===== src/Pmm/AllocSlot.antt =====
-- What pmm_allocslot promises, and what it loses.
use bztsrc_osz.Prelude.{
  ℕ, ◌+◌, ◌%◌, ◌≤◌, ◌<◌, ◌≡◌, refl, sym, ◌⊎◌, inl, inr, true, some, none, arith, All, Option-cases,
  tally, tally-erase_idx, add64, sub64, get_elem?,
}
use bztsrc_osz.Pmm.{
  Entry, Pmm, Task, slot_size, slot_pages, slot_above, slot_fit, carve, allocslot_at, allocslot,
  clear, enomem, runlvl_norm,
}
use bztsrc_osz.Pmm.Cover.{within, entry_cover, pages_of, cover, free_total, IsRegion, IsValid}
use bztsrc_osz.Pmm.Slot.{
  Fits, slot_fit-some, slot_fit-none, slot_above_aligned, front_of, Leaks, parts_cover, parts_pages,
  front_of_empty, front_of-IsRegion, front_of_no_cover, back_of_no_cover, carve_leak, carve_sound,
  carve_regions,
}

-- What holds of every slot that is handed out from region `e`.
pub record SlotServed (p : Pmm) (t : Task) (b : ℕ) (q : Pmm) (u : Task) : Type 0 where
  pub based : 0 < b
  pub aligned : b % slot_size ≡ 0
  pub free_left : q.freepages + slot_pages ≡ p.freepages
  pub owned : u.allocmem ≡ add64 t.allocmem slot_pages
  pub cleared : (a : ℕ) → b ≤ a → a < b + slot_size → q.mem a ≡ 0
  pub kept : (a : ℕ) → (a < b) ⊎ (b + slot_size ≤ a) → q.mem a ≡ p.mem a

-- What holds as well where the region is not lost in part.
pub record SlotKept (p : Pmm) (b : ℕ) (q : Pmm) : Type 0 where
  pub valid : IsValid q
  pub covers : (a : ℕ) → cover a p.entries ≡ within a b slot_size + cover a q.entries

-- What is lost: the part of the region in front of the slot is neither handed out nor free any more,
-- though it still counts as free.
pub record SlotLost (p : Pmm) (b : ℕ) (e : Entry) (q : Pmm) : Type 0 where
  pub some_pages : 0 < pages_of (front_of e)
  pub covers :
      (a : ℕ)
      → cover a p.entries ≡ within a b slot_size + entry_cover a (front_of e) + cover a q.entries
  pub count : free_total q.entries + pages_of (front_of e) ≡ q.freepages

abbrev slotted : Pmm → ℕ → Entry → Pmm
slotted p i e = record p {
  entries = carve p.entries i e;
  freepages = sub64 p.freepages slot_pages;
  mem = clear (slot_above e) slot_size p.mem;
}

abbrev slot_owner : Task → Task
slot_owner t = record t { allocmem = add64 t.allocmem slot_pages }

module _ (p : Pmm) (t : Task) (v : IsValid p) (ready : t.magic ≡ true) where
  allocslot_exhausted :
      runlvl_norm ≤ p.runlevel
      → slot_fit p.entries ≡ none
      → allocslot p t ≡ some (0, record p { errno = enomem }, t)
  unfolding allocslot
  allocslot_exhausted up missing = rw (ready, missing) (ground arith)

  module _ (i : ℕ) (e : Entry) (first : slot_fit p.entries ≡ some i)
      (at : get_elem? p.entries i ≡ some e) (fits : Fits e) (r : IsRegion e) where
    allocslot_lem : allocslot p t ≡ some (slot_above e, slotted p i e, slot_owner t)
    unfolding allocslot
    allocslot_lem = simp (ready, first, allocslot_at, at)

    enough : slot_pages ≤ p.freepages
    unfolding free_total
    enough =
        omega (arith, parts_pages e r fits, tally-erase_idx pages_of p.entries i e at, v.counted)

    found-SlotServed : SlotServed p t (slot_above e) (slotted p i e) (slot_owner t)
    unfolding clear
    found-SlotServed = record {
      based = omega (arith, r.based, slot_above_aligned e r);
      aligned = (slot_above_aligned e r).0;
      free_left = omega (arith, enough, v.small, v.bounded);
      owned = refl;
      cleared = λ a lo hi. ground arith;
      kept = λ a out. ground arith;
    }

    found-SlotKept : ¬ Leaks e → SlotKept p (slot_above e) (slotted p i e)
    unfolding cover free_total
    found-SlotKept sound =
        let pages : slot_pages + tally pages_of (carve p.entries i e) ≡ tally pages_of p.entries =
          carve_sound p.entries i e at pages_of slot_pages (parts_pages e r fits)
            (front_of_empty e r fits) (λ none_left. none_left) sound in
        record {
          valid = record {
            regions = carve_regions p.entries i e at v.regions r fits sound;
            counted = omega (arith, pages, v.counted, v.small, v.bounded);
            bounded = omega (arith, enough, v.small, v.bounded);
            small = v.small;
          };
          covers = λ a. sym (
              carve_sound p.entries i e at (entry_cover a) (within a (slot_above e) slot_size)
                (parts_cover e r fits a) (front_of_no_cover e a) (back_of_no_cover e a) sound);
        }

    found-SlotLost : Leaks e → SlotLost p (slot_above e) e (slotted p i e)
    unfolding cover free_total
    found-SlotLost (split, none_left) =
        let pages : slot_pages + pages_of (front_of e) + tally pages_of (carve p.entries i e)
            ≡ tally pages_of p.entries =
          carve_leak p.entries i e at pages_of slot_pages (parts_pages e r fits)
            (front_of_empty e r fits) (λ none_left. none_left) split none_left in
        record {
          some_pages = (front_of-IsRegion e r fits split).sized;
          covers = λ a. sym (
              carve_leak p.entries i e at (entry_cover a) (within a (slot_above e) slot_size)
                (parts_cover e r fits a) (front_of_no_cover e a) (back_of_no_cover e a) split
                none_left);
          count = omega (arith, pages, v.counted, v.small, v.bounded);
        }

  -- On a running system a call fails, changing nothing but the error number, because no region
  -- holds a whole aligned slot; or it takes one from a region that does. The slot is aligned and
  -- cleared and leaves the books. The free addresses lose exactly the slot, and the manager stays
  -- valid, unless the region begins before the slot and ends with it: then what is in front of the slot
  -- is lost as well.
  pub allocslot_cases :
      runlvl_norm ≤ p.runlevel
      → ((allocslot p t ≡ some (0, record p { errno = enomem }, t)) × All (λ e. ¬ Fits e) p.entries)
        ⊎ (i : ℕ) × (e : Entry) × (q : Pmm) × (u : Task) × (get_elem? p.entries i ≡ some e)
          × Fits e
          × (allocslot p t ≡ some (slot_above e, q, u))
          × SlotServed p t (slot_above e) q u
          × (¬ Leaks e → SlotKept p (slot_above e) q)
          × (Leaks e → SlotLost p (slot_above e) e q)
  allocslot_cases up = elim (Option-cases (slot_fit p.entries)) [
    | inl missing ↦ inl (allocslot_exhausted up missing, slot_fit-none p.entries v.regions missing)
    | inr (i, first) ↦
        let (e, at, fits, r) = slot_fit-some p.entries i v.regions first in
        inr (
          i,
          e,
          slotted p i e,
          slot_owner t,
          at,
          fits,
          allocslot_lem i e first at fits r,
          found-SlotServed i e first at fits r,
          found-SlotKept i e first at fits r,
          found-SlotLost i e first at fits r,
        )
  ]
