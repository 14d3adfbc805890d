-- ===== src/Pmm/Slot.antt =====
-- pmm_allocslot: an aligned block of two megabytes, and the leak when a split region ends with it.
use bztsrc_osz.Prelude.{
  ℕ_discrete, ℕ, zero, suc, ◌+◌, ◌*◌, ◌/◌, ◌%◌, ◌≤◌, ◌≡◌, ◌≢◌, refl, some, none, List, [], ◌∷◌,
  arith, All, All-set, All-erase_idx, All-split_at, tally, tally-set, tally-erase_idx,
  tally-split_at, get_elem?-split_at, split_at, add64, sub64, get_elem?, get_elem?-set_self,
  erase_idx, erase_idx-set, lt_of_get, set,
}
use bztsrc_osz.Pmm.{Entry, page_size, slot_size, slot_pages, slot_above, slot_fit, carve}
use bztsrc_osz.Pmm.Cover.{within, entry_cover, pages_of, IsRegion}

-- The whole slot above the base of `e` lies in `e`.
abbrev pub Fits : Entry → Type 0
Fits e = slot_above e + slot_size ≤ e.base + e.size * page_size

pub slot_fit-some :
    (es : List Entry) (i : ℕ)
    → All IsRegion es
    → slot_fit es ≡ some i
    → (e : Entry) × (get_elem? es i ≡ some e) × Fits e × IsRegion e
unfolding slot_fit
slot_fit-some [] i ok h = cc
slot_fit-some (e ∷ es) zero ok h = (e, refl, ground (arith, ok.0.ends), ok.0)
slot_fit-some (e ∷ es) (suc i) ok h = slot_fit-some es i ok.1 (ground arith)

pub slot_fit-none :
    (es : List Entry) → All IsRegion es → slot_fit es ≡ none → All (λ e. ¬ Fits e) es
unfolding slot_fit
slot_fit-none [] ok h = tt
slot_fit-none (e ∷ es) ok h = (ground (arith, ok.0.ends), slot_fit-none es ok.1 (ground arith))

-- The slot is aligned and does not lie below the region.
pub slot_above_aligned :
    (e : Entry) → IsRegion e → (slot_above e % slot_size ≡ 0) × (e.base ≤ slot_above e)
slot_above_aligned e r = (omega (arith, r.ends), omega (arith, r.ends))

-- What is left of region `e` behind the slot.
abbrev pub left_over : Entry → ℕ
left_over e = sub64 e.size (sub64 (slot_above e) e.base / page_size + slot_pages)

abbrev pub front_of : Entry → Entry
front_of e = record { base = e.base; size = sub64 (slot_above e) e.base / page_size }

abbrev pub back_of : Entry → Entry
back_of e = record { base = add64 (slot_above e) slot_size; size = left_over e }

-- The leak: a region that does not begin at the slot, and ends with it.
abbrev pub Leaks : Entry → Type 0
Leaks e = (slot_above e ≢ e.base) × (left_over e ≡ 0)

module _ (e : Entry) (r : IsRegion e) (fits : Fits e) where
  -- Front, slot and back make up the region.
  pub parts_cover :
      (a : ℕ)
      → entry_cover a e
        ≡ entry_cover a (front_of e) + within a (slot_above e) slot_size + entry_cover a (back_of e)
  parts_cover a = ground (arith, r.ends, r.aligned)

  pub parts_pages : e.size ≡ pages_of (front_of e) + slot_pages + pages_of (back_of e)
  parts_pages = omega (arith, r.ends, r.aligned)

  pub front_of-IsRegion : slot_above e ≢ e.base → IsRegion (front_of e)
  front_of-IsRegion split = omega (arith, r.ends, r.aligned, r.based, split)

  pub back_of-IsRegion : left_over e ≢ 0 → IsRegion (back_of e)
  back_of-IsRegion more = omega (arith, r.ends, r.aligned, r.based, more)

  pub front_of_empty : slot_above e ≡ e.base → pages_of (front_of e) ≡ 0
  front_of_empty whole = omega arith

pub front_of_no_cover : (e : Entry) (a : ℕ) → slot_above e ≡ e.base → entry_cover a (front_of e) ≡ 0
front_of_no_cover e a whole = ground arith

pub back_of_no_cover : (e : Entry) (a : ℕ) → left_over e ≡ 0 → entry_cover a (back_of e) ≡ 0
back_of_no_cover e a none_left = ground arith

-- A measure of regions that is additive over the parts of `e`; `c` is what it gives for the slot.
module _ (es : List Entry) (i : ℕ) (e : Entry) (at : get_elem? es i ≡ some e) (f : Entry → ℕ)
    (c : ℕ) (sum : f e ≡ f (front_of e) + c + f (back_of e))
    (no_front : slot_above e ≡ e.base → f (front_of e) ≡ 0)
    (no_back : left_over e ≡ 0 → f (back_of e) ≡ 0) where
  carve_whole : slot_above e ≡ e.base → c + tally f (carve es i e) ≡ tally f es
  unfolding carve
  carve_whole whole = ground (
    arith,
    sum,
    no_front whole,
    no_back,
    tally-set f es i (back_of e) e at,
    tally-erase_idx f (set es i (back_of e)) i (back_of e)
        (get_elem?-set_self es i (back_of e) (lt_of_get es i e at)),
  )

  carve_split : slot_above e ≢ e.base → left_over e ≢ 0 → c + tally f (carve es i e) ≡ tally f es
  unfolding carve
  carve_split split more = ground (arith, sum, tally-split_at f es i (front_of e) (back_of e) e at)

  pub carve_leak :
      slot_above e ≢ e.base
      → left_over e ≡ 0
      → c + f (front_of e) + tally f (carve es i e) ≡ tally f es
  unfolding carve
  carve_leak split none_left = ground (
    arith,
    sum,
    no_back none_left,
    tally-split_at f es i (front_of e) (back_of e) e at,
    tally-erase_idx f (split_at es i (front_of e) (back_of e)) i (front_of e)
        (get_elem?-split_at es i (front_of e) (back_of e) e at),
  )

  pub carve_sound : ¬ Leaks e → c + tally f (carve es i e) ≡ tally f es
  carve_sound sound = elim (ℕ_discrete (slot_above e) e.base) [
    | yes whole ↦ carve_whole whole
    | no split ↦ carve_split split (λ none_left. sound (split, none_left))
  ]

pub carve_regions :
    (es : List Entry) (i : ℕ) (e : Entry)
    → get_elem? es i ≡ some e
    → All IsRegion es
    → IsRegion e
    → Fits e
    → ¬ Leaks e
    → All IsRegion (carve es i e)
unfolding carve
carve_regions es i e at ok r fits sound = elim (ℕ_discrete (slot_above e) e.base) [
  | yes whole ↦ elim (ℕ_discrete (left_over e) 0) [
    | yes none_left ↦ ground (arith, erased)
    | no more ↦
        ground (arith, All-set IsRegion es i (back_of e) ok (back_of-IsRegion e r fits more))
  ]
  | no split ↦
      let more : left_over e ≢ 0 = λ none_left. sound (split, none_left) in
      ground (
        arith,
        All-split_at IsRegion es i (front_of e) (back_of e) ok (front_of-IsRegion e r fits split)
            (back_of-IsRegion e r fits more),
      )
]
  where
    erased : All IsRegion (erase_idx (set es i (back_of e)) i)
    erased = rw erase_idx-set (All-erase_idx IsRegion es i ok)
