-- ===== src/Pmm/Merge.antt =====
-- The searches of pmm_free, and the merging of two regions that meet.
use mathlib.Core.Path.{subst}
use bztsrc_osz.Prelude.{
  ℕ, zero, suc, ◌+◌, ◌≡◌, ◌≢◌, refl, ◌∙◌, some, List, [], ◌∷◌, arith, All, All-get, All-set,
  All-erase_idx, Option-cases, inl, inr, tally, tally-set, tally-erase_idx, add64, get_elem?,
  erase_idx, get_elem?-set_ne, set,
}
use bztsrc_osz.Pmm.{Entry, Side, front, back, end_of, join, touching, neighbour, merge}
use bztsrc_osz.Pmm.Cover.{entry_cover, pages_of, IsRegion}

-- The block from `base` of `s` bytes touches region `e`.
abbrev pub Meets : ℕ → ℕ → Entry → Side → Type 0
Meets base s e front = e.base ≡ add64 base s
Meets base s e back = end_of e ≡ base

-- Region `x` touches region `e`.
abbrev pub Joins : Entry → Entry → Side → Type 0
Joins x e back = end_of x ≡ e.base
Joins x e front = x.base ≡ end_of e

pub touching-lem :
    (base s : ℕ) (es : List Entry) (i : ℕ) (side : Side)
    → touching base s es ≡ some (i, side)
    → (e : Entry) × (get_elem? es i ≡ some e) × Meets base s e side
unfolding touching
touching-lem base s [] i side h = cc
touching-lem base s (e ∷ es) zero front h = (e, refl, ground arith)
touching-lem base s (e ∷ es) zero back h = (e, refl, ground arith)
touching-lem base s (e ∷ es) (suc i) side h = touching-lem base s es i side (ground arith)

neighbour-lem :
    (x : Entry) (es : List Entry) (j : ℕ) (side : Side)
    → neighbour x es ≡ some (j, side)
    → (e : Entry) × (get_elem? es j ≡ some e) × Joins x e side
unfolding neighbour
neighbour-lem x [] j side h = cc
neighbour-lem x (e ∷ es) zero front h = (e, refl, ground arith)
neighbour-lem x (e ∷ es) zero back h = (e, refl, ground arith)
neighbour-lem x (e ∷ es) (suc j) side h = neighbour-lem x es j side (ground arith)

join-IsRegion :
    (x e : Entry) (side : Side)
    → IsRegion x
    → IsRegion e
    → Joins x e side
    → IsRegion (join x e side)
join-IsRegion x e front r k h =
    omega (arith, r.ends, k.ends, r.based, k.based, r.sized, k.sized, r.aligned, k.aligned)
join-IsRegion x e back r k h =
    omega (arith, r.ends, k.ends, r.based, k.based, r.sized, k.sized, r.aligned, k.aligned)

join-cover :
    (a : ℕ) (x e : Entry) (side : Side)
    → IsRegion x
    → IsRegion e
    → Joins x e side
    → entry_cover a (join x e side) ≡ entry_cover a x + entry_cover a e
join-cover a x e front r k h = ground (arith, r.ends, k.ends)
join-cover a x e back r k h = ground (arith, r.ends, k.ends)

join-pages :
    (x e : Entry) (side : Side)
    → IsRegion x
    → IsRegion e
    → Joins x e side
    → pages_of (join x e side) ≡ pages_of x + pages_of e
join-pages x e front r k h = omega (arith, r.ends, k.ends)
join-pages x e back r k h = omega (arith, r.ends, k.ends)

-- A region is no neighbour of itself.
not-Joins_self : (x : Entry) (side : Side) → IsRegion x → ¬ Joins x x side
not-Joins_self x front r h = omega (arith, r.sized, r.ends)
not-Joins_self x back r h = omega (arith, r.sized, r.ends)

-- Two lists of regions with the same pages and the same free addresses.
pub record SameFree (es rest : List Entry) : Type 0 where
  pub regions : All IsRegion rest
  pub total : tally pages_of rest ≡ tally pages_of es
  pub covers : (a : ℕ) → tally (entry_cover a) rest ≡ tally (entry_cover a) es

-- Region `x` at index `i` of a list of regions.
module _ (es : List Entry) (i : ℕ) (x : Entry) (at : get_elem? es i ≡ some x)
    (regions : All IsRegion es) where
  region : IsRegion x
  region = All-get IsRegion es i x regions at

  -- The list after region `j`, which is `e`, has gone into region `i`.
  module _ (j : ℕ) (e : Entry) (side : Side) (near : get_elem? es j ≡ some e)
      (meet : Joins x e side) where
    apart : i ≢ j
    apart same = not-Joins_self x side region (subst (λ r. Joins x r side) only meet)
      where
        only : e ≡ x
        only = ground arith

    tally-joined :
        (f : Entry → ℕ)
        → f (join x e side) ≡ f x + f e
        → tally f (erase_idx (set es i (join x e side)) j) ≡ tally f es
    tally-joined f sum = omega (
      arith,
      tally-set f es i (join x e side) x at,
      tally-erase_idx f (set es i (join x e side)) j e
          (get_elem?-set_ne es (join x e side) apart ∙ near),
      sum,
    )

    joined-regions : All IsRegion (erase_idx (set es i (join x e side)) j)
    joined-regions = All-erase_idx IsRegion (set es i (join x e side)) j (
        All-set IsRegion es i (join x e side) regions
          (join-IsRegion x e side region (All-get IsRegion es j e regions near) meet))

  -- Merging changes no count.
  pub merge-SameFree : SameFree es (merge es i x)
  unfolding merge
  merge-SameFree = elim (Option-cases (neighbour x es)) [
    | inl alone ↦ rw (alone, merge) (record { regions = regions; total = refl; covers = λ a. refl })
    | inr ((j, side), found) ↦
        let (e, near, meet) = neighbour-lem x es j side found in
        let known : IsRegion e = All-get IsRegion es j e regions near in
        rw (found, merge, near)
          (record {
            regions = joined-regions j e side near meet;
            total =
                tally-joined j e side near meet pages_of (join-pages x e side region known meet);
            covers = λ a.
                tally-joined j e side near meet (entry_cover a)
                  (join-cover a x e side region known meet);
          })
  ]
