-- ===== src/Pmm/Free.antt =====
-- pmm_free: the freed block joins the free regions, whichever of them it touches.
use bztsrc_osz.Prelude.{
  ℕ, ◌+◌, ◌*◌, ◌%◌, ◌≤◌, ◌<◌, ◌≡◌, refl, ◌∙◌, true, some, List, [], ◌∷◌, ◌++◌, arith, All, All-get,
  All-set, All-append, Option-cases, inl, inr, tally, tally-set, tally-append, add64, sub64, mul64,
  get_elem?, get_elem?-set_self, lt_of_get, set, length,
}
use bztsrc_osz.Pmm.{
  Entry, Pmm, Task, page_size, Side, front, back, touching, merge, extended, insert_block, free,
}
use bztsrc_osz.Pmm.Merge.{Meets, touching-lem, merge-SameFree}
use bztsrc_osz.Pmm.Cover.{
  within, entry_cover, pages_of, cover, free_total, IsRegion, IsValid, phys_limit,
}

get_elem?-append_last :
    (es : List Entry) (x : Entry) → get_elem? (es ++ (x ∷ [])) (length es) ≡ some x
get_elem?-append_last [] x = refl
get_elem?-append_last (e ∷ es) x = get_elem?-append_last es x

-- A block of `pages` pages from `base` that does not wrap, put into a list of regions.
module _ (es : List Entry) (base pages : ℕ) (regions : All IsRegion es) (based : 0 < base)
    (some_pages : 0 < pages) (aligned : base % page_size ≡ 0)
    (ends : base + pages * page_size < phys_limit) where
  record Inserted (rest : List Entry) : Type 0 where
    kept : All IsRegion rest
    total : tally pages_of rest ≡ pages + tally pages_of es
    covers :
        (a : ℕ)
        → tally (entry_cover a) rest ≡ within a base (pages * page_size) + tally (entry_cover a) es

  abbrev block : Entry
  block = record { base = base; size = pages }

  block-IsRegion : IsRegion block
  block-IsRegion = omega (arith, based, some_pages, aligned, ends)

  Inserted-merge :
      (mid : List Entry) (i : ℕ) (x : Entry)
      → get_elem? mid i ≡ some x
      → Inserted mid
      → Inserted (merge mid i x)
  Inserted-merge mid i x at k =
      let m = merge-SameFree mid i x at k.kept in
      record { kept = m.regions; total = m.total ∙ k.total; covers = λ a. m.covers a ∙ k.covers a }

  Inserted-append : Inserted (es ++ (block ∷ []))
  Inserted-append = record {
    kept = All-append IsRegion es (block ∷ []) regions (block-IsRegion, tt);
    total = omega (arith, tally-append pages_of es (block ∷ []));
    covers = λ a. omega (arith, tally-append (entry_cover a) es (block ∷ []));
  }

  module _ (i : ℕ) (e : Entry) (at : get_elem? es i ≡ some e) where
    extend :
        (side : Side)
        → Meets base (mul64 pages page_size) e side
        → IsRegion (extended base pages e side)
          × (pages_of (extended base pages e side) ≡ pages + pages_of e)
          × ((a : ℕ)
              → entry_cover a (extended base pages e side)
                ≡ within a base (pages * page_size) + entry_cover a e)
    extend front meet =
        let r : IsRegion e = All-get IsRegion es i e regions at in
        (
          omega (arith, r.ends, r.sized, based, aligned, ends),
          omega (arith, r.ends),
          λ a. ground (arith, r.ends, ends),
        )
    extend back meet =
        let r : IsRegion e = All-get IsRegion es i e regions at in
        (
          omega (arith, r.ends, r.sized, r.based, r.aligned, ends),
          omega (arith, r.ends, ends),
          λ a. ground (arith, r.ends, ends),
        )

    Inserted-set :
        (side : Side)
        → Meets base (mul64 pages page_size) e side
        → Inserted (set es i (extended base pages e side))
    Inserted-set side meet =
        let (r, n, c) = extend side meet in
        record {
          kept = All-set IsRegion es i (extended base pages e side) regions r;
          total = omega (arith, n, tally-set pages_of es i (extended base pages e side) e at);
          covers = λ a.
              omega (arith, c a, tally-set (entry_cover a) es i (extended base pages e side) e at);
        }

  insert_block-Inserted : Inserted (insert_block es base pages)
  unfolding insert_block
  insert_block-Inserted = elim (Option-cases (touching base (mul64 pages page_size) es)) [
    | inl alone ↦
        rw (alone, insert_block)
          (Inserted-merge (es ++ (block ∷ [])) (length es) block (get_elem?-append_last es block)
            Inserted-append)
    | inr ((i, side), found) ↦
        let (e, at, meet) = touching-lem base (mul64 pages page_size) es i side found in
        rw (found, insert_block, at)
          (Inserted-merge (set es i (extended base pages e side)) i (extended base pages e side)
            (get_elem?-set_self es i (extended base pages e side) (lt_of_get es i e at))
            (Inserted-set i e at side meet))
  ]

-- What pmm_free promises of the state behind it.
pub record Freed (p : Pmm) (t : Task) (base n : ℕ) (q : Pmm) (u : Task) : Type 0 where
  pub valid : IsValid q
  pub free_more : q.freepages ≡ p.freepages + n
  pub owned : u.allocmem ≡ sub64 t.allocmem n
  pub covers : (a : ℕ) → cover a q.entries ≡ within a base (n * page_size) + cover a p.entries
  pub mem_kept : (a : ℕ) → q.mem a ≡ p.mem a

abbrev freed : Pmm → ℕ → ℕ → Pmm
freed p base n = record p {
  entries = insert_block p.entries base n;
  freepages = add64 p.freepages n;
}

-- Giving back a block of at least one page, which begins at a page but not at address 0, lies within the physical addresses, and for
-- which the books leave room, adds exactly its addresses to the free ones, in whatever way it meets the
-- regions that are there, and keeps the manager valid.
pub free-Freed :
    (p : Pmm) (t : Task) (base n : ℕ)
    → IsValid p
    → t.magic ≡ true
    → 0 < base
    → 0 < n
    → base % page_size ≡ 0
    → base + n * page_size < phys_limit
    → p.freepages + n ≤ p.totalpages
    → (q : Pmm) × (u : Task) × (free p t base n ≡ some (q, u)) × Freed p t base n q u
unfolding free cover free_total
free-Freed p t base n v ready based pos al ends room =
    let k : Inserted p.entries base n v.regions based pos al ends (insert_block p.entries base n) =
      insert_block-Inserted p.entries base n v.regions based pos al ends in
    (
      freed p base n,
      record t { allocmem = sub64 t.allocmem n },
      ground arith,
      record {
        valid = record {
          regions = k.kept;
          counted = omega (arith, k.total, v.counted, v.small);
          bounded = omega (arith, v.small);
          small = v.small;
        };
        free_more = omega (arith, v.small);
        owned = refl;
        covers = k.covers;
        mem_kept = λ a. refl;
      },
    )
