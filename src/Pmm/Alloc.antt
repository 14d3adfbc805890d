-- ===== src/Pmm/Alloc.antt =====
-- pmm_alloc: what it hands out, and what it leaves.
use mathlib.Core.Path.{subst}
use mathlib.Core.Option.{some-injective}
use bztsrc_osz.Prelude.{
  sym, ◌%◌, ℕ, ◌+◌, ◌-◌, ◌*◌, ◌≤◌, ◌<◌, ◌≡◌, ◌↔◌, refl, ◌∙◌, ◌⊎◌, inl, inr, true, some, none, List,
  [], ◌∷◌, arith, leb, All, Bool-cases, tally, ◌==◌, if◌then◌else◌, add64, sub64, mul64,
}
use bztsrc_osz.Pmm.{
  Entry, Pmm, Task, page_size, first_fit, alloc_found, alloc, clear, runlvl_norm, enomem,
}
use bztsrc_osz.Pmm.Cover.{
  within, entry_cover, pages_of, within-join, cover, free_total, IsRegion, IsValid, phys_limit,
}

-- The outcome of a search for `n` pages in `es`.
record Taken (n : ℕ) (es : List Entry) (b : ℕ) (rest : List Entry) : Type 0 where
  based : 0 < b
  aligned : b % page_size ≡ 0
  ends : b + n * page_size < phys_limit
  regions : All IsRegion rest
  total : tally pages_of es ≡ n + tally pages_of rest
  covers :
      (a : ℕ) → tally (entry_cover a) es ≡ within a b (n * page_size) + tally (entry_cover a) rest

abbrev pub Small : ℕ → Entry → Type 0
Small n e = e.size < n

abbrev front_left : ℕ → Entry → List Entry → List Entry
front_left n e es =
    if (e.size - n) == 0
    then es
    else record { base = add64 e.base (mul64 n page_size); size = e.size - n } ∷ es

-- The front of a region that is large enough.
split_front :
    (n : ℕ) (e : Entry) (es : List Entry)
    → 0 < n
    → n ≤ e.size
    → IsRegion e
    → All IsRegion es
    → Taken n (e ∷ es) e.base (front_left n e es)
split_front n e es pos fits r ok = record {
  based = r.based;
  aligned = r.aligned;
  ends = omega (arith, r.ends);
  regions = ground (arith, r.based, r.ends, r.aligned);
  total = ground arith;
  covers =
      λ a. ground (arith, r.ends, within-join a e.base (n * page_size) ((e.size - n) * page_size));
}

keep_front :
    (n : ℕ) (e : Entry) (es : List Entry) {b : ℕ} {rest : List Entry}
    → IsRegion e
    → Taken n es b rest
    → Taken n (e ∷ es) b (e ∷ rest)
keep_front n e es r t = record {
  based = t.based;
  aligned = t.aligned;
  ends = t.ends;
  regions = (r, t.regions);
  total = omega (arith, t.total);
  covers = λ a. omega (arith, t.covers a);
}

first_fit-cases :
    (n : ℕ) (es : List Entry)
    → 0 < n
    → All IsRegion es
    → ((first_fit n es ≡ (0, es)) × All (Small n) es)
      ⊎ Taken n es (first_fit n es).0 (first_fit n es).1
unfolding first_fit
first_fit-cases n [] pos ok = inl (refl, tt)
first_fit-cases n (e ∷ es) pos ok = elim (Bool-cases (leb n e.size)) [
  | inl fits ↦ inr (rw fits (split_front n e es pos (ground arith) ok.0 ok.1))
  | inr no_fit ↦ elim (first_fit-cases n es pos ok.1) [
    | inl (same, small) ↦ inl (rw no_fit (ground arith), (ground arith, small))
    | inr t ↦ inr (rw no_fit (keep_front n e es ok.0 t))
  ]
]

first_fit-Small : (n : ℕ) (es : List Entry) → All (Small n) es → (first_fit n es).0 ≡ 0
unfolding first_fit
first_fit-Small n [] small = refl
first_fit-Small n (e ∷ es) small = ground (arith, small.0, first_fit-Small n es small.1)

-- What pmm_alloc promises of the block `b` of `n` pages and of the state behind it.
pub record Served (p : Pmm) (t : Task) (n b : ℕ) (q : Pmm) (u : Task) : Type 0 where
  pub based : 0 < b
  pub aligned : b % page_size ≡ 0
  pub ends : b + n * page_size < phys_limit
  pub valid : IsValid q
  pub free_left : q.freepages + n ≡ p.freepages
  pub books : q.totalpages ≡ p.totalpages
  pub owned : u.allocmem ≡ add64 t.allocmem n
  pub same_task : u.magic ≡ t.magic
  pub covers : (a : ℕ) → cover a p.entries ≡ within a b (n * page_size) + cover a q.entries
  pub cleared : (a : ℕ) → b ≤ a → a < b + n * page_size → q.mem a ≡ 0
  pub kept : (a : ℕ) → (a < b) ⊎ (b + n * page_size ≤ a) → q.mem a ≡ p.mem a

taken : Pmm → Task → ℕ → ℕ → List Entry → Pmm
taken p t n b rest = record p {
  entries = rest;
  freepages = sub64 p.freepages n;
  mem = clear b (n * page_size) p.mem;
}

Taken-Served :
    (p : Pmm) (t : Task) (n b : ℕ) (rest : List Entry)
    → IsValid p
    → Taken n p.entries b rest
    → Served p t n b (taken p t n b rest) (record t { allocmem = add64 t.allocmem n })
unfolding cover free_total clear taken
Taken-Served p t n b rest v k = record {
  based = k.based;
  aligned = k.aligned;
  ends = k.ends;
  valid = record {
    regions = k.regions;
    counted = omega (arith, k.total, v.counted, v.bounded, v.small);
    bounded = omega (arith, k.total, v.counted, v.bounded, v.small);
    small = v.small;
  };
  free_left = omega (arith, k.total, v.counted, v.bounded, v.small);
  books = refl;
  owned = refl;
  same_task = refl;
  covers = k.covers;
  cleared = λ a lo hi. ground arith;
  kept = λ a out. ground arith;
}

module _ (p : Pmm) (t : Task) (n : ℕ) (v : IsValid p) (ready : t.magic ≡ true) (pos : 0 < n) where
  alloc_lem : alloc p t n ≡ alloc_found p t n (first_fit n p.entries)
  unfolding alloc
  alloc_lem = ground (arith, v.bounded)

  exhausted :
      runlvl_norm ≤ p.runlevel
      → alloc_found p t n (0, p.entries) ≡ some (0, record p { errno = enomem }, t)
  unfolding alloc_found
  exhausted up = ground arith

  panics : p.runlevel < runlvl_norm → alloc_found p t n (0, p.entries) ≡ none
  unfolding alloc_found
  panics early = ground arith

  served :
      (b : ℕ) (rest : List Entry)
      → 0 < b
      → alloc_found p t n (b, rest)
        ≡ some (b, taken p t n b rest, record t { allocmem = add64 t.allocmem n })
  unfolding alloc_found taken
  served b rest based = ground arith

  -- On a running system a call either hands out a block, removes exactly that block from the free
  -- regions, clears it, and keeps the manager valid, or no region is large enough, and then it
  -- changes nothing but the error number.
  pub alloc_cases :
      runlvl_norm ≤ p.runlevel
      → ((alloc p t n ≡ some (0, record p { errno = enomem }, t)) × All (Small n) p.entries)
        ⊎ (b : ℕ) × (q : Pmm) × (u : Task) × (alloc p t n ≡ some (b, q, u)) × Served p t n b q u
  alloc_cases up = elim (first_fit-cases n p.entries pos v.regions) [
    | inl (same, small) ↦ inl (alloc_lem ∙ rw same (exhausted up), small)
    | inr k ↦ inr (
      (first_fit n p.entries).0,
      taken p t n (first_fit n p.entries).0 (first_fit n p.entries).1,
      record t { allocmem = add64 t.allocmem n },
      alloc_lem ∙ served (first_fit n p.entries).0 (first_fit n p.entries).1 k.based,
      Taken-Served p t n _ _ v k,
    )
  ]

  -- While the system boots, a call panics exactly when no region is large enough.
  pub alloc_panics : p.runlevel < runlvl_norm → (alloc p t n ≡ none) ↔ All (Small n) p.entries
  alloc_panics early = elim (first_fit-cases n p.entries pos v.regions) [
    | inl (same, small) ↦ (λ _. small, λ _. alloc_lem ∙ rw same (panics early))
    | inr k ↦ (
      λ e. cc (alloc_lem, served (first_fit n p.entries).0 (first_fit n p.entries).1 k.based),
      λ small. absurd (omega (arith, k.based, first_fit-Small n p.entries small)),
    )
  ]

  not_found :
      (b : ℕ) (q : Pmm) (u : Task) → alloc_found p t n (0, p.entries) ≡ some (b, q, u) → b ≡ 0
  unfolding alloc_found
  not_found b q u e = ground arith

  -- Whatever address but 0 pmm_alloc returns is that of a block which it has served.
  pub alloc-Served :
      (b : ℕ) (q : Pmm) (u : Task) → alloc p t n ≡ some (b, q, u) → 0 < b → Served p t n b q u
  alloc-Served b q u e based = elim (first_fit-cases n p.entries pos v.regions) [
    | inl (same, small) ↦ absurd (omega (arith, not_found b q u (rw (← same) (sym alloc_lem ∙ e))))
    | inr k ↦
        subst (λ (x : ℕ × Pmm × Task). Served p t n x.0 x.1 x.2)
          (some-injective _ _ (sym (alloc_lem ∙ served _ _ k.based) ∙ e))
          (Taken-Served p t n _ _ v k)
  ]
