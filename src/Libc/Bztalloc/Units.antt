-- ===== src/Libc/Bztalloc/Units.antt =====
-- The units of an arena, and what a change of one map does to them.
use bztsrc_osz.Prelude.{
  ℕ, zero, suc, ◌≡◌, ◌≢◌, inl, inr, refl, sym, ap, ◌∙◌, Bool, false, Option, none, some, List, [],
  ◌∷◌, ◌++◌, arith, get_elem?, set, lt_of_get, get_elem?-set_self, get_elem?-set_ne, Option-cases,
  ℕ_discrete,
}
use bztsrc_osz.Libc.Bztalloc.{Chunk, Allocmap, Arena, mark, set_map, map_at, chunk_at}

abbrev pub used_at : Option Chunk → ℕ → Bool
used_at none k = false
used_at (some c) k = c.used k

-- Unit `k` of chunk `j` of map `i` is in use.
abbrev pub unit_used : Arena → ℕ → ℕ → ℕ → Bool
unit_used s i j k = used_at (chunk_at s i j) k

pub map_at_there :
    (s : Arena) (i : ℕ) (m : Allocmap) → map_at s i ≡ some m → get_elem? s.maps i ≡ some (some m)
map_at_there s i m e = elim (Option-cases (get_elem? s.maps i)) [
  | inl missing ↦ absurd (ground (arith, missing, e))
  | inr (x, at) ↦
      at
      ∙ ap some
          (sym (ap (λ o. elim o as (λ x. Option Allocmap) [ none ↦ none | some m ↦ m ]) at) ∙ e)
]

pub map_at-set_map :
    (s : Arena) (i : ℕ) (m m' : Allocmap)
    → map_at s i ≡ some m
    → map_at (set_map s i (some m')) i ≡ some m'
map_at-set_map s i m m' e =
    ap (λ o. elim o as (λ x. Option Allocmap) [ none ↦ none | some m ↦ m ])
      (get_elem?-set_self s.maps i (some m') (lt_of_get s.maps i (some m) (map_at_there s i m e)))

pub map_at-set_map_ne :
    (s : Arena) (i i' : ℕ) (m' : Option Allocmap)
    → i ≢ i'
    → map_at (set_map s i m') i' ≡ map_at s i'
map_at-set_map_ne s i i' m' n =
    ap (λ o. elim o as (λ x. Option Allocmap) [ none ↦ none | some m ↦ m ])
      (get_elem?-set_ne s.maps m' n)

pub chunk_at_in :
    (s : Arena) (i j : ℕ) (m : Allocmap)
    → map_at s i ≡ some m
    → chunk_at s i j ≡ get_elem? m.chunks j
chunk_at_in s i j m e =
    ap (λ o. elim o as (λ x. Option Chunk) [ none ↦ none | some a ↦ get_elem? a.chunks j ]) e

-- The map of a chunk.
pub chunk_at-map :
    (s : Arena) (i j : ℕ) (c : Chunk)
    → chunk_at s i j ≡ some c
    → (m : Allocmap) × (map_at s i ≡ some m) × (get_elem? m.chunks j ≡ some c)
chunk_at-map s i j c e = elim (Option-cases (map_at s i)) [
  | inl missing ↦ absurd (ground (arith, missing, e))
  | inr (m, at) ↦ (m, at, sym (chunk_at_in s i j m at) ∙ e)
]

-- A chunk of a map is replaced.
abbrev pub with_chunk : Allocmap → ℕ → Chunk → Allocmap
with_chunk m j c = record m { chunks = set m.chunks j c }

pub chunk_at-set_self :
    (s : Arena) (i j : ℕ) (m : Allocmap) (c c' : Chunk)
    → map_at s i ≡ some m
    → get_elem? m.chunks j ≡ some c
    → chunk_at (set_map s i (some (with_chunk m j c'))) i j ≡ some c'
chunk_at-set_self s i j m c c' e at =
    let m' = with_chunk m j c' in
    chunk_at_in (set_map s i (some m')) i j m' (map_at-set_map s i m m' e)
    ∙ get_elem?-set_self m.chunks j c' (lt_of_get m.chunks j c at)

pub chunk_at-set_ne :
    (s : Arena) (i j i' j' : ℕ) (m : Allocmap) (c' : Chunk)
    → map_at s i ≡ some m
    → (i ≡ i' → j ≢ j')
    → chunk_at (set_map s i (some (with_chunk m j c'))) i' j' ≡ chunk_at s i' j'
chunk_at-set_ne s i j i' j' m c' e n =
    let m' = with_chunk m j c' in
    let s' = set_map s i (some m') in
    elim (ℕ_discrete i i') [
      | yes same ↦
          ap (λ x. chunk_at s' x j') (sym same)
          ∙ chunk_at_in s' i j' m' (map_at-set_map s i m m' e)
          ∙ get_elem?-set_ne m.chunks c' (n same)
          ∙ sym (chunk_at_in s i j' m e)
          ∙ ap (λ x. chunk_at s x j') same
      | no differ ↦
          ap (λ o. elim o as (λ x. Option Chunk) [ none ↦ none | some a ↦ get_elem? a.chunks j' ])
            (map_at-set_map_ne s i i' (some m') differ)
    ]

-- Unit `k` of chunk `j` of map `i` gets the value `b`, and nothing else changes.
pub record Marks (s s' : Arena) (i j k : ℕ) (b : Bool) : Type 0 where
  pub marked : unit_used s' i j k ≡ b
  pub others :
      (i' j' k' : ℕ) → (i ≡ i' → j ≡ j' → k ≢ k') → unit_used s' i' j' k' ≡ unit_used s i' j' k'

mark_ne : (f : ℕ → Bool) (k : ℕ) (b : Bool) (k' : ℕ) → k ≢ k' → mark f k b k' ≡ f k'
mark_ne f k b k' n = ground arith

-- A unit of a chunk of the arena is marked.
pub mark-Marks :
    (s : Arena) (i j k : ℕ) (m : Allocmap) (c : Chunk) (b : Bool)
    → map_at s i ≡ some m
    → get_elem? m.chunks j ≡ some c
    → Marks s (set_map s i (some (with_chunk m j (record c { used = mark c.used k b })))) i j k b
mark-Marks s i j k m c b e at =
    let c' : Chunk = record c { used = mark c.used k b } in
    let s' = set_map s i (some (with_chunk m j c')) in
    let self = chunk_at-set_self s i j m c c' e at in
    record {
      marked = ap (λ o. used_at o k) self ∙ ground arith;
      others = λ i' j' k' n. elim (ℕ_discrete i i') [
        | no differ ↦
            ap (λ o. used_at o k') (chunk_at-set_ne s i j i' j' m c' e (λ z. absurd (differ z)))
        | yes si ↦ elim (ℕ_discrete j j') [
          | no differ ↦ ap (λ o. used_at o k') (chunk_at-set_ne s i j i' j' m c' e (λ z. differ))
          | yes sj ↦
              ap (λ x. unit_used s' x j' k') (sym si)
              ∙ ap (λ x. unit_used s' i x k') (sym sj)
              ∙ ap (λ o. used_at o k') self
              ∙ mark_ne c.used k b k' (n si sj)
              ∙ sym (ap (λ o. used_at o k') (chunk_at_in s i j m e ∙ at))
              ∙ ap (λ x. unit_used s i x k') sj
              ∙ ap (λ x. unit_used s x j' k') si
        ]
      ];
    }

-- A new chunk has no unit in use.
pub add-units :
    (s : Arena) (i : ℕ) (m : Allocmap) (c : Chunk) (i' j' k' : ℕ)
    → map_at s i ≡ some m
    → ((k : ℕ) → c.used k ≡ false)
    → unit_used (set_map s i (some (record m { chunks = m.chunks ++ (c ∷ []) }))) i' j' k'
      ≡ unit_used s i' j' k'
add-units s i m c i' j' k' e clear =
    let m' : Allocmap = record m { chunks = m.chunks ++ (c ∷ []) } in
    let s' = set_map s i (some m') in
    elim (ℕ_discrete i i') [
      | no differ ↦
          ap
            (λ o.
              used_at
                (elim o as (λ x. Option Chunk) [ none ↦ none | some a ↦ get_elem? a.chunks j' ]) k')
            (map_at-set_map_ne s i i' (some m') differ)
      | yes same ↦
          ap (λ x. unit_used s' x j' k') (sym same)
          ∙ ap (λ o. used_at o k') (chunk_at_in s' i j' m' (map_at-set_map s i m m' e))
          ∙ added m.chunks j' k'
          ∙ sym (ap (λ o. used_at o k') (chunk_at_in s i j' m e))
          ∙ ap (λ x. unit_used s x j' k') same
    ]
  where
    added :
        (cs : List Chunk) (j k : ℕ)
        → used_at (get_elem? (cs ++ (c ∷ [])) j) k ≡ used_at (get_elem? cs j) k
    added [] zero k = clear k
    added [] (suc j) k = refl
    added (x ∷ cs) zero k = refl
    added (x ∷ cs) (suc j) k = added cs j k
