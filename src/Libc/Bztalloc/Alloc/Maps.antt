-- ===== src/Libc/Bztalloc/Alloc/Maps.antt =====
-- The number of the maps of an arena.
use bztsrc_osz.Prelude.{
  ℕ, ◌+◌, ◌-◌, ◌*◌, ◌<◌, ◌≤◌, ◌≡◌, inl, inr, ap, ◌==◌, ◌&&◌, ◌||◌, not, Bool, true, Option, none,
  some, List, [], ◌∷◌, ◌++◌, arith, ltb, if◌then◌else◌, length, get_elem?, erase_idx, take,
  Option-cases, Bool-cases, if_both, option_both,
}
use mathlib.Core.Option.{some-injective}
use bztsrc_osz.Libc.Bztalloc.{
  Chunk, Allocmap, Arena, Scan, alloc_size, arena_size, page_size, max_arena, efault, enomem,
  chunksize, mark, give_back, keep_chunks, release, map_at, chunk_at, find_map, bzt_free,
  quantum_of, scan_maps, seterr,
}
use bztsrc_osz.Libc.Bztalloc.Alloc.{
  scan_start, room, same_chunk, first_map, new_chunk, pick_chunk, set_chunk, take_block, fill,
  drop_old, add_chunk, in_map, in_new_map, finish, on_unit, old_bytes, alloc_from, alloc_in,
  bzt_alloc, round_up,
}
use bztsrc_osz.Libc.Bztalloc.Alloc.Found.{scan_maps_le}
use bztsrc_osz.Libc.Bztalloc.Alloc.Fresh.{new_map_never}

-- At most `n` maps.
abbrev AtMost : ℕ → Arena → Type 0
AtMost n s = s.nummaps ≤ n

AtMost-of : (n : ℕ) (s s' : Arena) → some s ≡ some s' → s.nummaps ≤ n → AtMost n s'
AtMost-of n s s' e h = omega (arith, h, ap (λ (x : Arena). x.nummaps) (some-injective s s' e))

keep_chunks-AtMost :
    (n : ℕ) (s : Arena) (i : ℕ) (a : Allocmap) (cs : List Chunk)
    → s.nummaps ≤ n
    → AtMost n (keep_chunks s i a cs)
unfolding keep_chunks
keep_chunks-AtMost n s i a [] h = omega arith
keep_chunks-AtMost n s i a (c ∷ cs) h = h

release-AtMost :
    (n : ℕ) (s : Arena) (i j : ℕ) (a : Allocmap) (c : Chunk) (p : ℕ) (kept : List Chunk)
    → s.nummaps ≤ n
    → AtMost n (release s i j a c p kept)
unfolding release
release-AtMost n s i j a c p kept h =
    if_both (AtMost n) (give_back c p).1
      (keep_chunks-AtMost n (record s { effects = (give_back c p).2 ++ s.effects }) i a kept h) h

-- bzt_free makes no map.
pub bzt_free-AtMost : (n : ℕ) (s : Arena) (p : ℕ) → s.nummaps ≤ n → AtMost n (bzt_free s p)
unfolding bzt_free
bzt_free-AtMost n s p h = if_both (AtMost n) (p == 0) h (
    option_both (AtMost n) (find_map s.maps s.nummaps p) (seterr s efault) _ h (λ (i, j).
      option_both (AtMost n) (map_at s i) s _ h (λ a.
        option_both (AtMost n) (get_elem? a.chunks j) s _ h
          (λ c. release-AtMost n s i j a c p (erase_idx a.chunks j) h))))

drop_old-AtMost :
    (n : ℕ) (s : Arena) (m : ℕ) (old : Option (ℕ × ℕ)) (p : ℕ)
    → s.nummaps ≤ n
    → AtMost n (drop_old s m old p)
unfolding drop_old
drop_old-AtMost n s m none p h = h
drop_old-AtMost n s m (some (i, j)) p h =
    let size : ℕ = elim (map_at s m) [ none ↦ 0 | some a ↦ length a.chunks ] in
    option_both (AtMost n) (map_at s i) s _ h (λ a.
      option_both (AtMost n) (chunk_at s i j) s _ h (λ c.
        release-AtMost n s i j a c p
          (if ltb (j + 1) size then erase_idx a.chunks j else take (length a.chunks - 1) a.chunks)
          h))

set_chunk-AtMost :
    (n : ℕ) (s : Arena) (i j : ℕ) (c : Chunk) → s.nummaps ≤ n → AtMost n (set_chunk s i j c)
unfolding set_chunk
set_chunk-AtMost n s i j c h = option_both (AtMost n) (map_at s i) s _ h (λ m. h)

module _ (can_map : ℕ → ℕ → Bool) (sparse : Bool) where
  take_block-AtMost :
      (m : ℕ) (s : Arena) (i j k : ℕ) (c : Chunk) (q n at : ℕ)
      → s.nummaps ≤ m
      → AtMost m (take_block can_map sparse s i j k c q n at).0
  unfolding take_block
  take_block-AtMost m s i j k c q n at h =
      let P : Arena × Option ℕ → Type 0 = λ r. AtMost m r.0 in
      let unit = c.ptr + k * c.quantum in
      let marked = set_chunk-AtMost m s i j (record c { used = mark c.used k true }) h in
      let sized = set_chunk-AtMost m s i j (record c { size = round_up n alloc_size }) h in
      if_both P (ltb q alloc_size)
        (if_both P (sparse || ltb q page_size) marked
          (if_both P (can_map unit c.quantum) marked marked))
        (if_both P sparse sized (if_both P (can_map at (round_up n alloc_size)) sized h))

  add_chunk-AtMost :
      (n : ℕ) (s : Arena) (f q at : ℕ) (m : Allocmap)
      → s.nummaps ≤ n
      → AtMost n (add_chunk can_map sparse s f q at m).0
  unfolding add_chunk
  add_chunk-AtMost n s f q at m h =
      let P : Arena × Option (ℕ × ℕ × ℕ) → Type 0 = λ r. AtMost n r.0 in
      if_both P (not (not sparse && ltb q page_size)) h (if_both P (can_map at (chunksize q)) h h)

  new_chunk-AtMost :
      (n : ℕ) (s : Arena) (f q at : ℕ)
      → s.nummaps ≤ n
      → AtMost n (new_chunk can_map sparse s f q at).0
  unfolding new_chunk
  new_chunk-AtMost n s f q at h =
      option_both (λ (r : Arena × Option (ℕ × ℕ × ℕ)). AtMost n r.0) (map_at s f) (s, none)
        (add_chunk can_map sparse s f q at) h (λ m. add_chunk-AtMost n s f q at m h)

  fill-AtMost :
      (m : ℕ) (s : Arena) (q at p : ℕ) (old : Option ℕ)
      → s.nummaps ≤ m
      → AtMost m (fill can_map sparse s q at p old)
  unfolding fill
  fill-AtMost m s q at p none h = if_both (AtMost m) sparse h h
  fill-AtMost m s q at p (some o) h = if_both (AtMost m) sparse h (if_both (AtMost m) (ltb o q) h h)

  finish-AtMost :
      (n : ℕ) (r : Arena × Option ℕ) (m : ℕ) (old : Option (ℕ × ℕ)) (q p : ℕ) (bytes : Option ℕ)
      → r.0.nummaps ≤ n
      → AtMost n (finish can_map sparse r m old q p bytes).0
  unfolding finish
  finish-AtMost n (s, none) m old q p bytes h = h
  finish-AtMost n (s, some b) m old q p bytes h =
      drop_old-AtMost n (fill can_map sparse s q b p bytes) m old p (fill-AtMost n s q b p bytes h)

  on_unit-AtMost :
      (m : ℕ) (r : (Arena × Option (ℕ × ℕ × ℕ)) × ℕ) (t : Scan) (q p n : ℕ)
      → r.0.0.nummaps ≤ m
      → AtMost m (on_unit can_map sparse r t q p n).0
  unfolding on_unit
  on_unit-AtMost m ((s, none), at) t q p n h = h
  on_unit-AtMost m ((s, some (i, j, k)), at) t q p n h =
      let w : ℕ = elim t.ncm [ none ↦ i | some u ↦ t.am ] in
      option_both (λ (r : Arena × ℕ). AtMost m r.0) (chunk_at s i j) (s, 0)
        (λ c.
          finish can_map sparse (take_block can_map sparse s i j k c q n at) w t.ocm q p
            (old_bytes s t.ocm))
        h
        (λ c.
          finish-AtMost m (take_block can_map sparse s i j k c q n at) w t.ocm q p
            (old_bytes s t.ocm) (take_block-AtMost m s i j k c q n at h))

  pick_chunk-AtMost :
      (n : ℕ) (u : Option (ℕ × ℕ × ℕ)) (f : Option ℕ) (s : Arena) (i q a at : ℕ)
      → s.nummaps ≤ i
      → s.nummaps ≤ n
      → AtMost n (pick_chunk can_map sparse u f s i q a at).0.0
  unfolding pick_chunk in_map in_new_map
  pick_chunk-AtMost n (some u) f s i q a at l h = h
  pick_chunk-AtMost n none (some f) s i q a at l h =
      new_chunk-AtMost n s f q (if not (ltb q alloc_size) then round_up at a else at) h
  pick_chunk-AtMost n none none s i q a at l h = rw (new_map_never can_map sparse s i at l) h

  alloc_in-AtMost :
      (m : ℕ) (s : Arena) (q a p n : ℕ)
      → s.nummaps < max_arena
      → s.nummaps ≤ m
      → AtMost m (alloc_in can_map sparse s q a p n).0
  unfolding alloc_in alloc_from
  alloc_in-AtMost m s q a p n few h =
      let (t, i) = scan_maps q a p 0 s.maps s.nummaps (scan_start s) in
      let behind =
        scan_maps_le q a p 0 0 s.maps s.nummaps (scan_start s) (omega arith) (omega (arith, few)) in
      if_both (λ (r : Arena × ℕ). AtMost m r.0) (same_chunk t q p) h
        (on_unit-AtMost m (pick_chunk can_map sparse t.ncm t.fc s (i + 1) q a (room t n a)) t q p n
          (pick_chunk-AtMost m t.ncm t.fc s (i + 1) q a (room t n a) (omega (arith, behind)) h))

  first_map-AtMost :
      (s s' : Arena) → s.nummaps ≤ 1 → first_map can_map sparse s ≡ some s' → s'.nummaps ≤ 1
  unfolding first_map
  first_map-AtMost s s' h =
      let P : Option Arena → Type 0 = λ o. o ≡ some s' → s'.nummaps ≤ 1 in
      if_both P (not (s.nummaps == 0)) (λ e. AtMost-of 1 s s' e h)
        (if_both P (can_map (s.base + arena_size) page_size) (λ e. AtMost-of 1 _ s' e (omega arith))
          (λ e. cc))

  -- An arena never gets a second map: with at most one map, it has at most one after every bzt_alloc.
  pub bzt_alloc-one_map :
      (s s' : Arena) (a p n b : ℕ)
      → s.nummaps ≤ 1
      → bzt_alloc can_map sparse s a p n ≡ some (s', b)
      → s'.nummaps ≤ 1
  unfolding bzt_alloc
  bzt_alloc-one_map s s' a p n b h =
      let P : Option (Arena × ℕ) → Type 0 = λ o. o ≡ some (s', b) → s'.nummaps ≤ 1 in
      let returned : (r : Arena × ℕ) → r.0.nummaps ≤ 1 → P (some r) = λ r l e.
        AtMost-of 1 r.0 s'
          (ap
            (λ (o : Option (Arena × ℕ)). elim o as (λ x. Option Arena) [
              | none ↦ none
              | some r ↦ some r.0
            ])
            e)
          l in
      elim (Bool-cases (n == 0)) [
        | inl z ↦ rw z (returned (bzt_free s p, 0) (bzt_free-AtMost 1 s p h))
        | inr z ↦ elim (Option-cases (quantum_of n)) [
          | inl missing ↦ rw (z, missing) (λ g. cc)
          | inr (q, e) ↦ elim (Option-cases (first_map can_map sparse s)) [
            | inl missing ↦ rw (z, e, missing) (returned (seterr s enomem, 0) h)
            | inr (s1, f) ↦
                let l = first_map-AtMost s s1 h f in
                rw (z, e, f)
                  (returned (alloc_in can_map sparse s1 q (if ltb a q then q else a) p n)
                    (alloc_in-AtMost 1 s1 q (if ltb a q then q else a) p n (omega (arith, l)) l))
          ]
        ]
      ]
