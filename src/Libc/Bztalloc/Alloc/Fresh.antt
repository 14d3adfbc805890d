-- ===== src/Libc/Bztalloc/Alloc/Fresh.antt =====
-- The block that bzt_alloc returns was not in use.
use bztsrc_osz.Prelude.{
  ℕ, ◌+◌, ◌-◌, ◌*◌, ◌<◌, ◌≤◌, ◌≡◌, ◌≢◌, refl, sym, ap, ◌∙◌, ◌==◌, ◌&&◌, ◌||◌, not, Bool, true,
  false, Option, none, some, List, [], ◌∷◌, ◌++◌, arith, ltb, leb, if◌then◌else◌, length, get_elem?,
  get_elem?-last, if_cases, if_both,
}
use mathlib.Core.Path.{subst}
use mathlib.Core.Option.{some-injective}
use bztsrc_osz.Libc.Bztalloc.{
  Effect, mapped, zeroed, copied, chunksize, Chunk, Allocmap, Arena, Scan, alloc_size, page_size,
  units, max_arena, mark, set_map, map_at, chunk_at, quantum_of, scan_maps,
}
use bztsrc_osz.Libc.Bztalloc.Units.{
  used_at, unit_used, with_chunk, Marks, mark-Marks, chunk_at-map, map_at-set_map,
  chunk_at-set_self, chunk_at_in, add-units,
}
use bztsrc_osz.Libc.Bztalloc.Alloc.{
  scan_start, room, same_chunk, first_map, new_map, new_chunk, pick_chunk, set_chunk, take_block,
  fill, drop_old, add_chunk, in_map, in_new_map, finish, on_unit, old_bytes, round_up, alloc_from,
  alloc_in, bzt_alloc,
}
use bztsrc_osz.Libc.Bztalloc.Alloc.Found.{
  IsFree, IsSound, scan_maps-IsSound, scan_maps-ocm, scan_maps_le,
}

-- Unit `k` of the 512 of chunk `j` of map `i`, which was not in use, is in use, no other unit changes, and it begins
-- at `b`.
pub record Takes (s s' : Arena) (q i j k b : ℕ) : Type 0 where
  pub chunk : Chunk
  pub there : chunk_at s' i j ≡ some chunk
  pub same : chunk.quantum ≡ q
  pub place : b ≡ chunk.ptr + k * q
  pub bound : k < 512
  pub clear : unit_used s i j k ≡ false
  pub marks : Marks s s' i j k true

Takes-effects :
    (s s' : Arena) (q i j k b : ℕ) (es : List Effect)
    → Takes s s' q i j k b
    → Takes s (record s' { effects = es }) q i j k b
Takes-effects s s' q i j k b es t = record {
  chunk = t.chunk;
  there = t.there;
  same = t.same;
  place = t.place;
  bound = t.bound;
  clear = t.clear;
  marks = record { marked = t.marks.marked; others = t.marks.others };
}

set_chunk_in :
    (s : Arena) (i j : ℕ) (m : Allocmap) (c : Chunk)
    → map_at s i ≡ some m
    → set_chunk s i j c ≡ set_map s i (some (with_chunk m j c))
unfolding set_chunk
set_chunk_in s i j m c e =
    ap (λ o. elim o as (λ x. Arena) [ none ↦ s | some m ↦ set_map s i (some (with_chunk m j c)) ]) e

-- A unit that is marked is taken.
marked-Takes :
    (s : Arena) (i j k : ℕ) (c : Chunk) (q b : ℕ)
    → chunk_at s i j ≡ some c
    → c.quantum ≡ q
    → c.used k ≡ false
    → k < 512
    → b ≡ c.ptr + k * c.quantum
    → Takes s (set_chunk s i j (record c { used = mark c.used k true })) q i j k b
marked-Takes s i j k c q b there same clear inside e =
    let (m, em, found) = chunk_at-map s i j c there in
    let c' : Chunk = record c { used = mark c.used k true } in
    rw (set_chunk_in s i j m c' em) (record {
      chunk = c';
      there = chunk_at-set_self s i j m c c' em found;
      same = same;
      bound = inside;
      place = e ∙ ap (λ x. c.ptr + k * x) same;
      clear = ap (λ o. used_at o k) there ∙ clear;
      marks = mark-Marks s i j k m c true em found;
    })

-- Where a part gives a unit, it is of blocks of `q` bytes and not in use, and the units are as before.
abbrev Ready : Arena → ℕ → Arena × Option (ℕ × ℕ × ℕ) → Type 0
Ready s q r =
    (i j k : ℕ)
    → r.1 ≡ some (i, j, k)
    → IsFree r.0 q i j k × ((i' j' k' : ℕ) → unit_used r.0 i' j' k' ≡ unit_used s i' j' k')

module _ (can_map : ℕ → ℕ → Bool) (sparse : Bool) where
  take_block-Takes :
      (s : Arena) (i j k : ℕ) (c : Chunk) (q n at b : ℕ)
      → chunk_at s i j ≡ some c
      → c.quantum ≡ q
      → c.used k ≡ false
      → k < 512
      → q < alloc_size
      → (take_block can_map sparse s i j k c q n at).1 ≡ some b
      → Takes s (take_block can_map sparse s i j k c q n at).0 q i j k b
  unfolding take_block
  take_block-Takes s i j k c q n at b there same clear inside small =
      let s' = set_chunk s i j (record c { used = mark c.used k true }) in
      let P : Arena × Option ℕ → Type 0 = λ r. r.1 ≡ some b → Takes s r.0 q i j k b in
      let unit = c.ptr + k * c.quantum in
      let done : some unit ≡ some b → Takes s s' q i j k b =
        λ e. marked-Takes s i j k c q b there same clear inside (sym (some-injective unit b e)) in
      if_cases P (ltb q alloc_size)
        (λ l. if_both P (sparse || ltb q page_size) done (
          if_both P (can_map unit c.quantum)
            (λ e. Takes-effects s s' q i j k b (mapped unit c.quantum ∷ s'.effects) (done e))
            (λ e. cc)))
        (λ l. absurd (ground (arith, small, l)))

  add_chunk-Ready :
      (s : Arena) (f q at : ℕ) (m : Allocmap)
      → map_at s f ≡ some m
      → Ready s q (add_chunk can_map sparse s f q at m)
  unfolding add_chunk
  add_chunk-Ready s f q at m e =
      let c : Chunk = record { quantum = q; ptr = at; used = λ k. false; size = 0 } in
      let m' : Allocmap = record m { chunks = m.chunks ++ (c ∷ []) } in
      let s' = set_map s f (some m') in
      let there : chunk_at s' f (length m.chunks) ≡ some c =
        chunk_at_in s' f (length m.chunks) m' (map_at-set_map s f m m' e)
        ∙ get_elem?-last m.chunks c in
      let done : (es : List Effect)
          → Ready s q (record s' { effects = es }, some (f, length m.chunks, 0)) =
        λ es i j k g.
          let zi : f ≡ i = ground (arith, g) in
          let zj : length m.chunks ≡ j = ground (arith, g) in
          let zk : 0 ≡ k = ground (arith, g) in
          (
            record {
              chunk = c;
              there = ap (λ x. chunk_at s' x j) (sym zi) ∙ ap (chunk_at s' f) (sym zj) ∙ there;
              same = refl;
              clear = refl;
              bound = omega (arith, zk);
            },
            λ i' j' k'. add-units s f m c i' j' k' e (λ k. refl),
          ) in
      if_both (Ready s q) (not (not sparse && ltb q page_size)) (done s.effects) (
        if_both (Ready s q) (can_map at (chunksize q)) (done (mapped at (chunksize q) ∷ s.effects))
          (λ i j k g. cc))

  new_chunk-Ready :
      (s : Arena) (f q at : ℕ) (m : Allocmap)
      → map_at s f ≡ some m
      → Ready s q (new_chunk can_map sparse s f q at)
  unfolding new_chunk
  new_chunk-Ready s f q at m e =
      subst
        (λ o. Ready s q (elim o as (λ x. Arena × Option (ℕ × ℕ × ℕ)) [
          | none ↦ (s, none)
          | some m ↦ add_chunk can_map sparse s f q at m
        ]))
        (sym e) (add_chunk-Ready s f q at m e)

  -- A new map is never made.
  pub new_map_never :
      (s : Arena) (i at : ℕ) → s.nummaps ≤ i → (new_map can_map sparse s i at) ≡ (s, none)
  unfolding new_map
  new_map_never s i at h = let l : leb s.nummaps i ≡ true = ground (arith, h) in rw l refl

  pick_chunk-Ready :
      (s : Arena) (t : Scan) (i q a at : ℕ)
      → IsSound s q t
      → s.nummaps ≤ i
      → Ready s q (pick_chunk can_map sparse t.ncm t.fc s i q a at).0
  unfolding pick_chunk in_map in_new_map
  pick_chunk-Ready s t i q a at sound h = go t.ncm t.fc sound.unit sound.room
    where
      go :
          (u : Option (ℕ × ℕ × ℕ)) (f : Option ℕ)
          → ((i j k : ℕ) → u ≡ some (i, j, k) → IsFree s q i j k)
          → ((i : ℕ) → f ≡ some i → (m : Allocmap) × (map_at s i ≡ some m))
          → Ready s q (pick_chunk can_map sparse u f s i q a at).0
      go (some u) f free there = λ x y z g. (free x y z g, λ x y z. refl)
      go none (some f) free there =
          let (m, e) = there f refl in
          new_chunk-Ready s f q (if not (ltb q alloc_size) then round_up at a else at) m e
      go none none free there = rw (new_map_never s i at h) (λ x y z g. cc)

  Takes-fill :
      (s s' : Arena) (q i j k b n at p : ℕ) (old : Option ℕ)
      → Takes s s' q i j k b
      → Takes s (fill can_map sparse s' n at p old) q i j k b
  unfolding fill
  Takes-fill s s' q i j k b n at p none t =
      if_both (λ x. Takes s x q i j k b) sparse t
        (Takes-effects s s' q i j k b (zeroed at n ∷ s'.effects) t)
  Takes-fill s s' q i j k b n at p (some o) t =
      if_both (λ x. Takes s x q i j k b) sparse t
        (if_both (λ x. Takes s x q i j k b) (ltb o n)
          (Takes-effects s s' q i j k b (zeroed (at + o) (n - o) ∷ copied at p o ∷ s'.effects) t)
          (Takes-effects s s' q i j k b (copied at p o ∷ s'.effects) t))

  finish-Takes :
      (s : Arena) (r : Arena × Option ℕ) (m p q i j k b : ℕ) (old : Option (ℕ × ℕ))
      (bytes : Option ℕ)
      → ((b : ℕ) → r.1 ≡ some b → Takes s r.0 q i j k b)
      → old ≡ none
      → b ≢ 0
      → (finish can_map sparse r m old q p bytes).1 ≡ b
      → Takes s (finish can_map sparse r m old q p bytes).0 q i j k b
  unfolding finish drop_old
  finish-Takes s (s', none) m p q i j k b old bytes taken new nz e = absurd (nz (sym e))
  finish-Takes s (s', some x) m p q i j k b none bytes taken new nz e =
      Takes-fill s s' q i j k b q x p bytes (taken b (ap some e))
  finish-Takes s (s', some x) m p q i j k b (some o) bytes taken new nz e = cc

  -- Units that are the same before count as those of the arena before that.
  Takes-before :
      (s s' s'' : Arena) (q i j k b : ℕ)
      → ((i' j' k' : ℕ) → unit_used s' i' j' k' ≡ unit_used s i' j' k')
      → Takes s' s'' q i j k b
      → Takes s s'' q i j k b
  Takes-before s s' s'' q i j k b units t = record {
    chunk = t.chunk;
    there = t.there;
    same = t.same;
    place = t.place;
    bound = t.bound;
    clear = sym (units i j k) ∙ t.clear;
    marks = record {
      marked = t.marks.marked;
      others = λ i' j' k' n. t.marks.others i' j' k' n ∙ units i' j' k';
    };
  }

  -- What the rest of bzt_alloc does for a block that is new.
  on_unit-Takes :
      (s : Arena) (r : (Arena × Option (ℕ × ℕ × ℕ)) × ℕ) (t : Scan) (q n b : ℕ)
      → Ready s q r.0
      → t.ocm ≡ none
      → q < alloc_size
      → b ≢ 0
      → (on_unit can_map sparse r t q 0 n).1 ≡ b
      → (x : ℕ) × (y : ℕ) × (z : ℕ) × Takes s (on_unit can_map sparse r t q 0 n).0 q x y z b
  unfolding on_unit
  on_unit-Takes s ((s', none), at) t q n b ready new small nz e = absurd (nz (sym e))
  on_unit-Takes s ((s', some (x, y, z)), at) t q n b ready new small nz e =
      let (free, units) = ready x y z refl in
      let m : ℕ = elim t.ncm [ none ↦ x | some u ↦ t.am ] in
      let body : Option Chunk → Arena × ℕ = λ o. elim o [
        | none ↦ (s', 0)
        | some c ↦
            finish can_map sparse (take_block can_map sparse s' x y z c q n at) m t.ocm q 0
              (old_bytes s' t.ocm)
      ] in
      (
        x,
        y,
        z,
        Takes-before s s' _ q x y z b units (
            subst (λ o. (body o).1 ≡ b → Takes s' (body o).0 q x y z b) (sym free.there)
              (finish-Takes s' (take_block can_map sparse s' x y z free.chunk q n at) m 0 q x y z b
                t.ocm (old_bytes s' t.ocm)
                (λ b' e'.
                  take_block-Takes s' x y z free.chunk q n at b' free.there free.same free.clear
                    free.bound small e')
                new nz)
              e),
      )

  alloc_from-Takes :
      (s : Arena) (t : Scan) (i q a n b : ℕ)
      → IsSound s q t
      → s.nummaps ≤ i
      → t.ocm ≡ none
      → q < alloc_size
      → b ≢ 0
      → (alloc_from can_map sparse s t i q a 0 n).1 ≡ b
      → (x : ℕ) × (y : ℕ) × (z : ℕ) × Takes s (alloc_from can_map sparse s t i q a 0 n).0 q x y z b
  unfolding alloc_from same_chunk
  alloc_from-Takes s t i q a n b sound h new small nz =
      if_cases (λ (r : Arena × ℕ). r.1 ≡ b → (x : ℕ) × (y : ℕ) × (z : ℕ) × Takes s r.0 q x y z b)
        (same_chunk t q 0) (λ l e. absurd (nz (sym e)))
        (λ l.
          on_unit-Takes s (pick_chunk can_map sparse t.ncm t.fc s i q a (room t n a)) t q n b
            (pick_chunk-Ready s t i q a (room t n a) sound h) new small nz)

  alloc_in-Takes :
      (s : Arena) (a q n b : ℕ)
      → s.nummaps < max_arena
      → q < alloc_size
      → b ≢ 0
      → (alloc_in can_map sparse s q a 0 n).1 ≡ b
      → (x : ℕ) × (y : ℕ) × (z : ℕ) × Takes s (alloc_in can_map sparse s q a 0 n).0 q x y z b
  unfolding alloc_in scan_start
  alloc_in-Takes s a q n b few small nz e =
      let (t, i) = scan_maps q a 0 0 s.maps s.nummaps (scan_start s) in
      let sound : IsSound s q (scan_start s) = record { unit = λ x y z g. cc; room = λ x g. cc } in
      let behind =
        scan_maps_le q a 0 0 0 s.maps s.nummaps (scan_start s) (omega arith) (omega (arith, few)) in
      alloc_from-Takes s t (i + 1) q a n b
        (scan_maps-IsSound s q a 0 0 s.maps s.nummaps (scan_start s)
          (λ x. ap (get_elem? s.maps) (omega arith)) sound)
        (omega (arith, behind)) (scan_maps-ocm q a 0 s.maps s.nummaps (scan_start s)) small nz e

  -- An arena has a map, and is not full of them, and bzt_alloc for a block that is new, of up to half of
  -- `alloc_size` bytes, returns an address that is not NULL: this is the beginning of one of the 512 units of a
  -- chunk of the arena for blocks of the smallest power of two of 8 or more that is not below the size; the unit was not in use, it is now, and no other unit of the arena changes.
  pub bzt_alloc-Takes :
      (s s' : Arena) (a n q b : ℕ)
      → s.nummaps ≢ 0
      → s.nummaps < max_arena
      → n ≢ 0
      → quantum_of n ≡ some q
      → q < alloc_size
      → b ≢ 0
      → bzt_alloc can_map sparse s a 0 n ≡ some (s', b)
      → (i : ℕ) × (j : ℕ) × (k : ℕ) × Takes s s' q i j k b
  unfolding bzt_alloc first_map
  bzt_alloc-Takes s s' a n q b has few nn quantum small nz e =
      let a' = if ltb a q then q else a in
      let z : (n == 0) ≡ false = ground (arith, nn) in
      let y : (s.nummaps == 0) ≡ false = ground (arith, has) in
      let run : bzt_alloc can_map sparse s a 0 n ≡ some (alloc_in can_map sparse s q a' 0 n) =
        rw (z, quantum, y) refl in
      let same : alloc_in can_map sparse s q a' 0 n ≡ (s', b) = some-injective _ _ (sym run ∙ e) in
      subst (λ (r : Arena × ℕ). (x : ℕ) × (y : ℕ) × (z : ℕ) × Takes s r.0 q x y z b) same
        (alloc_in-Takes s a' q n b few small nz (ap (λ (r : Arena × ℕ). r.1) same))
