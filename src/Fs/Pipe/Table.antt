-- ===== src/Fs/Pipe/Table.antt =====
-- The table of pipes: which one pipe_add opens.
use mathlib.Core.Path.{subst}
use bztsrc_osz.Prelude.{
  ℕ, suc, ◌+◌, ◌≡◌, refl, sym, ap, ◌∙◌, inl, inr, ◌==◌, Option, none, some, List, [], ◌∷◌, ◌++◌,
  length, get_elem?, set, arith, Option-cases, Bool-cases,
}
use bztsrc_osz.Fs.Pipe.{Pipe, Fs, unused, opened, pipe_add}

-- The table is there, with as many elements as npipe says.
abbrev pub IsTable : Fs → Type 0
IsTable s = s.npipe ≡ length s.pipe

-- The slot that is found is unused, and is found again once it is opened.
unused-opened :
    (ps : List Pipe) (i fid uid : ℕ)
    → unused ps ≡ some i
    → (p : Pipe) × (get_elem? ps i ≡ some p) × (unused (set ps i (opened p fid uid)) ≡ some i)
unfolding unused
unused-opened [] i fid uid e = cc
unused-opened (x ∷ xs) i fid uid e = elim (Bool-cases (x.nopen == 0)) [
  | inl z ↦
      let at : 0 ≡ i = ground arith in
      subst
        (λ k.
          (p : Pipe) × (get_elem? (x ∷ xs) k ≡ some p)
          × (unused (set (x ∷ xs) k (opened p fid uid)) ≡ some k))
        at (x, refl, ground (arith, z))
  | inr nz ↦ elim (Option-cases (unused xs)) [
    | inl missing ↦ absurd (ground (arith, nz, missing, e))
    | inr (j, f) ↦
        let at : suc j ≡ i = ground (arith, nz, f, e) in
        let (p, found, again) = unused-opened xs j fid uid f in
        subst
          (λ k.
            (p : Pipe) × (get_elem? (x ∷ xs) k ≡ some p)
            × (unused (set (x ∷ xs) k (opened p fid uid)) ≡ some k))
          at (p, found, ground (arith, nz, again))
  ]
]

unused-append :
    (ps : List Pipe) (p : Pipe)
    → unused ps ≡ none
    → p.nopen ≡ 0
    → unused (ps ++ (p ∷ [])) ≡ some (length ps)
unfolding unused
unused-append [] p e z = ground (arith, z)
unused-append (x ∷ xs) p e z = ground (arith, unused-append xs p, z)

-- Two calls of pipe_add in a row give the same pipe, when a new element of the table reads as one without
-- users.
pub pipe_add-again :
    (s : Fs) (fid uid fid' uid' : ℕ) (q : Pipe) (more : Option Pipe)
    → IsTable s
    → q.nopen ≡ 0
    → (i : ℕ) × (s1 : Fs) × (s2 : Fs) × (pipe_add s fid uid (some q) ≡ some (i, s1))
      × (pipe_add s1 fid' uid' more ≡ some (i, s2))
unfolding pipe_add
pipe_add-again s fid uid fid' uid' q more table zeroed = elim (Option-cases (unused s.pipe)) [
  | inr (i, f) ↦
      let (p, found, again) = unused-opened s.pipe i fid uid f in
      let (p', found', again') =
        unused-opened (set s.pipe i (opened p fid uid)) i fid' uid' again in
      (
        i,
        record s { pipe = set s.pipe i (opened p fid uid) },
        record s { pipe = set (set s.pipe i (opened p fid uid)) i (opened p' fid' uid') },
        ground (arith, f, found),
        ground (arith, again, found'),
      )
  | inl full ↦
      let ps : List Pipe = s.pipe ++ (opened q fid uid ∷ []) in
      let again : unused ps ≡ some s.npipe =
        unused-append s.pipe (opened q fid uid) full zeroed ∙ ap some (sym table) in
      let (p', found', again') = unused-opened ps s.npipe fid' uid' again in
      (
        s.npipe,
        record s { npipe = s.npipe + 1; pipe = ps },
        record s { npipe = s.npipe + 1; pipe = set ps s.npipe (opened p' fid' uid') },
        ground (arith, full),
        ground (arith, again, found'),
      )
]
