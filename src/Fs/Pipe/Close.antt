-- ===== src/Fs/Pipe/Close.antt =====
-- The end of a pipe: pipe_del.
use bztsrc_osz.Prelude.{
  ℕ, zero, suc, ◌-◌, ◌^◌, ◌≤◌, ◌<◌, ◌≡◌, ◌≢◌, sym, ◌∙◌, ◌⊎◌, inl, inr, ◌==◌, true, some, List,
  if◌then◌else◌, sub64, length, get_elem?, set, take, arith, dec_lt, take_all, length-take,
  length-set, get_elem?-set_ne, get_elem?-set_self, lt_of_get, get_elem?-take, ℕ_discrete,
}
use bztsrc_osz.Fs.Pipe.{Pipe, Fs, released, trim, pipe_del}
use bztsrc_osz.Fs.Pipe.Table.{IsTable}

trim_le : (ps : List Pipe) (n : ℕ) → trim ps n ≤ n
unfolding trim
trim_le ps zero = omega arith
trim_le ps (suc n) = ground (arith, trim_le ps n)

-- What is cut off was unused.
trim_unused :
    (ps : List Pipe) (n j : ℕ) (p : Pipe)
    → get_elem? ps j ≡ some p
    → trim ps n ≤ j
    → j < n
    → p.nopen ≡ 0
unfolding trim
trim_unused ps zero j p e lo hi = absurd (omega arith)
trim_unused ps (suc n) j p e lo hi = ground (arith, trim_unused ps n j p e)

-- What is left ends in a pipe that is in use.
trim_last :
    (ps : List Pipe) (n k : ℕ) (p : Pipe)
    → trim ps n ≡ suc k
    → get_elem? ps k ≡ some p
    → p.nopen ≢ 0
unfolding trim
trim_last ps zero k p e at = cc
trim_last ps (suc n) k p e at = ground (arith, trim_last ps n k p)

-- The table behind pipe_del of pipe `idx`, which had the element `p`.
pub record Closed (s : Fs) (idx : ℕ) (p : Pipe) (s' : Fs) : Type 0 where
  pub table : IsTable s'
  pub shorter : s'.npipe ≤ s.npipe
  -- Every other pipe in use is still there.
  pub others :
      (j : ℕ) (x : Pipe)
      → j ≢ idx
      → get_elem? s.pipe j ≡ some x
      → x.nopen ≢ 0
      → get_elem? s'.pipe j ≡ some x
  -- With users left, only their number changes.
  pub used : 1 < p.nopen → get_elem? s'.pipe idx ≡ some (record p { nopen = p.nopen - 1 })
  -- Without, the pipe is empty, and the table does not end in a pipe that is not in use.
  pub gone : p.nopen ≤ 1 → (s'.npipe ≤ idx) ⊎ (get_elem? s'.pipe idx ≡ some (released p))
  pub last :
      p.nopen ≤ 1
      → (k : ℕ) (x : Pipe) → s'.npipe ≡ suc k
      → get_elem? s'.pipe k ≡ some x
      → x.nopen ≢ 0

module _ (s : Fs) (idx : ℕ) (p : Pipe) (table : IsTable s) (lo : idx < s.npipe)
    (at : get_elem? s.pipe idx ≡ some p) where
  abbrev cleared : List Pipe
  cleared = set s.pipe idx (released p)

  abbrev kept : ℕ
  kept = trim cleared s.npipe

  cleared_table : length cleared ≡ s.npipe
  cleared_table = length-set s.pipe idx (released p) ∙ sym table

  cut-Closed : p.nopen ≤ 1 → Closed s idx p (record s { npipe = kept; pipe = take kept cleared })
  cut-Closed few =
      let le : kept ≤ s.npipe = trim_le cleared s.npipe in
      record {
        table = omega (arith, length-take kept cleared, cleared_table, le);
        shorter = le;
        others = λ j x ne e used.
            (let e' : get_elem? cleared j ≡ some x =
                get_elem?-set_ne s.pipe (released p) (λ q. ne (sym q)) ∙ e in
              let hi : j < s.npipe = omega (arith, lt_of_get s.pipe j x e, table) in
              elim (dec_lt j kept) [
                | yes h ↦ get_elem?-take cleared kept j h ∙ e'
                | no h ↦ absurd (used (trim_unused cleared s.npipe j x e' (omega arith) hi))
              ]);
        used = λ many. absurd (omega arith);
        gone = λ h. elim (dec_lt idx kept) [
          | yes h' ↦ inr (
              get_elem?-take cleared kept idx h'
              ∙ get_elem?-set_self s.pipe idx (released p) (lt_of_get s.pipe idx p at))
          | no h' ↦ inl (omega arith)
        ];
        last = λ h k x e found.
            trim_last cleared s.npipe k x e
              (sym (get_elem?-take cleared kept k (omega (arith, e))) ∙ found);
      }

  used-Closed :
      1 < p.nopen
      → Closed s idx p (record s { pipe = set s.pipe idx (record p { nopen = p.nopen - 1 }) })
  used-Closed many = record {
    table = table ∙ sym (length-set s.pipe idx (record p { nopen = p.nopen - 1 }));
    shorter = omega arith;
    others = λ j x ne e used.
        get_elem?-set_ne s.pipe (record p { nopen = p.nopen - 1 }) (λ q. ne (sym q)) ∙ e;
    used = λ h.
        get_elem?-set_self s.pipe idx (record p { nopen = p.nopen - 1 })
          (lt_of_get s.pipe idx p at);
    gone = λ h. absurd (omega arith);
    last = λ h. absurd (omega arith);
  }

  take_everything : kept ≡ s.npipe → take kept cleared ≡ cleared
  take_everything e = take_all kept cleared (omega (arith, e, cleared_table))

  pub pipe_del-Closed :
      p.nopen < 2 ^ 64 → (s' : Fs) × (pipe_del s idx true ≡ some s') × Closed s idx p s'
  unfolding pipe_del
  pipe_del-Closed w = elim (dec_lt 1 p.nopen) [
    | yes many ↦
        let left : sub64 p.nopen 1 ≡ p.nopen - 1 = omega arith in
        (
          record s { pipe = set s.pipe idx (record p { nopen = p.nopen - 1 }) },
          ground (arith, at, left),
          used-Closed many,
        )
    | no few ↦
        let run : pipe_del s idx true ≡ (
            if kept == s.npipe
            then some (record s { pipe = cleared })
            else some (record s { npipe = kept; pipe = take kept cleared })) =
          ground (arith, at) in
        elim (ℕ_discrete kept s.npipe) [
          | yes same ↦
              let e : take kept cleared ≡ cleared = take_everything same in
              (
                record s { npipe = kept; pipe = take kept cleared },
                ground (arith, run, same, e),
                cut-Closed (omega arith),
              )
          | no shorter ↦ (
            record s { npipe = kept; pipe = take kept cleared },
            ground (arith, run, shorter),
            cut-Closed (omega arith),
          )
        ]
  ]
