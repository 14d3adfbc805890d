-- ===== src/Fs/Cache/Loop.antt =====
-- A block that is used twice in a row.
use bztsrc_osz.Prelude.{
  ℕ, zero, suc, ◌%◌, ◌≡◌, ◌≢◌, ◌≤◌, refl, ap, ◌∙◌, ◌==◌, true, false, Option, none, some, mul64,
  add64, arith, ==_iff,
}
use bztsrc_osz.Fs.Pipe.{minus_one}
use bztsrc_osz.Fs.Cache.{Device, Cache, holds, find, to_front, get_from, cache_getblock}

-- An entry that is followed by itself has no end behind it.
find_endless :
    (s : Cache) (fd lsn c : ℕ)
    → c ≢ 0
    → (s.entry c).next ≡ c
    → holds s c fd lsn ≡ false
    → (fuel l : ℕ) → find fuel s fd lsn l c ≡ none
unfolding find
find_endless s fd lsn c ne loop other zero l = refl
find_endless s fd lsn c ne loop other (suc fuel) l =
    let rest : find fuel s fd lsn c (s.entry c).next ≡ none =
      ap (find fuel s fd lsn c) loop ∙ find_endless s fd lsn c ne loop other fuel c in
    ground (arith, ne, other, rest)

find_first :
    (s : Cache) (fd lsn c fuel : ℕ)
    → c ≢ 0
    → holds s c fd lsn ≡ true
    → find (suc fuel) s fd lsn 0 c ≡ some (0, c)
unfolding find
find_first s fd lsn c fuel ne first = ground (arith, ne, first)

-- What a search for a block does not do: it finds no end of the line, however long it runs.
abbrev pub Endless : Cache → ℕ → Type 0
Endless s c = (fd lsn : ℕ) → holds s c fd lsn ≡ false → (fuel l : ℕ) → find fuel s fd lsn l c ≡ none

-- cache_getblock of a block that is the first of its line, on a device that has it, returns its entry and makes it
-- its own successor: after that the walk along the line for any other block does not end.
pub cache_getblock-Endless :
    (device : ℕ → Option Device) (s : Cache) (fd lsn c fuel : ℕ) (d : Device)
    → device fd ≡ some d
    → lsn ≢ minus_one
    → mul64 (add64 lsn 1) d.blksize ≤ d.filesize
    → s.head (lsn % s.cachelines) ≡ c
    → c ≢ 0
    → holds s c fd lsn ≡ true
    → (s' : Cache) × (cache_getblock device (suc fuel) s fd lsn ≡ some (s', c))
      × (s'.head (lsn % s.cachelines) ≡ c)
      × Endless s' c
unfolding cache_getblock get_from
cache_getblock-Endless device s fd lsn c fuel d known valid size at ne first =
    let j : ℕ = lsn % s.cachelines in
    let s' : Cache = to_front s j c in
    let line : (j == j) ≡ true = (==_iff j j).1 refl in
    let here : (c == c) ≡ true = (==_iff c c).1 refl in
    let found : find (suc fuel) s fd lsn 0 (s.head j) ≡ some (0, c) =
      ap (find (suc fuel) s fd lsn 0) at ∙ find_first s fd lsn c fuel ne first in
    (
      s',
      ground (arith, known, valid, size, at, ne, found),
      rw line refl,
      λ fd' lsn' other. find_endless s' fd' lsn' c ne (rw here at) other,
    )
