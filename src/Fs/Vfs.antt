-- ===== src/Fs/Vfs.antt =====
-- Paths of the file system service, src/fs/vfs.c: canonize, pathcat, and the stack of paths. A path is the list of
-- its characters without the 0 at the end, and the result of canonize is written in a list with the last
-- character first. Behind the end of a path stands a 0.
pub mod Parts
pub mod Devices
pub mod Tests
use bztsrc_osz.Prelude.{
  ℕ, zero, suc, ◌+◌, ◌-◌, ◌==◌, ◌||◌, ◌&&◌, not, Bool, true, false, Option, none, some, List, [],
  ◌∷◌, ◌++◌, ltb, leb, if◌then◌else◌, length, get_or, take, drop, set,
}
use bztsrc_osz.Fs.Fcb.{same_path}

-- The characters `/`, `:`, `.`, `;`, `#` and `-`.
abbrev pub slash : ℕ
slash = 47

abbrev pub colon : ℕ
colon = 58

abbrev pub dot : ℕ
dot = 46

abbrev pub semicolon : ℕ
semicolon = 59

abbrev pub hash : ℕ
hash = 35

abbrev pub minus : ℕ
minus = 45

-- PATHEND
abbrev pub is_end : ℕ → Bool
is_end c = (c == semicolon) || ((c == hash) || (c == 0))

abbrev pub char : List ℕ → ℕ → ℕ
char path i = get_or path i 0

-- The last character of the result.
abbrev pub ends_with : List ℕ → ℕ → Bool
ends_with [] c = false
ends_with (d ∷ r) c = d == c

-- The result ends in ".../", behind something else.
abbrev pub ends_in_joker : List ℕ → Bool
ends_in_joker r = ltb 4 (length r) && same_path (take 4 r) (slash ∷ dot ∷ dot ∷ dot ∷ [])

-- The index behind the slashes, of which there are `n` at most.
pub skip_slashes : ℕ → List ℕ → ℕ → ℕ
skip_slashes zero path i = i
skip_slashes (suc n) path i =
    let rest = skip_slashes n path (i + 1) in
    if ltb i (length path) && (char path i == slash) then rest else i

-- The copy of a name, of `n` characters at most.
pub copy_name : ℕ → List ℕ → ℕ → List ℕ → ℕ × List ℕ
copy_name zero path i r = (i, r)
copy_name (suc n) path i r =
    let rest = copy_name n path (i + 1) (char path i ∷ r) in
    if (ltb i (length path) && not (char path i == slash)) && not (is_end (char path i))
    then rest
    else (i, r)

abbrev pub is_digit : ℕ → Bool
is_digit c = leb 48 c && leb c 57

-- The copy of a number, of `n` digits at most.
pub copy_digits : ℕ → List ℕ → ℕ → List ℕ → ℕ × List ℕ
copy_digits zero path i r = (i, r)
copy_digits (suc n) path i r =
    let rest = copy_digits n path (i + 1) (char path i ∷ r) in
    if ltb i (length path) && is_digit (char path i) then rest else (i, r)

-- Where a part of the path leaves the loop: it goes on, or ends.
pub data Step : Type 0 where
  further finished : ℕ → List ℕ → Step

-- The index behind a sign.
abbrev pub behind_sign : List ℕ → ℕ → ℕ
behind_sign path i = if ltb i (length path) && (char path i == minus) then i + 1 else i

-- The version of the last part, a digit behind `;`.
pub version : List ℕ → ℕ → List ℕ → Step
version path i r =
    let k = behind_sign path (i + 1) in
    let c = char path k in
    if not (char path i == semicolon)
    then further i r
    else if ends_with r slash
    then finished i r
    else if (ltb (k + 1) (length path) && (leb 49 c && leb c 57))
        && ((char path (k + 1) == hash) || (char path (k + 1) == 0))
    then further (k + 1) (c ∷ semicolon ∷ r)
    else further k r

-- The offset of the last part, a number behind `#`.
pub offset : List ℕ → ℕ → List ℕ → Step
offset path i r =
    let k = behind_sign path (i + 1) in
    let c = char path k in
    let r' = if char path (k - 1) == minus then minus ∷ hash ∷ r else hash ∷ r in
    let (k', r'') = copy_digits (length path) path k r' in
    if not (char path i == hash)
    then further (i + 1) r
    else if ends_with r slash
    then finished i r
    else if ltb k (length path) && (leb 49 c && leb c 57)
    then finished k' r''
    else finished k r

pub after_name : List ℕ → ℕ → List ℕ → Step
after_name path i r = elim (version path i r) [
  | finished k r' ↦ finished k r'
  | further k r' ↦ offset path k r'
]

-- One part of the path, from its first character on.
pub part : List ℕ → ℕ → List ℕ → Step
part path i r =
    let (k, r') = copy_name (length path) path i r in
    if (char path i == dot)
      && (ltb (i + 1) (length path) && ((char path (i + 1) == slash) || is_end (char path (i + 1))))
    then further (i + 2) r
    else if ((char path i == dot) && (char path (i + 1) == dot))
        && ((ltb (i + 2) (length path)
              && ((char path (i + 2) == slash) || is_end (char path (i + 2))))
            && ends_in_joker r)
    then further (i + 3) (drop 4 r)
    else after_name path k r'

abbrev pub with_slash : List ℕ → List ℕ
with_slash r = if ends_with r slash then r else slash ∷ r

-- The main loop of canonize: every round goes on in the path.
pub parts : ℕ → List ℕ → ℕ → List ℕ → Option (ℕ × List ℕ)
parts zero path i r = none
parts (suc fuel) path i r =
    if ltb i (length path) && not (is_end (char path i))
    then elim (part path (skip_slashes (length path) path i) (with_slash r)) [
      | finished k r' ↦ some (k, r')
      | further k r' ↦ parts fuel path k r'
    ]
    else some (i, r)

-- The slash at the end is that of the path.
abbrev pub tail_slash : List ℕ → List ℕ
tail_slash [] = []
tail_slash (c ∷ r) = if c == slash then r else c ∷ r

abbrev pub ended : List ℕ → ℕ → List ℕ → List ℕ
ended path i r =
    if ltb 0 i && (char path (i - 1) == slash) then slash ∷ tail_slash r else tail_slash r

-- The first loop of canonize: the index of the `:` behind a name, or of what ends the name.
pub name_end : ℕ → List ℕ → ℕ → ℕ
name_end zero path i = i
name_end (suc n) path i =
    let rest = name_end n path (i + 1) in
    if ltb i (length path)
      && (not (char path i == colon) && (not (char path i == slash) && not (is_end (char path i))))
    then rest
    else i

-- The characters in front, for a list with the last one first.
abbrev pub onto : List ℕ → List ℕ → List ℕ
onto [] r = r
onto (c ∷ cs) r = onto cs (c ∷ r)

-- "root", and DEVPATH with the 0 that sizeof counts.
abbrev pub root_name : List ℕ
root_name = 114 ∷ 111 ∷ 111 ∷ 116 ∷ []

abbrev pub devpath : List ℕ
devpath = 47 ∷ 100 ∷ 101 ∷ 118 ∷ 47 ∷ 0 ∷ []

-- What canonize writes first: the path of the device, the root or the working directory; and where it goes on.
pub start : List ℕ → List ℕ → List ℕ → ℕ × List ℕ
start path root work =
    let i = name_end (length path) path 0 in
    let k = if ltb (i + 1) (length path) && (char path (i + 1) == slash) then i + 2 else i + 1 in
    if char path i == colon
    then (
      k,
      slash
          ∷ (if (i == 4) && same_path (take 4 path) root_name
              then []
              else onto (take i path) (onto devpath [])),
    )
    else if char path 0 == slash
    then (if ends_with (onto root []) slash then 1 else 0, onto root [])
    else (0, onto work [])

-- canonize for a task with these directories: the characters that are written, with the last one first, or NULL for an
-- empty path, or where malloc fails, which `memory` says. The outer `none` is fuel that ran out. The buffer of pathmax
-- bytes is taken to be long enough: the source writes behind it otherwise.
pub canonize : ℕ → Bool → List ℕ → List ℕ → List ℕ → Option (Option (List ℕ))
canonize fuel memory path root work =
    let (i, r) = start path root work in
    let run : Option (Option (List ℕ)) = elim (parts fuel path i r) [
      | none ↦ none
      | some (k, r') ↦ some (some (ended path k r'))
    ] in
    if (length path == 0) || not memory then some none else run

-- pathcat, with the length that a path may have.
pub pathcat : ℕ → List ℕ → List ℕ → Option (List ℕ)
pathcat pathmax [] filename = none
pathcat pathmax (c ∷ cs) [] = some (c ∷ cs)
pathcat pathmax (c ∷ cs) (d ∷ ds) =
    let path = c ∷ cs in
    let name = if d == slash then ds else d ∷ ds in
    if leb pathmax (length path + length (d ∷ ds))
    then none
    else if ends_with (onto path []) slash
    then some (path ++ name)
    else some (path ++ (slash ∷ name))

abbrev pub pathstacksize : ℕ
pathstacksize = 64

-- pathpush on a stack of inodes and paths, the oldest first; it forgets the oldest when it is full.
pub pathpush : List (ℕ × ℕ) → ℕ → ℕ → List (ℕ × ℕ)
pathpush stack lsn path =
    if length stack == pathstacksize
    then drop 1 stack ++ ((lsn, path) ∷ [])
    else stack ++ ((lsn, path) ∷ [])

-- pathpop: the latest, or none.
pub pathpop : List (ℕ × ℕ) → List (ℕ × ℕ) × Option (ℕ × ℕ)
pathpop [] = ([], none)
pathpop (x ∷ xs) = (take (length xs) (x ∷ xs), some (get_or (x ∷ xs) (length xs) x))
