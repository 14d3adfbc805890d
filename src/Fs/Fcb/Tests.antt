-- ===== src/Fs/Fcb/Tests.antt =====
-- Runs of the table of blocks, and the theorem on fcb_del at a concrete one.
use bztsrc_osz.Prelude.{ℕ, ◌≡◌, refl, true, false, Option, none, some, List, [], ◌∷◌, arith}
use bztsrc_osz.Fs.Pipe.{minus_one}
use bztsrc_osz.Fs.Fcb.{
  Fcb, Fcbs, fcb_get, fcb_add, fcb_del, fcb_free, free_pass, find_path, ends_in_slash, find_place,
  del_members, clear, trim, is_member, fcb_unionlist_add,
}
use bztsrc_osz.Fs.Fcb.Count.{Released, fcb_del-Released}

abbrev block : List ℕ → ℕ → Fcb
block path users = record {
  abspath = some path;
  nopen = users;
  ftype = 0;
  excl = false;
  fs = 65535;
  mode = 3;
  storage = 0;
  filesize = 100;
  unionlist = none;
}

abbrev unused_block : Fcb
unused_block = record (block [] 0) { abspath = none }

-- "/", nothing, and "/a/".
abbrev three_blocks : Fcbs
three_blocks = record {
  nfcb = 3;
  fcb = block (47 ∷ []) 2 ∷ unused_block ∷ block (47 ∷ 97 ∷ 47 ∷ []) 1 ∷ [];
}

abbrev fid_of : Option (ℕ × Fcbs) → ℕ
fid_of none = 0
fid_of (some (i, s)) = i

abbrev nfcb_of : Option Fcbs → ℕ
nfcb_of none = 0
nfcb_of (some s) = s.nfcb

-- "/a" is found with a slash behind it, "/b" is not there.
get_runs :
    (fcb_get three_blocks (47 ∷ 97 ∷ []) true ≡ 2)
    × (fcb_get three_blocks (47 ∷ 98 ∷ []) true ≡ minus_one)
    × (fcb_get three_blocks (47 ∷ 97 ∷ []) false ≡ minus_one)
unfolding fcb_get find_path ends_in_slash
get_runs = (refl, refl, refl)

-- A new path takes the unused block.
add_runs :
    (fid_of (fcb_add three_blocks (47 ∷ 98 ∷ []) 0 (some (47 ∷ 98 ∷ [])) none) ≡ 1)
    × (fid_of (fcb_add three_blocks (47 ∷ 97 ∷ 47 ∷ []) 1 none none) ≡ 2)
unfolding fcb_add find_place
add_runs = (refl, refl)

-- The last block leaves the table with the unused one in front of it; with that block in use, fcb_free comes upon
-- the unused one again and again.
free_runs : (nfcb_of (fcb_del 1 three_blocks 2) ≡ 1) × (fcb_free 20 1 three_blocks ≡ none)
unfolding fcb_del del_members clear trim fcb_free free_pass
free_runs = (refl, refl)

-- The first member of a union is looked for in a list that is not there.
union_runs :
    (fcb_unionlist_add [] 5 1 (some 0) ≡ none)
    × (fcb_unionlist_add (5 ∷ 0 ∷ []) 6 2 (some 0) ≡ some (3, 5 ∷ 6 ∷ 0 ∷ []))
unfolding fcb_unionlist_add is_member
union_runs = (refl, refl)

fcb_del-Released_example :
    (s' : Fcbs) × (fcb_del 1 three_blocks 2 ≡ some s') × Released three_blocks s' 2
fcb_del-Released_example =
    fcb_del-Released 0 three_blocks 2 (block (47 ∷ 97 ∷ 47 ∷ []) 1) refl refl refl (omega arith)
      (omega arith)
