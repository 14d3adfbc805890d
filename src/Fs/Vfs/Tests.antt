-- ===== src/Fs/Vfs/Tests.antt =====
-- Paths on concrete lists of characters.
use bztsrc_osz.Prelude.{
  ℕ, ◌≡◌, refl, arith, ◌&&◌, length, take, true, false, ◌==◌, Option, none, some, List, [], ◌∷◌,
}
use bztsrc_osz.Fs.Vfs.Devices.{c_string, canonize-c_string}
use bztsrc_osz.Fs.Fcb.{same_path}
use bztsrc_osz.Fs.Vfs.{
  char, colon, root_name, onto, canonize, start, name_end, parts, part, after_name, version, offset,
  copy_name, copy_digits, skip_slashes, pathcat, pathpush, pathpop,
}

abbrev forward : Option (Option (List ℕ)) → List ℕ
forward none = []
forward (some none) = []
forward (some (some r)) = onto r []

-- "/a//./b" is "/a/b".
absolute_runs :
    forward (canonize 9 true (47 ∷ 97 ∷ 47 ∷ 47 ∷ 46 ∷ 47 ∷ 98 ∷ []) (47 ∷ []) (47 ∷ []))
    ≡ 47 ∷ 97 ∷ 47 ∷ 98 ∷ []
unfolding canonize start name_end parts part after_name version offset copy_name copy_digits
    skip_slashes
absolute_runs = refl

-- "b" in the directory "/a/", and "/b;1", which loses its version.
relative_runs :
    (forward (canonize 9 true (98 ∷ []) (47 ∷ []) (47 ∷ 97 ∷ 47 ∷ [])) ≡ 47 ∷ 97 ∷ 47 ∷ 98 ∷ [])
    × (forward (canonize 9 true (47 ∷ 98 ∷ 59 ∷ 49 ∷ []) (47 ∷ []) (47 ∷ [])) ≡ 47 ∷ 98 ∷ [])
unfolding canonize start name_end parts part after_name version offset copy_name copy_digits
    skip_slashes
relative_runs = (refl, refl)

-- "d:b" has a 0 behind "/dev/".
device_runs :
    forward (canonize 9 true (100 ∷ 58 ∷ 98 ∷ []) (47 ∷ []) (47 ∷ []))
    ≡ 47 ∷ 100 ∷ 101 ∷ 118 ∷ 47 ∷ 0 ∷ 100 ∷ 47 ∷ 98 ∷ []
unfolding canonize start name_end parts part after_name version offset copy_name copy_digits
    skip_slashes
device_runs = refl

-- "/a" and "b" make "/a/b", if that is not too long.
pathcat_runs :
    (pathcat 9 (47 ∷ 97 ∷ []) (98 ∷ []) ≡ some (47 ∷ 97 ∷ 47 ∷ 98 ∷ []))
    × (pathcat 3 (47 ∷ 97 ∷ []) (98 ∷ []) ≡ none)
unfolding pathcat
pathcat_runs = (refl, refl)

stack_runs : pathpop (pathpush (pathpush [] 1 2) 3 4) ≡ ((1, 2) ∷ [], some (3, 4))
unfolding pathpush pathpop
stack_runs = refl

abbrev d_b : List ℕ
d_b = 100 ∷ 58 ∷ 98 ∷ []

d_b_name :
    (char d_b (name_end (length d_b) d_b 0) ≡ colon)
    × ((name_end (length d_b) d_b 0 == 4) && same_path (take 4 d_b) root_name ≡ false)
unfolding name_end
d_b_name = (refl, refl)

canonize-c_string_example :
    (canonize 9 false d_b (47 ∷ []) (47 ∷ []) ≡ some none)
    × ((r : List ℕ) × (canonize 9 true d_b (47 ∷ []) (47 ∷ []) ≡ some (some r))
        × (c_string (onto r []) ≡ 47 ∷ 100 ∷ 101 ∷ 118 ∷ 47 ∷ []))
canonize-c_string_example =
    canonize-c_string 9 d_b (47 ∷ []) (47 ∷ []) d_b_name.0 d_b_name.1 (omega arith)
