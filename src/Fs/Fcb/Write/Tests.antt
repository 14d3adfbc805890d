-- ===== src/Fs/Fcb/Write/Tests.antt =====
-- Runs of fcb_write.
use bztsrc_osz.Prelude.{◌≡◌, refl, arith, true, false, none, some, List, [], ◌∷◌}
use bztsrc_osz.Fs.Fcb.Write.{Writebuf, sweep, place, File, write_buffers, fcb_write}
use bztsrc_osz.Fs.Fcb.Write.Buffers.{apart}
use bztsrc_osz.Fs.Fcb.Write.Inside.{Written, fcb_write-Written}

abbrev file : List Writebuf → File
file ws = record {
  is_regular = true;
  is_checked = false;
  is_writable = true;
  has_write = true;
  buf = ws;
}

abbrev at_100 : Writebuf
at_100 = record { offs = 100; data_of = 1 ∷ 2 ∷ 3 ∷ 4 ∷ [] }

abbrev at_200 : Writebuf
at_200 = record { offs = 200; data_of = 5 ∷ 6 ∷ [] }

fcb_write-Written_example :
    (f' : File) × (fcb_write true true (some (file (at_100 ∷ at_200 ∷ []))) 201 (9 ∷ [])
      ≡ some (some f', (true, none)))
    × Written 201 (9 ∷ []) (at_100 ∷ at_200 ∷ []) f'.buf
unfolding apart
fcb_write-Written_example =
    fcb_write-Written true (file (at_100 ∷ at_200 ∷ [])) 201 (9 ∷ []) 1 at_200
      (record { regular = refl; unchecked = refl; writable = refl; driver = refl }) refl refl
      (omega arith) (omega arith) (omega arith)

-- The first bytes that are written to a file are in no buffer, and it returns false.
first_not_added :
    fcb_write true true (some (file [])) 0 (7 ∷ []) ≡ some (some (file []), (false, none))
unfolding fcb_write write_buffers sweep place
first_not_added = refl

-- Bytes in front of the second buffer: the first one is lost.
first_is_lost :
    fcb_write true true (some (file (at_100 ∷ at_200 ∷ []))) 150 (8 ∷ [])
    ≡ some (some (file (record { offs = 150; data_of = 8 ∷ [] } ∷ at_200 ∷ [])), (true, none))
unfolding fcb_write write_buffers sweep place
first_is_lost = refl

-- Bytes that end in a buffer: what stays of it are its first bytes.
wrong_bytes :
    fcb_write true true (some (file (at_100 ∷ []))) 99 (8 ∷ 9 ∷ 7 ∷ [])
    ≡ some (some (file (record { offs = 99; data_of = 8 ∷ 9 ∷ 7 ∷ 1 ∷ 2 ∷ [] } ∷ [])), (true, none))
unfolding fcb_write write_buffers sweep place
wrong_bytes = refl

-- Bytes that cover the first buffer: the loop goes on from NULL.
goes_on_from_null : fcb_write true true (some (file (at_100 ∷ []))) 100 (1 ∷ 2 ∷ 3 ∷ 4 ∷ []) ≡ none
unfolding fcb_write write_buffers sweep
goes_on_from_null = refl
