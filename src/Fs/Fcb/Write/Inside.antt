-- ===== src/Fs/Fcb/Write/Inside.antt =====
-- Bytes that fcb_write writes into a buffer.
use bztsrc_osz.Prelude.{
  ℕ, zero, suc, ◌+◌, ◌-◌, ◌<◌, ◌≤◌, ◌≡◌, inl, inr, refl, ap, ◌∙◌, ◌&&◌, Bool, true, false, none,
  some, List, [], ◌∷◌, ◌++◌, arith, ltb, leb, if◌then◌else◌, length, take, drop, get_elem?,
  length-append, length-take, length-drop, Bool-cases, leb→le,
}
use mathlib.Core.Option.{some-injective}
use bztsrc_osz.Fs.Fcb.Write.{
  Writebuf, end_offs, covered, sweep, changes, overlay, place, File, write_buffers, fcb_write,
}
use bztsrc_osz.Fs.Fcb.Write.Buffers.{get_overlay, view, apart, apart_le}

-- No buffer behind another is covered by bytes that end in the other.
sweep-behind :
    (passed : Bool) (offs : ℕ) (bytes : List ℕ) (lo : ℕ) (ws : List Writebuf)
    → apart lo ws ≡ true
    → offs + length bytes < lo
    → sweep passed offs bytes ws ≡ some ws
unfolding sweep apart
sweep-behind passed offs bytes lo [] a h = refl
sweep-behind passed offs bytes lo (w ∷ ws) a h =
    let first : leb lo w.offs ≡ true = ground (arith, a) in
    let behind : apart (end_offs w + 1) ws ≡ true = ground (arith, a) in
    let l = leb→le lo w.offs first in
    let z : covered offs bytes w ≡ false = ground (arith, l, h) in
    let rest = sweep-behind true offs bytes (end_offs w + 1) ws behind (omega (arith, l, h)) in
    rw (z, rest) refl

-- Bytes within one buffer, and not all of it, cover none.
sweep-same :
    (passed : Bool) (offs : ℕ) (bytes : List ℕ) (lo : ℕ) (ws : List Writebuf) (i : ℕ) (w : Writebuf)
    → apart lo ws ≡ true
    → get_elem? ws i ≡ some w
    → w.offs ≤ offs
    → offs + length bytes ≤ end_offs w
    → length bytes < length w.data_of
    → sweep passed offs bytes ws ≡ some ws
unfolding sweep apart
sweep-same passed offs bytes lo [] i w a e l h n = cc
sweep-same passed offs bytes lo (v ∷ ws) zero w a e l h n =
    let same : v ≡ w = some-injective v w e in
    let z : covered offs bytes v ≡ false = ap (covered offs bytes) same ∙ ground (arith, l, h, n) in
    let behind : apart (end_offs v + 1) ws ≡ true = ground (arith, a) in
    let ends : end_offs v ≡ end_offs w = ap end_offs same in
    let rest = sweep-behind true offs bytes (end_offs v + 1) ws behind (omega (arith, h, ends)) in
    rw (z, rest) refl
sweep-same passed offs bytes lo (v ∷ ws) (suc i) w a e l h n =
    let behind : apart (end_offs v + 1) ws ≡ true = ground (arith, a) in
    let far = apart_le (end_offs v + 1) ws i w behind e in
    let z : covered offs bytes v ≡ false = ground (arith, l, far) in
    rw (z, sweep-same true offs bytes (end_offs v + 1) ws i w behind e l h n) refl

-- The buffers with the bytes written: every byte of the file that is buffered is the new one, or the old one.
pub record Written (offs : ℕ) (bytes : List ℕ) (ws ws' : List Writebuf) : Type 0 where
  pub bytes_at :
      (x : ℕ)
      → view ws' x ≡ (
          if leb offs x && ltb x (offs + length bytes)
          then get_elem? bytes (x - offs)
          else view ws x)

length-overlay :
    (old : List ℕ) (i : ℕ) (bytes : List ℕ)
    → i + length bytes ≤ length old
    → length (overlay old i bytes) ≡ length old
length-overlay old i bytes h =
    let rest = bytes ++ drop (i + length bytes) old in
    omega (
      arith,
      h,
      length-append (take i old) rest,
      length-append bytes (drop (i + length bytes) old),
      length-take i old,
      length-drop (i + length bytes) old,
    )

inside_at :
    (v : Writebuf) (ws : List Writebuf) (offs : ℕ) (bytes : List ℕ)
    → v.offs ≤ offs
    → offs + length bytes ≤ end_offs v
    → (x : ℕ)
    → view (record { offs = v.offs; data_of = overlay v.data_of (offs - v.offs) bytes } ∷ ws) x ≡ (
        if leb offs x && ltb x (offs + length bytes)
        then get_elem? bytes (x - offs)
        else view (v ∷ ws) x)
unfolding view
inside_at v ws offs bytes l h x =
    let i = offs - v.offs in
    let n = length-overlay v.data_of i bytes (omega (arith, l, h)) in
    let got = get_overlay v.data_of i bytes (x - v.offs) (omega (arith, l, h)) in
    elim (Bool-cases (leb v.offs x && ltb x (end_offs v))) [
      | inl here ↦
          let here' : (leb v.offs x && ltb x (v.offs + length (overlay v.data_of i bytes))) ≡ true =
            ground (arith, here, n) in
          let same : (leb i (x - v.offs) && ltb (x - v.offs) (i + length bytes))
              ≡ (leb offs x && ltb x (offs + length bytes)) =
            ground (arith, here, l) in
          let at : x - v.offs - i ≡ x - offs = omega (arith, l) in
          rw (here', here)
            (got
              ∙ ap
                  (λ c.
                    if c
                    then get_elem? bytes (x - v.offs - i)
                    else get_elem? v.data_of (x - v.offs))
                  same
              ∙ ap
                  (λ k.
                    if leb offs x && ltb x (offs + length bytes)
                    then get_elem? bytes k
                    else get_elem? v.data_of (x - v.offs))
                  at)
      | inr off ↦
          let off' : (leb v.offs x && ltb x (v.offs + length (overlay v.data_of i bytes))) ≡ false =
            ground (arith, off, n) in
          let z : (leb offs x && ltb x (offs + length bytes)) ≡ false = ground (arith, off, l, h) in
          rw (off', off, z) refl
    ]

place-Written :
    (more : Bool) (offs : ℕ) (bytes : List ℕ) (lo : ℕ) (ws : List Writebuf) (i : ℕ) (w : Writebuf)
    → apart lo ws ≡ true
    → get_elem? ws i ≡ some w
    → w.offs ≤ offs
    → offs + length bytes ≤ end_offs w
    → (ws' : List Writebuf) × (place more offs bytes ws ≡ some (some (changes ws')))
      × Written offs bytes ws ws'
unfolding place apart view
place-Written more offs bytes lo [] i w a e l h = cc
place-Written more offs bytes lo (v ∷ ws) zero w a e l h =
    let same : v ≡ w = some-injective v w e in
    let so : v.offs ≡ w.offs = ap (λ (x : Writebuf). x.offs) same in
    let se : end_offs v ≡ end_offs w = ap end_offs same in
    let inside : Writebuf = record {
      offs = v.offs;
      data_of = overlay v.data_of (offs - v.offs) bytes;
    } in
    (
      inside ∷ ws,
      ground (arith, so, se, l, h),
      record { bytes_at = inside_at v ws offs bytes (omega (arith, so, l)) (omega (arith, se, h)) },
    )
place-Written more offs bytes lo (v ∷ ws) (suc i) w a e l h =
    let behind : apart (end_offs v + 1) ws ≡ true = ground (arith, a) in
    let far = apart_le (end_offs v + 1) ws i w behind e in
    let (ws', run, t) = place-Written more offs bytes (end_offs v + 1) ws i w behind e l h in
    let c1 : ltb (offs + length bytes) v.offs ≡ false = ground (arith, l, far) in
    let c2 : (ltb offs v.offs
          && (leb v.offs (offs + length bytes) && ltb (offs + length bytes) (end_offs v)))
        ≡ false =
      ground (arith, l, far) in
    let c3 : (leb v.offs offs && leb (offs + length bytes) (end_offs v)) ≡ false =
      ground (arith, l, far) in
    let c4 : (ltb v.offs offs && (leb offs (end_offs v) && ltb (end_offs v) (offs + length bytes)))
        ≡ false =
      ground (arith, l, far) in
    (
      v ∷ ws',
      rw (c1, c2, c3, c4, run) refl,
      record {
        bytes_at = λ x. elim (Bool-cases (leb v.offs x && ltb x (end_offs v))) [
          | inl here ↦
              let z : (leb offs x && ltb x (offs + length bytes)) ≡ false =
                ground (arith, here, l, far) in
              rw (here, z) refl
          | inr off ↦ rw off (t.bytes_at x)
        ];
      },
    )

-- The part of fcb_write behind its tests.
write_buffers-Written :
    (more : Bool) (f : File) (offs : ℕ) (bytes : List ℕ) (i : ℕ) (w : Writebuf)
    → apart 0 f.buf ≡ true
    → get_elem? f.buf i ≡ some w
    → w.offs ≤ offs
    → offs + length bytes ≤ end_offs w
    → length bytes < length w.data_of
    → (f' : File) × (write_buffers true more f offs bytes ≡ some (f', true))
      × Written offs bytes f.buf f'.buf
unfolding write_buffers
write_buffers-Written more f offs bytes i w a e l h n =
    let kept = sweep-same false offs bytes 0 f.buf i w a e l h n in
    let (ws', run, t) = place-Written more offs bytes 0 f.buf i w a e l h in
    (record f { buf = ws' }, rw (kept, run) refl, t)

-- What the tests of fcb_write ask for: a regular file that is not being checked, open for writing, with a driver that
-- writes.
pub record Accepts (f : File) : Type 0 where
  pub regular : f.is_regular ≡ true
  pub unchecked : f.is_checked ≡ false
  pub writable : f.is_writable ≡ true
  pub driver : f.has_write ≡ true

-- fcb_write to a regular file that is not being checked, open for writing, with a driver that writes, where there is
-- memory for a buffer; the buffers are in order with gaps between them, and the bytes are within one of them and not all
-- of it: it returns true without an error, and each byte that is buffered for the file is the new one, or else the old
-- one.
pub fcb_write-Written :
    (more : Bool) (f : File) (offs : ℕ) (bytes : List ℕ) (i : ℕ) (w : Writebuf)
    → Accepts f
    → apart 0 f.buf ≡ true
    → get_elem? f.buf i ≡ some w
    → w.offs ≤ offs
    → offs + length bytes ≤ end_offs w
    → length bytes < length w.data_of
    → (f' : File) × (fcb_write true more (some f) offs bytes ≡ some (some f', (true, none)))
      × Written offs bytes f.buf f'.buf
unfolding fcb_write
fcb_write-Written more f offs bytes i w t a e l h n =
    let (f', run, x) = write_buffers-Written more f offs bytes i w a e l h n in
    (f', ground (arith, t.regular, t.unchecked, t.writable, t.driver, run), x)
