-- ===== src/Fs/Pipe/Stream.antt =====
-- A pipe as a stream of bytes: what pipe_read and pipe_write do to the bytes that wait in it.
use Prim.Native.Nat.{min}
use bztsrc_osz.Prelude.{
  ℕ, ◌+◌, ◌-◌, ◌^◌, ◌≤◌, ◌<◌, ◌≡◌, ◌≢◌, refl, sym, ap, ◌∙◌, ◌⊎◌, inl, inr, true, none, some, List,
  [], ◌∷◌, add64, sub64, length, get_elem?, set, take, drop, arith, Option-cases, dec_lt, drop_all,
  drop-drop, length-drop,
}
use bztsrc_osz.Fs.Pipe.{Pipe, Fs, minus_one, settle, take_out, read_from, pipe_read, copy_to, emit}

-- The bytes that were written and not yet read.
abbrev pub content : Pipe → List ℕ
content p = elim p.buffer [ none ↦ [] | some d ↦ drop p.rd d ]

-- A buffer is filled up to `size` and was not read to its end; without one there is nothing to read.
pub record IsValid (p : Pipe) : Type 0 where
  pub filled :
      (d : List ℕ)
      → p.buffer ≡ some d
      → (length d ≡ p.size) × (p.rd < p.size) × (p.size < minus_one)
  pub empty : p.buffer ≡ none → (p.rd ≡ 0) × ((p.size ≡ 0) ⊎ (p.size ≡ minus_one))

-- The reader is the one that holds the lock, or nobody does.
abbrev pub MayRead : Pipe → ℕ → Type 0
MayRead p pid = (p.reader ≡ 0) ⊎ (p.reader ≡ pid)

abbrev locked : Fs → Pipe → ℕ → Pipe
locked s p pid = record p { reader = pid; rdtime = s.now }

read_from-filled :
    (s : Fs) (idx : ℕ) (p : Pipe) (ptr n pid : ℕ) (d : List ℕ)
    → p.buffer ≡ some d
    → IsValid p
    → MayRead p pid
    → read_from s idx p ptr n pid ≡ take_out s idx (locked s p pid) d ptr n pid
unfolding read_from settle
read_from-filled s idx p ptr n pid d e v m = ground (arith, v.filled d e, e, m)

read_from-empty :
    (s : Fs) (idx : ℕ) (p : Pipe) (ptr n pid : ℕ)
    → p.buffer ≡ none
    → IsValid p
    → MayRead p pid
    → read_from s idx p ptr n pid ≡ (
      0,
      record s {
        pipe = set s.pipe idx (record (locked s p pid) { size = 0; rd = 0; buffer = none });
        ackdelayed = true;
      },
    )
unfolding read_from settle
read_from-empty s idx p ptr n pid e v m = ground (arith, v.empty e, e, m)

-- What a read of up to `n` bytes returns and does.
pub record Taken (s : Fs) (idx : ℕ) (p : Pipe) (ptr n pid k : ℕ) (s' : Fs) : Type 0 where
  pub count : k ≡ min n (length (content p))
  pub after : Pipe
  pub table : s'.pipe ≡ set s.pipe idx after
  pub rest : content after ≡ drop k (content p)
  pub valid : IsValid after
  pub served :
      content p ≢ []
      → (s'.effects ≡ copy_to pid ptr (take k (content p)) ∷ s.effects)
        × (after.reader ≡ 0)
        × (s'.ackdelayed ≡ s.ackdelayed)
  pub same_errno : s'.errno ≡ s.errno
  pub waits :
      content p ≡ [] → (s'.effects ≡ s.effects) × (after.reader ≡ pid) × (s'.ackdelayed ≡ true)

-- The bytes of a filled pipe.
pub filled_length :
    (p : Pipe) (d : List ℕ)
    → p.buffer ≡ some d
    → IsValid p
    → (content p ≡ drop p.rd d) × (length (content p) + p.rd ≡ p.size) × (0 < length (content p))
filled_length p d e v =
    let f : (length d ≡ p.size) × (p.rd < p.size) × (p.size < minus_one) = v.filled d e in
    let c : content p ≡ drop p.rd d = ground (arith, e) in
    (c, rw c (omega (arith, length-drop p.rd d, f)), rw c (omega (arith, length-drop p.rd d, f)))

-- The pipe behind a read that leaves some bytes, and behind one that leaves none.
abbrev partly : Fs → Pipe → ℕ → ℕ → Pipe
partly s p n pid = record (locked s p pid) { rd = p.rd + n; reader = 0 }

abbrev emptied : Fs → Pipe → ℕ → Pipe
emptied s p pid = record (locked s p pid) { size = 0; rd = 0; buffer = none; reader = 0 }

partly-IsValid :
    (s : Fs) (p : Pipe) (n pid : ℕ) (d : List ℕ)
    → p.buffer ≡ some d
    → IsValid p
    → p.rd + n < p.size
    → IsValid (partly s p n pid)
partly-IsValid s p n pid d e v h = record {
  filled = λ x ex. (let f = v.filled x ex in (f.0, h, f.2));
  empty = λ none_left. cc;
}

module _ (s : Fs) (idx : ℕ) (p : Pipe) (ptr n pid : ℕ) (d : List ℕ) (e : p.buffer ≡ some d)
    (v : IsValid p) where
  take_out-part :
      p.rd + n < p.size
      → (s' : Fs) × (take_out s idx (locked s p pid) d ptr n pid ≡ (n, s'))
        × Taken s idx p ptr n pid n s'
  unfolding take_out
  take_out-part h =
      let f : (length d ≡ p.size) × (p.rd < p.size) × (p.size < minus_one) = v.filled d e in
      let l : (content p ≡ drop p.rd d)
          × (length (content p) + p.rd ≡ p.size)
          × (0 < length (content p)) =
        filled_length p d e v in
      let w : add64 p.rd n ≡ p.rd + n = omega (arith, f) in
      (
        emit (record s { pipe = set s.pipe idx (partly s p n pid) })
            (copy_to pid ptr (take n (drop p.rd d))),
        ground (arith, w),
        record {
          count = omega (arith, l.1);
          after = partly s p n pid;
          table = refl;
          rest = ground (arith, e, l.0, drop-drop n p.rd d);
          valid = partly-IsValid s p n pid d e v h;
          served = λ some_left. (rw l.0 refl, refl, refl);
          same_errno = refl;
          waits = λ none_left. absurd (omega (arith, l.2, ap length none_left));
        },
      )

  take_out-all :
      p.size ≤ p.rd + n
      → n < 2 ^ 63
      → (s' : Fs) × (take_out s idx (locked s p pid) d ptr n pid ≡ (p.size - p.rd, s'))
        × Taken s idx p ptr n pid (p.size - p.rd) s'
  unfolding take_out
  take_out-all h small =
      let f : (length d ≡ p.size) × (p.rd < p.size) × (p.size < minus_one) = v.filled d e in
      let l : (content p ≡ drop p.rd d)
          × (length (content p) + p.rd ≡ p.size)
          × (0 < length (content p)) =
        filled_length p d e v in
      let w : add64 p.rd n ≡ p.rd + n = omega (arith, f) in
      let u : sub64 p.size p.rd ≡ p.size - p.rd = omega (arith, f) in
      (
        emit (record s { pipe = set s.pipe idx (emptied s p pid) })
            (copy_to pid ptr (take (p.size - p.rd) (drop p.rd d))),
        ground (arith, w, u),
        record {
          count = omega (arith, l.1);
          after = emptied s p pid;
          table = refl;
          rest = sym (drop_all (p.size - p.rd) (content p) (omega (arith, l.1)));
          valid = record { filled = λ x ex. cc; empty = λ same. (refl, inl refl) };
          served = λ some_left. (rw l.0 refl, refl, refl);
          same_errno = refl;
          waits = λ none_left. absurd (omega (arith, l.2, ap length none_left));
        },
      )

-- For a reader that may read from a valid pipe of the table and asks for less than 2 ^ 63 bytes, pipe_read
-- hands out the bytes that wait, in order, up to as many as asked for, and unlocks the pipe; when none wait it
-- keeps the lock, and the answer is left for later. The pipe stays valid, and only that pipe of the table
-- changes.
pub pipe_read-Taken :
    (s : Fs) (idx : ℕ) (p : Pipe) (ptr n pid : ℕ)
    → idx < s.npipe
    → get_elem? s.pipe idx ≡ some p
    → IsValid p
    → MayRead p pid
    → n < 2 ^ 63
    → (k : ℕ) × (s' : Fs) × (pipe_read s idx ptr n pid ≡ some (k, s'))
      × Taken s idx p ptr n pid k s'
unfolding pipe_read
pipe_read-Taken s idx p ptr n pid lo at v m small =
    let run : pipe_read s idx ptr n pid ≡ some (read_from s idx p ptr n pid) = ground (arith, at) in
    elim (Option-cases p.buffer) [
      | inl e ↦ (
        0,
        record s {
          pipe = set s.pipe idx (record (locked s p pid) { size = 0; rd = 0; buffer = none });
          ackdelayed = true;
        },
        run ∙ ap some (read_from-empty s idx p ptr n pid e v m),
        record {
          count = ground (arith, e);
          after = record (locked s p pid) { size = 0; rd = 0; buffer = none };
          table = refl;
          rest = ground (arith, e);
          valid = record { filled = λ x ex. cc; empty = λ same. (refl, inl refl) };
          served = λ some_left. absurd (some_left (ground (arith, e)));
          same_errno = refl;
          waits = λ none_left. (refl, refl, refl);
        },
      )
      | inr (d, e) ↦
          let out : read_from s idx p ptr n pid ≡ take_out s idx (locked s p pid) d ptr n pid =
            read_from-filled s idx p ptr n pid d e v m in
          elim (dec_lt (p.rd + n) p.size) [
            | yes part ↦
                let (s', taken, t) = take_out-part s idx p ptr n pid d e v part in
                (n, s', run ∙ ap some (out ∙ taken), t)
            | no all ↦
                let (s', taken, t) = take_out-all s idx p ptr n pid d e v (omega arith) small in
                (p.size - p.rd, s', run ∙ ap some (out ∙ taken), t)
          ]
    ]
