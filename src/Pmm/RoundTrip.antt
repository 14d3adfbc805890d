-- ===== src/Pmm/RoundTrip.antt =====
-- pmm_free after pmm_alloc.
use bztsrc_osz.Prelude.{ℕ, ◌+◌, ◌<◌, ◌≡◌, ◌∙◌, true, some, arith, u64_mod}
use bztsrc_osz.Pmm.{Pmm, Task, alloc, free}
use bztsrc_osz.Pmm.Cover.{IsValid, cover}
use bztsrc_osz.Pmm.Alloc.{Served, alloc-Served}
use bztsrc_osz.Pmm.Free.{free-Freed}

-- The same addresses are free, as often, and the books agree.
pub record Restored (p : Pmm) (t : Task) (r : Pmm) (w : Task) : Type 0 where
  pub valid : IsValid r
  pub books : r.freepages ≡ p.freepages
  pub owner : w.allocmem ≡ t.allocmem
  pub covers : (a : ℕ) → cover a r.entries ≡ cover a p.entries

-- Giving back a block that pmm_alloc has just served succeeds, and restores the free addresses, the
-- count of free pages and the account of the task.
pub free-alloc :
    (p q : Pmm) (t u : Task) (n b : ℕ)
    → IsValid p
    → t.allocmem + n < u64_mod
    → t.magic ≡ true
    → 0 < n
    → alloc p t n ≡ some (b, q, u)
    → 0 < b
    → (r : Pmm) × (w : Task) × (free q u b n ≡ some (r, w)) × Restored p t r w
free-alloc p q t u n b v fits ready pos e based =
    let s : Served p t n b q u = alloc-Served p t n v ready pos b q u e based in
    let (r, w, done, f) =
      free-Freed q u b n s.valid (s.same_task ∙ ready) based pos s.aligned s.ends
        (omega (arith, s.free_left, s.books, v.bounded)) in
    (
      r,
      w,
      done,
      record {
        valid = f.valid;
        books = omega (arith, f.free_more, s.free_left);
        owner = omega (arith, f.owned, s.owned);
        covers = λ a. omega (arith, f.covers a, s.covers a);
      },
    )
