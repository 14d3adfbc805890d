-- ===== src/Vmm/Text/Ends.antt =====
-- The rounds of vmm_maptext end.
use mathlib.Core.Option.{some-injective}
use bztsrc_osz.Prelude.{
  ℕ, zero, suc, ◌+◌, ◌-◌, ◌*◌, ◌<◌, ◌≤◌, ◌≡◌, ◌≢◌, refl, ap, ◌==◌, Bool, true, false, Option, none,
  some, ◌>>=◌, List, [], ◌∷◌, arith, option_both, bind_both,
}
use bztsrc_osz.Pmm.{page_size, slot_size}
use bztsrc_osz.Vmm.{Space, present, sub_table}
use bztsrc_osz.Vmm.Map.{index}
use bztsrc_osz.Vmm.Text.{
  Segment, Ending, again, mapped, null, minus_one, text_page, text_pages, text_round, text_rounds,
}

-- Where a round goes on, a page less than `n` bytes is left, or fewer.
abbrev Leaves : ℕ → Option Ending → Type 0
Leaves n o = (s : Space) (r : Segment) → o ≡ some (again s r) → r.size + page_size ≤ n

rest_of : Ending → ℕ
rest_of (again s r) = r.size
rest_of (mapped s) = 0
rest_of (null s) = 0
rest_of (minus_one s) = 0

again-Leaves :
    (n : ℕ) (s : Space) (r : Segment) → r.size + page_size ≤ n → Leaves n (some (again s r))
unfolding rest_of
again-Leaves n s r h s' r' e =
    omega (arith, h, ap rest_of (some-injective (again s r) (again s' r') e))

text_page-Leaves :
    (n : ℕ) (stop used : Bool) (ps : List ℕ) (s : Space) (next : ℕ → List ℕ → Option Ending)
    → ((p : ℕ) (ps : List ℕ) → stop ≡ false → Leaves n (next p ps))
    → Leaves n (text_page stop used ps s next)
unfolding text_page
text_page-Leaves n true used ps s next h = λ s' r' e. cc
text_page-Leaves n false true ps s next h = λ s' r' e. cc
text_page-Leaves n false false [] s next h = λ s' r' e. cc
text_page-Leaves n false false (p ∷ ps) s next h = h p ps refl

text_pages_le :
    (left page i : ℕ) (s : Space) (r : Segment) (n : ℕ)
    → r.size + page_size ≤ n
    → Leaves n (text_pages left page i s r)
unfolding text_pages
text_pages_le zero page i s r n h = again-Leaves n s r h
text_pages_le (suc left) page i s r n h =
    text_page-Leaves n (r.size == 0) (present (s.table page i)) r.phys s _
      (λ p ps z. text_pages_le left page (suc i) _ _ n (omega (arith, h)))

-- A loop with one entry or more maps a page before it goes on.
text_pages_less :
    (left page i : ℕ) (s : Space) (r : Segment) (n : ℕ)
    → left ≢ 0
    → r.size ≤ page_size * n
    → Leaves (page_size * n) (text_pages left page i s r)
unfolding text_pages
text_pages_less zero page i s r n l h = absurd (l refl)
text_pages_less (suc left) page i s r n l h =
    text_page-Leaves (page_size * n) (r.size == 0) (present (s.table page i)) r.phys s _ (λ p ps z.
      let some_left : 1 ≤ r.size = ground (arith, z) in
      text_pages_le left page (suc i) _ _ (page_size * n) (omega (arith, h, some_left)))

text_round-Leaves :
    (root : ℕ) (s : Space) (r : Segment) (n : ℕ)
    → r.size ≤ page_size * n
    → Leaves (page_size * n) (text_round root s r)
unfolding text_round
text_round-Leaves root s r n h =
    bind_both (Leaves (page_size * n)) (sub_table s root (index r.bss 0x40000000) 7) _
      (λ s' r' e. cc)
      (λ (s', t).
        option_both (Leaves (page_size * n)) t (some (null s')) _ (λ s' r' e. cc)
          (λ page.
            bind_both (Leaves (page_size * n)) (sub_table s' page (index r.bss slot_size) 7) _
              (λ s' r' e. cc)
              (λ (s'', t').
                option_both (Leaves (page_size * n)) t' (some (null s'')) _ (λ s' r' e. cc)
                  (λ p.
                    text_pages_less (512 - index r.bss page_size) p (index r.bss page_size) s'' r n
                      (omega arith) h))))

-- The rounds of vmm_maptext end after as many as there are pages, and one more, whatever the tables are.
pub text_rounds_end :
    (n fuel root : ℕ) (s : Space) (r : Segment)
    → r.size ≤ page_size * n
    → n < fuel
    → text_rounds fuel root s r ≢ some none
unfolding text_rounds
text_rounds_end n zero root s r h l = absurd (omega (arith, l))
text_rounds_end n (suc fuel) root s r h l =
    go (text_round root s r) (text_round-Leaves root s r n h) (λ s' r' less.
      text_rounds_end (n - 1) fuel root s' r' (omega (arith, less)) (omega (arith, less, l)))
  where
    go :
        (o : Option Ending)
        → Leaves (page_size * n) o
        → ((s' : Space) (r' : Segment)
            → r'.size + page_size ≤ page_size * n
            → text_rounds fuel root s' r' ≢ some none)
        → (o >>= λ o. elim o [
          | again s' r' ↦ text_rounds fuel root s' r'
          | mapped s' ↦ some (some (mapped s'))
          | null s' ↦ some (some (null s'))
          | minus_one s' ↦ some (some (minus_one s'))
        ])
          ≢ some none
    go none h next = λ e. cc
    go (some (again s' r')) h next = next s' r' (h s' r' refl)
    go (some (mapped s')) h next = λ e. cc
    go (some (null s')) h next = λ e. cc
    go (some (minus_one s')) h next = λ e. cc
