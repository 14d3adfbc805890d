-- ===== src/Vmm/Release/Cleared.antt =====
-- What vmm_free does to a table of pages, and that it ends.
pub mod Ends
use mathlib.Core.Option.{some-injective}
use bztsrc_osz.Prelude.{
  ℕ, zero, suc, ◌+◌, ◌-◌, ◌*◌, ◌/◌, ◌%◌, ◌^◌, ◌<◌, ◌≤◌, ◌≡◌, ◌≢◌, ◌⊎◌, inl, inr, refl, sym, ap, ◌∙◌,
  ◌==◌, ◌&&◌, not, Bool, true, false, Option, none, some, ◌>>=◌, arith, ltb, if◌then◌else◌, add64,
  Bool-cases, if_both, if_cases, sub64, bind_some,
}
use bztsrc_osz.Pmm.{page_size, free}
use bztsrc_osz.Vmm.{Space, phyaddr, present, is_shared, write, give_page}
use bztsrc_osz.Vmm.Release.{drop_pages, free_page, free_pages}

-- No table changes when pages are given back.
abbrev SameTables : Space → Option Space → Type 0
SameTables s o = (s' : Space) → o ≡ some s' → (p k : ℕ) → s'.table p k ≡ s.table p k

some-SameTables : (s x : Space) → ((p k : ℕ) → x.table p k ≡ s.table p k) → SameTables s (some x)
some-SameTables s x h s' e p k =
    sym (ap (λ (y : Space). y.table p k) (some-injective x s' e)) ∙ h p k

give_page-SameTables : (s : Space) (base n : ℕ) → SameTables s (give_page s base n)
unfolding give_page
give_page-SameTables s base n s' e p k =
    let ((q, t), f, g) = bind_some (free s.pmm s.task base n) _ s' e in
    some-SameTables s (record s { pmm = q; task = t }) (λ p k. refl) s' g p k

drop_pages-SameTables : (s : Space) (entry n : ℕ) → SameTables s (drop_pages s entry n)
unfolding drop_pages
drop_pages-SameTables s entry n =
    if_both (SameTables s) (is_shared entry)
      (some-SameTables s (record s { linkmem = sub64 s.linkmem n }) (λ p k. refl))
      (give_page-SameTables s (phyaddr entry) n)

-- The entry is not in use afterwards, and nothing else changes.
free_page-cleared :
    (s s' : Space) (page k : ℕ)
    → free_page s page k ≡ some s'
    → (present (s'.table page k) ≡ false)
      × ((q x : ℕ) → (q ≡ page → x ≢ k) → s'.table q x ≡ s.table q x)
unfolding free_page
free_page-cleared s s' page k =
    if_cases
      (λ o.
        o ≡ some s'
        → (present (s'.table page k) ≡ false)
          × ((q x : ℕ) → (q ≡ page → x ≢ k) → s'.table q x ≡ s.table q x))
      (not (present (s.table page k)))
      (λ z e. (
        ap present (some-SameTables s s (λ p k. refl) s' e page k) ∙ ground (arith, z),
        λ q x n. some-SameTables s s (λ p k. refl) s' e q x,
      ))
      (λ z e.
        let (s1, f, g) = bind_some (drop_pages s (s.table page k) 1) _ s' e in
        let here : s'.table page k ≡ 0 =
          sym (ap (λ (y : Space). y.table page k) (some-injective (write s1 page k 0) s' g))
          ∙ ground arith in
        (
          ap present here,
          λ q x n.
              sym (ap (λ (y : Space). y.table q x) (some-injective (write s1 page k 0) s' g))
              ∙ ground (arith, n)
              ∙ drop_pages-SameTables s (s.table page k) 1 s1 f q x,
        ))

clear_from :
    (tb : ℕ → ℕ) (k n : ℕ)
    → present (tb k) ≡ false
    → ((x : ℕ) → x < n → present (tb (suc k + x)) ≡ false)
    → (x : ℕ) → x < suc n
    → present (tb (k + x)) ≡ false
clear_from tb k n here behind zero h =
    let z : k + 0 ≡ k = omega arith in ap (λ j. present (tb j)) z ∙ here
clear_from tb k n here behind (suc x) h =
    let z : k + suc x ≡ suc k + x = omega arith in
    ap (λ j. present (tb j)) z ∙ behind x (omega (arith, h))

-- The loop over a table of pages goes over `n` entries, as far as the address where vmm_free ends: no entry of them is
-- in use afterwards, and no other entry of any table changes.
pub free_pages-cleared :
    (n page k stop : ℕ) (s s' : Space) (bss bss' : ℕ)
    → bss + page_size * n ≤ stop
    → stop < 2 ^ 64
    → free_pages n page k stop s bss ≡ some (s', bss')
    → ((x : ℕ) → x < n → present (s'.table page (k + x)) ≡ false)
      × ((q x : ℕ) → (q ≡ page → (x < k) ⊎ (k + n ≤ x)) → s'.table q x ≡ s.table q x)
unfolding free_pages
free_pages-cleared zero page k stop s s' bss bss' h l e = (
  λ x z. absurd (omega (arith, z)),
  λ q x n. sym (ap (λ (y : Space × ℕ). y.0.table q x) (some-injective (s, bss) (s', bss') e)),
)
free_pages-cleared (suc n) page k stop s s' bss bss' h l e =
    let before : ltb bss stop ≡ true = ground (arith, h) in
    let next : add64 bss page_size ≡ bss + page_size = ground (arith, h, l) in
    let run : free_pages (suc n) page k stop s bss
        ≡ (free_page s page k >>= λ s'. free_pages n page (suc k) stop s' (add64 bss page_size)) =
      ap
        (λ b. elim b as (λ b. Option (Space × ℕ)) [
          | false ↦ some (s, bss)
          | true ↦
              free_page s page k >>= λ s'. free_pages n page (suc k) stop s' (add64 bss page_size)
        ])
        before in
    let (s1, f, g) =
      bind_some (free_page s page k) (λ s'. free_pages n page (suc k) stop s' (add64 bss page_size))
        (s', bss') (sym run ∙ e) in
    let (clear, same) =
      free_pages-cleared n page (suc k) stop s1 s' (add64 bss page_size) bss'
        (omega (arith, h, next)) l g in
    let (here, kept) = free_page-cleared s s1 page k f in
    (
      clear_from (s'.table page) k n (ap present (same page k (λ z. inl (omega arith))) ∙ here)
          clear,
      λ q x z.
          same q x
            (λ y. elim (z y) [ inl l ↦ inl (omega (arith, l)) | inr l ↦ inr (omega (arith, l)) ])
          ∙ kept q x (λ y. elim (z y) [ inl l ↦ omega (arith, l) | inr l ↦ omega (arith, l) ]),
    )
