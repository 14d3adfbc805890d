-- ===== src/Sched/Queue/Push.antt =====
-- Changes of one chain, seen from the others, and a task put in front of a chain.
use bztsrc_osz.Prelude.{
  ℕ, ◌≡◌, ◌≢◌, refl, ◌∙◌, not, ◌&&◌, inl, inr, ◌==◌, true, false, List, [], ◌∷◌, if◌then◌else◌,
  arith,
}
use bztsrc_osz.Sched.State.{Tcb}
use bztsrc_osz.Sched.Queue.Chain.{
  has, erase, Distinct, Chain, has_apart, Chain-frame, Chain-prev, Chain-next, Unlinked,
}

pub not-has-zero : (t : ℕ → Tcb) (q h : ℕ) (xs : List ℕ) → Chain t q h xs → has 0 xs ≡ false
not-has-zero t q h [] c = refl
not-has-zero t q h (x ∷ xs) c = ground (arith, c.1, not-has-zero t x (t x).next xs c.3)

pub not-has-erase : (p : ℕ) (xs : List ℕ) → Distinct xs → has p (erase p xs) ≡ false
not-has-erase p [] d = refl
not-has-erase p (x ∷ xs) d = ground (arith, not-has-erase p xs d.1)

pub has-erase : (a p : ℕ) (xs : List ℕ) → has a xs ≡ false → has a (erase p xs) ≡ false
has-erase a p [] o = refl
has-erase a p (x ∷ xs) o = ground (arith, has-erase a p xs (ground arith))

pub erase-Distinct : (p : ℕ) (xs : List ℕ) → Distinct xs → Distinct (erase p xs)
erase-Distinct p [] d = tt
erase-Distinct p (x ∷ xs) d =
    ground (arith, d.0, d.1, erase-Distinct p xs d.1, has-erase x p xs d.0)

-- Taking out a task of one chain changes no link of a task outside it.
pub Unlinked-other :
    (t t' : ℕ → Tcb) (h p a : ℕ) (xs : List ℕ)
    → Unlinked t t' p
    → Chain t 0 h xs
    → has p xs ≡ true
    → has a xs ≡ false
    → ((t' a).next ≡ (t a).next) × ((t' a).prev ≡ (t a).prev)
Unlinked-other t t' h p a xs u c i o = (
  elim (Chain-prev t 0 h p xs c i) [
    | inl (_, back) ↦ ground (arith, u.next_of a)
    | inr (_, within) ↦ ground (arith, u.next_of a, has_apart (t p).prev a xs within o)
  ],
  elim (Chain-next t 0 h p xs c i) [
    | inl last ↦ ground (arith, u.prev_of a)
    | inr within ↦ ground (arith, u.prev_of a, has_apart (t p).next a xs within o)
  ],
)

-- The links after task `p` was put in front of the chain from `h`.
pub record Pushed (t t' : ℕ → Tcb) (p h : ℕ) : Type 0 where
  pub next_p : (t' p).next ≡ h
  pub prev_p : (t' p).prev ≡ 0
  pub next_of : (a : ℕ) → a ≢ p → (t' a).next ≡ (t a).next
  pub prev_of : (a : ℕ) → a ≢ p → (t' a).prev ≡ (if not (h == 0) && (a == h) then p else (t a).prev)

pub Chain-push :
    (t t' : ℕ → Tcb) (h p : ℕ) (xs : List ℕ)
    → Pushed t t' p h
    → Chain t 0 h xs
    → has p xs ≡ false
    → p ≢ 0
    → Distinct xs
    → Chain t' 0 p (p ∷ xs)
Chain-push t t' h p [] u c o nz d = (refl, nz, u.prev_p, u.next_p ∙ c)
Chain-push t t' h p (x ∷ xs) u c o nz d =
    let ne : x ≢ p = λ e. has_apart x p (x ∷ xs) (ground arith) o e in
    (
      refl,
      nz,
      u.prev_p,
      (
        u.next_p ∙ c.0,
        c.1,
        ground (arith, u.prev_of x ne),
        rw (u.next_of x ne) (
            Chain-frame t t' x (t x).next xs
              (λ a i.
                let na : a ≢ p = has_apart a p xs i (ground arith) in
                (u.next_of a na, ground (arith, u.prev_of a na, has_apart a x xs i d.0)))
              c.3),
      ),
    )

-- Any other chain stays.
pub Pushed-other :
    (t t' : ℕ → Tcb) (h p a : ℕ)
    → Pushed t t' p h
    → a ≢ p
    → a ≢ h
    → ((t' a).next ≡ (t a).next) × ((t' a).prev ≡ (t a).prev)
Pushed-other t t' h p a u na nh = (u.next_of a na, ground (arith, u.prev_of a na))
