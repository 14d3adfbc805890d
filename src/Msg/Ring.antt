-- ===== src/Msg/Ring.antt =====
-- The ring as a list: the messages from its start to its end.
use mathlib.Core.Path.{subst}
use bztsrc_osz.Prelude.{
  ℕ, zero, suc, ◌+◌, ◌-◌, ◌<◌, ◌≡◌, ◌≢◌, refl, sym, ap, ◌∙◌, List, [], ◌∷◌, ◌++◌, leb,
  if◌then◌else◌, arith, length,
}
use bztsrc_osz.Sched.State.{update}
use bztsrc_osz.Msg.{Message, Mq, mq_max, next_slot}

-- An index of the ring: 0 is the header.
abbrev pub InRing : ℕ → Type 0
InRing i = (0 < i) × (i < mq_max)

-- The slot `n` places behind slot `s`.
abbrev pub place : ℕ → ℕ → ℕ
place s n = if leb mq_max (s + n) then s + n - (mq_max - 1) else s + n

-- `n` messages from slot `s` on.
unfoldable pub window : (ℕ → Message) → ℕ → ℕ → List Message
window f s zero = []
window f s (suc n) = f s ∷ window f (next_slot s) n

-- The number of messages between start and end.
abbrev pub count : Mq → ℕ
count q =
    if leb q.mq_start q.mq_end then q.mq_end - q.mq_start else q.mq_end + (mq_max - 1) - q.mq_start

-- The messages that wait, the oldest first.
abbrev pub pending : Mq → List Message
pending q = window q.slot q.mq_start (count q)

pub record IsValid (q : Mq) : Type 0 where
  pub start : InRing q.mq_start
  pub end : InRing q.mq_end

pub place-InRing : (s n : ℕ) → InRing s → n < mq_max → InRing (place s n)
place-InRing s n h lt = ground arith

pub place-next : (s n : ℕ) → InRing s → suc n < mq_max → place (next_slot s) n ≡ place s (suc n)
place-next s n h lt = ground arith

pub next-InRing : (s : ℕ) → InRing s → InRing (next_slot s)
next-InRing s h = ground arith

pub count_bound :
    (q : Mq) → IsValid q → (count q < mq_max - 1) × (place q.mq_start (count q) ≡ q.mq_end)
count_bound q v = (ground arith, ground arith)

-- One more message at the end of a window.
pub window-snoc :
    (f : ℕ → Message) (s n : ℕ)
    → InRing s
    → suc n < mq_max
    → window f s (suc n) ≡ window f s n ++ (f (place s n) ∷ [])
unfolding window
window-snoc f s zero h lt = let e : place s 0 ≡ s = ground arith in rw e refl
window-snoc f s (suc n) h lt =
    ap (λ xs. f s ∷ xs)
      (window-snoc f (next_slot s) n (next-InRing s h) (omega arith)
        ∙ ap (λ i. window f (next_slot s) n ++ (f i ∷ [])) (place-next s n h (omega arith)))

-- A window depends on its own slots only.
pub window-congr :
    (f g : ℕ → Message) (s n : ℕ)
    → InRing s
    → n < mq_max
    → ((k : ℕ) → k < n → f (place s k) ≡ g (place s k))
    → window f s n ≡ window g s n
unfolding window
window-congr f g s zero h lt same = refl
window-congr f g s (suc n) h lt same =
    let e : place s 0 ≡ s = ground arith in
    let here : f s ≡ g s = subst (λ i. f i ≡ g i) e (same 0 (omega arith)) in
    let rest : window f (next_slot s) n ≡ window g (next_slot s) n =
      window-congr f g (next_slot s) n (next-InRing s h) (omega arith) (λ k l.
        subst (λ i. f i ≡ g i) (sym (place-next s k h (omega arith)))
          (same (suc k) (omega arith))) in
    ground (arith, here, rest)

pub length-window : (f : ℕ → Message) (s n : ℕ) → length (window f s n) ≡ n
unfolding window
length-window f s zero = refl
length-window f s (suc n) = ap suc (length-window f (next_slot s) n)

-- Different places of a window are different slots.
pub place_apart : (s k n : ℕ) → InRing s → k < n → n < mq_max - 1 → place s k ≢ place s n
place_apart s k n h lt bound e = ground arith

-- A write to the slot at the end is not seen in the window.
pub window-update :
    (f : ℕ → Message) (s n : ℕ) (m : Message)
    → InRing s
    → n < mq_max - 1
    → window (update f (place s n) m) s n ≡ window f s n
window-update f s n m h lt =
    window-congr (update f (place s n) m) f s n h (omega arith)
      (λ k l. ground (arith, place_apart s k n h l lt))
