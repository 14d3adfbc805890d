-- ===== src/Msg/Event/Parts.antt =====
-- Words and their parts are the same.
use mathlib.Core.HLevel.{Σ_prop_path}
use native.Mathlib.Bridge.{le_prop}
use native.Mathlib.Nat.{ℕ_set}
use bztsrc_osz.Prelude.{ℕ, ◌^◌, ◌<◌, ◌≡◌, refl, sym, ap, ◌∙◌, arith}
use bztsrc_osz.Msg.Event.{Evt, word, parts_of}

-- The parts fit into their bits.
pub record IsEvt (e : Evt) : Type 0 where
  pub task : e.task < 2 ^ 48
  pub responsed : e.responsed < 2
  pub ptrdata : e.ptrdata < 2
  pub func : e.func < 2 ^ 14

Evt-ext :
    (e f : Evt)
    → e.task ≡ f.task
    → e.responsed ≡ f.responsed
    → e.ptrdata ≡ f.ptrdata
    → e.func ≡ f.func
    → e ≡ f
Evt-ext e f t r p g = λ i. record { task = t i; responsed = r i; ptrdata = p i; func = g i }

parts_of-word : (e : Evt) → IsEvt e → parts_of (word e) ≡ e
unfolding parts_of word
parts_of-word e h =
    Evt-ext (parts_of (word e)) e (omega (arith, h)) (omega (arith, h)) (omega (arith, h))
      (omega (arith, h))

-- The events of a word.
abbrev pub EventOf : ℕ → Type 0
EventOf w = (e : Evt) × (IsEvt e × (word e ≡ w))

-- Each word of 64 bits is that of one event and no other: the type of the events of a word has one element, the parts
-- that the macros read.
pub EventOf-unique :
    (w : ℕ) → w < 2 ^ 64 → (x : EventOf w) × ((x.0 ≡ parts_of w) × ((y : EventOf w) → x ≡ y))
unfolding parts_of word
EventOf-unique w h =
    let e = parts_of w in
    let fits : IsEvt e = record {
      task = omega (arith, h);
      responsed = omega arith;
      ptrdata = omega arith;
      func = omega arith;
    } in
    (
      (e, (fits, omega arith)),
      (
        refl,
        λ (f, (g, same)).
            Σ_prop_path (λ e. hlevel (le_prop, ℕ_set)) (ap parts_of (sym same) ∙ parts_of-word f g),
      ),
    )
