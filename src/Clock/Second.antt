-- ===== src/Clock/Second.antt =====
-- What the interrupts of a second do.
use mathlib.Core.Path.{subst}
use bztsrc_osz.Prelude.{
  ℕ, zero, suc, ◌+◌, ◌-◌, ◌^◌, ◌<◌, ◌≡◌, refl, sym, ap, ◌∙◌, ◌==◌, true, false, Option, none, some,
  List, [], ◌∷◌, ◌++◌, arith, sub64, length, get_elem?, get_elem?-behind, length-append,
}
use bztsrc_osz.Clock.{Clock, clock_intr, interrupts}

-- These tasks are notified, one after the other.
pub notified : List ℕ → List ℕ → List ℕ
notified [] sent = sent
notified (p ∷ ps) sent = notified ps (p ∷ sent)

-- The clock goes on by `n` interrupts within a second, and notifies these tasks.
pub record Ticked (s s' : Clock) (n i : ℕ) (ps : List ℕ) : Type 0 where
  pub cnt : s'.cnt ≡ s.cnt - n
  pub ts : s'.ts ≡ s.ts
  pub pids : s'.pids ≡ i
  pub sent : s'.sent ≡ notified ps s.sent

interrupts-add :
    (a b freq : ℕ) (ps : Option (List ℕ)) (s : Clock)
    → interrupts (a + b) freq ps s ≡ interrupts b freq ps (interrupts a freq ps s)
unfolding interrupts
interrupts-add zero b freq ps s =
    let z : 0 + b ≡ b = omega arith in ap (λ n. interrupts n freq ps s) z
interrupts-add (suc a) b freq ps s =
    let z : suc a + b ≡ suc (a + b) = omega arith in
    ap (λ n. interrupts n freq ps s) z ∙ interrupts-add a b freq ps (clock_intr freq ps s)

-- An interrupt within a second.
tick_notifies :
    (freq : ℕ) (ps : List ℕ) (s : Clock) (p : ℕ)
    → 1 < s.cnt
    → s.cnt < 2 ^ 64
    → s.pids + 1 < 2 ^ 64
    → get_elem? ps s.pids ≡ some p
    → Ticked s (clock_intr freq (some ps) s) 1 (s.pids + 1) (p ∷ [])
unfolding clock_intr notified
tick_notifies freq ps s p h l m e =
    let z : (sub64 s.cnt 1 == 0) ≡ false = ground (arith, h, l) in
    record {
      cnt = rw (z, e) (omega (arith, h, l));
      ts = rw (z, e) refl;
      pids = rw (z, e) (omega (arith, m));
      sent = rw (z, e) refl;
    }

tick_idle :
    (freq : ℕ) (ps : List ℕ) (s : Clock)
    → 1 < s.cnt
    → s.cnt < 2 ^ 64
    → get_elem? ps s.pids ≡ none
    → Ticked s (clock_intr freq (some ps) s) 1 s.pids []
unfolding clock_intr notified
tick_idle freq ps s h l e =
    let z : (sub64 s.cnt 1 == 0) ≡ false = ground (arith, h, l) in
    record {
      cnt = rw (z, e) (omega (arith, h, l));
      ts = rw (z, e) refl;
      pids = rw (z, e) refl;
      sent = rw (z, e) refl;
    }

get_elem?-middle : (xs ys : List ℕ) (y : ℕ) → get_elem? (xs ++ (y ∷ ys)) (length xs) ≡ some y
get_elem?-middle [] ys y = refl
get_elem?-middle (x ∷ xs) ys y = get_elem?-middle xs ys y

append_assoc : (xs : List ℕ) (y : ℕ) (ys : List ℕ) → xs ++ (y ∷ ys) ≡ (xs ++ (y ∷ [])) ++ ys
append_assoc [] y ys = refl
append_assoc (x ∷ xs) y ys = ap (λ zs. x ∷ zs) (append_assoc xs y ys)

-- The tasks that were not notified yet are, one with each interrupt.
all_notified :
    (freq : ℕ) (xs ys : List ℕ) (s : Clock)
    → s.pids ≡ length xs
    → length ys < s.cnt
    → s.cnt < 2 ^ 64
    → length xs + length ys < 2 ^ 64
    → Ticked s (interrupts (length ys) freq (some (xs ++ ys)) s) (length ys) (length (xs ++ ys)) ys
unfolding interrupts notified
all_notified freq xs [] s e h l m = record {
  cnt = omega arith;
  ts = refl;
  pids = e ∙ omega (arith, length-append xs []);
  sent = refl;
}
all_notified freq xs (y ∷ ys) s e h l m =
    let s1 = clock_intr freq (some (xs ++ (y ∷ ys))) s in
    let here : get_elem? (xs ++ (y ∷ ys)) s.pids ≡ some y =
      ap (get_elem? (xs ++ (y ∷ ys))) e ∙ get_elem?-middle xs ys y in
    let t =
      tick_notifies freq (xs ++ (y ∷ ys)) s y (omega (arith, h)) l (omega (arith, e, m)) here in
    let n : length (xs ++ (y ∷ [])) ≡ length xs + 1 = omega (arith, length-append xs (y ∷ [])) in
    let u =
      all_notified freq (xs ++ (y ∷ [])) ys s1 (t.pids ∙ omega (arith, e, n))
        (omega (arith, t.cnt, h)) (omega (arith, t.cnt, l)) (omega (arith, n, m)) in
    let same = append_assoc xs y ys in
    let v : Ticked s1 (interrupts (length ys) freq (some (xs ++ (y ∷ ys))) s1) (length ys)
        (length (xs ++ (y ∷ ys))) ys =
      subst (λ zs. Ticked s1 (interrupts (length ys) freq (some zs) s1) (length ys) (length zs) ys)
        (sym same) u in
    record {
      cnt = v.cnt ∙ omega (arith, t.cnt);
      ts = v.ts ∙ t.ts;
      pids = v.pids;
      sent = v.sent ∙ ap (notified ys) t.sent;
    }

-- Behind the last task, the interrupts only count.
all_idle :
    (n freq : ℕ) (ps : List ℕ) (s : Clock)
    → s.pids ≡ length ps
    → n < s.cnt
    → s.cnt < 2 ^ 64
    → Ticked s (interrupts n freq (some ps) s) n (length ps) []
unfolding interrupts notified
all_idle zero freq ps s e h l = record { cnt = omega arith; ts = refl; pids = e; sent = refl }
all_idle (suc n) freq ps s e h l =
    let s1 = clock_intr freq (some ps) s in
    let behind : get_elem? ps s.pids ≡ none = get_elem?-behind ps s.pids (omega (arith, e)) in
    let t = tick_idle freq ps s (omega (arith, h)) l behind in
    let u =
      all_idle n freq ps s1 (t.pids ∙ e) (omega (arith, t.cnt, h)) (omega (arith, t.cnt, l)) in
    record {
      cnt = u.cnt ∙ omega (arith, t.cnt);
      ts = u.ts ∙ t.ts;
      pids = u.pids;
      sent = u.sent ∙ t.sent;
    }

-- A second later, with every task of the list notified once.
pub record Elapsed (freq : ℕ) (ps : List ℕ) (s s' : Clock) : Type 0 where
  pub cnt : s'.cnt ≡ freq
  pub ts : s'.ts ≡ s.ts + 1
  pub ns : s'.ns ≡ 0
  pub pids : s'.pids ≡ 0
  pub sent : s'.sent ≡ notified ps s.sent

last_Elapsed :
    (freq : ℕ) (ps : List ℕ) (s : Clock)
    → s.cnt ≡ 1
    → s.ts + 1 < 2 ^ 64
    → get_elem? ps s.pids ≡ none
    → Elapsed freq [] s (clock_intr freq (some ps) s)
unfolding clock_intr notified
last_Elapsed freq ps s e m behind =
    let z : (sub64 s.cnt 1 == 0) ≡ true = ground (arith, e) in
    record {
      cnt = rw z refl;
      ts = rw z (omega (arith, m));
      ns = rw z refl;
      pids = rw (z, behind) refl;
      sent = rw z refl;
    }

-- As many interrupts as the counter says, from the beginning of the list on, when it is shorter than that, and
-- neither the counter nor the seconds reach 2 ^ 64: the clock goes on by a second, the counter and the list begin anew, and each task of the list is notified once, in order.
pub interrupts-Elapsed :
    (freq : ℕ) (ps : List ℕ) (s : Clock)
    → s.pids ≡ 0
    → length ps < s.cnt
    → s.cnt < 2 ^ 64
    → s.ts + 1 < 2 ^ 64
    → Elapsed freq ps s (interrupts s.cnt freq (some ps) s)
unfolding interrupts notified
interrupts-Elapsed freq ps s e h l m =
    let a = length ps in
    let b = s.cnt - a - 1 in
    let t = all_notified freq [] ps s e h l (omega (arith, h, l)) in
    let s1 = interrupts a freq (some ps) s in
    let u = all_idle b freq ps s1 t.pids (omega (arith, t.cnt, h)) (omega (arith, t.cnt, l)) in
    let s2 = interrupts b freq (some ps) s1 in
    let split : s.cnt ≡ (a + b) + 1 = omega (arith, h) in
    let run : interrupts s.cnt freq (some ps) s ≡ clock_intr freq (some ps) s2 =
      ap (λ n. interrupts n freq (some ps) s) split
      ∙ interrupts-add (a + b) 1 freq (some ps) s
      ∙ ap (interrupts 1 freq (some ps)) (interrupts-add a b freq (some ps) s) in
    let same : s2.ts ≡ s.ts = u.ts ∙ t.ts in
    let v =
      last_Elapsed freq ps s2 (omega (arith, u.cnt, t.cnt, h)) (omega (arith, same, m))
        (get_elem?-behind ps s2.pids (omega (arith, u.pids))) in
    subst (Elapsed freq ps s) (sym run) (record {
      cnt = v.cnt;
      ts = omega (arith, v.ts, same);
      ns = v.ns;
      pids = v.pids;
      sent = v.sent ∙ u.sent ∙ t.sent;
    })
