-- ===== src/Sched/Pick/Level.antt =====
-- Which priority sched_pick chooses, against a reference definition.
use bztsrc_osz.Prelude.{
  ℕ, zero, suc, ◌+◌, ◌≤◌, ◌<◌, ◌≡◌, refl, sym, ap, ◌∙◌, ◌==◌, ◌||◌, ◌&&◌, not, Bool, true, false,
  Option, none, some, if◌then◌else◌, arith, Bool-cases, inl, inr,
}
use bztsrc_osz.Sched.State.{Sched, update, pri_idle}
use bztsrc_osz.Sched.Pick.{
  Round, found, ended, here, write_here, is_due, scan, search_loop, sched_pick, choose, switch_to,
}

-- The first of `left` priorities from `i` on that passes a test.
unfoldable pub first_level : (ℕ → Bool) → ℕ → ℕ → Option ℕ
first_level f zero i = none
first_level f (suc left) i = let rest = first_level f left (i + 1) in if f i then some i else rest

-- The queue of the priority is not empty.
abbrev pub busy : Sched → ℕ → Bool
busy s i = not ((here s).hd_active i == 0)

-- The round of the queue is not over: it has a current task.
abbrev pub ready : Sched → ℕ → Bool
ready s i = busy s i && not ((here s).cr_active i == 0)

-- The task at the head of the timer queue is due at this priority, or a queue is ready.
abbrev pub hits : Sched → ℕ → Bool
hits s i = is_due s i || ready s i

abbrev pub level : Round → Option ℕ
level (found i s) = some i
level (ended b s) = none

abbrev pub is_some : Option ℕ → Bool
is_some none = false
is_some (some i) = true

abbrev pub or_else : Option ℕ → Option ℕ → Option ℕ
or_else (some i) o = some i
or_else none o = o

first_level-congr :
    (f g : ℕ → Bool) (left i : ℕ)
    → ((j : ℕ) → i ≤ j → j < i + left → f j ≡ g j)
    → first_level f left i ≡ first_level g left i
unfolding first_level
first_level-congr f g zero i same = refl
first_level-congr f g (suc left) i same = ground (
  arith,
  same i,
  first_level-congr f g left (i + 1) (λ j lo hi. same j (omega arith) (omega arith)),
)

-- A round that begins at priority `i` over: the queue at `i` starts again.
abbrev restarted : Sched → ℕ → Sched
restarted s i =
    write_here s
      (record (here s) { cr_active = update (here s).cr_active i ((here s).hd_active i) })

restarted-hits : (s : Sched) (i j : ℕ) → i + 1 ≤ j → hits (restarted s i) j ≡ hits s j
restarted-hits s i j h = ground arith

restarted-busy : (s : Sched) (i j : ℕ) → busy (restarted s i) j ≡ busy s j
restarted-busy s i j = ground arith

scan-level :
    (left i : ℕ) (nonempty : Bool) (s : Sched)
    → level (scan left i nonempty s) ≡ first_level (hits s) left i
unfolding scan first_level
scan-level zero i nonempty s = refl
scan-level (suc left) i nonempty s = ground (
  arith,
  scan-level left (i + 1) nonempty s,
  scan-level left (i + 1) true (restarted s i),
  first_level-congr (hits (restarted s i)) (hits s) left (i + 1)
      (λ j lo hi. restarted-hits s i j lo),
)

-- What a round that found nothing leaves behind: every queue that is not empty is ready, and the flag
-- says whether there is one.
record Ended (left i : ℕ) (nonempty : Bool) (s : Sched) (b : Bool) (s' : Sched) : Type 0 where
  flag : b ≡ (nonempty || is_some (first_level (busy s) left i))
  same_busy : (j : ℕ) → busy s' j ≡ busy s j
  same_due : (j : ℕ) → is_due s' j ≡ is_due s j
  filled : (j : ℕ) → i ≤ j → j < i + left → ready s' j ≡ busy s j
  below : (j : ℕ) → j < i → ready s' j ≡ ready s j

-- The round goes on past an empty queue.
Ended-skip :
    (left i : ℕ) (nonempty : Bool) (s : Sched) (b : Bool) (s' : Sched)
    → busy s i ≡ false
    → Ended left (i + 1) nonempty s b s'
    → Ended (suc left) i nonempty s b s'
unfolding first_level
Ended-skip left i nonempty s b s' empty r = record {
  flag = ground (arith, r.flag);
  same_busy = r.same_busy;
  same_due = r.same_due;
  filled = λ j lo hi. ground (arith, r.filled j, r.below j);
  below = λ j h. r.below j (omega arith);
}

-- The round goes on past a queue that it starts again.
Ended-restart :
    (left i : ℕ) (nonempty : Bool) (s : Sched) (b : Bool) (s' : Sched)
    → busy s i ≡ true
    → Ended left (i + 1) true (restarted s i) b s'
    → Ended (suc left) i nonempty s b s'
unfolding first_level
Ended-restart left i nonempty s b s' full r = record {
  flag = ground (arith, r.flag);
  same_busy = λ j. r.same_busy j ∙ restarted-busy s i j;
  same_due = λ j. r.same_due j ∙ ground arith;
  filled = λ j lo hi. ground (arith, r.filled j, r.below j);
  below = λ j h. r.below j (omega arith) ∙ ground arith;
}

scan-Ended :
    (left i : ℕ) (nonempty : Bool) (s : Sched) (b : Bool) (s' : Sched)
    → scan left i nonempty s ≡ ended b s'
    → Ended left i nonempty s b s'
unfolding scan first_level
scan-Ended zero i nonempty s b s' e = record {
  flag = ground arith;
  same_busy = λ j. ground arith;
  same_due = λ j. ground arith;
  filled = λ j lo hi. absurd (omega arith);
  below = λ j h. ground arith;
}
scan-Ended (suc left) i nonempty s b s' e = elim (Bool-cases (busy s i)) [
  | inl full ↦
      Ended-restart left i nonempty s b s' full
        (scan-Ended left (i + 1) true (restarted s i) b s' (ground arith))
  | inr empty ↦
      Ended-skip left i nonempty s b s' empty
        (scan-Ended left (i + 1) nonempty s b s' (ground arith))
]

-- No test passes at a priority that is looked at.
first_level-miss :
    (f : ℕ → Bool) (left i j : ℕ) → first_level f left i ≡ none → i ≤ j → j < i + left → f j ≡ false
unfolding first_level
first_level-miss f zero i j e lo hi = absurd (omega arith)
first_level-miss f (suc left) i j e lo hi = ground (arith, first_level-miss f left (i + 1) j)

abbrev chosen : Sched → Option ℕ
chosen s = or_else (first_level (hits s) pri_idle 0) (first_level (busy s) pri_idle 0)

-- What a first round that found nothing means for the second.
record Again (s : Sched) (b : Bool) (s' : Sched) : Type 0 where
  missed : first_level (hits s) pri_idle 0 ≡ none
  flag : b ≡ is_some (first_level (busy s) pri_idle 0)
  next : level (scan pri_idle 0 false s') ≡ first_level (busy s) pri_idle 0

scan-Again :
    (s : Sched) (b : Bool) (s' : Sched) → scan pri_idle 0 false s ≡ ended b s' → Again s b s'
scan-Again s b s' e =
    let r : Ended pri_idle 0 false s b s' = scan-Ended pri_idle 0 false s b s' e in
    let missed : first_level (hits s) pri_idle 0 ≡ none =
      sym (scan-level pri_idle 0 false s) ∙ ap level e in
    record {
      missed = missed;
      flag = r.flag;
      next =
          scan-level pri_idle 0 false s'
          ∙ first_level-congr (hits s') (busy s) pri_idle 0 (λ j lo hi.
            ground (
              arith,
              r.filled j,
              r.same_due j,
              first_level-miss (hits s) pri_idle 0 j missed lo hi,
            ));
    }

second_round :
    (s s' : Sched) (r : Round)
    → Again s true s'
    → scan pri_idle 0 false s' ≡ r
    → (q : Round) × (search_loop 1 s' ≡ some q) × (level q ≡ chosen s)
unfolding search_loop
second_round s s' (found i s2) a e =
    (found i s2, ground (arith, e), ground (arith, a.next, a.missed, e))
second_round s s' (ended b s2) a e = absurd (ground (arith, a.flag, a.next, e))

first_round :
    (s : Sched) (r : Round)
    → scan pri_idle 0 false s ≡ r
    → (q : Round) × (search_loop 2 s ≡ some q) × (level q ≡ chosen s)
unfolding search_loop
first_round s (found i s') e =
    (found i s', ground (arith, e), ground (arith, e, scan-level pri_idle 0 false s))
first_round s (ended true s') e =
    let (q, run, l) = second_round s s' (scan pri_idle 0 false s') (scan-Again s true s' e) refl in
    (q, rw (e, search_loop) run, l)
first_round s (ended false s') e =
    let a : Again s false s' = scan-Again s false s' e in
    (ended false s', ground (arith, e), ground (arith, a.missed, a.flag))

-- The `do` loop of sched_pick ends after at most two rounds. It stops at the first priority, of those
-- above the idle one, at which the waiting task is due or a queue has a current task; without one, at the
-- first whose queue is not empty, the rounds of all of them being over; and if all queues are empty it
-- stops at none.
pub search_loop-level :
    (s : Sched)
    → (r : Round) × (search_loop 2 s ≡ some r)
      × (level r ≡ or_else (first_level (hits s) pri_idle 0) (first_level (busy s) pri_idle 0))
search_loop-level s = first_round s (scan pri_idle 0 false s) refl

-- sched_pick ends, for every state of the queues: two rounds of its loop are enough.
pub sched_pick_ends :
    (drivers_ready : Sched → Sched) (s : Sched)
    → (s' : Sched) × (sched_pick drivers_ready 2 s ≡ some s')
unfolding sched_pick
sched_pick_ends drivers_ready s =
    let (r, run, l) = search_loop-level s in
    let (s', t) = choose drivers_ready r in
    (switch_to drivers_ready s' t, rw (run, sched_pick) refl)
