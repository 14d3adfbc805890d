-- ===== src/Security/Access.antt =====
-- The access control list: which entry decides about a group.
use mathlib.Core.Option.{some-injective}
use bztsrc_osz.Prelude.{
  ℕ_discrete, ℕ, zero, suc, ◌/◌, ◌<◌, ◌≡◌, ◌≢◌, ◌↔◌, refl, sym, ◌∙◌, ◌==◌, ◌||◌, true, false, some,
  List, [], ◌∷◌, ltb, if◌then◌else◌, length, get_or, get_elem?, take, arith, Bool-cases, inl, inr,
}
use bztsrc_osz.Security.{Sender, tcb_maxace, land, same_bytes, acl_allows, task_allowed}

-- An entry of the list begins with the first `n` bytes of the group and has the access asked for; no entry
-- before it does so, or ends the list.
pub record Grants (acl : List (List ℕ)) (grp : List ℕ) (n access : ℕ) : Type 0 where
  pub index : ℕ
  pub entry : List ℕ
  pub at : get_elem? acl index ≡ some entry
  pub not_end : get_or entry 0 0 ≢ 0
  pub same : same_bytes n entry grp ≡ true
  pub bits : land 8 (get_or entry 15 0) access ≡ access
  pub before :
      (k : ℕ) (e : List ℕ)
      → k < index
      → get_elem? acl k ≡ some e
      → (get_or e 0 0 ≢ 0) × (same_bytes n e grp ≡ false)

land_zero : (w a : ℕ) → land w a 0 ≡ 0
unfolding land
land_zero zero a = refl
land_zero (suc w) a = omega (arith, land_zero w (a / 2))

land_ok :
    (a access : ℕ)
    → ((access == 0) || (land 8 a access == access)) ≡ true
    → land 8 a access ≡ access
land_ok a access h = ground (arith, land_zero 8 a)

-- An entry in front that neither matches nor ends the list.
Grants-skip :
    (x : List ℕ) (acl : List (List ℕ)) (grp : List ℕ) (n access : ℕ)
    → get_or x 0 0 ≢ 0
    → same_bytes n x grp ≡ false
    → Grants acl grp n access
    → Grants (x ∷ acl) grp n access
Grants-skip x acl grp n access nz other g = record {
  index = suc g.index;
  entry = g.entry;
  at = g.at;
  not_end = g.not_end;
  same = g.same;
  bits = g.bits;
  before = passed;
}
  where
    passed :
        (k : ℕ) (e : List ℕ)
        → k < suc g.index
        → get_elem? (x ∷ acl) k ≡ some e
        → (get_or e 0 0 ≢ 0) × (same_bytes n e grp ≡ false)
    passed zero e h at = rw (← some-injective _ _ at) (nz, other)
    passed (suc k) e h at = g.before k e (omega arith) at

acl_allows-Grants :
    (acl : List (List ℕ)) (grp : List ℕ) (n access : ℕ)
    → acl_allows acl grp n access ≡ true
    → Grants acl grp n access
unfolding acl_allows
acl_allows-Grants [] grp n access h = cc
acl_allows-Grants (x ∷ acl) grp n access h = elim (ℕ_discrete (get_or x 0 0) 0) [
  | yes ends ↦ absurd (ground arith)
  | no nz ↦ elim (Bool-cases (same_bytes n x grp)) [
    | inl same ↦ record {
      index = 0;
      entry = x;
      at = refl;
      not_end = nz;
      same = same;
      bits = land_ok (get_or x 15 0) access (ground arith);
      before = λ k e lo at. absurd (omega arith);
    }
    | inr other ↦
        Grants-skip x acl grp n access nz other (acl_allows-Grants acl grp n access (ground arith))
  ]
]

grant_at :
    (acl : List (List ℕ)) (grp : List ℕ) (n access i : ℕ) (entry : List ℕ)
    → get_elem? acl i ≡ some entry
    → get_or entry 0 0 ≢ 0
    → same_bytes n entry grp ≡ true
    → land 8 (get_or entry 15 0) access ≡ access
    → ((k : ℕ) (e : List ℕ)
        → k < i
        → get_elem? acl k ≡ some e
        → (get_or e 0 0 ≢ 0) × (same_bytes n e grp ≡ false))
    → acl_allows acl grp n access ≡ true
unfolding acl_allows
grant_at [] grp n access i entry at nz same bits before = cc
grant_at (x ∷ acl) grp n access zero entry at nz same bits before =
    let here : x ≡ entry = some-injective _ _ at in ground (arith, here)
grant_at (x ∷ acl) grp n access (suc i) entry at nz same bits before =
    let passed : (get_or x 0 0 ≢ 0) × (same_bytes n x grp ≡ false) =
      before 0 x (omega arith) refl in
    let rest : acl_allows acl grp n access ≡ true =
      grant_at acl grp n access i entry at nz same bits
        (λ k e lo. before (suc k) e (omega arith)) in
    ground (arith, passed, rest)

-- The length of a group's name that is compared.
abbrev pub compared : List ℕ → ℕ
compared grp = if ltb 15 (length grp) then 15 else length grp

-- A task is allowed to access a group that has a name exactly when one of its entries, of which there are
-- at most 128, begins with the first 15 bytes of the name, grants all of the access asked for, and comes
-- before any other entry for the name and before the end of the list.
pub task_allowed-Grants :
    (t : Sender) (grp : List ℕ) (access : ℕ)
    → get_or grp 0 0 ≢ 0
    → (task_allowed t (some grp) access ≡ true)
      ↔ Grants (take tcb_maxace t.acl) grp (compared grp) access
unfolding task_allowed
task_allowed-Grants t grp access named =
    let run : task_allowed t (some grp) access
        ≡ acl_allows (take tcb_maxace t.acl) grp (compared grp) access =
      ground arith in
    (
      λ h. acl_allows-Grants (take tcb_maxace t.acl) grp (compared grp) access (sym run ∙ h),
      λ g.
          run
          ∙ grant_at (take tcb_maxace t.acl) grp (compared grp) access g.index g.entry g.at
              g.not_end g.same g.bits g.before,
    )
