-- ===== src/Security/Verdict.antt =====
-- The code of msg_allowed against the table of rules.
use bztsrc_osz.Prelude.{
  ℕ, ◌%◌, ◌≡◌, refl, ap, ◌∙◌, ◌==◌, ◌||◌, ◌&&◌, not, Bool, true, false, Option, none, some,
  if◌then◌else◌, arith,
}
use bztsrc_osz.Security.{
  Sender, a_write, service, task_allowed, time_grp, chroot_grp, storage_grp, noui_grp, nosyslog_grp,
  noinet_grp, nosound_grp, noinit_grp, sys_regirq, sys_regtmr, sys_drvfind, sys_drvadd,
  sys_stimezone, sys_stimebcd, sys_stime, sys_tskcpy, evt_ack, sys_setblock, sys_mountfs, sys_mount,
  sys_umount, sys_mknod, sys_chroot, sys_getty, sys_devprogress, is_root, is_drv, is_drv_or_srv,
  core_allowed, fs_allowed, ui_allowed, is_service, msg_passes, msg_allowed, eperm,
}
use bztsrc_osz.Security.Policy.{rules, obeys, judged, permits}

abbrev pair_if : Bool → ℕ → Bool × ℕ
pair_if b errno = if b then (true, errno) else (false, eperm)

answer : (b : Bool) (errno : ℕ) → pair_if b errno ≡ (b, if b then errno else eperm)
answer true errno = refl
answer false errno = refl

-- A disjunction as the code writes it, and as one_of does.
or_two : (a b : Bool) → a || b ≡ a || (b || false)
or_two true b = refl
or_two false true = refl
or_two false false = refl

or_three : (a b c : Bool) → a || b || c ≡ a || (b || (c || false))
or_three true b c = refl
or_three false b c = or_two b c

or_four : (a b c d : Bool) → a || b || c || d ≡ a || (b || (c || (d || false)))
or_four true b c d = refl
or_four false b c d = or_three b c d

or_one : (a : Bool) → a || false ≡ a
or_one true = refl
or_one false = refl

-- A guard of the code as a rule, where the exit for root is behind it and where it is not.
guard_rule : (a x r : Bool) → (if a && not x then false else r) ≡ ((not a || x) && r)
guard_rule true true r = refl
guard_rule true false r = refl
guard_rule false x r = refl

root_rule :
    (root a x r r' : Bool)
    → (if root then true else r) ≡ r'
    → (if root then true else if a && not x then false else r) ≡ ((not a || (root || x)) && r')
root_rule root a x r r' e = ground arith

root_exit : (root : Bool) → (if root then true else true) ≡ true
root_exit true = refl
root_exit false = refl

-- The guards of the core, and those of the file system service, as conjunctions.
core_guards :
    (a m x drv srv root grant : Bool)
    → (if a && not drv
        then false
        else if m && not srv
        then false
        else if root
        then true
        else if x && not grant
        then false
        else true)
      ≡ ((not a || drv) && ((not m || srv) && ((not x || (root || grant)) && true)))
core_guards a m x drv srv root grant =
    guard_rule a drv _
    ∙ ap (λ r. (not a || drv) && r)
        (guard_rule m srv _
          ∙ ap (λ r. (not m || srv) && r) (root_rule root x grant true true (root_exit root)))

fs_guards :
    (a b m x y mounts tty srv root chroot storage : Bool)
    → (if a && not mounts
        then false
        else if b && not tty
        then false
        else if m && not srv
        then false
        else if root
        then true
        else if x && not chroot
        then false
        else if y && not storage
        then false
        else true)
      ≡ ((not a || mounts)
          && ((not b || tty)
              && ((not m || srv)
                  && ((not x || (root || chroot)) && ((not y || (root || storage)) && true)))))
fs_guards a b m x y mounts tty srv root chroot storage =
    guard_rule a mounts _
    ∙ ap (λ r. (not a || mounts) && r)
        (guard_rule b tty _
          ∙ ap (λ r. (not b || tty) && r)
              (guard_rule m srv _
                ∙ ap (λ r. (not m || srv) && r)
                    (root_rule root x chroot _ _
                      (root_rule root y storage true true (root_exit root)))))

core-obeys :
    (services : ℕ → ℕ) (t : Sender) (e : ℕ) → core_allowed t e ≡ obeys services t e (rules 0)
unfolding core_allowed
core-obeys services t e =
    core_guards _ _ _ (is_drv t) (is_drv_or_srv t) (is_root t)
      (task_allowed t (some time_grp) a_write)
    ∙ rw
        (
          or_four (e == sys_regirq) (e == sys_regtmr) (e == sys_drvfind) (e == sys_drvadd),
          or_two (e == sys_tskcpy) (e == evt_ack),
          or_three (e == sys_stimezone) (e == sys_stime) (e == sys_stimebcd),
        )
        refl

fs-obeys :
    (services : ℕ → ℕ) (t : Sender) (e : ℕ) → fs_allowed services t e ≡ obeys services t e (rules 1)
unfolding fs_allowed
fs-obeys services t e =
    fs_guards _ _ _ _ _ (t.pid == services 1) (t.pid == services 2) (is_drv_or_srv t) (is_root t)
      (task_allowed t (some chroot_grp) a_write) (task_allowed t (some storage_grp) a_write)
    ∙ rw
        (
          or_two (e == sys_mknod) (e == sys_setblock),
          or_two (e == sys_mount) (e == sys_umount),
          or_one (e == sys_mountfs),
          or_one (e == sys_getty),
          or_one (e == sys_chroot),
        )
        refl

barred_rule : (b : Bool) → not b ≡ (not b && true)
barred_rule true = refl
barred_rule false = refl

ui_guards :
    (b d fs : Bool)
    → (if b then false else if d && not fs then false else true)
      ≡ (not b && ((not (d || false) || fs) && true))
ui_guards true d fs = refl
ui_guards false true true = refl
ui_guards false true false = refl
ui_guards false false fs = refl

ui-obeys :
    (services : ℕ → ℕ) (t : Sender) (e : ℕ) → ui_allowed services t e ≡ obeys services t e (rules 2)
unfolding ui_allowed
ui-obeys services t e =
    ui_guards (task_allowed t (some noui_grp) 0) (e == sys_devprogress) (t.pid == services 1)

-- One more destination on both sides.
by_destination :
    (services : ℕ → ℕ) (t : Sender) (e n : ℕ) (b x y : Bool) (o : Option ℕ)
    → x ≡ judged services t e (some n)
    → y ≡ judged services t e o
    → (if b then x else y) ≡ judged services t e (if b then some n else o)
by_destination services t e n true x y o here there = here
by_destination services t e n false x y o here there = there

msg_passes-permits :
    (services : ℕ → ℕ) (t : Sender) (dest event : ℕ)
    → msg_passes services t dest event ≡ permits services t dest event
unfolding msg_passes
msg_passes-permits services t dest event =
    let e : ℕ = event % 0x4000 in
    let to : ℕ → Bool = λ n. is_service services n dest in
    let o7 : Option ℕ = if to 7 then some 7 else none in
    let o5 : Option ℕ = if to 5 then some 5 else o7 in
    let o4 : Option ℕ = if to 4 then some 4 else o5 in
    let o3 : Option ℕ = if to 3 then some 3 else o4 in
    let o2 : Option ℕ = if to 2 then some 2 else o3 in
    let o1 : Option ℕ = if to 1 then some 1 else o2 in
    let next : (n : ℕ) (b : Bool) (o : Option ℕ) (x y : Bool)
        → x ≡ judged services t e (some n)
        → y ≡ judged services t e o
        → (if b then x else y) ≡ judged services t e (if b then some n else o) =
      λ n b o x y. by_destination services t e n b x y o in
    next 0 (dest == service 0) o1 _ _ (core-obeys services t e) (
      next 1 (to 1) o2 _ _ (fs-obeys services t e) (
        next 2 (to 2) o3 _ _ (ui-obeys services t e) (
          next 3 (to 3) o4 _ _ (barred_rule (task_allowed t (some nosyslog_grp) 0)) (
            next 4 (to 4) o5 _ _ (barred_rule (task_allowed t (some noinet_grp) 0)) (
              next 5 (to 5) o7 _ _ (barred_rule (task_allowed t (some nosound_grp) 0)) (
                next 7 (to 7) none _ _ (barred_rule (task_allowed t (some noinit_grp) 0)) refl))))))

-- msg_allowed lets a message pass exactly when every rule of the table that its destination has for its
-- event holds for the sender, and sets the error number to EPERM exactly when it does not.
pub msg_allowed-permits :
    (services : ℕ → ℕ) (t : Sender) (dest event errno : ℕ)
    → msg_allowed services t dest event errno
      ≡ (permits services t dest event, if permits services t dest event then errno else eperm)
unfolding msg_allowed
msg_allowed-permits services t dest event errno =
    rw (msg_passes-permits services t dest event) (answer (permits services t dest event) errno)
