-- ===== src/Security/Policy.antt =====
-- The policy on messages as a table of rules, by the service that a message goes to.
use bztsrc_osz.Prelude.{
  ℕ, ◌%◌, ◌==◌, ◌||◌, ◌&&◌, not, Bool, true, false, Option, none, some, List, [], ◌∷◌,
  if◌then◌else◌,
}
use bztsrc_osz.Security.{
  Sender, a_write, service, task_allowed, time_grp, chroot_grp, storage_grp, noui_grp, nosyslog_grp,
  noinet_grp, nosound_grp, noinit_grp, sys_regirq, sys_regtmr, sys_drvfind, sys_drvadd,
  sys_stimezone, sys_stimebcd, sys_stime, sys_tskcpy, evt_ack, sys_setblock, sys_mountfs, sys_mount,
  sys_umount, sys_mknod, sys_chroot, sys_getty, sys_devprogress, is_root, is_drv, is_drv_or_srv,
  is_service,
}

-- What a rule asks of the sender: to be a driver, to be a driver or a service, to be a given service, to
-- be root or in a group with write access, or not to be in a group.
pub data Check : Type 0 where
  driver driver_or_service : Check
  only : ℕ → Check
  granted barred : List ℕ → Check

pub data Events : Type 0 where
  any : Events
  among : List ℕ → Events

pub record Rule : Type 0 where
  pub events : Events
  pub check : Check

-- The rules of a service.
abbrev pub rules : ℕ → List Rule
rules n =
    if n == 0
    then record {
      events = among (sys_regirq ∷ sys_regtmr ∷ sys_drvfind ∷ sys_drvadd ∷ []);
      check = driver;
    }
      ∷ record { events = among (sys_tskcpy ∷ evt_ack ∷ []); check = driver_or_service }
      ∷ record {
        events = among (sys_stimezone ∷ sys_stime ∷ sys_stimebcd ∷ []);
        check = granted time_grp;
      }
      ∷ []
    else if n == 1
    then record { events = among (sys_mountfs ∷ []); check = only 1 }
      ∷ record { events = among (sys_getty ∷ []); check = only 2 }
      ∷ record { events = among (sys_mknod ∷ sys_setblock ∷ []); check = driver_or_service }
      ∷ record { events = among (sys_chroot ∷ []); check = granted chroot_grp }
      ∷ record { events = among (sys_mount ∷ sys_umount ∷ []); check = granted storage_grp }
      ∷ []
    else if n == 2
    then record { events = any; check = barred noui_grp }
      ∷ record { events = among (sys_devprogress ∷ []); check = only 1 }
      ∷ []
    else if n == 3
    then record { events = any; check = barred nosyslog_grp } ∷ []
    else if n == 4
    then record { events = any; check = barred noinet_grp } ∷ []
    else if n == 5
    then record { events = any; check = barred nosound_grp } ∷ []
    else if n == 7
    then record { events = any; check = barred noinit_grp } ∷ []
    else []

abbrev pub holds : (ℕ → ℕ) → Sender → Check → Bool
holds services t driver = is_drv t
holds services t driver_or_service = is_drv_or_srv t
holds services t (only n) = t.pid == services n
holds services t (granted g) = is_root t || task_allowed t (some g) a_write
holds services t (barred g) = not (task_allowed t (some g) 0)

abbrev pub one_of : ℕ → List ℕ → Bool
one_of e [] = false
one_of e (x ∷ xs) = (e == x) || one_of e xs

abbrev pub applies : ℕ → Events → Bool
applies e any = true
applies e (among es) = one_of e es

-- Every rule that applies to the event holds.
abbrev pub obeys : (ℕ → ℕ) → Sender → ℕ → List Rule → Bool
obeys services t e [] = true
obeys services t e (r ∷ rs) =
    (not (applies e r.events) || holds services t r.check) && obeys services t e rs

-- The service that a destination means: the first of those with a policy that it names.
abbrev pub destination : (ℕ → ℕ) → ℕ → Option ℕ
destination services dest =
    if dest == service 0
    then some 0
    else if is_service services 1 dest
    then some 1
    else if is_service services 2 dest
    then some 2
    else if is_service services 3 dest
    then some 3
    else if is_service services 4 dest
    then some 4
    else if is_service services 5 dest
    then some 5
    else if is_service services 7 dest
    then some 7
    else none

-- A task may be sent anything.
abbrev pub judged : (ℕ → ℕ) → Sender → ℕ → Option ℕ → Bool
judged services t e none = true
judged services t e (some n) = obeys services t e (rules n)

-- The policy: the message may be sent when the rules of its destination allow it.
abbrev pub permits : (ℕ → ℕ) → Sender → ℕ → ℕ → Bool
permits services t dest event = judged services t (event % 0x4000) (destination services dest)
