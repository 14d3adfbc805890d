-- ===== src/Security.antt =====
-- The policy on messages, src/core/security.c: which task may send which message to which service. The
-- pids of the services are the argument `services`, which task.c and syslog.c fill in.
pub mod Policy
pub mod Verdict
pub mod Access
pub mod Tests
use bztsrc_osz.Prelude.{
  ℕ, zero, suc, ◌+◌, ◌-◌, ◌*◌, ◌/◌, ◌%◌, ◌^◌, ◌==◌, ◌||◌, ◌&&◌, not, Bool, true, false, Option,
  none, some, List, [], ◌∷◌, ltb, if◌then◌else◌, length, get_or, take, drop, u64_mod,
}

-- The fields of tcb_t that the policy reads: an owner and access control entries of 16 bytes each.
pub record Sender : Type 0 where
  pub pid : ℕ
  pub priority : ℕ
  pub owner : List ℕ
  pub acl : List (List ℕ)

abbrev pub eperm : ℕ
eperm = 1

abbrev pub tcb_maxace : ℕ
tcb_maxace = 128

-- PRI_DRV and PRI_SRV
abbrev pub drv : ℕ
drv = 2

abbrev pub srv : ℕ
srv = 3

abbrev pub a_write : ℕ
a_write = 2

-- A service as a destination: SRV_FS is -1, and so on.
abbrev pub service : ℕ → ℕ
service n = (u64_mod - n) % u64_mod

abbrev pub root_uid : List ℕ
root_uid = 114 ∷ 111 ∷ 111 ∷ 116 ∷ 0 ∷ 0 ∷ 0 ∷ 0 ∷ 0 ∷ 0 ∷ 0 ∷ 0 ∷ 0 ∷ 0 ∷ 0 ∷ []

-- The bits that two numbers below 2 ^ w share: `a & b`.
pub land : ℕ → ℕ → ℕ → ℕ
land zero a b = 0
land (suc w) a b = 2 * land w (a / 2) (b / 2) + (a % 2) * (b % 2)

-- memcmp says that the first `n` bytes are the same.
pub same_bytes : ℕ → List ℕ → List ℕ → Bool
same_bytes zero a b = true
same_bytes (suc n) a b = (get_or a 0 0 == get_or b 0 0) && same_bytes n (drop 1 a) (drop 1 b)

-- The loop of task_allowed.
pub acl_allows : List (List ℕ) → List ℕ → ℕ → ℕ → Bool
acl_allows [] grp j access = false
acl_allows (g ∷ gs) grp j access =
    let rest = acl_allows gs grp j access in
    if get_or g 0 0 == 0
    then false
    else if same_bytes j g grp
    then (access == 0) || (land 8 (get_or g 15 0) access == access)
    else rest

-- task_allowed for a group that is a string, or `none` for the null pointer.
pub task_allowed : Sender → Option (List ℕ) → ℕ → Bool
task_allowed t none access = false
task_allowed t (some grp) access =
    let j = if ltb 15 (length grp) then 15 else length grp in
    if get_or grp 0 0 == 0 then false else acl_allows (take tcb_maxace t.acl) grp j access

-- The names of the groups: "time", "chroot", "storage", "noui", "nosyslog", "noinet", "nosound" and
-- "noinit".
abbrev pub time_grp : List ℕ
time_grp = 116 ∷ 105 ∷ 109 ∷ 101 ∷ []

abbrev pub chroot_grp : List ℕ
chroot_grp = 99 ∷ 104 ∷ 114 ∷ 111 ∷ 111 ∷ 116 ∷ []

abbrev pub storage_grp : List ℕ
storage_grp = 115 ∷ 116 ∷ 111 ∷ 114 ∷ 97 ∷ 103 ∷ 101 ∷ []

abbrev pub noui_grp : List ℕ
noui_grp = 110 ∷ 111 ∷ 117 ∷ 105 ∷ []

abbrev pub nosyslog_grp : List ℕ
nosyslog_grp = 110 ∷ 111 ∷ 115 ∷ 121 ∷ 115 ∷ 108 ∷ 111 ∷ 103 ∷ []

abbrev pub noinet_grp : List ℕ
noinet_grp = 110 ∷ 111 ∷ 105 ∷ 110 ∷ 101 ∷ 116 ∷ []

abbrev pub nosound_grp : List ℕ
nosound_grp = 110 ∷ 111 ∷ 115 ∷ 111 ∷ 117 ∷ 110 ∷ 100 ∷ []

abbrev pub noinit_grp : List ℕ
noinit_grp = 110 ∷ 111 ∷ 105 ∷ 110 ∷ 105 ∷ 116 ∷ []

-- Events, by the service that they are for.
module _ where
  abbrev pub sys_regirq : ℕ
  sys_regirq = 6

  abbrev pub sys_regtmr : ℕ
  sys_regtmr = 7

  abbrev pub sys_drvfind : ℕ
  sys_drvfind = 8

  abbrev pub sys_drvadd : ℕ
  sys_drvadd = 9

  abbrev pub sys_stimezone : ℕ
  sys_stimezone = 10

  abbrev pub sys_stimebcd : ℕ
  sys_stimebcd = 11

  abbrev pub sys_stime : ℕ
  sys_stime = 12

  abbrev pub sys_tskcpy : ℕ
  sys_tskcpy = 25

  abbrev pub evt_ack : ℕ
  evt_ack = 0x3FFA

  abbrev pub sys_setblock : ℕ
  sys_setblock = 2

  abbrev pub sys_mountfs : ℕ
  sys_mountfs = 6

  abbrev pub sys_mount : ℕ
  sys_mount = 7

  abbrev pub sys_umount : ℕ
  sys_umount = 8

  abbrev pub sys_mknod : ℕ
  sys_mknod = 10

  abbrev pub sys_chroot : ℕ
  sys_chroot = 37

  abbrev pub sys_getty : ℕ
  sys_getty = 50

  abbrev pub sys_devprogress : ℕ
  sys_devprogress = 15

abbrev pub is_root : Sender → Bool
is_root t = same_bytes 15 t.owner root_uid

abbrev pub is_drv : Sender → Bool
is_drv t = t.priority == drv

abbrev pub is_drv_or_srv : Sender → Bool
is_drv_or_srv t = (t.priority == drv) || (t.priority == srv)

-- msg_allowed for the core.
pub core_allowed : Sender → ℕ → Bool
core_allowed t e =
    if ((e == sys_regirq) || (e == sys_regtmr) || (e == sys_drvfind) || (e == sys_drvadd))
      && not (is_drv t)
    then false
    else if ((e == sys_tskcpy) || (e == evt_ack)) && not (is_drv_or_srv t)
    then false
    else if is_root t
    then true
    else if ((e == sys_stimezone) || (e == sys_stime) || (e == sys_stimebcd))
        && not (task_allowed t (some time_grp) a_write)
    then false
    else true

-- msg_allowed for the file system service.
pub fs_allowed : (ℕ → ℕ) → Sender → ℕ → Bool
fs_allowed services t e =
    if (e == sys_mountfs) && not (t.pid == services 1)
    then false
    else if (e == sys_getty) && not (t.pid == services 2)
    then false
    else if ((e == sys_mknod) || (e == sys_setblock)) && not (is_drv_or_srv t)
    then false
    else if is_root t
    then true
    else if (e == sys_chroot) && not (task_allowed t (some chroot_grp) a_write)
    then false
    else if ((e == sys_mount) || (e == sys_umount))
        && not (task_allowed t (some storage_grp) a_write)
    then false
    else true

-- msg_allowed for the user interface.
pub ui_allowed : (ℕ → ℕ) → Sender → ℕ → Bool
ui_allowed services t e =
    if task_allowed t (some noui_grp) 0
    then false
    else if (e == sys_devprogress) && not (t.pid == services 1)
    then false
    else true

abbrev pub is_service : (ℕ → ℕ) → ℕ → ℕ → Bool
is_service services n dest = (dest == service n) || (dest == services n)

-- msg_allowed up to the label `noaccess`. EVT_FUNC is the low 14 bits of the event.
pub msg_passes : (ℕ → ℕ) → Sender → ℕ → ℕ → Bool
msg_passes services t dest event =
    let e = event % 0x4000 in
    if dest == service 0
    then core_allowed t e
    else if is_service services 1 dest
    then fs_allowed services t e
    else if is_service services 2 dest
    then ui_allowed services t e
    else if is_service services 3 dest
    then not (task_allowed t (some nosyslog_grp) 0)
    else if is_service services 4 dest
    then not (task_allowed t (some noinet_grp) 0)
    else if is_service services 5 dest
    then not (task_allowed t (some nosound_grp) 0)
    else if is_service services 7 dest
    then not (task_allowed t (some noinit_grp) 0)
    else true

-- msg_allowed, with the error number of the caller.
pub msg_allowed : (ℕ → ℕ) → Sender → ℕ → ℕ → ℕ → Bool × ℕ
msg_allowed services t dest event errno =
    if msg_passes services t dest event then (true, errno) else (false, eperm)
