-- ===== src/Security/Tests.antt =====
-- Decisions of the message policy, and the theorems on them for concrete senders.
use bztsrc_osz.Prelude.{
  ℕ, ◌+◌, ◌≡◌, ◌↔◌, refl, true, false, some, [], ◌∷◌, if◌then◌else◌, take, arith,
}
use bztsrc_osz.Security.{
  Sender, tcb_maxace, eperm, service, time_grp, task_allowed, acl_allows, same_bytes, land,
  msg_passes, msg_allowed, core_allowed, fs_allowed,
}
use bztsrc_osz.Security.Policy.{permits}
use bztsrc_osz.Security.Verdict.{msg_allowed-permits}
use bztsrc_osz.Security.Access.{Grants, compared, task_allowed-Grants}

-- The file system service has the pid 30, and the user interface 31.
abbrev services : ℕ → ℕ
services n = n + 29

-- An application in the group "time", with write access.
abbrev clock_app : Sender
clock_app = record {
  pid = 40;
  priority = 5;
  owner = 98 ∷ 111 ∷ 98 ∷ [];
  acl = (116 ∷ 105 ∷ 109 ∷ 101 ∷ 0 ∷ 0 ∷ 0 ∷ 0 ∷ 0 ∷ 0 ∷ 0 ∷ 0 ∷ 0 ∷ 0 ∷ 0 ∷ 3 ∷ []) ∷ [];
}

-- It may set the time, but not register an interrupt.
clock_app_messages :
    (msg_allowed services clock_app 0 12 0 ≡ (true, 0))
    × (msg_allowed services clock_app 0 6 0 ≡ (false, eperm))
unfolding msg_allowed msg_passes core_allowed task_allowed acl_allows same_bytes land
clock_app_messages = (refl, refl)

-- It may not mount, under either name of the file system service.
clock_app_mount :
    (msg_allowed services clock_app (service 1) 7 0 ≡ (false, eperm))
    × (msg_allowed services clock_app 30 7 0 ≡ (false, eperm))
unfolding msg_allowed msg_passes fs_allowed task_allowed acl_allows same_bytes land
clock_app_mount = (refl, refl)

msg_allowed-permits_example :
    msg_allowed services clock_app 30 7 0
    ≡ (permits services clock_app 30 7, if permits services clock_app 30 7 then 0 else eperm)
msg_allowed-permits_example = msg_allowed-permits services clock_app 30 7 0

task_allowed-Grants_example :
    (task_allowed clock_app (some time_grp) 2 ≡ true)
    ↔ Grants (take tcb_maxace clock_app.acl) time_grp (compared time_grp) 2
task_allowed-Grants_example = task_allowed-Grants clock_app time_grp 2 (omega arith)
