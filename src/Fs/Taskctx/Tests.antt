-- ===== src/Fs/Taskctx/Tests.antt =====
-- Files opened and closed by a task, and the theorems on it at concrete tables.
use mathlib.Core.Option.{some-injective}
use bztsrc_osz.Prelude.{
  ℕ, ◌+◌, ◌-◌, ◌^◌, ◌≡◌, refl, ap, inl, Bool, true, false, Option, none, some, List, [], ◌∷◌,
  length, get_elem?, arith,
}
use bztsrc_osz.Fs.Pipe.{Pipe, minus_one}
use bztsrc_osz.Fs.Fcb.{Fcb}
use bztsrc_osz.Fs.Taskctx.{
  OpenFile, Taskctx, Service, ebadf, taskctx_get, taskctx_seek, taskctx_validfid, is_valid,
  find_task, place_of,
}
use bztsrc_osz.Fs.Taskctx.Open.{full_mode, taskctx_open}
use bztsrc_osz.Fs.Taskctx.Open.Slots.{IsCounted}
use bztsrc_osz.Fs.Taskctx.Open.Users.{Opens, Opened, taskctx_open-Opened}
use bztsrc_osz.Fs.Taskctx.Close.{taskctx_close}
use bztsrc_osz.Fs.Taskctx.Close.Users.{Closes, Closed, taskctx_close-Closed}

-- The block of a file that two users have open for reading and writing.
abbrev file : Fcb
file = record {
  abspath = some (47 ∷ 97 ∷ []);
  nopen = 2;
  ftype = 0;
  excl = false;
  fs = 0;
  mode = 3;
  storage = 0;
  filesize = 100;
  unionlist = none;
}

abbrev pipe : Pipe
pipe = record {
  reader = 5;
  fid = 0xFFFFFFFFFFFFFFFF;
  nopen = 1;
  rd = 0;
  size = 0;
  buffer = none;
  owner = 5;
  rdtime = 0;
  wrtime = 0;
}

abbrev service : Service
service = record {
  fcbs = record { nfcb = 2; fcb = file ∷ file ∷ [] };
  pipes = record {
    npipe = 1;
    pipe = pipe ∷ [];
    taskctx = λ i. [];
    errno = 0;
    now = 0;
    ackdelayed = false;
    effects = [];
  };
  chain = λ i. [];
  ntaskctx = 0;
  flushed = [];
}

abbrev open_of : ℕ → ℕ → OpenFile
open_of fid mode = record { fid = fid; mode = mode; offs = 10; unionidx = 0; trid = 0 }

-- The task has file 1 open for writing at descriptor 2; descriptor 1 is free.
abbrev context : Taskctx
context = record {
  pid = 5;
  rootdir = 0;
  workdir = 0;
  workoffs = 0;
  workleft = 0;
  nopenfiles = 2;
  nfiles = 1;
  openfiles = some (open_of minus_one 0 ∷ open_of 1 2 ∷ []);
}

abbrev offset_of : Option (Service × Taskctx × Bool) → Option ℕ
offset_of none = none
offset_of (some (s, tc, r)) = elim tc.openfiles [
  | none ↦ none
  | some ofs ↦ elim (get_elem? ofs 1) [ none ↦ none | some of ↦ some of.offs ]
]

abbrev errno_of : Option (Service × Taskctx × Bool) → ℕ
errno_of none = 0
errno_of (some (s, tc, r)) = s.pipes.errno

-- A seek from the current place, from the end of the file, and in front of its start.
seek_runs :
    (offset_of (taskctx_seek service context 2 5 1) ≡ some 15)
    × (offset_of (taskctx_seek service context 2 5 2) ≡ some 105)
    × (errno_of (taskctx_seek service context 2 (2 ^ 64 - 11) 1) ≡ 5)
    × (errno_of (taskctx_seek service context 1 0 0) ≡ ebadf)
unfolding taskctx_seek taskctx_validfid is_valid
seek_runs = (refl, refl, refl, refl)

abbrev chain_of : Option (Service × Option Taskctx) → List Taskctx
chain_of none = []
chain_of (some (s, t)) = s.chain 5

-- The context of task 261 takes the place of that of task 5, which has the same last byte.
get_runs :
    chain_of (taskctx_get (record service { chain = λ i. context ∷ [] }) 261 (some (context, [])))
    ≡ record context { pid = 261 } ∷ []
unfolding taskctx_get find_task
get_runs = refl

-- taskctx_del of a task without a context comes upon the last one of the chain.
del_runs : place_of (context ∷ context ∷ []) 261 ≡ 1
unfolding place_of
del_runs = refl

may_open : Opens service 1 (full_mode 1) file
may_open = record {
  table = refl;
  block = refl;
  used = refl;
  free = refl;
  allowed = refl;
  no_pipe = refl;
  no_tty = refl;
  no_fifo = refl;
  number = omega arith;
}

context-IsCounted : IsCounted context
context-IsCounted = λ ofs e. ap length (some-injective _ _ e)

taskctx_open-Opened_example :
    (s' : Service) × (tc' : Taskctx) × (i : ℕ) × (taskctx_open service context 1 1 0 0
        (some (open_of 0 0))
      ≡ some (s', tc', i + 1))
    × Opened service s' context tc' i 1 (full_mode 1) 0 file
taskctx_open-Opened_example =
    taskctx_open-Opened service context 1 1 0 0 file (open_of 0 0) may_open context-IsCounted
      (λ e. inl refl)

-- A context with one file, and no memory for another.
abbrev full_list : List OpenFile
full_list = open_of 1 2 ∷ []

abbrev full_context : Taskctx
full_context = record context { nopenfiles = 1; openfiles = some full_list }

may_close : Closes service context 2 (open_of 1 2) file
may_close = record {
  counted = context-IsCounted;
  number = (omega arith, omega arith);
  file = refl;
  open_fid = omega arith;
  table = refl;
  block = refl;
  used = refl;
  others = omega arith;
  no_tty = refl;
  no_fifo = refl;
}

taskctx_close-Closed_example :
    (s' : Service) × (tc' : Taskctx) × (taskctx_close 1 service context 2 false true true
      ≡ some (s', tc', true))
    × Closed service s' context tc' 2 1 2 file
taskctx_close-Closed_example =
    taskctx_close-Closed 0 service context 2 (open_of 1 2) file false true may_close
