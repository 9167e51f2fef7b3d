-- ===== src/Worker/Spawning.antt =====
-- SoapySDRPlayWorker.cpp: the arguments of the worker process, `isWorkerMode` and `runAsWorker`, and
-- `WorkerSpawner`, but for `waitForReady`.
use soapy_sdrplay.Prelude.{
  ℕ, zero, suc, ◌+◌, ◌≡◌, refl, ◌≢◌, Bool, true, false, ◌||◌, Option, none, some, List, [], ◌∷◌,
  ◌++◌, arith, ◌==◌, if◌then◌else◌, length,
}
use soapy_sdrplay.Ipc.Bytes.{Bytes}
use soapy_sdrplay.Ipc.Numeric.{ascii, same}

abbrev pub worker_mode_arg : Bytes
worker_mode_arg = ascii "--sdrplay-worker"

abbrev pub worker_cmd_fd_arg : Bytes
worker_cmd_fd_arg = ascii "--cmd-fd"

abbrev pub worker_status_fd_arg : Bytes
worker_status_fd_arg = ascii "--status-fd"

abbrev pub worker_shm_arg : Bytes
worker_shm_arg = ascii "--shm-name"

abbrev pub worker_serial_arg : Bytes
worker_serial_arg = ascii "--serial"

-- The loop of `isWorkerMode`, on the arguments from the second on.
unfoldable pub has_mode_arg : List Bytes → Bool
unfolding same
has_mode_arg [] = false
has_mode_arg (x ∷ xs) = same x worker_mode_arg || has_mode_arg xs

unfoldable pub is_worker_mode : List Bytes → Bool
unfolding has_mode_arg
is_worker_mode [] = false
is_worker_mode (program ∷ args) = has_mode_arg args

-- What `runAsWorker` collects; a descriptor that is negative is none.
pub record WorkerArgs : Type 0 where
  pub cmd_fd : Option ℕ
  pub status_fd : Option ℕ
  pub shm_name : Bytes
  pub serial : Bytes

module _ (atoi : Bytes → Option ℕ) where
  -- What an argument makes of the next one, if it is one of the names.
  unfoldable pub take_option : (name value : Bytes) → WorkerArgs → Option WorkerArgs
  unfolding same
  take_option name value w =
      if same name worker_cmd_fd_arg
      then some (record w { cmd_fd = atoi value })
      else if same name worker_status_fd_arg
      then some (record w { status_fd = atoi value })
      else if same name worker_shm_arg
      then some (record w { shm_name = value })
      else if same name worker_serial_arg
      then some (record w { serial = value })
      else none

  -- The loop of `runAsWorker`, on the arguments from the second on.
  unfoldable pub scan_args : List Bytes → WorkerArgs → WorkerArgs
  unfolding take_option
  scan_args [] w = w
  scan_args (x ∷ []) w = w
  scan_args (x ∷ y ∷ rest) w = elim (take_option x y w) [
    | some w' ↦ scan_args rest w'
    | none ↦ scan_args (y ∷ rest) w
  ]

  -- `runAsWorker`: what it hands to `workerMain`, or none where it returns 1.
  unfoldable pub run_as_worker : List Bytes → Option (ℕ × ℕ × Bytes × Bytes)
  unfolding scan_args
  run_as_worker [] = none
  run_as_worker (program ∷ args) =
      let w =
        scan_args args (record { cmd_fd = none; status_fd = none; shm_name = []; serial = [] }) in
      elim w.cmd_fd [
        | none ↦ none
        | some cmd ↦ elim w.status_fd [
          | none ↦ none
          | some status ↦
              if (length w.shm_name == 0) || (length w.serial == 0)
              then none
              else some (cmd, status, w.shm_name, w.serial)
        ]
      ]

-- The argument list of `execl` in `spawn`.
unfoldable pub spawn_args :
    (to_string : ℕ → Bytes)
    → (path : Bytes) → (read_fd write_fd : ℕ) → (shm_name serial : Bytes) → List Bytes
spawn_args to_string path read_fd write_fd shm_name serial =
    path
    ∷ worker_mode_arg
    ∷ worker_cmd_fd_arg
    ∷ to_string read_fd
    ∷ worker_status_fd_arg
    ∷ to_string write_fd
    ∷ worker_shm_arg
    ∷ shm_name
    ∷ worker_serial_arg
    ∷ serial
    ∷ []

-- A worker that is spawned is in its mode and finds the descriptors, the name of the shared memory and the serial number that
-- it was given, where `atoi` reads what `std::to_string` prints and neither name is empty.
pub run_as_worker-spawn_args :
    (atoi : Bytes → Option ℕ) (to_string : ℕ → Bytes) (path : Bytes) (read_fd write_fd : ℕ)
    (shm_name serial : Bytes)
    → ((x : ℕ) → atoi (to_string x) ≡ some x)
    → shm_name ≢ []
    → serial ≢ []
    → let args = spawn_args to_string path read_fd write_fd shm_name serial in
      (is_worker_mode args ≡ true)
      × (run_as_worker atoi args ≡ some (read_fd, write_fd, shm_name, serial))
unfolding spawn_args is_worker_mode has_mode_arg run_as_worker scan_args take_option same
run_as_worker-spawn_args atoi to_string path read_fd write_fd [] serial h a b = absurd (a refl)
run_as_worker-spawn_args atoi to_string path read_fd write_fd (x ∷ xs) [] h a b = absurd (b refl)
run_as_worker-spawn_args atoi to_string path read_fd write_fd (x ∷ xs) (y ∷ ys) h a b =
    (refl, ground (arith, h read_fd, h write_fd))

-- The first of the paths that can be executed; none of them is the empty text.
unfoldable pub first_executable : (access : Bytes → Bool) → List Bytes → Bytes
first_executable access [] = []
first_executable access (path ∷ paths) =
    let rest = first_executable access paths in if access path then path else rest

abbrev pub search_paths : List Bytes
search_paths =
    ascii "/usr/local/lib/SoapySDR/modules0.8-3/sdrplay_worker"
    ∷ ascii "/usr/lib/SoapySDR/modules0.8-3/sdrplay_worker"
    ∷ ascii "/opt/homebrew/lib/SoapySDR/modules0.8/sdrplay_worker"
    ∷ []

abbrev paths_from : Option Bytes → Bytes → List Bytes
paths_from none suffix = []
paths_from (some prefix) suffix = (prefix ++ suffix) ∷ []

-- `findWorkerExecutable`, on the two variables of the environment, `SOAPY_SDRPLAY_WORKER` and `HOME`.
unfoldable pub find_worker_executable :
    (access : Bytes → Bool) → (worker_path home : Option Bytes) → Bytes
unfolding first_executable
find_worker_executable access worker_path home = first_executable access (
    paths_from worker_path []
    ++ (paths_from home (ascii "/.local/lib/SoapySDR/modules0.8-3/sdrplay_worker") ++ search_paths))

pub data Signal : Type 0 where
  sigterm sigkill : Signal

-- The loop of `terminate`, with the polls that are left: whether the process is found to have ended, and
-- the milliseconds that it has slept.
unfoldable pub poll_exit : (left : ℕ) → (has_ended : ℕ → Bool) → (slept : ℕ) → Bool × ℕ
poll_exit zero has_ended slept = (false, slept)
poll_exit (suc left) has_ended slept =
    let rest = poll_exit left has_ended (slept + 100) in
    if has_ended slept then (true, slept) else rest

-- `terminate`: the signals that it sends, in their order, and the milliseconds that it sleeps. `has_ended` says
-- whether `waitpid` gives the process at a time.
unfoldable pub terminate : (pid : Option ℕ) → (has_ended : ℕ → Bool) → List Signal × ℕ
unfolding poll_exit
terminate none has_ended = ([], 0)
terminate (some pid) has_ended =
    let (ended, slept) = poll_exit 10 has_ended 0 in
    (if ended then sigterm ∷ [] else sigterm ∷ sigkill ∷ [], slept)

-- `spawn` in the parent: whether pipes are made, and the process id that `fork` gives, none where it fails.
unfoldable pub spawn :
    (makes_pipes : Bool)
    → (access : Bytes → Bool) → (worker_path home : Option Bytes) → (forked : Option ℕ) → Option ℕ
unfolding find_worker_executable
spawn makes_pipes access worker_path home forked =
    if makes_pipes
    then (if length (find_worker_executable access worker_path home) == 0 then none else forked)
    else none
