-- ===== src/Cli/Pidfile.antt =====
-- cli/pidfile.go, cli/status.go, cli/stop.go, cli/reload.go: the subcommands that find the running
-- server by its pidfile. Each gives its exit code. Times are milliseconds.
pub mod Waits
pub mod Written
use blind_llm_eyes.Base.{
  ℕ, zero, suc, ◌+◌, ltb, ◌==◌, String, Bool, true, false, if◌then◌else◌, Option, none, some, List,
  [], ◌∷◌,
}

pub record PidfileData : Type 0 where
  pub pid : ℕ
  pub addr : String
  pub token : String
  pub started_at : ℕ

-- os.ReadFile and json.Unmarshal of the pidfile
pub data PidfileRead : Type 0 where
  absent unreadable : PidfileRead
  pidfile : PidfileData → PidfileRead

-- The pidfile and the file path+".tmp", and which steps of WritePidfile fail.
pub record PidFiles : Type 0 where
  pub target : PidfileRead
  pub temp : PidfileRead

pub record PidFaults : Type 0 where
  pub create_dir_fails : Bool
  pub write_fails : Bool
  pub rename_fails : Bool

abbrev pub half_written : PidFiles → PidFiles
half_written f = record f { temp = unreadable }

abbrev pub renamed : PidfileData → PidFiles
renamed d = record { target = pidfile d; temp = absent }

-- WritePidfile: whether it succeeds, and the states of the disk that it goes through, the last one first.
unfoldable pub write_pidfile : PidFaults → PidfileData → PidFiles → Bool × List PidFiles
write_pidfile faults d f =
    let written = record f { temp = pidfile d } ∷ (half_written f ∷ (f ∷ [])) in
    if faults.create_dir_fails
    then (false, f ∷ [])
    else if faults.write_fails
    then (false, half_written f ∷ (f ∷ []))
    else if faults.rename_fails
    then (false, written)
    else (true, renamed d ∷ written)

-- What the server at an address answers: the status of GET /healthz and of the two requests with the
-- token, or nothing.
pub record Remote : Type 0 where
  pub healthz : String → Option ℕ
  pub shutdown : (addr token : String) → Option ℕ
  pub reload : (addr token : String) → Option ℕ

abbrev is_status : ℕ → Option ℕ → Bool
is_status code none = false
is_status code (some n) = n == code

-- pingHealthz
abbrev pub ping_healthz : Remote → String → Bool
ping_healthz remote addr = is_status 200 (remote.healthz addr)

unfoldable pub print_status : Remote → PidfileRead → ℕ
print_status remote absent = 1
print_status remote unreadable = 1
print_status remote (pidfile d) = if ping_healthz remote d.addr then 0 else 1

abbrev pub post_shutdown : Remote → PidfileData → Bool
post_shutdown remote d = is_status 202 (remote.shutdown d.addr d.token)

unfoldable pub do_reload : Remote → PidfileRead → ℕ
do_reload remote absent = 1
do_reload remote unreadable = 1
do_reload remote (pidfile d) = if is_status 200 (remote.reload d.addr d.token) then 0 else 1

-- waitForPidfileGone: `gone` tells whether the file is gone at a time, and `late` how much longer than
-- 200 ms a round takes; the test of the clock and that of the file are at one time. `none` is a loop
-- that goes on behind its fuel.
unfoldable pub wait_for_pidfile_gone :
    (gone : ℕ → Bool) (late : ℕ → ℕ) (fuel deadline now : ℕ) → Option Bool
wait_for_pidfile_gone gone late zero deadline now = none
wait_for_pidfile_gone gone late (suc fuel) deadline now =
    let rest = wait_for_pidfile_gone gone late fuel deadline (now + 200 + late now) in
    if ltb now deadline then (if gone now then some true else rest) else some false

-- The exit code when the loop has ended: 10 s are 50 rounds and a last test.
abbrev exit_code : Option Bool → Option ℕ
exit_code none = none
exit_code (some true) = some 0
exit_code (some false) = some 1

unfoldable pub do_stop :
    Remote → (gone : ℕ → Bool) (late : ℕ → ℕ) (now : ℕ) → PidfileRead → Option ℕ
do_stop remote gone late now absent = some 1
do_stop remote gone late now unreadable = some 1
do_stop remote gone late now (pidfile d) =
    if post_shutdown remote d
    then exit_code (wait_for_pidfile_gone gone late 51 (now + 10000) now)
    else some 1
