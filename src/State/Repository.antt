-- ===== src/State/Repository.antt =====
-- src/congeries_core/state/repository.py: `InMemoryRunRepository`. Each method runs under its lock,
-- so it is one function from the dictionary of Runs.
pub mod Laws
use congeries_core.Prelude.{
  ℕ, ◌+◌, String, Bool, true, false, not, Option, none, some, is_some, nat_beq, if◌then◌else◌,
}
use congeries_core.Prelude.Eq.{string_eq}
use congeries_core.Prelude.Dict.{Dict, get, put}
use congeries_core.Runtime.Errors.{
  Raised, Result, ok, err, core_error, retry_error, conflict, invalid_request, ◌>>=◌,
}
use congeries_core.Runtime.Run.{Run}

abbrev pub Runs : Type 0
Runs = Dict String Run

abbrev pub not_found : Raised
not_found = core_error invalid_request "run_not_found" "Run does not exist"

abbrev pub found : Option Run → Result Run
found none = err not_found
found (some run) = ok run

unfoldable pub add_run : Runs → Run → Result Runs
add_run runs run =
    if is_some (get runs run.run_id)
    then err (core_error conflict "run_already_exists" "Run identity already exists")
    else ok (put runs run.run_id run)

unfoldable pub get_run : Runs → String → Result Run
get_run runs id = found (get runs id)

unfoldable pub replace_run : Runs → Run → ℕ → Run → Result Runs
replace_run runs run expected current =
    if not (nat_beq current.state_version expected)
    then err (
        retry_error conflict "stale_state_version"
          "Run state version does not match the expected version")
    else if not (nat_beq run.state_version (expected + 1))
    then err (
        core_error conflict "invalid_next_state_version"
          "committed Run must increment state version exactly once")
    else ok (put runs run.run_id run)

-- The Run that it returns is the one that it was given: the new dictionary is the answer here.
unfoldable pub compare_and_set : Runs → Run → ℕ → Result Runs
unfolding replace_run
compare_and_set runs run expected = get_run runs run.run_id >>= replace_run runs run expected
