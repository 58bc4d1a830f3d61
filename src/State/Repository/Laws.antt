-- ===== src/State/Repository/Laws.antt =====
-- What the repository guarantees: identities are kept, and a write needs the current version.
use congeries_core.Prelude.{
  ℕ, ◌+◌, String, ◌≡◌, ◌≢◌, ap, Option, none, some, arith, Option-cases, inl, inr,
}
use congeries_core.Prelude.Eq.{string_eq, ==_iff}
use congeries_core.Prelude.Dict.{get, put, get-put}
use congeries_core.Runtime.Errors.{ok}
use congeries_core.Runtime.Run.{Run}
use congeries_core.State.Repository.{Runs, add_run, get_run, compare_and_set}

-- A successful write replaced exactly one Run, which was there with the expected version.
pub compare_and_set_lem :
    (runs : Runs) (run : Run) (expected : ℕ) {after : Runs}
    → compare_and_set runs run expected ≡ ok after
    → (old : Run) × (get runs run.run_id ≡ some old)
      × (old.state_version ≡ expected)
      × (run.state_version ≡ expected + 1)
      × (after ≡ put runs run.run_id run)
unfolding compare_and_set get_run
compare_and_set_lem runs run expected h = elim (Option-cases (get runs run.run_id)) [
  | inl e ↦ cc (e, h)
  | inr (old, e) ↦ (old, e, ground arith, ground arith, ground arith)
]

version_or : Option Run → ℕ
version_or none = 0
version_or (some run) = run.state_version

-- Of two writes made against the same version of a Run the second one fails, whatever it writes:
-- no update is lost.
pub no_lost_update :
    (runs : Runs) (first second : Run) (expected : ℕ) (after : Runs)
    → first.run_id ≡ second.run_id
    → compare_and_set runs first expected ≡ ok after
    → (final : Runs) → compare_and_set after second expected ≢ ok final
unfolding version_or
no_lost_update runs first second expected after same a final b =
    let (old, here, version, next, put_first) = compare_and_set_lem runs first expected a in
    let (seen, there, version', next', put_second) = compare_and_set_lem after second expected b in
    ground (
      arith,
      get-put runs first.run_id second.run_id first,
      ==_iff first.run_id second.run_id,
      ap (λ (d : Runs). get d second.run_id) put_first,
      ap (λ (o : Option Run). version_or o) there,
    )

-- Adding never replaces a Run.
pub add_run-keeps :
    (runs : Runs) (run old : Run) (id : String) {after : Runs}
    → get runs id ≡ some old
    → add_run runs run ≡ ok after
    → get after id ≡ some old
unfolding add_run
add_run-keeps runs run old id here h = ground (
  arith,
  get-put runs run.run_id id run,
  ==_iff run.run_id id,
  ap (λ (k : String). get runs k) {x = run.run_id} {y = id},
)

-- The write succeeds when the stored Run has the expected version and the new one the next.
pub compare_and_set-ok :
    (runs : Runs) (old run : Run) (id : String) (expected : ℕ)
    → get runs id ≡ some old
    → run.run_id ≡ id
    → old.state_version ≡ expected
    → run.state_version ≡ old.state_version + 1
    → compare_and_set runs run expected ≡ ok (put runs id run)
unfolding compare_and_set get_run
compare_and_set-ok runs old run id expected here named version next =
    rw named (rw here (ground arith))
