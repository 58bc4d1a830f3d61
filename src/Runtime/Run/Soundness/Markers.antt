-- ===== src/Runtime/Run/Soundness/Markers.antt =====
-- `commit_checkpoint` keeps a Run sound.
use congeries_core.Prelude.{ℕ, String, ◌≡◌, not, ◌&&◌, Option, none, some, or_else, arith}
use congeries_core.Prelude.Eq.{◌==◌, string_eq, option_eq}
use congeries_core.Runtime.Errors.{ok}
use congeries_core.Runtime.Run.{
  Run, RunKind, agent, workflow, RunClass, base, agent_run, workflow_run, terminal, check_class,
}
use congeries_core.Runtime.Run.Machine.Markers.{
  commit_checkpoint, commit_on, commit_marker, graph_or,
}
use congeries_core.Runtime.Run.Soundness.{IsSound}
use congeries_core.Runtime.Run.Soundness.Rules.{
  Kept, answered, refused, Kept-if, Kept-moved, Kept-version,
}

-- An empty graph version is never taken over.
graph_or-class :
    (kind : RunKind) (id graph checkpoint : String) (marker target : Option String)
    → check_class kind (workflow_run id graph marker) ≡ ok tt
    → check_class kind (workflow_run id (graph_or target graph) (some checkpoint)) ≡ ok tt
unfolding check_class
graph_or-class agent id graph checkpoint marker target h = cc
graph_or-class workflow id graph checkpoint marker none h = h
graph_or-class workflow id graph checkpoint marker (some g) h = ground arith

commit_marker-Kept :
    (run : Run) (now : ℕ) (id graph : String) (marker : Option String) (checkpoint : String)
    (expected_previous definition target : Option String)
    → IsSound run now
    → check_class run.kind (workflow_run id graph marker) ≡ ok tt
    → Kept now
        (commit_marker run now id graph marker checkpoint expected_previous definition target)
unfolding commit_marker
commit_marker-Kept run now id graph marker checkpoint expected_previous definition target s c =
    Kept-if
      (marker == some checkpoint
        && (run.definition_id == or_else definition run.definition_id
            && graph == graph_or target graph))
      (λ _. answered s)
      (λ _.
        Kept-if (not (marker == expected_previous)) (λ _. refused)
          (λ _. Kept-moved run _ _ (record {
            positive = s.positive;
            identity = s.identity;
            end = s.end;
            phase = s.phase;
            continued = s.continued;
            class = graph_or-class run.kind id graph checkpoint marker target c;
            begun = s.begun;
          })))

commit_on-Kept :
    (class : RunClass) (run : Run) (now : ℕ) (checkpoint : String)
    (expected_previous definition target : Option String)
    → IsSound run now
    → check_class run.kind class ≡ ok tt
    → Kept now (commit_on class run now checkpoint expected_previous definition target)
unfolding commit_on
commit_on-Kept base run now checkpoint previous definition target s c = refused
commit_on-Kept (agent_run id binding) run now checkpoint previous definition target s c = refused
commit_on-Kept (workflow_run id graph marker) run now checkpoint previous definition target s c =
    Kept-if (terminal run.status) (λ _. refused)
      (λ _. commit_marker-Kept run now id graph marker checkpoint previous definition target s c)

pub commit_checkpoint-Kept :
    (run : Run) (expected now : ℕ) (checkpoint : String)
    (expected_previous definition target : Option String)
    → IsSound run now
    → Kept now (commit_checkpoint run expected now checkpoint expected_previous definition target)
unfolding commit_checkpoint
commit_checkpoint-Kept run expected now checkpoint expected_previous definition target s =
    Kept-version run expected
      (commit_on-Kept run.class run now checkpoint expected_previous definition target s s.class)
