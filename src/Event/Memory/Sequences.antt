-- ===== src/Event/Memory/Sequences.antt =====
-- Sequence numbers over any order of requests.
use congeries_core.Prelude.{
  ℕ, ◌+◌, String, ◌≡◌, ap, List, [], ◌∷◌, arith, if◌then◌else◌, or_else, Bool-cases, inl, inr,
}
use congeries_core.Prelude.Eq.{◌==◌, string_eq, ==_iff}
use congeries_core.Prelude.Dict.{get, get-put}
use congeries_core.Event.Memory.{InMemoryEventLedger, next_sequence}

-- The number that a Run has reached.
abbrev pub reached : {Ev : Type 0} → InMemoryEventLedger Ev → String → ℕ
reached l run = or_else (get l.sequences run) 0

-- A list of requests, one after the other.
unfoldable pub allocate :
    {Ev : Type 0} → InMemoryEventLedger Ev → List String → InMemoryEventLedger Ev
allocate l [] = l
allocate l (run ∷ runs) = allocate (next_sequence l run).1 runs

abbrev pub requests_of : String → List String → ℕ
requests_of run [] = 0
requests_of run (r ∷ runs) = (if r == run then 1 else 0) + requests_of run runs

next_reached :
    {Ev : Type 0} (l : InMemoryEventLedger Ev) (r run : String)
    → reached (next_sequence l r).1 run ≡ reached l run + (if r == run then 1 else 0)
unfolding next_sequence
next_reached l r run = elim (Bool-cases (r == run)) [
  | inl hit ↦
      rw (get-put l.sequences r run (or_else (get l.sequences r) 0 + 1), hit)
        (omega (arith, ap (λ k. or_else (get l.sequences k) 0) ((==_iff r run).0 hit)))
  | inr miss ↦
      rw (get-put l.sequences r run (or_else (get l.sequences r) 0 + 1), miss) (omega arith)
]

allocate-reached :
    {Ev : Type 0} (l : InMemoryEventLedger Ev) (runs : List String) (run : String)
    → reached (allocate l runs) run ≡ reached l run + requests_of run runs
unfolding allocate
allocate-reached l [] run = omega arith
allocate-reached l (r ∷ runs) run =
    omega (arith, allocate-reached (next_sequence l r).1 runs run, next_reached l r run)

-- However the requests of several Runs are interleaved, the next number that a Run gets is the one
-- after the last it got: its numbers are consecutive, without gaps or repetitions.
pub next_sequence-allocate :
    {Ev : Type 0} (l : InMemoryEventLedger Ev) (runs : List String) (run : String)
    → (next_sequence (allocate l runs) run).0 ≡ reached l run + requests_of run runs + 1
unfolding next_sequence
next_sequence-allocate l runs run = omega (arith, allocate-reached l runs run)
