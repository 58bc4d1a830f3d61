-- ===== src/State/Service/Interleaving.antt =====
-- Calls of `RunService._apply` that overlap: between the `await` of the read, after which the call
-- takes the time at once, and the `await` of the write any other call may run. A step relation over
-- the stored Runs and the reads that are open.
use congeries_core.Prelude.{
  ℕ, ◌+◌, ◌≤◌, String, ◌≡◌, refl, sym, ap, subst, ◌∙◌, inl, inr, Option, none, some, List, ◌∷◌,
  arith, Bool-cases,
}
use congeries_core.Prelude.Eq.{◌==◌, string_eq, ==_iff}
use congeries_core.Prelude.Dict.{get, put, get-put, get-put_cases, get-put_self}
use congeries_core.Runtime.Errors.{ok}
use congeries_core.Runtime.Run.{Run}
use congeries_core.Runtime.Run.Machine.{changed}
use congeries_core.Runtime.Run.Operations.{Operation, apply}
use congeries_core.Runtime.Run.Soundness.{IsSound, IsSound-later}
use congeries_core.Runtime.Run.Lifecycle.{apply-Kept}
use congeries_core.Runtime.Run.Lifecycle.Steps.{Step}
use congeries_core.Runtime.Run.Lifecycle.Reach.{apply-Step, Kept-ok}
use congeries_core.State.Repository.{Runs, compare_and_set}
use congeries_core.State.Repository.Laws.{compare_and_set_lem}
use congeries_core.State.Service.Effects.{apply-version}

-- A call that has read its Run and has not written yet.
pub record OpenRead : Type 0 where
  pub id : String
  pub seen : Run
  pub expected : ℕ
  pub op : Operation
  pub now : ℕ

pub record World : Type 0 where
  pub runs : Runs
  pub reads : List OpenRead
  pub clock : ℕ

pub data In (x : OpenRead) : List OpenRead → Type 0 where
  first : {xs : List OpenRead} → In x (x ∷ xs)
  later : {y : OpenRead} {xs : List OpenRead} → In x xs → In x (y ∷ xs)

-- One atomic section: a read, a write that the repository accepts, or the clock moves on. A call
-- that is refused, or answers with the Run unchanged, writes nothing.
pub data Move (w : World) : World → Type 0 where
  read :
      (id : String) (seen : Run) (expected : ℕ) (op : Operation)
      → get w.runs id ≡ some seen
      → Move w (record w {
        reads =
            record { id = id; seen = seen; expected = expected; op = op; now = w.clock } ∷ w.reads;
      })
  write :
      (call : OpenRead) (before new : Run) (reason : String) (after : Runs)
      → In call w.reads
      → apply call.op call.seen call.expected call.now ≡ ok (changed before new reason)
      → compare_and_set w.runs new call.expected ≡ ok after
      → Move w (record w { runs = after })
  tick : (now : ℕ) → w.clock ≤ now → Move w (record w { clock = now })

-- Versions only grow, and a version of a Run names one value of it.
pub record IsCurrent (runs : Runs) (call : OpenRead) : Type 0 where
  pub latest : Run
  pub stored : get runs call.id ≡ some latest
  pub grown : call.seen.state_version ≤ latest.state_version
  pub same : call.seen.state_version ≡ latest.state_version → call.seen ≡ latest

pub record Consistent (w : World) : Type 0 where
  pub sound : (id : String) (r : Run) → get w.runs id ≡ some r → IsSound r w.clock × (r.run_id ≡ id)
  pub seen :
      (call : OpenRead)
      → In call w.reads
      → IsSound call.seen call.now × (call.seen.run_id ≡ call.id)
  pub past : (call : OpenRead) → In call w.reads → call.now ≤ w.clock
  pub current : (call : OpenRead) → In call w.reads → IsCurrent w.runs call

version_of : Option Run → ℕ
version_of none = 0
version_of (some r) = r.state_version

-- The heart of the compare-and-set: what an accepted write replaces is the very Run that the call
-- read, so the write is a legal step of the stored Run, whatever ran in between.
pub write_is_Step :
    (w : World) (call : OpenRead) (before new : Run) (reason : String) (after : Runs)
    → Consistent w
    → In call w.reads
    → apply call.op call.seen call.expected call.now ≡ ok (changed before new reason)
    → compare_and_set w.runs new call.expected ≡ ok after
    → (get w.runs call.id ≡ some call.seen)
      × Step call.op call.now call.seen new
      × (after ≡ put w.runs call.id new)
unfolding version_of
write_is_Step w call before new reason after c in_reads accepted stored =
    let (sound, named) = c.seen call in_reads in
    let step =
      (apply-Step call.op call.seen call.expected call.now (changed before new reason) sound
        accepted).1 in
    let version = apply-version call.op call.seen call.expected call.now accepted in
    let (old, here, old_version, new_version, written) =
      compare_and_set_lem w.runs new call.expected stored in
    let now = c.current call in_reads in
    let name : new.run_id ≡ call.id = sym step.identity.0 ∙ named in
    let hit : some old ≡ some now.latest = sym here ∙ (ap (get w.runs) name ∙ now.stored) in
    let is : call.seen ≡ now.latest = now.same (version ∙ (sym old_version ∙ ap version_of hit)) in
    (now.stored ∙ ap some (sym is), step, written ∙ ap (λ k. put w.runs k new) name)

still_current :
    (runs : Runs) (id : String) (old new : Run) (call : OpenRead)
    → get runs id ≡ some old
    → new.state_version ≡ old.state_version + 1
    → IsCurrent runs call
    → IsCurrent (put runs id new) call
unfolding version_of
still_current runs id old new call here next c = elim (Bool-cases (id == call.id)) [
  | inl hit ↦
      let same : id ≡ call.id = (==_iff id call.id).0 hit in
      let is : some old ≡ some c.latest = sym here ∙ (ap (get runs) same ∙ c.stored) in
      let version : old.state_version ≡ c.latest.state_version = ap version_of is in
      record {
        latest = new;
        stored = ap (get (put runs id new)) (sym same) ∙ get-put_self runs id new;
        grown = omega (arith, c.grown);
        same = λ e. absurd (omega (arith, c.grown));
      }
  | inr miss ↦ record {
    latest = c.latest;
    stored = get-put runs id call.id new ∙ rw miss c.stored;
    grown = c.grown;
    same = c.same;
  }
]

-- Every move keeps the world consistent, so every accepted write of every interleaving is a legal
-- step of the Run that is stored.
pub Move-Consistent : {w v : World} → Move w v → Consistent w → Consistent v
Move-Consistent {w} (read id seen expected op here) c = record {
  sound = c.sound;
  seen = λ call m. seen_of call m;
  past = λ call m. past_of call m;
  current = λ call m. current_of call m;
}
  where
    added : OpenRead
    added = record { id = id; seen = seen; expected = expected; op = op; now = w.clock }

    seen_of :
        (call : OpenRead)
        → In call (added ∷ w.reads)
        → IsSound call.seen call.now × (call.seen.run_id ≡ call.id)
    seen_of call first = c.sound id seen here
    seen_of call (later m) = c.seen call m

    past_of : (call : OpenRead) → In call (added ∷ w.reads) → call.now ≤ w.clock
    past_of call first = omega arith
    past_of call (later m) = c.past call m

    current_of : (call : OpenRead) → In call (added ∷ w.reads) → IsCurrent w.runs call
    current_of call first = record {
      latest = seen;
      stored = here;
      grown = omega arith;
      same = λ _. refl;
    }
    current_of call (later m) = c.current call m
Move-Consistent {w} (write call before new reason after m accepted stored) c =
    let facts = write_is_Step w call before new reason after c m accepted stored in
    let (sound, named) = c.seen call m in
    let new_sound =
      IsSound-later w.clock
        (Kept-ok (apply-Kept call.op call.seen call.expected call.now sound) accepted)
        (c.past call m) in
    record {
      sound = λ k r e.
          elim (get-put_cases w.runs call.id k new r
            (ap (λ (d : Runs). get d k) (sym facts.2) ∙ e)) [
              | inl hit ↦
                  subst (λ x. IsSound x w.clock × (x.run_id ≡ k)) hit.1
                    (new_sound, sym facts.1.identity.0 ∙ (named ∙ hit.0))
              | inr miss ↦ c.sound k r miss.1
            ];
      seen = c.seen;
      past = c.past;
      current = λ other o. rw facts.2 (
          still_current w.runs call.id call.seen new other facts.0 facts.1.version
            (c.current other o));
    }
Move-Consistent {w} (tick now le) c = record {
  sound = λ id r e. let s = c.sound id r e in (IsSound-later now s.0 le, s.1);
  seen = c.seen;
  past = λ call m. omega (arith, le, c.past call m);
  current = c.current;
}
