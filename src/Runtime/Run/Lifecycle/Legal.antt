-- ===== src/Runtime/Run/Lifecycle/Legal.antt =====
-- The guards of the methods against the table of legal transitions.
use congeries_core.Prelude.{◌≡◌, refl, true, false, ◌||◌}
use congeries_core.Runtime.Run.{
  RunStatus, created, starting, context_loading, running, waiting_approval, paused, retrying,
  recovering, succeeded, failed, cancelled, terminal, resumable,
}
use congeries_core.Runtime.Run.Machine.{status_beq, advances}
use congeries_core.Runtime.Run.Machine.Phases.{pausable}
use congeries_core.Runtime.Run.Machine.Endings.{retriable}
use congeries_core.Runtime.Run.Lifecycle.Steps.{legal}

-- What the guard of each method says of the status, and the legal transition behind it.
pub advances-legal :
    (a b : RunStatus) → advances a b ≡ true → (terminal a ≡ false) × (legal a b ≡ true)
advances-legal created starting h = (refl, refl)
advances-legal starting context_loading h = (refl, refl)
advances-legal context_loading running h = (refl, refl)
advances-legal running waiting_approval h = (refl, refl)
advances-legal running recovering h = (refl, refl)
advances-legal waiting_approval running h = (refl, refl)
advances-legal recovering running h = (refl, refl)
advances-legal _ _ h = cc

pub pausable-legal :
    (a : RunStatus) → pausable a ≡ true → (terminal a ≡ false) × (legal a paused ≡ true)
pausable-legal created h = cc
pausable-legal paused h = cc
pausable-legal succeeded h = cc
pausable-legal failed h = cc
pausable-legal cancelled h = cc
pausable-legal _ h = (refl, refl)

pub retriable-legal :
    (a : RunStatus) → retriable a ≡ true → (terminal a ≡ false) × (legal a retrying ≡ true)
retriable-legal starting h = (refl, refl)
retriable-legal context_loading h = (refl, refl)
retriable-legal running h = (refl, refl)
retriable-legal _ h = cc

pub live-legal :
    (a : RunStatus) → terminal a ≡ false → (legal a failed ≡ true) × (legal a cancelled ≡ true)
live-legal succeeded h = cc
live-legal failed h = cc
live-legal cancelled h = cc
live-legal _ h = (refl, refl)

pub recover-legal :
    (a : RunStatus)
    → status_beq a recovering ≡ false
    → (terminal a || status_beq a created) ≡ false
    → (terminal a ≡ false) × (legal a recovering ≡ true)
recover-legal created p h = cc
recover-legal recovering p h = cc
recover-legal succeeded p h = cc
recover-legal failed p h = cc
recover-legal cancelled p h = cc
recover-legal _ p h = (refl, refl)

pub paused-legal : (phase : RunStatus) → resumable true phase ≡ true → legal paused phase ≡ true
paused-legal starting h = refl
paused-legal context_loading h = refl
paused-legal running h = refl
paused-legal waiting_approval h = refl
paused-legal recovering h = refl
paused-legal _ h = cc

pub retrying-legal :
    (phase : RunStatus) → resumable false phase ≡ true → legal retrying phase ≡ true
retrying-legal starting h = refl
retrying-legal context_loading h = refl
retrying-legal running h = refl
retrying-legal _ h = cc
