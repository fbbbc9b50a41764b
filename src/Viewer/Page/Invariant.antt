-- ===== src/Viewer/Page/Invariant.antt =====
-- What holds of the page of viewer/src/main.ts between events, and how its handlers keep it.
pub mod Screens
pub mod Sessions
pub mod Handling
pub mod Starts
pub mod Runs
use laptop_as_a_second_monit.Common.{ℕ, ◌≤◌, ◌<◌, ◌≡◌, ◌≢◌, Bool, not, Option, none, some, is_some}
use laptop_as_a_second_monit.Viewer.Session.State.{Session}
use laptop_as_a_second_monit.Viewer.Session.Rest.{IsResting}
use laptop_as_a_second_monit.Viewer.Page.State.{Page}

-- The stage is on exactly while the form is hidden.
pub record IsOneScreen (p : Page) : Type 0 where
  pub stage : p.stage.shown ≡ p.on_stage
  pub form : p.pairing_hidden ≡ p.on_stage

-- The form waits, and offers to cancel, exactly while there is a session.
pub record IsBusy (p : Page) : Type 0 where
  pub waits : p.connect_disabled ≡ is_some p.session
  pub cancels : p.cancel_hidden ≡ not (is_some p.session)

-- No session but the current one does anything, and the names that come are free.
pub record IsAlone (p : Page) : Type 0 where
  pub others : (i : ℕ) (s : Session) → p.sessions i ≡ some s → p.session ≢ some i → IsResting s
  pub fresh : (i : ℕ) → p.next_session ≤ i → p.sessions i ≡ none
  pub known : (i : ℕ) → p.session ≡ some i → i < p.next_session

pub record Good (p : Page) : Type 0 where
  pub screen : IsOneScreen p
  pub busy : IsBusy p
  pub alone : IsAlone p
