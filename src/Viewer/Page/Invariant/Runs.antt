-- ===== src/Viewer/Page/Invariant/Runs.antt =====
-- Every event keeps the page's invariant, and so does a run from the page's beginning.
use laptop_as_a_second_monit.Viewer.Session.State.{Session}
use laptop_as_a_second_monit.Viewer.Session.Run.{Event as SessionEvent, step as step_session}
use laptop_as_a_second_monit.Viewer.Stage.Run.{Event as StageEvent}
use laptop_as_a_second_monit.Viewer.Page.State.{Page}
use laptop_as_a_second_monit.Viewer.Page.Run.{Event, step}
