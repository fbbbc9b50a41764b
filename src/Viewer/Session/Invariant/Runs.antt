-- ===== src/Viewer/Session/Invariant/Runs.antt =====
-- Every event keeps the bounds, and so does a run.
use laptop_as_a_second_monit.Protocol.Json.{Json}
use laptop_as_a_second_monit.Viewer.Session.State.{Session}
