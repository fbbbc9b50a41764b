-- ===== src/Viewer/Session/Rest/Runs.antt =====
-- A session that was stopped rests for good.
use laptop_as_a_second_monit.Common.{◌≡◌, false, Option, List, [], ◌∷◌, Str, All-append}
use laptop_as_a_second_monit.Protocol.Json.{Json}
use laptop_as_a_second_monit.Viewer.Session.State.{Session, Effect, Input, ◌>>>◌}
use laptop_as_a_second_monit.Viewer.Session.State.Methods.{stop}
use laptop_as_a_second_monit.Viewer.Session.Run.{Event, step, run}
use laptop_as_a_second_monit.Viewer.Session.Rest.{IsResting, is_active, Rests, stop-Rests}
use laptop_as_a_second_monit.Viewer.Session.Rest.Steps.{step-Rests}

run_from_resting :
    (json_parse : Str → Option Json) (es : List (Input × Event)) (s : Session)
    → IsResting s
    → Rests (run json_parse es s)
unfolding run ◌>>>◌
run_from_resting json_parse [] s r = (r, tt)
run_from_resting json_parse ((input, e) ∷ es) s r =
    let (q, quiet) = step-Rests json_parse input e s r in
    let (q', quiet') = run_from_resting json_parse es (step json_parse input e s).0 q in
    (
      q',
      All-append (λ (f : Effect). is_active f ≡ false) (step json_parse input e s).1 _ quiet quiet',
    )

-- A session that is stopped rests, and however the page, the timers and the connections go on, it rests
-- for good and neither connects nor pairs, makes no peer connection, serves none and shows no status.
pub stop-IsResting :
    (json_parse : Str → Option Json) (es : List (Input × Event)) (s : Session)
    → IsResting (stop s).0 × Rests (run json_parse es (stop s).0)
stop-IsResting json_parse es s =
    ((stop-Rests s).0, run_from_resting json_parse es (stop s).0 (stop-Rests s).0)
