-- ===== src/Viewer/Session/Invariant/Messages.antt =====
-- The messages of the signaling worker keep the bounds.
use laptop_as_a_second_monit.Common.{
  Bool, true, false, ◌&&◌, Option, none, some, List, Str, codes, str_eq, arith,
}
use laptop_as_a_second_monit.Protocol.Message.{
  Role, host, viewer, ServerMessage, relayed, ready, authenticated, peer_left, kicked, error,
}
use laptop_as_a_second_monit.Viewer.Session.State.{
  busy, Session, show_error, ended, Input, ◌>>>◌, emit,
}
use laptop_as_a_second_monit.Viewer.Session.State.Methods.{
  phase, note, mark, live, reset_peer, close_socket, stop,
}
use laptop_as_a_second_monit.Viewer.Session.Signals.{error_text, is_filled, start_heartbeat}
use laptop_as_a_second_monit.Viewer.Session.Direct.{Attempt, fine, create_peer, send_state}
use laptop_as_a_second_monit.Viewer.Session.Messages.{
  end_session, signaling_error, keep_token, publish_code, accept_features, report_state, greet,
  host_left, begin, on_relayed, message, caught, has_code,
}
use laptop_as_a_second_monit.Viewer.Session.Invariant.{
  Inv, At, then-At, if-At, then-Inv, if-Inv, note-At, phase-At, mark-At, reset_peer-At,
  close_socket-At, stop-At,
}
use laptop_as_a_second_monit.Viewer.Session.Invariant.Signals.{start_heartbeat-At}
use laptop_as_a_second_monit.Viewer.Session.Invariant.Attempts.{
  if_attempt-At, send_state-At, create_peer-At,
}
use laptop_as_a_second_monit.Viewer.Session.Invariant.Relayed.{on_relayed-At}

end_session-Inv : (reason : Str) (s : Session) → At false s → Inv (end_session reason s).0
unfolding end_session
end_session-Inv reason s h = then-Inv (stop s) (emit (ended reason)) (stop-At s h) (λ t k. k.0)

signaling_error-Inv : (e : Str) (s : Session) → At false s → Inv (signaling_error e s).0
unfolding signaling_error
signaling_error-Inv e s h =
    if-Inv (str_eq e (codes "host-unavailable")) _ _
      (λ _. then-Inv (emit _ s) close_socket h (λ t k. (close_socket-At t k).0))
      (λ _.
        if-Inv (str_eq e (codes "authentication") && (is_filled s.token && has_code s.credentials))
          _ _ (λ _. (close_socket-At (record s { token = none; room = none }) h).0)
          (λ _.
            then-Inv (emit (show_error (error_text e)) s) (end_session e) h (end_session-Inv e)))

keep_token-At :
    (role : Role) (token room : Option Str) (s : Session)
    → At false s
    → At false (keep_token role token room s).0
unfolding keep_token
keep_token-At host token room s h = h
keep_token-At viewer none room s h = h
keep_token-At viewer (some t) room s h = ground arith

publish_code-At : (input : Input) (s : Session) → At false s → At false (publish_code input s).0
unfolding publish_code
publish_code-At input s h = h

greet-At :
    (input : Input) (role : Role) (token room : Option Str) (features : List Str) (s : Session)
    → At false s
    → At false (greet input role token room features s).0
unfolding greet
greet-At input role token room features s h =
    let o1 = mark input (codes "signalingMs") s >>> accept_features features in
    let h1 : At false o1.0 =
      then-At (mark input (codes "signalingMs") s) (accept_features features)
        (mark-At input (codes "signalingMs") s h) (λ t k. k) in
    let o2 = o1 >>> start_heartbeat input in
    let h2 : At false o2.0 = then-At o1 (start_heartbeat input) h1 (start_heartbeat-At input) in
    let o3 = o2 >>> keep_token role token room in
    let h3 : At false o3.0 =
      then-At o2 (keep_token role token room) h2 (keep_token-At role token room) in
    let o4 = o3 >>> publish_code input in
    let h4 : At false o4.0 = then-At o3 (publish_code input) h3 (publish_code-At input) in
    then-At o4 report_state h4
      (λ t k. if-At (live t) (send_state true t) _ (λ _. send_state-At true t k) (λ _. k))

host_left-At : (input : Input) (s : Session) → At false s → At false (host_left input s).0
unfolding host_left
host_left-At input s h =
    if-At (live s) _ _ (λ _. note-At input _ s h)
      (λ _.
        then-At (reset_peer s >>> phase busy) (emit _)
          (then-At (reset_peer s) (phase busy) (reset_peer-At s h) (phase-At busy)) (λ t k. k))

begin-At :
    (input : Input) (g : Str) (resume : Bool) (s : Session)
    → At false s
    → At false (begin input g resume s).0.0
unfolding begin
begin-At input g resume s h =
    if_attempt-At (resume && (str_eq g s.generation && live s)) _
      (create_peer input (record s { generation = g })) (λ _. note-At input _ s h)
      (λ _. create_peer-At input (record s { generation = g }) h)

pub caught-Inv :
    (input : Input) (why : Str) (o : Attempt) → At false o.0.0 → Inv (caught input why o).0
unfolding caught
caught-Inv input why (o, false) h = h.0
caught-Inv input why (o, true) h =
    then-Inv (o >>> note input _) (emit _) (then-At o (note input _) h (note-At input _))
      (λ t k. k.0)

kicked-Inv :
    (input : Input) (why : Str) (s : Session)
    → At false s
    → Inv (caught input why (message input kicked s)).0
unfolding caught message
kicked-Inv input why s h =
    then-Inv (emit _ s >>> emit _) (end_session (codes "kicked"))
      (then-At (emit _ s) (emit _) h (λ t k. k)) (end_session-Inv (codes "kicked"))

error-Inv :
    (input : Input) (why e : Str) (s : Session)
    → At false s
    → Inv (caught input why (message input (error e) s)).0
unfolding caught message
error-Inv input why e s h =
    then-Inv (note input _ s) (signaling_error e) (note-At input _ s h) (signaling_error-Inv e)

pub message-Inv :
    (input : Input) (why : Str) (m : ServerMessage) (s : Session)
    → At false s
    → Inv (caught input why (message input m s)).0
unfolding message
message-Inv input why (relayed m) s h =
    caught-Inv input why (on_relayed input m s) (on_relayed-At input m s h)
message-Inv input why (ready g resume) s h =
    caught-Inv input why (begin input g resume s) (begin-At input g resume s h)
message-Inv input why (authenticated role token room features) s h =
    caught-Inv input why (fine (greet input role token room features s))
      (greet-At input role token room features s h)
message-Inv input why peer_left s h =
    caught-Inv input why (fine (host_left input s)) (host_left-At input s h)
message-Inv input why kicked s h = kicked-Inv input why s h
message-Inv input why (error e) s h = error-Inv input why e s h
