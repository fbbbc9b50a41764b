-- ===== src/System/Receiver.antt =====
-- What a session that begins with a code asks for, step by step, until its first message.
use laptop_as_a_second_monit.Common.{◌≡◌, ◌≢◌, refl, none, some, [], ◌∷◌, Str, arith}
use laptop_as_a_second_monit.Protocol.Message.{auth_viewer, paired}
use laptop_as_a_second_monit.Viewer.Session.State.{Input, ◌>>>◌}
use laptop_as_a_second_monit.Viewer.Session.State.Methods.{phase}
use laptop_as_a_second_monit.Viewer.Session.Signals.{
  start, rejoin, pair_or_throw, pair, on_pair_response, take_answer, open_socket, on_open, open_one,
  open_current,
}
use laptop_as_a_second_monit.Viewer.Page.Submit.{begun}
use laptop_as_a_second_monit.System.{connected, transmitted}

module _ (input : Input) (code : Str) where
  pub answer-connected :
      (room ticket : Str)
      → connected (on_pair_response input.now (some (paired room ticket)) (begun input code)).1
        ≡ some (0, some room, some ticket)
  unfolding start rejoin pair_or_throw pair phase ◌>>>◌ on_pair_response take_answer open_socket
  answer-connected room ticket = ground arith

  pub open-transmitted :
      (room ticket : Str)
      → ticket ≢ []
      → transmitted
          (on_open 0
            (some ticket)
            (on_pair_response input.now (some (paired room ticket)) (begun input code)).0).1
        ≡ some (auth_viewer (some ticket) none none)
  unfolding start rejoin pair_or_throw pair phase ◌>>>◌ on_pair_response take_answer open_socket
      on_open open_one open_current
  open-transmitted room [] given = absurd (given refl)
  open-transmitted room (c ∷ ticket) given = ground arith
