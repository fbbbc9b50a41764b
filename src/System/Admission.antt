-- ===== src/System/Admission.antt =====
-- A viewer that types the code of a connected host becomes the viewer of its room.
use laptop_as_a_second_monit.Common.{
  ℕ, ◌+◌, ◌≤◌, ◌<◌, ◌≡◌, refl, ◌≢◌, true, false, Option, none, some, [], Str, length,
}
use laptop_as_a_second_monit.Protocol.Json.{object}
use laptop_as_a_second_monit.Protocol.Pattern.{is_room, is_code, is_token}
use laptop_as_a_second_monit.Protocol.Code.{normalize_code}
use laptop_as_a_second_monit.Protocol.Code.Laws.{
  Typed, normalize_code-Typed, normalize_code_idempotent,
}
use laptop_as_a_second_monit.Protocol.Hex.{Digest, sha256_hex}
use laptop_as_a_second_monit.Protocol.Message.{
  ClientMessage, CodeRegistration, auth_viewer, paired, host, viewer, max_message,
}
use laptop_as_a_second_monit.Protocol.Parse.{utf8_length}
use laptop_as_a_second_monit.Protocol.Encode.{encode}
use laptop_as_a_second_monit.Protocol.Encode.Complete.{parse_client-encode}
use laptop_as_a_second_monit.Signaling.Directory.{lookup}
use laptop_as_a_second_monit.Signaling.Room.State.{Room, peers, is_empty, ticket_ttl, auth_deadline}
use laptop_as_a_second_monit.Signaling.Room.Pairing.{throttled, claim}
use laptop_as_a_second_monit.Signaling.Room.Pairing.Tickets.{IsDigest}
use laptop_as_a_second_monit.Signaling.Room.Message.Dispatch.{text, web_socket_message, set_codes}
use laptop_as_a_second_monit.Signaling.Room.Message.Journey.{claim-Offers}
use laptop_as_a_second_monit.Signaling.Room.Lifecycle.{accept}
use laptop_as_a_second_monit.Signaling.Room.Lifecycle.Admission.{
  HasPlace, accept-IsViewer, claim-HasPlace,
}
use laptop_as_a_second_monit.Signaling.Worker.{
  World, update, claim_room, is_denied, open_room, pair_response, json_response,
}
use laptop_as_a_second_monit.Signaling.Worker.Pair.{
  host_registers, claim_registered, update_same, registered_room,
}
use laptop_as_a_second_monit.Viewer.Session.State.{Session}
use laptop_as_a_second_monit.Viewer.Session.Signals.{on_pair_response, on_open}
use laptop_as_a_second_monit.Viewer.Page.State.{Page, Browser}
use laptop_as_a_second_monit.Viewer.Page.Handlers.{is_reachable}
use laptop_as_a_second_monit.Viewer.Page.Submit.{begun, submit-Asks}
use laptop_as_a_second_monit.System.{Moments, deliver, join}
use laptop_as_a_second_monit.System.Receiver.{answer-connected, open-transmitted}
use laptop_as_a_second_monit.System.Requests.{room_named, token_named, fetch_room, fetch_pair}

-- The message that a viewer with a ticket begins with.
abbrev pub presented : Str → ClientMessage
presented ticket = auth_viewer (some ticket) none none

module _ (o : Browser) (digest : Digest) (allowed : Str) (origin : Option Str)
    (print : ClientMessage → Str) (at : Moments) where
  -- What travels, where every answer is the one that is hoped for.
  join_steps :
      (page : Page) (code name : Str) (w : World)
      → is_code code ≡ true
      → is_room name ≡ true
      → normalize_code o.upper page.code ≡ code
      → is_reachable (o.parse_url page.server) ≡ true
      → page.session ≡ none
      → is_denied allowed origin ≡ false
      → at.pair.random_hex ≢ []
      → lookup at.pair.now (w.directory (sha256_hex digest code)) ≡ some name
      → (claim digest at.pair (sha256_hex digest code) (w.rooms name)).1
        ≡ paired name at.pair.random_hex
      → let (r, answer) = claim digest at.pair (sha256_hex digest code) (w.rooms name) in
        let v : World = record w { rooms = update name r w.rooms } in
        (s : Session) × (join o digest allowed origin print at page w
          ≡ some (
            s,
            deliver o digest allowed origin print at name r.next_id
                (presented at.pair.random_hex)
                (open_room at.upgrade.now name v).0,
          ))
  unfolding join claim_room pair_response json_response
  join_steps page code name w format place same reachable alone k given entry granted =
      let ticket = at.pair.random_hex in
      let began = begun at.start code in
      let asks = submit-Asks o at.start code page format same reachable alone in
      let t = (on_pair_response at.start.now (some (paired name ticket)) began).0 in
      let (r, answer) = claim digest at.pair (sha256_hex digest code) (w.rooms name) in
      let v : World = record w { rooms = update name r w.rooms } in
      let kept : normalize_code o.upper code ≡ code =
        rw (← same) (normalize_code_idempotent o.upper page.code).0 in
      (
        (on_open 0 (some ticket) t).0,
        rw
            (
              asks.asked,
              asks.kept,
              fetch_pair o.upper digest allowed code name origin at.pair w format kept k entry
                  (room_named name place),
              granted,
              answer-connected at.start code name ticket,
              fetch_room o.upper digest allowed name origin at.upgrade v place k,
              open-transmitted at.start code name ticket given,
              update_same name r w.rooms,
            )
            refl,
      )

  -- The room once the socket was accepted and its message was read.
  delivered :
      (name : Str) (r : Room) (m : ClientMessage) (w : World)
      → let v : World = record w { rooms = update name r w.rooms } in
        (deliver o digest allowed origin print at name r.next_id m
            (open_room at.upgrade.now name v).0).rooms
          name
        ≡ (web_socket_message o.parse_json digest at.auth r.next_id
            (text (print m))
            (accept at.upgrade.now r).0).0
  unfolding deliver open_room
  delivered name r m w = simp (update_same {A = Room} name) refl

  -- Once a connected host of a room has registered a code, a viewer that types it into the page, in either
  -- case and with separators, gets a ticket, a socket and the one place of a viewer in the room, if nothing
  -- else happens in between. This supposes that the page has no session and a safe address of the server,
  -- that the code is still valid and the ticket in time, that the room has no viewer, no throttle, fewer
  -- than six sockets and a new name for a socket, that the limit for the client's address and the page's
  -- origin allow it, and that `JSON.parse` reads what the session writes.
  pub join-IsViewer :
      (page : Page) (code name : Str) (first ttl_ms : ℕ) (w : World)
      → IsDigest digest
      → is_code code ≡ true
      → Typed page.code code
      → is_reachable (o.parse_url page.server) ≡ true
      → page.session ≡ none
      → is_room name ≡ true
      → is_token at.pair.random_hex ≡ true
      → is_denied allowed origin ≡ false
      → (w.rooms name).name ≡ name
      → throttled at.pair.now (w.rooms name) ≡ false
      → is_empty (peers host (w.rooms name).sockets) ≡ false
      → is_empty (peers viewer (w.rooms name).sockets) ≡ true
      → HasPlace (w.rooms name)
      → utf8_length (print (presented at.pair.random_hex)) ≤ max_message
      → o.parse_json (print (presented at.pair.random_hex))
        ≡ some (object (encode (presented at.pair.random_hex)))
      → at.pair.now < first + ttl_ms
      → at.pair.now ≤ at.auth.now
      → at.auth.now < at.pair.now + ticket_ttl
      → at.auth.now ≤ at.upgrade.now + auth_deadline
      → (q : Session × World) × (join o digest allowed origin print at page (
            host_registers first name (record { hash = sha256_hex digest code; ttl_ms = ttl_ms }) w)
          ≡ some q)
        × (length (peers viewer (q.1.rooms name).sockets) ≡ 1)
  unfolding set_codes throttled
  join-IsViewer page code name first ttl_ms w sha format types reachable alone place hex allow named
        calm hosts viewers room_left short printed valid later soon early =
      let ticket = at.pair.random_hex in
      let hash = sha256_hex digest code in
      let c : CodeRegistration = record { hash = hash; ttl_ms = ttl_ms } in
      let v = host_registers first name c w in
      let given = token_named ticket hex in
      let (entry, granted) =
        claim_registered digest name code first ttl_ms at.pair w sha named valid calm hosts
          viewers in
      let (s, joined) =
        join_steps page code name v format place (normalize_code-Typed o.upper types) reachable
          alone allow given entry granted in
      let r = (claim digest at.pair hash (v.rooms name)).0 in
      let offers =
        claim-Offers digest at.pair hash (v.rooms name) at.auth.now sha granted later soon in
      let free : HasPlace (v.rooms name) =
        rw (registered_room first name c w)
          (record { few = room_left.few; unnamed = room_left.unnamed }) in
      let parsed =
        parse_client-encode o.parse_json (print (presented ticket)) (presented ticket) short printed
          (hex, tt) in
      let counted =
        accept-IsViewer o.parse_json digest at.upgrade.now at.auth (print (presented ticket)) ticket
          none r (claim-HasPlace digest at.pair hash (v.rooms name) free) offers given short parsed
          early in
      (
        (
          s,
          deliver o digest allowed origin print at name r.next_id (presented ticket)
              (open_room at.upgrade.now name (record v { rooms = update name r v.rooms })).0,
        ),
        joined,
        rw (delivered name r (presented ticket) v) counted,
      )
