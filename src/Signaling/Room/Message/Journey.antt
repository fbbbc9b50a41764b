-- ===== src/Signaling/Room/Message/Journey.antt =====
-- A viewer's way into a room: a claim, the ticket, later the token; and what a kick takes away.
use laptop_as_a_second_monit.Common.{
  ℕ, suc, ◌+◌, ◌≤◌, ◌<◌, ◌≡◌, refl, ap, ◌≢◌, true, false, Option, none, some, List, [], ◌∷◌, Str,
  arith, ◌∙◌, ltb, length, any,
}
use laptop_as_a_second_monit.Protocol.Message.{host, viewer, paired, auth_viewer}
use laptop_as_a_second_monit.Protocol.Hex.{Digest}
use laptop_as_a_second_monit.Signaling.Room.State.{
  Attachment, Socket, Room, Input, peers, is_empty, is_peer, attachment_of, ticket_ttl, unexpired,
  or_empty,
}
use laptop_as_a_second_monit.Signaling.Room.State.Peers.{
  length-filter-attach, peers-revoke, peers_host-revoke_viewer,
}
use laptop_as_a_second_monit.Signaling.Room.Pairing.{
  throttled, pairing_failure, consume_ticket, remove_first, token_valid, issue_ticket, claim,
}
use laptop_as_a_second_monit.Signaling.Room.Pairing.Tickets.{
  IsDigest, fits, consume_ticket-any, claim-fits,
}
use laptop_as_a_second_monit.Signaling.Room.Message.Generation.{start_generation_keeps}
use laptop_as_a_second_monit.Signaling.Room.Message.{
  present_token, present, admit_viewer, auth_as_viewer, authenticate,
}
use laptop_as_a_second_monit.Signaling.Room.Message.Dispatch.{kick_viewers}

nothing_held :
    (digest : Digest) (now : ℕ) (ticket token : Option Str) (r : Room)
    → r.tickets ≡ none
    → r.viewer_token ≡ none
    → (present digest now ticket token r).1 ≡ false
unfolding present present_token consume_ticket remove_first token_valid
nothing_held digest now none none r h k = refl
nothing_held digest now none (some t) r h k = ground arith
nothing_held digest now (some t) none r h k = ground arith
nothing_held digest now (some t) (some u) r h k = ground arith

-- A kick leaves no viewer and no generation, and keeps the hosts. No ticket and no token that was
-- given out before is accepted after it, at any time.
pub kick_viewers_revokes :
    (digest : Digest) (later : ℕ) (ticket token : Option Str) (r : Room)
    → (peers viewer (kick_viewers r).0.sockets ≡ [])
      × (peers host (kick_viewers r).0.sockets ≡ peers host r.sockets)
      × ((kick_viewers r).0.generation ≡ none)
      × ((present digest later ticket token (kick_viewers r).0).1 ≡ false)
unfolding kick_viewers
kick_viewers_revokes digest later ticket token r = (
  peers-revoke viewer r.sockets,
  peers_host-revoke_viewer r.sockets,
  refl,
  nothing_held digest later ticket token (kick_viewers r).0 refl refl,
)

-- What a claim that was answered by a ticket found, and what it leaves alone.
claim_found :
    (digest : Digest) (input : Input) (code_hash : Str) (r : Room) {room ticket : Str}
    → (claim digest input code_hash r).1 ≡ paired room ticket
    → (throttled input.now r ≡ false)
      × (is_empty (peers host r.sockets) ≡ false)
      × (is_empty (peers viewer r.sockets) ≡ true)
      × ((claim digest input code_hash r).0.sockets ≡ r.sockets)
      × ((claim digest input code_hash r).0.failures ≡ r.failures)
      × (ticket ≡ input.random_hex)
unfolding claim pairing_failure issue_ticket
claim_found digest input code_hash r h = ground arith

-- The throttle does not come on by itself.
throttled_later :
    (now later : ℕ) (r s : Room)
    → s.failures ≡ r.failures
    → now ≤ later
    → throttled now r ≡ false
    → throttled later s ≡ false
unfolding throttled
throttled_later now later r s same h k = ground arith

-- The socket that is admitted counts as the viewer.
admit_viewer_count :
    (digest : Digest) (input : Input) (i : ℕ) (a : Attachment) (live : Option Str) (r : Room)
    → attachment_of i r.sockets ≡ some a
    → a.is_authenticated ≡ false
    → length (peers viewer (admit_viewer digest input i a live r).0.sockets)
      ≡ suc (length (peers viewer r.sockets))
unfolding admit_viewer
admit_viewer_count digest input i a live r h k =
    let b : Attachment = record a { is_authenticated = true; role = some viewer; live = live } in
    rw ((start_generation_keeps input _).0)
      (ground (arith, length-filter-attach (is_peer viewer) i b r.sockets a h))

auth_as_viewer_valid :
    (digest : Digest) (input : Input) (i : ℕ) (a : Attachment) (ticket token live : Option Str)
    (r : Room)
    → throttled input.now r ≡ false
    → is_empty (peers host r.sockets) ≡ false
    → (present digest input.now ticket token r).1 ≡ true
    → is_empty (peers viewer (present digest input.now ticket token r).0.sockets) ≡ true
    → auth_as_viewer digest input i a ticket token live r
      ≡ admit_viewer digest input i a live (present digest input.now ticket token r).0
unfolding auth_as_viewer
auth_as_viewer_valid digest input i a ticket token live r t h v e = ground arith

present_of_ticket :
    (digest : Digest) (now : ℕ) (ticket : Str) (r : Room)
    → ticket ≢ []
    → present digest now (some ticket) none r ≡ consume_ticket digest now ticket r
unfolding present
present_of_ticket digest now [] r h = absurd (h refl)
present_of_ticket digest now (c ∷ t) r h = refl

consume_ticket_sockets :
    (digest : Digest) (now : ℕ) (ticket : Str) (r : Room)
    → (consume_ticket digest now ticket r).0.sockets ≡ r.sockets
unfolding consume_ticket
consume_ticket_sockets digest now ticket r = ground arith

is_empty-length : (ss : List Socket) → is_empty ss ≡ true → length ss ≡ 0
is_empty-length [] h = refl
is_empty-length (s ∷ ss) h = cc

-- At a time, a viewer with a ticket finds the room open for it: no throttle, a host, no viewer, and a
-- stored ticket that it fits.
pub record Offers (digest : Digest) (now : ℕ) (ticket : Str) (r : Room) : Type 0 where
  pub calm : throttled now r ≡ false
  pub hosts : is_empty (peers host r.sockets) ≡ false
  pub viewers : is_empty (peers viewer r.sockets) ≡ true
  pub fits : any (fits digest ticket) (unexpired now (or_empty r.tickets)) ≡ true

-- After a claim that was answered by a ticket, the room is open for it for thirty seconds.
pub claim-Offers :
    (digest : Digest) (input : Input) (code_hash : Str) (r : Room) (later : ℕ) {room ticket : Str}
    → IsDigest digest
    → (claim digest input code_hash r).1 ≡ paired room ticket
    → input.now ≤ later
    → later < input.now + ticket_ttl
    → Offers digest later ticket (claim digest input code_hash r).0
claim-Offers digest input code_hash r later sha h k l =
    let (calm, hosts, viewers, sockets, failures, same) = claim_found digest input code_hash r h in
    record {
      calm = throttled_later input.now later r (claim digest input code_hash r).0 failures k calm;
      hosts = rw sockets hosts;
      viewers = rw sockets viewers;
      fits = claim-fits digest input code_hash r later sha h l;
    }

-- Where the room is open for a ticket, the socket that presents it in time is the one viewer.
pub Offers-authenticate :
    (digest : Digest) (input : Input) (i : ℕ) (a : Attachment) (ticket : Str) (live : Option Str)
    (r : Room)
    → Offers digest input.now ticket r
    → ticket ≢ []
    → attachment_of i r.sockets ≡ some a
    → a.is_authenticated ≡ false
    → input.now ≤ a.deadline
    → length (
        peers viewer
          (authenticate digest input i a (auth_viewer (some ticket) none live) r).0.sockets)
      ≡ 1
unfolding authenticate
Offers-authenticate digest input i a ticket live r offers given listed fresh early =
    let shown = present_of_ticket digest input.now ticket r given in
    let left : (present digest input.now (some ticket) none r).0.sockets ≡ r.sockets =
      rw shown (consume_ticket_sockets digest input.now ticket r) in
    let valid : (present digest input.now (some ticket) none r).1 ≡ true =
      rw shown (consume_ticket-any digest ticket input.now r offers.fits) in
    let admitted =
      auth_as_viewer_valid digest input i a (some ticket) none live r offers.calm offers.hosts valid
        (rw left offers.viewers) in
    let counted =
      admit_viewer_count digest input i a live (present digest input.now (some ticket) none r).0
        (rw left listed) fresh in
    let on_time : ltb a.deadline input.now ≡ false = ground arith in
    rw (on_time, admitted)
      (counted ∙ ap suc (rw left (is_empty-length (peers viewer r.sockets) offers.viewers)))

-- A viewer that was given a ticket by a claim, and that presents it on a socket that is not a peer
-- before its deadline and within thirty seconds of the claim, with nothing in between, is the one
-- viewer from then on.
pub claim-authenticate :
    (digest : Digest) (first second : Input) (code_hash : Str) (r : Room) (i : ℕ) (a : Attachment)
    (live : Option Str) {room ticket : Str}
    → IsDigest digest
    → first.random_hex ≢ []
    → (claim digest first code_hash r).1 ≡ paired room ticket
    → attachment_of i r.sockets ≡ some a
    → a.is_authenticated ≡ false
    → second.now ≤ a.deadline
    → first.now ≤ second.now
    → second.now < first.now + ticket_ttl
    → length (
        peers viewer
          (authenticate digest second i a
            (auth_viewer (some ticket) none live)
            (claim digest first code_hash r).0).0.sockets)
      ≡ 1
claim-authenticate digest first second code_hash r i a live sha filled h listed fresh early k l =
    let (calm, hosts, viewers, sockets, failures, same) = claim_found digest first code_hash r h in
    Offers-authenticate digest second i a _ live (claim digest first code_hash r).0
      (claim-Offers digest first code_hash r second.now sha h k l) (rw same filled)
      (rw sockets listed) fresh early
