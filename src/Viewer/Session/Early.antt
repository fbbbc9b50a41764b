-- ===== src/Viewer/Session/Early.antt =====
-- Candidates that come before the description they belong to.
use laptop_as_a_second_monit.Common.{
  ℕ, codes, ◌∙◌, Option, none, ◌+◌, ◌≤◌, ◌<◌, ◌≡◌, refl, sym, subst, ap, true, false, some, List,
  [], ◌∷◌, ◌++◌, map, Str, length, length-append, arith, All, append_nil,
}
use laptop_as_a_second_monit.Protocol.Message.{SdpType, offer, answer, relay, description}
use laptop_as_a_second_monit.Viewer.Session.State.{
  Peer, Candidate, Session, Input, Socket, opening, ready, gone, Effect, transmit, set_remote,
  add_candidate, connection_stats, ◌>>>◌,
}
use laptop_as_a_second_monit.Viewer.Session.State.Methods.{mark, send}
use laptop_as_a_second_monit.Viewer.Session.Direct.{
  Attempt, fine, ◌>>?◌, send_local, send_description,
}
use laptop_as_a_second_monit.Viewer.Session.Messages.{
  add_candidates, flush_pending, answer_offer, describe, describe_peer, on_description, has_remote,
  on_ice, on_ice_peer, max_pending, with_remote,
}

-- The candidates come one by one.
unfoldable pub on_ices : Input → List Candidate → Session → Attempt
on_ices input [] s = fine (s, [])
on_ices input (c ∷ cs) s = on_ice input c s >>? on_ices input cs

-- The session that keeps them.
abbrev holding : List Candidate → Session → Session
holding cs s = record s { pending = s.pending ++ cs }

on_ice_held :
    (input : Input) (c : Candidate) (s : Session) (p : Peer)
    → s.peer ≡ some p
    → p.has_remote ≡ false
    → length s.pending < max_pending
    → on_ice input c s ≡ fine (holding (c ∷ []) s, [])
unfolding on_ice on_ice_peer
on_ice_held input c s p q r lt = simp (q, r) (ground arith)

append_snoc :
    (xs : List Candidate) (y : Candidate) (ys : List Candidate)
    → (xs ++ y ∷ []) ++ ys ≡ xs ++ y ∷ ys
append_snoc [] y ys = refl
append_snoc (x ∷ xs) y ys = ap (λ l. x ∷ l) (append_snoc xs y ys)

ices_held :
    (input : Input) (cs : List Candidate) (s : Session) (p : Peer)
    → s.peer ≡ some p
    → p.has_remote ≡ false
    → length s.pending + length cs ≤ max_pending
    → on_ices input cs s ≡ fine (holding cs s, [])
unfolding on_ices ◌>>?◌
ices_held input [] s p q r le = simp (append_nil s.pending) refl
ices_held input (c ∷ cs) s p q r le =
    let next = holding (c ∷ []) s in
    let rest = ices_held input cs next p q r (omega (arith, length-append s.pending (c ∷ []))) in
    simp (on_ice_held input c s p q r (omega arith), rest, append_snoc s.pending c cs) refl

all_added :
    (input : Input) (i : ℕ) (cs : List Candidate)
    → All (λ c. input.accepts c ≡ true) cs
    → add_candidates input i cs ≡ (map (add_candidate i) cs, false)
unfolding add_candidates
all_added input i [] h = refl
all_added input i (c ∷ cs) (h, hs) = simp (all_added input i cs hs, h) refl

-- What an offer is answered with, over an open socket.
abbrev pub answered : SdpType → (generation local : Str) → Option Socket → List Effect
answered answer g l w = []
answered offer g l none = []
answered offer g l (some w) = elim w.ready [
  | opening ↦ []
  | ready ↦ transmit w.id (relay (description answer g l)) ∷ []
  | gone ↦ []
]

-- What a description leads to: the effects, that nothing throws, and that no candidate waits.
abbrev pub IsServed : ℕ → SdpType → Str → List Candidate → List Effect → Attempt → Type 0
IsServed i kind sdp cs last o =
    (o.0.1 ≡ set_remote i kind sdp ∷ connection_stats false ∷ map (add_candidate i) cs ++ last)
    × (o.1 ≡ false)
    × (o.0.0.pending ≡ [])

answer_offer_lem :
    (input : Input) (kind : SdpType) (l : Str) (s : Session)
    → input.local_sdp ≡ some l
    → answer_offer input kind s ≡ fine (s, answered kind s.generation l s.socket)
unfolding answer_offer send_description send_local send
answer_offer_lem input answer l s e = refl
answer_offer_lem input offer l s e = rw e (ground arith)

flushed :
    (input : Input) (i : ℕ) (s : Session)
    → add_candidates input i s.pending ≡ (map (add_candidate i) s.pending, false)
    → flush_pending input i s ≡ fine (record s { pending = [] }, map (add_candidate i) s.pending)
unfolding flush_pending
flushed input i s added = rw added refl

described :
    (input : Input) (kind : SdpType) (sdp l : Str) (t : Session) (p : Peer)
    → input.remote_ok ≡ true
    → input.local_sdp ≡ some l
    → add_candidates input p.id t.pending ≡ (map (add_candidate p.id) t.pending, false)
    → IsServed p.id kind sdp t.pending
        (answered kind t.generation l t.socket)
        (describe_peer input kind sdp (some p) t)
unfolding describe_peer ◌>>?◌ ◌>>>◌ mark
described input kind sdp l t p ok made added =
    let u = (mark input (codes "sdpMs") (record t { peer = with_remote p })).0 in
    simp
      (
        ok,
        flushed input p.id u added,
        answer_offer_lem input kind l (record u { pending = [] }) made,
      )
      (refl, refl, refl)

-- A first description keeps the connection that it is for.
on_description_lem :
    (input : Input) (kind : SdpType) (sdp : Str) (s : Session) (p : Peer)
    → s.peer ≡ some p
    → p.has_remote ≡ false
    → on_description input kind sdp s ≡ describe_peer input kind sdp (some p) s
unfolding on_description describe ◌>>?◌
on_description_lem input answer sdp s p q r = ap (λ o. describe_peer input answer sdp o s) q
on_description_lem input offer sdp s p q r =
    simp (ap has_remote q ∙ r) (ap (λ o. describe_peer input offer sdp o s) q)

-- Where none waits yet, candidates that come before the description wait for it, up to 128. Where the browser
-- takes the description and the candidates, they are given to the connection in the order in which they came,
-- after the description, and none waits any longer; an offer is answered after that, where the socket is
-- open, with the description that the browser makes.
pub on_ices-on_description :
    (input : Input) (kind : SdpType) (cs : List Candidate) (sdp l : Str) (s : Session) (p : Peer)
    → s.peer ≡ some p
    → p.has_remote ≡ false
    → s.pending ≡ []
    → length cs ≤ 128
    → input.remote_ok ≡ true
    → input.local_sdp ≡ some l
    → All (λ c. input.accepts c ≡ true) cs
    → IsServed p.id kind sdp cs
        (answered kind s.generation l s.socket)
        (on_ices input cs s >>? on_description input kind sdp)
unfolding ◌>>?◌
on_ices-on_description input kind cs sdp l s p q r e le ok made h =
    let held = ices_held input cs s p q r (ground arith) in
    let t = holding cs s in
    let last = answered kind s.generation l s.socket in
    let all_cs : t.pending ≡ cs = ap (λ l. l ++ cs) e in
    let added : add_candidates input p.id t.pending ≡ (map (add_candidate p.id) t.pending, false) =
      subst (λ l. add_candidates input p.id l ≡ (map (add_candidate p.id) l, false)) (sym all_cs)
        (all_added input p.id cs h) in
    let served =
      subst (λ l. IsServed p.id kind sdp l last (describe_peer input kind sdp (some p) t)) all_cs
        (described input kind sdp l t p ok made added) in
    let first = on_description_lem input kind sdp t p q r in
    subst (λ o. IsServed p.id kind sdp cs last (o >>? on_description input kind sdp)) (sym held)
      (subst (IsServed p.id kind sdp cs last) (sym first) served)
