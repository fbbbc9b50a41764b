-- ===== src/Signaling/Room/State.antt =====
-- What a `Room` keeps: the attachment of each socket, the stored values and the alarm. An operation
-- returns the new room and what it sends, in order. Sockets are named by numbers: the runtime's list
-- holds each socket from `acceptWebSocket` until it is disconnected.
pub mod Peers
use laptop_as_a_second_monit.Common.{
  ℕ, ◌+◌, ◌*◌, Bool, true, false, ◌&&◌, Option, none, some, List, [], ◌∷◌, ◌++◌, map, Str, codes,
  filter, length, ltb, ◌==◌, if◌then◌else◌,
}
use laptop_as_a_second_monit.Protocol.Message.{Role, host, viewer, ServerMessage, error}

abbrev pub token_ttl : ℕ
token_ttl = 12 * 60 * 60 * 1000

abbrev pub ticket_ttl : ℕ
ticket_ttl = 30000

abbrev pub max_tickets : ℕ
max_tickets = 4

abbrev pub auth_deadline : ℕ
auth_deadline = 10000

abbrev pub max_pair_failures : ℕ
max_pair_failures = 10

pub record Attachment : Type 0 where
  pub role : Option Role
  pub is_authenticated : Bool
  pub deadline : ℕ
  pub window : ℕ
  pub count : ℕ
  pub live : Option Str

-- A stored code, ticket or viewer token.
pub record Stored : Type 0 where
  pub hash : Str
  pub expires : ℕ

pub record Failures : Type 0 where
  pub count : ℕ
  pub window : ℕ

pub record Socket : Type 0 where
  pub id : ℕ
  pub attachment : Attachment

-- `none` is a key that is not in the storage, and an alarm that is not set.
pub record Room : Type 0 where
  pub name : Str
  pub sockets : List Socket
  pub next_id : ℕ
  pub codes : Option (List Stored)
  pub tickets : Option (List Stored)
  pub viewer_token : Option Stored
  pub failures : Option Failures
  pub generation : Option Str
  pub alarm : Option ℕ

pub data Effect : Type 0 where
  send : ℕ → ServerMessage → Effect
  close : ℕ → (code : ℕ) → Str → Effect
  register : (hash room : Str) (ttl_ms : ℕ) → Effect

-- What an operation reads from outside: `Date.now()`, the random text of `randomHex(32)` and the one
-- of `crypto.randomUUID()`.
pub record Input : Type 0 where
  pub now : ℕ
  pub random_hex : Str
  pub random_uuid : Str

abbrev pub Outcome : Type 0
Outcome = Room × List Effect

abbrev pub same_role : Role → Role → Bool
same_role host host = true
same_role viewer viewer = true
same_role _ _ = false

abbrev pub has_role : Role → Option Role → Bool
has_role r none = false
has_role r (some q) = same_role q r

abbrev pub is_peer : Role → Attachment → Bool
is_peer r a = a.is_authenticated && has_role r a.role

-- `this.peers(role)`
abbrev pub peers : Role → List Socket → List Socket
peers r = filter (λ s. is_peer r s.attachment)

-- `this.peers()`
abbrev pub all_peers : List Socket → List Socket
all_peers = filter (λ s. s.attachment.is_authenticated)

-- `list.length === 0`
abbrev pub is_empty {ℓ} : {A : Type ℓ} → List A → Bool
is_empty [] = true
is_empty (_ ∷ _) = false

-- `ws.deserializeAttachment()`
unfoldable pub attachment_of : ℕ → List Socket → Option Attachment
attachment_of i [] = none
attachment_of i (s ∷ ss) = if s.id == i then some s.attachment else attachment_of i ss

-- `ws.serializeAttachment(a)`
unfoldable pub attach : ℕ → Attachment → List Socket → List Socket
attach i a [] = []
attach i a (s ∷ ss) = if s.id == i then record s { attachment = a } ∷ ss else s ∷ attach i a ss

-- The peers of a role lose their authentication, one by one.
abbrev pub revoke_one : Role → Socket → Socket
revoke_one r s =
    if is_peer r s.attachment
    then record s { attachment = record (s.attachment) { is_authenticated = false } }
    else s

unfoldable pub revoke : Role → List Socket → List Socket
revoke r [] = []
revoke r (s ∷ ss) = revoke_one r s ∷ revoke r ss

-- `this.fail(ws, code)`
abbrev pub fail : ℕ → Str → List Effect
fail i code = send i (error code) ∷ close i 1008 code ∷ []

-- One message to each of a list of sockets.
unfoldable pub broadcast : ServerMessage → List Socket → List Effect
broadcast m [] = []
broadcast m (s ∷ ss) = send s.id m ∷ broadcast m ss

-- The stored values that have not expired.
abbrev pub unexpired : ℕ → List Stored → List Stored
unexpired now = filter (λ c. ltb now c.expires)

-- `(await storage.get(key)) ?? []`
abbrev pub or_empty {ℓ} : {A : Type ℓ} → Option (List A) → List A
or_empty none = []
or_empty (some l) = l
