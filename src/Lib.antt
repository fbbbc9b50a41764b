-- ===== src/Lib.antt =====
-- A model of the signaling worker of Laptop Monitor and of its receiver, with the theorems
-- that make them correct.
--
-- A laptop's browser (the receiver, or viewer) shows the desktop of another computer (the host) over
-- WebRTC. The two find each other through a Cloudflare worker. A host connects by WebSocket to the room
-- that its credential names, and registers hashes of short pairing codes, each in a directory entry of
-- its own. A viewer sends a typed code to "/pair"; the worker looks up the room, which gives out a ticket
-- for one use, and the viewer presents the ticket on a WebSocket of its own. Once a room has one host
-- and one viewer, it starts a generation and passes offers, answers and candidates between the two.
--
-- Parts, and where they stand:
--   Common      what the parts share: tests, lists, JavaScript strings as lists of UTF-16 code units.
--   Protocol    shared/protocol.ts. Message: constants and message types. Json: what `JSON.parse`
--               returns and the tests of `typeof`. Pattern: the regular expressions. Parse: `parseClient`.
--               Encode: the messages that the protocol allows, and the JSON that stands for them.
--               Code: `normalizeCode`, and `randomCode` of viewer/src/main.ts. Hex: `hex`, `sha256Hex`,
--               `roomForSecret`.
--   Signaling   signaling/src/index.ts. Hash: `timingSafeEqualHex`. Directory: the object `Code`.
--               Room: the object `Room`. Room.State: attachments, storage and the alarm as a record.
--               Room.Pairing: `claim`, `consumeTicket`, `tokenValid`, `pairingFailure`, `throttled`.
--               Room.Message: `startGeneration` and the branch of "auth"; Room.Message.Dispatch: the
--               other branches and `webSocketMessage`.
--               Room.Lifecycle: `fetch`, `webSocketClose`, `webSocketError`, `depart`, `alarm`, and a run
--               of events. Worker: the exported `fetch` with `cors` and `json`.
--   Viewer      viewer/src. Probe: probe.ts; Rtp: `rtpAfter`. Grid: `lumaFromRgb`, `lumaGridFromPlane`,
--               `lumaGrid`. Frames: `readFrame`, `frameGrid`. Session: session.ts, the class `Session`.
--               Session.State: its fields, and its smallest methods in State.Methods. Session.Signals:
--               `start`, `pair`, `open` with the handlers of the socket, the heartbeat and the retry timer.
--               Session.Direct: `createPeer`, `reconnectDirect`, the handlers of the peer connection in
--               Direct.Handlers, and the channel in Direct.HostChannel.
--               Session.Messages: `message` and `onmessage`. Session.Run: any sequence of events.
--               Telemetry: telemetry.ts, with the class `ReceiverStats` in Telemetry.Sampler.
--               Preferences: preferences.ts, what is read; Preferences.Stored: what is written.
--               Stage: stage.ts. Stage.State: the fields of `Stage` with its elements, and its methods.
--               Stage.Run: its listeners, and any sequence of events. Stage.Frames: `probe` and `mark`.
--               Dashboard: dashboard.ts, what is kept; Dashboard.Panel: what `render` shows.
--               Page: main.ts. Page.State: the form, the stage and the sessions that were started, with
--               `say`, `showStage`, `showPairing`, `forget`, `stop`. Page.Handlers: `start` and the
--               handlers that it gives to a session. Page.Run: the listeners of the page, and any
--               sequence of events. Page.Boot: what the page does when it is loaded.
--   System      The page with its session, and the worker, together: what they send each other when a code
--               is typed. Requests: the worker's side. Receiver: the session's side.
--
-- An operation takes the state and returns the new state with what it sends and closes, in order. The
-- clock and the random texts are an input, and each handler runs as one step: the runtime holds other
-- events back while a handler waits for its storage. The clock of a worker stands still while it
-- computes, so a handler reads one time. The page hands each event to the session it belongs to and then
-- does what the session asks for; a session that was replaced goes on being one that events can come to.
-- An answer that the stage or a session waits for (a screen lock, a frame, a socket) is an event.
--
-- What is not in the repository is a parameter: `JSON.parse` (any function from texts to values),
-- SHA-256 (any function from texts to bytes, of 32 bytes where a theorem needs it), the table behind
-- `toUpperCase` outside ASCII, the verdict of the platform's rate limit, the parser of
-- addresses and the coding of `encodeURIComponent`, what the browser's connections
-- and statistics bring, the arithmetic of doubles in the telemetry and their printing in the panel,
-- `JSON.stringify` of what the page saves, and `btoa`.
--
-- Loops are structural recursion over lists, or over the number of rounds that are left, so nothing runs
-- out of fuel. Times and counts are natural numbers, whose subtraction stops at 0: `now - window` is 0
-- where the clock has gone back, and like the source's negative number it is then not above a limit.
--
-- Not modelled: the host and the driver (C++), log lines, headers without a condition, the interleaving
-- of a handler's waits for SHA-256, of the receiver's waits for its browser, the rounding errors of binary
-- fractions, and of the receiver's page the drawing of the test pattern, the question for a screen to
-- share, the picture that a mark saves, and the document's elements for the rows of the panel. A stored
-- room or token that is no text is taken not to match its pattern.
pub mod Common
pub mod Protocol
pub mod Signaling
pub mod Viewer
pub mod System
