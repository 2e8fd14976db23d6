-- ===== src/Wsapi/Session.antt =====
-- server/internal/wsapi/session.go: one connection, its budgets, the seat that it is bound to, and
-- its outbox. The goroutines of a connection, its socket and its timers are left out.
pub mod Outbox
pub mod Dispatch
pub mod Serve
pub mod Answers
pub mod Opening
pub mod Spoken
pub mod Routes
pub mod Face
pub mod Kept
pub mod Notices
pub mod Leaving
pub mod Handshake
pub mod Budgets
mod Tests
use noitu.Prelude.{
  ℕ, ◌==◌, Bool, true, false, not, ◌&&◌, List, [], ◌∷◌, ◌++◌, Option, none, some, Text, same,
  if◌then◌else◌,
}
use noitu.Game.State.{PlayerId}
use noitu.Wsapi.RateLimit.{Tokens, Bucket, new_bucket, KeyedLimiter}
use noitu.Wsapi.Message.{ServerMessage}
use noitu.Wsapi.Room.{Session}
use noitu.Wsapi.Room.Loop.{RoomInput, disconnect}
use noitu.Wsapi.Hub.{Hub, HubEffect, tell}

abbrev pub submit_burst : ℕ
submit_burst = 10

abbrev pub chat_burst : ℕ
chat_burst = 5

abbrev pub room_burst : ℕ
room_burst = 5

abbrev pub frame_burst : ℕ
frame_burst = 40

abbrev pub max_word_reports_per_session : ℕ
max_word_reports_per_session = 20

-- A room is named by its code here, as in the hub.
abbrev pub Binding : Type 0
Binding = Option (Text × PlayerId)

module _ (k : Tokens) where
  open k use {F}

  -- What a connection keeps.
  pub record Connection : Type 0 where
    pub sess : Session
    pub id : Text
    pub resume_token : Text
    pub remote_ip : Text
    pub nick : Text
    pub room : Binding
    pub submit_limiter : Bucket k
    pub room_limiter : Bucket k
    pub chat_limiter : Bucket k
    pub frame_limiter : Bucket k
    pub reported_words : List Text
    pub greeted : Bool

  -- The rates of the budgets.
  pub record Rates : Type 0 where
    pub submits_per_second : F
    pub rooms_per_second : F
    pub chats_per_second : F
    pub frames_per_second : F

  -- `newSession`; the two random tokens are given.
  unfoldable pub new_connection : Rates → Session → Text → Text → Text → ℕ → Connection
  new_connection rates sess id token remote_ip now = record {
    sess = sess;
    id = id;
    resume_token = token;
    remote_ip = remote_ip;
    nick = [];
    room = none;
    submit_limiter = new_bucket k rates.submits_per_second submit_burst now;
    room_limiter = new_bucket k rates.rooms_per_second room_burst now;
    chat_limiter = new_bucket k rates.chats_per_second chat_burst now;
    frame_limiter = new_bucket k rates.frames_per_second frame_burst now;
    reported_words = [];
    greeted = false;
  }

  -- The notice to a room that a connection has left for another.
  unfoldable pub moved_from : Session → Text → Binding → List (Text × RoomInput)
  moved_from sess code none = []
  moved_from sess code (some (old, p)) = if same old code then [] else (old, disconnect sess p) ∷ []

  -- `session.attach`, with the notice that it sends.
  unfoldable pub attach_seat : Text → PlayerId → Connection → Connection × List (Text × RoomInput)
  attach_seat code p c = (record c { room = some (code, p) }, moved_from c.sess code c.room)

  -- Whether a connection is bound to a room.
  unfoldable pub bound_to : Text → Binding → Bool
  bound_to code none = false
  bound_to code (some (room, p)) = same room code

  -- `session.release`.
  unfoldable pub release_seat : Text → Connection → Connection
  release_seat code c = if bound_to code c.room then record c { room = none } else c

  unfoldable pub gone_from : Session → Binding → List (Text × RoomInput)
  gone_from sess none = []
  gone_from sess (some (code, p)) = (code, disconnect sess p) ∷ []

  -- `session.leaveRoom`.
  unfoldable pub leave_notice : Connection → List (Text × RoomInput)
  leave_notice c = gone_from c.sess c.room

  -- A connection, and what the server shares: its hub, and the limits by address. `notices` are the
  -- ones to earlier rooms that goroutines of their own still have to hand over.
  pub record Desk : Type 0 where
    pub conn : Connection
    pub notices : List (Text × RoomInput)
    pub hub : Hub
    pub join_limiter : KeyedLimiter k
    pub room_limiters : KeyedLimiter k

  -- `s.send(m)`.
  unfoldable pub reply : ServerMessage → Desk → Desk
  reply m st = record st { hub = record st.hub { log = st.hub.log ++ tell st.conn.sess m ∷ [] } }
