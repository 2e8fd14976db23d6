-- ===== src/Wsapi/Session/Serve.antt =====
-- server/internal/wsapi/session.go: the read loop of a connection, what its room and the other
-- connections do between two frames, and its end; codec.go: Decode. Unmarshal is the protobuf
-- library's, so it is a parameter. The rest of a connection's run is goroutines and timers.
use noitu.Prelude.{
  ℕ, zero, suc, Bool, not, List, [], ◌∷◌, ◌++◌, Option, none, some, Text, if◌then◌else◌,
}
use noitu.Vietnamese.{Unicode}
use noitu.Game.State.{PlayerId}
use noitu.Wsapi.Nickname.{Tables}
use noitu.Wsapi.RateLimit.{Tokens, spend}
use noitu.Wsapi.Message.{too_fast, bad_frame}
use noitu.Wsapi.Room.Loop.{RoomInput}
use noitu.Wsapi.Hub.{HubView, HubCall, HubEffect, to_room, cancel_quick_match, calls}
use noitu.Wsapi.Session.{Desk, attach_seat, release_seat, leave_notice}
use noitu.Wsapi.Session.Dispatch.{ClientMessage, DispatchError, DeskView, refuse_with, dispatch}

pub record Frame : Type 0 where
  pub binary : Bool
  pub raw : Text

pub data ReadError : Type 0 where
  err_flood err_decode : ReadError
  err_dispatch : DispatchError → ReadError

-- What happens to a connection that is served. A room takes one of the pending notices, whichever
-- its goroutine is, or has finished, so that the goroutine gives up.
pub data SessionEvent : Type 0 where
  frame_read : DeskView → Frame → SessionEvent
  seated : Text → PlayerId → SessionEvent
  released : Text → SessionEvent
  notice_taken notice_dropped : ℕ → SessionEvent
  others_call : List (HubView × HubCall) → SessionEvent

-- The element at a place, and the others.
unfoldable pub take_at : {A : Type 0} → ℕ → List A → Option (A × List A)
take_at n [] = none
take_at zero (x ∷ xs) = some (x, xs)
take_at (suc n) (x ∷ xs) = elim (take_at n xs) [ none ↦ none | some (y, ys) ↦ some (y, x ∷ ys) ]

module _ (unmarshal : Text → Option ClientMessage) where
  -- `Decode`; `none` is its error.
  unfoldable pub decode_frame : Frame → Option ClientMessage
  decode_frame f = if not f.binary then none else unmarshal f.raw

module _ (k : Tokens) where
  unfoldable pub notify_rooms : List (Text × RoomInput) → List HubEffect
  notify_rooms [] = []
  notify_rooms ((code, i) ∷ rest) = to_room code i ∷ notify_rooms rest

  -- The seat that a room binds the connection to. The notice to the room before it is left to a
  -- goroutine of its own.
  unfoldable pub bind_seat : Text → PlayerId → Desk k → Desk k
  bind_seat code p st =
      let (c, notices) = attach_seat k code p st.conn in
      record st { conn = c; notices = st.notices ++ notices }

  -- `sendReliably` of the pending notice at this place, to a room that takes it.
  unfoldable pub hand_over : ℕ → Desk k → Desk k
  hand_over n st = elim (take_at n st.notices) [
    | none ↦ st
    | some (notice, rest) ↦ record st {
      notices = rest;
      hub = record st.hub { log = st.hub.log ++ notify_rooms (notice ∷ []) };
    }
  ]

  -- The same, where the room has finished.
  unfoldable pub give_up_notice : ℕ → Desk k → Desk k
  give_up_notice n st = elim (take_at n st.notices) [
    | none ↦ st
    | some (notice, rest) ↦ record st { notices = rest }
  ]

  unfoldable pub leave_seat : Text → Desk k → Desk k
  leave_seat code st = record st { conn = release_seat k code st.conn }

  -- What `run` defers, in the order in which it happens.
  unfoldable pub finish_run : Desk k → Desk k
  finish_run st =
      let h = cancel_quick_match st.conn.sess st.hub in
      record st { hub = record h { log = h.log ++ notify_rooms (leave_notice k st.conn) } }

  unfoldable pub read_error : Desk k × Option DispatchError → Desk k × Option ReadError
  read_error (st, none) = (st, none)
  read_error (st, some e) = (st, some (err_dispatch e))

  module _ (t : Tables) (denylisted : Text → Bool) (u : Unicode)
      (unmarshal : Text → Option ClientMessage) where
    unfoldable pub read_message : DeskView → Frame → Desk k → Desk k × Option ReadError
    read_message v f st = elim (decode_frame unmarshal f) [
      | none ↦ (refuse_with k bad_frame st, some err_decode)
      | some m ↦ read_error (dispatch k t denylisted u v m st)
    ]

    -- The body of `readLoop`'s loop, on a frame that was read.
    unfoldable pub read_frame : DeskView → Frame → Desk k → Desk k × Option ReadError
    read_frame v f st =
        let (b, ok) = spend k st.conn.frame_limiter v.now in
        let charged : Desk k = record st { conn = record st.conn { frame_limiter = b } } in
        if ok then read_message v f charged else (refuse_with k too_fast charged, some err_flood)

    unfoldable pub on_event : SessionEvent → Desk k → Desk k × Option ReadError
    on_event (frame_read v f) st = read_frame v f st
    on_event (seated code p) st = (bind_seat code p st, none)
    on_event (notice_taken n) st = (hand_over n st, none)
    on_event (notice_dropped n) st = (give_up_notice n st, none)
    on_event (released code) st = (leave_seat code st, none)
    on_event (others_call cs) st = (record st { hub = calls cs st.hub }, none)

    -- The loop, up to the error that ends it.
    unfoldable pub serve : List SessionEvent → Desk k → Desk k × Option ReadError
    serve [] st = (st, none)
    serve (e ∷ es) st = elim (on_event e st).1 [
      | none ↦ serve es (on_event e st).0
      | some err ↦ ((on_event e st).0, some err)
    ]
