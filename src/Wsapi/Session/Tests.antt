-- ===== src/Wsapi/Session/Tests.antt =====
-- A connection with tokens counted in whole ones, on a small hub.
use noitu.Prelude.{
  ℕ, ◌+◌, ◌-◌, ◌*◌, ◌≡◌, refl, true, false, ◌&&◌, List, [], ◌∷◌, ◌++◌, Option, none, some, Text,
  codes, min, ltb, leb, same, if◌then◌else◌, arith, ◌==◌,
}
use noitu.Vietnamese.{Unicode}
use noitu.Wsapi.Nickname.{Tables}
use noitu.Wsapi.RateLimit.{Tokens, KeyedLimiter, new_keyed_limiter, new_bucket, spend}
use noitu.Wsapi.Message.{pong_msg}
use noitu.Wsapi.Room.Loop.{submit_word}
use noitu.Wsapi.Hub.{new_hub, to_room, send_room, call_quick_match}
use noitu.Wsapi.Session.{Desk, Rates, new_connection}
use noitu.Wsapi.Session.Outbox.{Outbox, IsSent, send_frame-IsSent}
use noitu.Wsapi.Session.Dispatch.{
  ClientMessage, DeskView, dispatch, is_hello, route, to_room_input, charge, to_bound_room, forward,
  hello, submit_word_msg, report_word_msg,
}
use noitu.Wsapi.Session.Serve.{
  SessionEvent, frame_read, seated, released, others_call, serve, finish_run,
}
use noitu.Wsapi.Session.Answers.{Speaks}
use noitu.Wsapi.Session.Routes.{dispatch-Speaks}
use noitu.Wsapi.Session.Spoken.{may_move}
use noitu.Wsapi.Session.Notices.{apart, held_seat}
use noitu.Wsapi.Session.Leaving.{
  IsGone, Move, sits, takes_notice, moves, seats_of, finish_run-IsGone,
}
use noitu.Wsapi.Session.Handshake.{IsGated, dispatch-IsGated}
use noitu.Wsapi.Session.Budgets.{Sound, new_desk, serve-IsSound}

abbrev whole : Tokens
whole = record {
  F = ℕ;
  of_nat = λ n. n;
  refill = λ cap tokens elapsed rate. min cap (tokens + elapsed * rate);
  below_one = λ tokens. ltb tokens 1;
  minus_one = λ tokens. tokens - 1;
}

abbrev tables : Tables
tables = record {
  nfc = λ s. s;
  is_control = λ c. ltb c 32;
  is_format = λ c. leb 0x200B c && leb c 0x200F;
  is_print = λ c. leb 32 c;
  is_mark = λ c. leb 0x300 c && leb c 0x36F;
}

abbrev plain : Unicode
plain = record { nfc = λ s. s; to_lower = λ c. c }

abbrev limits : KeyedLimiter whole
limits = new_keyed_limiter whole 1 5 60

abbrev rates : Rates whole
rates = record {
  submits_per_second = 5;
  rooms_per_second = 1;
  chats_per_second = 1;
  frames_per_second = 20;
}

abbrev fresh : Desk whole
fresh =
    new_desk whole rates 7 (codes "id") (codes "token") (codes "1.2.3.4") 100 (new_hub 10) limits
      limits

abbrev view : DeskView
view = record {
  now = 101;
  hub_view = record { draws = codes "ABCDEF" ∷ []; gone = λ s. false; takes = λ code. true };
  live = λ code. true;
  ended = λ code. false;
  room_of = λ s. none;
}

abbrev playing : Desk whole
playing = record fresh {
  conn = record fresh.conn { room = some (codes "ABCDEF", codes "p1"); greeted = true };
}

dispatch-Speaks_example :
    Speaks
      (may_move whole view playing)
      playing.conn.sess
      playing.conn.room
      playing.hub.log
      (dispatch whole tables
        (λ name. false)
        plain
        view
        (submit_word_msg (codes "con ma") 1)
        playing).0.hub.log
dispatch-Speaks_example =
    dispatch-Speaks whole tables (λ name. false) plain view (submit_word_msg (codes "con ma") 1)
      playing

forwarded :
    (dispatch whole tables
      (λ name. false)
      plain
      view
      (submit_word_msg (codes "con ma") 1)
      playing).0.hub.log
    ≡ to_room (codes "ABCDEF") (submit_word 7 (codes "p1") (codes "con ma") 1) ∷ []
unfolding dispatch is_hello route to_room_input charge to_bound_room forward send_room spend
    new_bucket new_connection new_hub
forwarded = refl

dispatch-IsGated_example :
    IsGated whole tables
      (λ name. false)
      plain
      view
      (hello 2 (codes "Minh") [])
      fresh
      (dispatch whole tables (λ name. false) plain view (hello 2 (codes "Minh") []) fresh)
dispatch-IsGated_example =
    dispatch-IsGated whole tables (λ name. false) plain view (hello 2 (codes "Minh") []) fresh

-- A frame of an `r` and a word, or of an `h`.
abbrev unmarshal : Text → Option ClientMessage
unmarshal [] = none
unmarshal (c ∷ rest) = some (if c == 114 then report_word_msg rest else hello 2 rest [])

abbrev events : List SessionEvent
events =
    frame_read view (record { binary = true; raw = codes "hMinh" })
    ∷ seated (codes "ABCDEF") (codes "p1")
    ∷ frame_read view (record { binary = true; raw = codes "rcon ma" })
    ∷ others_call ((view.hub_view, call_quick_match 3) ∷ [])
    ∷ frame_read view (record { binary = true; raw = codes "rcon ma" })
    ∷ released (codes "ABCDEF")
    ∷ []

serve-IsSound_example :
    Sound whole (serve whole tables (λ name. false) plain unmarshal events fresh).0
serve-IsSound_example =
    serve-IsSound whole tables (λ name. false) plain unmarshal events rates 7 (codes "id")
      (codes "token") (codes "1.2.3.4") 100 (new_hub 10) limits limits

abbrev two_seats : List Move
two_seats =
    sits (codes "GHJKLM") (codes "p1")
    ∷ sits (codes "ABCDEF") (codes "p2")
    ∷ takes_notice 1
    ∷ takes_notice 0
    ∷ []

seats_apart : apart (held_seat playing.conn.room ++ seats_of two_seats) ≡ true
unfolding same
seats_apart = refl

finish_run-IsGone_example :
    IsGone whole (seats_of two_seats) playing (finish_run whole (moves whole two_seats playing))
unfolding new_hub
finish_run-IsGone_example = finish_run-IsGone whole two_seats playing seats_apart refl

abbrev one_left : Outbox
one_left = record { frames = codes "a" ∷ []; closed = false }

send_frame-IsSent_example : IsSent (λ m. some (codes "b")) (pong_msg 1 2) one_left (codes "b") true
send_frame-IsSent_example =
    send_frame-IsSent (λ m. some (codes "b")) (pong_msg 1 2) one_left (codes "b") true refl
      (omega arith)
