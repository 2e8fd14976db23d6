-- ===== src/Wsapi/Session/Dispatch.antt =====
-- server/internal/wsapi/dispatch.go: what one client message does. Each function takes a desk to the
-- desk after it, and every message and every input that it sends is appended to the hub's log.
use noitu.Prelude.{
  ℕ, Bool, true, false, not, ◌&&◌, ◌∷◌, Option, none, some, Text, contains, null, length, leb, ◌==◌,
  if◌then◌else◌,
}
use noitu.Vietnamese.{Unicode, normalize, has_enough_syllables}
use noitu.Game.State.{PlayerId}
use noitu.Wsapi.Nickname.{Tables, sanitize_text, sanitize_nickname, max_nickname_marks}
use noitu.Wsapi.RateLimit.{Tokens, spend, allow}
use noitu.Wsapi.Message.{
  milliseconds, ServerMessage, ErrCode, error_msg, welcome_msg, pong_msg, quick_match_status_msg,
  word_reported_msg, WireDifficulty, difficulty_of, protocol_version, handshake_required,
  protocol_version_mismatch, already_greeted, session_not_resumable, game_already_over, busy,
  too_fast, too_many_rooms, already_in_a_game, already_in_a_room, already_queued,
  unknown_difficulty, too_many_attempts, room_not_found, not_in_a_game, not_in_a_room,
  unknown_message, word_report_refused, word_report_limit,
}
use noitu.Wsapi.Room.{Session, max_word_runes}
use noitu.Wsapi.Room.Lobby.{LobbyAction, ready_action, start_action, kick_action, leave_action}
use noitu.Wsapi.Room.Loop.{
  RoomInput, submit_word, lobby, say, give_up, claim_dead_end, report_word, resume,
}
use noitu.Wsapi.Hub.{
  Hub, HubView, HubError, err_already_queued, register, resumable_session, start_bot_room,
  create_room, join_room, quick_match, cancel_quick_match, send_room, room_create_error,
}
use noitu.Wsapi.Session.{Binding, Connection, Desk, reply, max_word_reports_per_session}

pub data ClientMessage : Type 0 where
  -- The protocol version, the nickname and the resume token.
  hello : ℕ → Text → Text → ClientMessage
  start_bot_game : WireDifficulty → ClientMessage
  join_room_msg send_chat kick_player report_word_msg : Text → ClientMessage
  submit_word_msg : Text → ℕ → ClientMessage
  set_ready : Bool → ClientMessage
  create_room_msg quick_match_msg cancel_quick_match_msg resign_msg claim_dead_end_msg :
      ClientMessage
  start_game leave_room_msg : ClientMessage
  ping : ℕ → ClientMessage
  -- An empty payload, or one that this server does not know.
  unknown_payload : ClientMessage

pub data DispatchError : Type 0 where
  err_handshake err_version err_repeated_hello : DispatchError

-- What a message finds outside the connection and the hub's registries: the time, what a call of the
-- hub finds, which rooms count as in play and which have ended, and the seats of other connections.
pub record DeskView : Type 0 where
  pub now : ℕ
  pub hub_view : HubView
  pub live : Text → Bool
  pub ended : Text → Bool
  pub room_of : Session → Binding

-- The budgets that `toRoom` charges.
pub data Budget : Type 0 where
  submit_budget chat_budget : Budget

unfoldable pub not_found : HubError → ServerMessage
not_found e = error_msg room_not_found

unfoldable pub quick_match_error : HubError → ServerMessage
quick_match_error err_already_queued = error_msg already_queued
quick_match_error e = room_create_error e

unfoldable pub is_seated : Binding → Bool
is_seated none = false
is_seated (some b) = true

unfoldable pub is_hello : ClientMessage → Bool
is_hello (hello version nickname token) = true
is_hello _ = false

module _ (k : Tokens) where
  -- `limiter.allow` on a budget of the connection.
  unfoldable pub charge : Budget → ℕ → Desk k → Desk k × Bool
  charge submit_budget now st =
      let (b, ok) = spend k st.conn.submit_limiter now in
      (record st { conn = record st.conn { submit_limiter = b } }, ok)
  charge chat_budget now st =
      let (b, ok) = spend k st.conn.chat_limiter now in
      (record st { conn = record st.conn { chat_limiter = b } }, ok)

  unfoldable pub refuse_with : ErrCode → Desk k → Desk k
  refuse_with code st = reply k (error_msg code) st

  -- `r.send` of an input, and the answer where the room does not take it.
  unfoldable pub forward : DeskView → ErrCode → Text → RoomInput → Desk k → Desk k
  forward v dropped code i st =
      if v.hub_view.takes code
      then record st { hub = send_room v.hub_view code i st.hub }
      else refuse_with dropped st

  -- `toRoom` once the limiter is charged.
  unfoldable pub to_bound_room :
      DeskView → ErrCode → ErrCode → (PlayerId → RoomInput) → Desk k → Desk k
  to_bound_room v not_in dropped build st = elim st.conn.room [
    | none ↦ refuse_with not_in st
    | some (code, p) ↦ forward v dropped code (build p) st
  ]

  -- `toRoom`.
  unfoldable pub to_room_input :
      DeskView → Budget → ErrCode → ErrCode → (PlayerId → RoomInput) → Desk k → Desk k
  to_room_input v budget not_in dropped build st =
      let (charged, ok) = charge budget v.now st in
      if ok then to_bound_room v not_in dropped build charged else refuse_with too_fast charged

  unfoldable pub to_lobby : DeskView → LobbyAction → Desk k → Desk k
  to_lobby v action st =
      to_room_input v submit_budget not_in_a_room not_in_a_room (λ p. lobby st.conn.sess p action)
        st

  -- `allowRoom`, with its answer: the address is charged only where the connection may.
  unfoldable pub allow_room : DeskView → Desk k → Desk k × Bool
  allow_room v st =
      let (b, ok) = spend k st.conn.room_limiter v.now in
      let charged : Desk k = record st { conn = record st.conn { room_limiter = b } } in
      let (l, ok_address) = allow k st.room_limiters st.conn.remote_ip v.now in
      let both : Desk k = record charged { room_limiters = l } in
      if not ok
      then (refuse_with too_many_rooms charged, false)
      else if ok_address
      then (both, true)
      else (refuse_with too_many_rooms both, false)

  -- The test of `refuseMidGame`.
  unfoldable pub is_mid_game : DeskView → Desk k → Bool
  is_mid_game v st = elim st.conn.room [ none ↦ false | some (code, p) ↦ v.live code ]

  -- The room's opening by the hub, and the answer to its error.
  unfoldable pub settle_hub : (HubError → ServerMessage) → Hub × Option HubError → Desk k → Desk k
  settle_hub answer (h, none) st = record st { hub = h }
  settle_hub answer (h, some e) st = reply k (answer e) (record st { hub = h })

  -- What a room budget pays for.
  unfoldable pub with_room_budget : DeskView → (Desk k → Desk k) → Desk k → Desk k
  with_room_budget v act st =
      let (charged, ok) = allow_room v st in if ok then act charged else charged

  unfoldable pub open_bot_game : DeskView → WireDifficulty → Desk k → Desk k
  open_bot_game v level st = elim (difficulty_of level) [
    | none ↦ refuse_with unknown_difficulty st
    | some d ↦ settle_hub room_create_error (start_bot_room v.hub_view st.conn.sess d st.hub) st
  ]

  unfoldable pub open_room_for : DeskView → Desk k → Desk k
  open_room_for v st = settle_hub room_create_error (create_room v.hub_view st.conn.sess st.hub) st

  -- The arm of JoinRoom once the game in play is ruled out.
  unfoldable pub enter_room : DeskView → Text → Desk k → Desk k
  enter_room v code st =
      let (l, ok) = allow k st.join_limiter st.conn.remote_ip v.now in
      let charged : Desk k = record st { join_limiter = l } in
      if ok
      then settle_hub not_found (join_room v.hub_view code st.conn.sess st.hub) charged
      else refuse_with too_many_attempts charged

  unfoldable pub pair_up : DeskView → Desk k → Desk k
  pair_up v st = settle_hub quick_match_error (quick_match v.hub_view st.conn.sess st.hub) st

  unfoldable pub ask_quick_match : DeskView → Desk k → Desk k
  ask_quick_match v st =
      if is_seated st.conn.room
      then refuse_with already_in_a_room st
      else with_room_budget v (pair_up v) st

  -- What a game in play rules out.
  unfoldable pub unless_mid_game : DeskView → (Desk k → Desk k) → Desk k → Desk k
  unless_mid_game v act st = if is_mid_game v st then refuse_with already_in_a_game st else act st

  -- `resumeFrom`.
  unfoldable pub resume_from : DeskView → Session → Desk k → Desk k
  resume_from v prior st = elim (v.room_of prior) [
    | none ↦ refuse_with game_already_over st
    | some (code, p) ↦
        if v.hub_view.takes code
        then record st {
          hub = send_room v.hub_view code (resume st.conn.sess p (some prior)) st.hub;
        }
        else refuse_with (if v.ended code then game_already_over else busy) st
  ]

  -- The switch of `handleHello` on what a token resolves to.
  unfoldable pub answer_token : DeskView → Text → Option Session → Desk k → Desk k
  answer_token v token (some prior) st =
      if prior == st.conn.sess then st else resume_from v prior st
  answer_token v token none st = if null token then st else refuse_with session_not_resumable st

  module _ (t : Tables) (denylisted : Text → Bool) (u : Unicode) where
    -- `handleHello` once it may greet.
    unfoldable pub greet : DeskView → Text → Text → Desk k → Desk k
    greet v nickname token st =
        let named : Connection k = record st.conn {
          greeted = true;
          nick = sanitize_nickname t denylisted nickname;
        } in
        let known : Desk k = record st {
          conn = named;
          hub = register named.sess named.resume_token st.hub;
        } in
        let welcomed =
          reply k (welcome_msg named.id named.resume_token protocol_version named.nick) known in
        answer_token v token (resumable_session token welcomed.hub) welcomed

    unfoldable pub handle_hello :
        DeskView → ℕ → Text → Text → Desk k → Desk k × Option DispatchError
    handle_hello v version nickname token st =
        if not (version == protocol_version)
        then (refuse_with protocol_version_mismatch st, some err_version)
        else if st.conn.greeted
        then (refuse_with already_greeted st, some err_repeated_hello)
        else (greet v nickname token st, none)

    -- A report that is a word of this server: filed, counted once.
    unfoldable pub file_word : Text → Desk k → Desk k
    file_word word st = record st {
      conn = record st.conn { reported_words = word ∷ st.conn.reported_words };
    }

    unfoldable pub pass_report : DeskView → Text → Desk k → Desk k
    pass_report v word st = elim st.conn.room [
      | none ↦ reply k (word_reported_msg word) st
      | some (code, p) ↦ forward v busy code (report_word st.conn.sess word) st
    ]

    unfoldable pub report_one : DeskView → Text → Desk k → Desk k
    report_one v word st =
        if contains st.conn.reported_words word
        then pass_report v word st
        else if leb max_word_reports_per_session (length st.conn.reported_words)
        then refuse_with word_report_limit st
        else pass_report v word (file_word word st)

    unfoldable pub read_report : DeskView → Text → Desk k → Desk k
    read_report v raw st =
        elim (normalize u (sanitize_text t raw max_word_runes max_nickname_marks)) [
          | none ↦ refuse_with word_report_refused st
          | some (word, syllables) ↦
              if has_enough_syllables syllables
              then report_one v word st
              else refuse_with word_report_refused st
        ]

    -- `handleReportWord`.
    unfoldable pub handle_report : DeskView → Text → Desk k → Desk k
    handle_report v raw st =
        let (charged, ok) = charge chat_budget v.now st in
        if ok then read_report v raw charged else refuse_with too_fast charged

    -- The arm of the switch that a message after the handshake takes.
    unfoldable pub route : DeskView → ClientMessage → Desk k → Desk k × Option DispatchError
    route v (hello version nickname token) st = handle_hello v version nickname token st
    route v (start_bot_game level) st =
        (unless_mid_game v (with_room_budget v (open_bot_game v level)) st, none)
    route v create_room_msg st = (unless_mid_game v (with_room_budget v (open_room_for v)) st, none)
    route v (join_room_msg code) st = (unless_mid_game v (enter_room v code) st, none)
    route v quick_match_msg st = (unless_mid_game v (ask_quick_match v) st, none)
    route v cancel_quick_match_msg st = (
      reply k (quick_match_status_msg false)
          (record st { hub = cancel_quick_match st.conn.sess st.hub }),
      none,
    )
    route v (submit_word_msg word turn_seq) st = (
      to_room_input v submit_budget not_in_a_game busy
          (λ p. submit_word st.conn.sess p word turn_seq) st,
      none,
    )
    route v resign_msg st = (
      to_room_input v submit_budget not_in_a_game game_already_over (λ p. give_up st.conn.sess p)
          st,
      none,
    )
    route v claim_dead_end_msg st = (
      to_room_input v submit_budget not_in_a_game busy (λ p. claim_dead_end st.conn.sess p) st,
      none,
    )
    route v (report_word_msg word) st = (handle_report v word st, none)
    route v (set_ready ready) st = (to_lobby v (ready_action ready) st, none)
    route v start_game st = (to_lobby v start_action st, none)
    route v (kick_player target) st = (to_lobby v (kick_action target) st, none)
    route v leave_room_msg st = (to_lobby v leave_action st, none)
    route v (send_chat text) st =
        (to_room_input v chat_budget not_in_a_room busy (λ p. say st.conn.sess p text) st, none)
    route v (ping client_time) st = (reply k (pong_msg client_time (milliseconds v.now)) st, none)
    route v unknown_payload st = (refuse_with unknown_message st, none)

    -- `dispatch`.
    unfoldable pub dispatch : DeskView → ClientMessage → Desk k → Desk k × Option DispatchError
    dispatch v m st =
        if not (is_hello m) && not st.conn.greeted
        then (refuse_with handshake_required st, some err_handshake)
        else route v m st
