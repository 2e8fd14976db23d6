-- ===== src/Wsapi/Session/Routes.antt =====
-- Every message speaks, and in its own connection's name.
use mathlib.Core.Path.{subst}
use noitu.Prelude.{
  ℕ, ◌≡◌, Bool, true, false, not, ◌&&◌, ◌∷◌, Option, none, some, Text, contains, null, length, leb,
  ◌==◌, if_split, opt_split, arith,
}
use noitu.Vietnamese.{Unicode, normalize, has_enough_syllables}
use noitu.Wsapi.Nickname.{Tables, sanitize_text, max_nickname_marks}
use noitu.Wsapi.RateLimit.{Tokens, spend}
use noitu.Wsapi.Message.{quick_match_status_msg, protocol_version}
use noitu.Wsapi.Room.{Session, max_word_runes}
use noitu.Wsapi.Room.Loop.{report_word, resume}
use noitu.Wsapi.Hub.{to_room, cancel_quick_match, register}
use noitu.Wsapi.Session.{Desk, reply, max_word_reports_per_session}
use noitu.Wsapi.Session.Dispatch.{
  ClientMessage, DispatchError, DeskView, charge, to_lobby, resume_from, answer_token, greet,
  handle_hello, file_word, pass_report, report_one, read_report, handle_report, route, is_hello,
  dispatch, hello, start_bot_game, create_room_msg, join_room_msg, quick_match_msg,
  cancel_quick_match_msg, submit_word_msg, resign_msg, claim_dead_end_msg, report_word_msg,
  set_ready, start_game, kick_player, leave_room_msg, send_chat, ping, unknown_payload,
}
use noitu.Wsapi.Session.Answers.{
  Moves, Adds, Speaks, Adds-none, Speaks-one, Speaks-then, Speaks-tell, eq_refl,
}
use noitu.Wsapi.Session.Opening.{send_room_sent}
use noitu.Wsapi.Session.Spoken.{
  may_move, Spoken, reply-Spoken, refuse_with-Spoken, forward-Spoken, to_room_input-Spoken,
  with_room_budget-Spoken, unless_mid_game-Spoken, open_bot_game-Spoken, open_room_for-Spoken,
  enter_room-Spoken, ask_quick_match-Spoken, bound_room_self,
}

module _ (k : Tokens) where
  resume_from-Spoken :
      (mm : Moves) (v : DeskView) (prior : Session) (st : Desk k)
      → Spoken k mm st (resume_from k v prior st)
  unfolding resume_from
  resume_from-Spoken mm v prior st =
      opt_split (λ st'. Spoken k mm st st') (v.room_of prior) (λ n. refuse_with-Spoken k mm _ st)
        λ b is.
          if_split (λ st'. Spoken k mm st st') (v.hub_view.takes b.0)
            (λ t.
              subst (Speaks mm st.conn.sess st.conn.room st.hub.log)
                (send_room_sent v.hub_view b.0 _ st.hub t)
                (Speaks-one mm st.conn.sess st.conn.room st.hub.log
                  (to_room b.0 (resume st.conn.sess b.1 (some prior))) (eq_refl st.conn.sess)))
            (λ t. refuse_with-Spoken k mm _ st)

  answer_token-Adds :
      (mm : Moves) (v : DeskView) (token : Text) (found : Option Session) (st : Desk k)
      → Adds mm st.conn.sess st.conn.room st.hub.log (answer_token k v token found st).hub.log
  unfolding answer_token
  answer_token-Adds mm v token (some prior) st =
      if_split (λ (st' : Desk k). Adds mm st.conn.sess st.conn.room st.hub.log st'.hub.log)
        (prior == st.conn.sess) (λ y. Adds-none mm st.conn.sess st.conn.room st.hub.log)
        (λ n. (resume_from-Spoken mm v prior st).adds)
  answer_token-Adds mm v token none st =
      if_split (λ (st' : Desk k). Adds mm st.conn.sess st.conn.room st.hub.log st'.hub.log)
        (null token) (λ y. Adds-none mm st.conn.sess st.conn.room st.hub.log)
        (λ n. (refuse_with-Spoken k mm _ st).adds)

  own_seat : (st : Desk k) {c : Bool} → c ≡ true → (st.conn.sess == st.conn.sess && c) ≡ true
  own_seat st at = ground (arith, eq_refl st.conn.sess)

  module _ (t : Tables) (denylisted : Text → Bool) (u : Unicode) where
    pass_report-Spoken :
        (mm : Moves) (v : DeskView) (word : Text) (st : Desk k)
        → Spoken k mm st (pass_report k t denylisted u v word st)
    unfolding pass_report
    pass_report-Spoken mm v word st =
        opt_split (λ st'. Spoken k mm st st') st.conn.room (λ n. reply-Spoken k mm _ st)
          λ b is.
            forward-Spoken k mm v _ b.0 (report_word st.conn.sess word) st
              (bound_room_self st.conn.room st.conn.sess b.0 b.1 is)

    report_one-Spoken :
        (mm : Moves) (v : DeskView) (word : Text) (st : Desk k)
        → Spoken k mm st (report_one k t denylisted u v word st)
    unfolding report_one file_word
    report_one-Spoken mm v word st =
        let filed : Desk k = record st {
          conn = record st.conn { reported_words = word ∷ st.conn.reported_words };
        } in
        if_split (λ st'. Spoken k mm st st') (contains st.conn.reported_words word)
          (λ y. pass_report-Spoken mm v word st)
          λ n.
            if_split (λ st'. Spoken k mm st st')
              (leb max_word_reports_per_session (length st.conn.reported_words))
              (λ f. refuse_with-Spoken k mm _ st) (λ f. pass_report-Spoken mm v word filed)

    greet-Spoken :
        (mm : Moves) (v : DeskView) (nickname token : Text) (st : Desk k)
        → Spoken k mm st (greet k t denylisted u v nickname token st)
    unfolding greet register reply
    greet-Spoken mm v nickname token st =
        Speaks-then mm st.conn.sess st.conn.room
          (Speaks-tell mm st.conn.sess st.conn.room st.hub.log _) (answer_token-Adds mm v token _ _)

    handle_hello-Spoken :
        (mm : Moves) (v : DeskView) (version : ℕ) (nickname token : Text) (st : Desk k)
        → Spoken k mm st (handle_hello k t denylisted u v version nickname token st).0
    unfolding handle_hello
    handle_hello-Spoken mm v version nickname token st =
        let Said : Desk k × Option DispatchError → Type 0 =
          λ (a : Desk k × Option DispatchError). Spoken k mm st a.0 in
        if_split Said (not (version == protocol_version)) (λ n. refuse_with-Spoken k mm _ st)
          (λ y.
            if_split Said st.conn.greeted (λ g. refuse_with-Spoken k mm _ st)
              (λ g. greet-Spoken mm v nickname token st))

    read_report-Spoken :
        (mm : Moves) (v : DeskView) (raw : Text) (st : Desk k)
        → Spoken k mm st (read_report k t denylisted u v raw st)
    unfolding read_report
    read_report-Spoken mm v raw st =
        opt_split (λ st'. Spoken k mm st st')
          (normalize u (sanitize_text t raw max_word_runes max_nickname_marks))
          (λ n. refuse_with-Spoken k mm _ st)
          (λ w is.
            if_split (λ st'. Spoken k mm st st') (has_enough_syllables w.1)
              (λ e. report_one-Spoken mm v w.0 st) (λ e. refuse_with-Spoken k mm _ st))

    handle_report-Spoken :
        (mm : Moves) (v : DeskView) (raw : Text) (st : Desk k)
        → Spoken k mm st (handle_report k t denylisted u v raw st)
    unfolding handle_report charge
    handle_report-Spoken mm v raw st =
        let paid = spend k st.conn.chat_limiter v.now in
        let charged : Desk k = record st { conn = record st.conn { chat_limiter = paid.0 } } in
        if_split (λ st'. Spoken k mm st st') paid.1 (λ y. read_report-Spoken mm v raw charged)
          (λ n. refuse_with-Spoken k mm _ charged)

    route-Spoken :
        (v : DeskView) (m : ClientMessage) (st : Desk k)
        → Spoken k (may_move k v st) st (route k t denylisted u v m st).0
    unfolding route to_lobby cancel_quick_match reply
    route-Spoken v (hello version nickname token) st =
        handle_hello-Spoken _ v version nickname token st
    route-Spoken v (start_bot_game level) st =
        unless_mid_game-Spoken k v _ st
          (with_room_budget-Spoken k v _ st (open_bot_game-Spoken k v level))
    route-Spoken v create_room_msg st =
        unless_mid_game-Spoken k v _ st
          (with_room_budget-Spoken k v _ st (open_room_for-Spoken k v))
    route-Spoken v (join_room_msg code) st =
        unless_mid_game-Spoken k v _ st (enter_room-Spoken k v code st)
    route-Spoken v quick_match_msg st =
        unless_mid_game-Spoken k v _ st (ask_quick_match-Spoken k v st)
    route-Spoken v cancel_quick_match_msg st =
        Speaks-tell _ st.conn.sess st.conn.room st.hub.log (quick_match_status_msg false)
    route-Spoken v (submit_word_msg word turn_seq) st =
        to_room_input-Spoken k _ v _ _ _ _ st (λ code p at. own_seat st at)
    route-Spoken v resign_msg st =
        to_room_input-Spoken k _ v _ _ _ _ st (λ code p at. own_seat st at)
    route-Spoken v claim_dead_end_msg st =
        to_room_input-Spoken k _ v _ _ _ _ st (λ code p at. own_seat st at)
    route-Spoken v (report_word_msg word) st = handle_report-Spoken _ v word st
    route-Spoken v (set_ready ready) st =
        to_room_input-Spoken k _ v _ _ _ _ st (λ code p at. own_seat st at)
    route-Spoken v start_game st =
        to_room_input-Spoken k _ v _ _ _ _ st (λ code p at. own_seat st at)
    route-Spoken v (kick_player target) st =
        to_room_input-Spoken k _ v _ _ _ _ st (λ code p at. own_seat st at)
    route-Spoken v leave_room_msg st =
        to_room_input-Spoken k _ v _ _ _ _ st (λ code p at. own_seat st at)
    route-Spoken v (send_chat text) st =
        to_room_input-Spoken k _ v _ _ _ _ st (λ code p at. own_seat st at)
    route-Spoken v (ping client_time) st = reply-Spoken k _ _ st
    route-Spoken v unknown_payload st = refuse_with-Spoken k _ _ st

    -- Whatever message a connection sends, in any state, something is answered or sent on, and no
    -- more than this: answers to the connection itself; inputs that carry its own session, and,
    -- where they act for a seat or report a word, go to the room, and for the seat, that it is
    -- bound to; a resume; and, only where no game in play holds it, a new room, an input that
    -- opens or joins one for itself, and, to or for a session that waits for a quick match, the
    -- input that opens a room for the pair, the news that it waits no more, or that no room could
    -- be opened.
    pub dispatch-Speaks :
        (v : DeskView) (m : ClientMessage) (st : Desk k)
        → Speaks
            (may_move k v st)
            st.conn.sess
            st.conn.room
            st.hub.log
            (dispatch k t denylisted u v m st).0.hub.log
    unfolding dispatch
    dispatch-Speaks v m st =
        if_split (λ (a : Desk k × Option DispatchError). Spoken k (may_move k v st) st a.0)
          (not (is_hello m) && not st.conn.greeted) (λ n. refuse_with-Spoken k _ _ st)
          (λ y. route-Spoken v m st)
