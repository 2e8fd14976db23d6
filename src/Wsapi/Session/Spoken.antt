-- ===== src/Wsapi/Session/Spoken.antt =====
-- What the arms of the dispatch that open, join or forward say, in their own connection's name.
use mathlib.Core.Path.{subst}
use noitu.Prelude.{
  refl, ◌||◌, ◌≡◌, Bool, true, false, not, ◌&&◌, Option, none, some, Text, same_refl, ◌==◌,
  if◌then◌else◌, if_split, opt_split, arith,
}
use noitu.Game.State.{PlayerId}
use noitu.Wsapi.RateLimit.{Tokens, spend, allow}
use noitu.Wsapi.Message.{ServerMessage, ErrCode, already_in_a_game, WireDifficulty, difficulty_of}
use noitu.Wsapi.Room.{Session}
use noitu.Wsapi.Room.Loop.{RoomInput, create, start_bot}
use noitu.Wsapi.Hub.{Hub, HubError, to_room, start_bot_room, create_room, room_create_error}
use noitu.Wsapi.Session.{Binding, Desk, reply}
use noitu.Wsapi.Session.Dispatch.{
  DeskView, Budget, submit_budget, chat_budget, charge, refuse_with, forward, to_bound_room,
  to_room_input, allow_room, is_mid_game, settle_hub, with_room_budget, open_bot_game,
  open_room_for, not_found, enter_room, quick_match_error, pair_up, is_seated, ask_quick_match,
  unless_mid_game,
}
use noitu.Wsapi.Session.Answers.{
  Moves, own_input, is_bound, is_bound_room, Speaks, Speaks-one, Speaks-after, Speaks-tell, eq_refl,
}
use noitu.Wsapi.Session.Opening.{
  Settles, send_room_sent, new_registered_room-Opens, seat_first-Settles, join_room-Settles,
  quick_match-Settles,
}

is_bound_self :
    (b : Binding) (code : Text) (p : PlayerId) → b ≡ some (code, p) → is_bound b code p ≡ true
is_bound_self b code p is = rw is (ground (arith, same_refl code, same_refl p))

pub bound_room_self :
    (b : Binding) (s : Session) (code : Text) (p : PlayerId)
    → b ≡ some (code, p)
    → (s == s && is_bound_room b code) ≡ true
bound_room_self b s code p is = rw is (ground (arith, same_refl code, eq_refl s))

module _ (k : Tokens) where
  -- From one desk to the next.
  abbrev pub Spoken : Moves → Desk k → Desk k → Type 0
  Spoken may_move st st' = Speaks may_move st.conn.sess st.conn.room st.hub.log st'.hub.log

  pub reply-Spoken : (mm : Moves) (m : ServerMessage) (st : Desk k) → Spoken mm st (reply k m st)
  unfolding reply
  reply-Spoken mm m st = Speaks-tell mm st.conn.sess st.conn.room st.hub.log m

  pub refuse_with-Spoken :
      (mm : Moves) (code : ErrCode) (st : Desk k) → Spoken mm st (refuse_with k code st)
  unfolding refuse_with reply
  refuse_with-Spoken mm code st = Speaks-tell mm st.conn.sess st.conn.room st.hub.log _

  pub forward-Spoken :
      (mm : Moves) (v : DeskView) (dropped : ErrCode) (code : Text) (i : RoomInput) (st : Desk k)
      → own_input mm st.conn.sess st.conn.room code i ≡ true
      → Spoken mm st (forward k v dropped code i st)
  unfolding forward
  forward-Spoken mm v dropped code i st mine =
      if_split (λ st'. Spoken mm st st') (v.hub_view.takes code)
        (λ t.
          subst (Speaks mm st.conn.sess st.conn.room st.hub.log)
            (send_room_sent v.hub_view code i st.hub t)
            (Speaks-one mm st.conn.sess st.conn.room st.hub.log (to_room code i) mine))
        (λ t. refuse_with-Spoken mm dropped st)

  to_bound_room-Spoken :
      (mm : Moves) (v : DeskView) (not_in dropped : ErrCode) (build : PlayerId → RoomInput)
      (st : Desk k)
      → ((code : Text) (p : PlayerId)
          → is_bound st.conn.room code p ≡ true
          → own_input mm st.conn.sess st.conn.room code (build p) ≡ true)
      → Spoken mm st (to_bound_room k v not_in dropped build st)
  unfolding to_bound_room
  to_bound_room-Spoken mm v not_in dropped build st mine =
      opt_split (λ st'. Spoken mm st st') st.conn.room (λ n. refuse_with-Spoken mm not_in st)
        λ b is.
          forward-Spoken mm v dropped b.0 (build b.1) st
            (mine b.0 b.1 (is_bound_self st.conn.room b.0 b.1 is))

  pub to_room_input-Spoken :
      (mm : Moves) (v : DeskView) (budget : Budget) (not_in dropped : ErrCode)
      (build : PlayerId → RoomInput) (st : Desk k)
      → ((code : Text) (p : PlayerId)
          → is_bound st.conn.room code p ≡ true
          → own_input mm st.conn.sess st.conn.room code (build p) ≡ true)
      → Spoken mm st (to_room_input k v budget not_in dropped build st)
  unfolding to_room_input charge
  to_room_input-Spoken mm v submit_budget not_in dropped build st mine =
      let paid = spend k st.conn.submit_limiter v.now in
      let charged : Desk k = record st { conn = record st.conn { submit_limiter = paid.0 } } in
      if_split (λ st'. Spoken mm st st') paid.1
        (λ y. to_bound_room-Spoken mm v not_in dropped build charged mine)
        (λ n. refuse_with-Spoken mm _ charged)
  to_room_input-Spoken mm v chat_budget not_in dropped build st mine =
      let paid = spend k st.conn.chat_limiter v.now in
      let charged : Desk k = record st { conn = record st.conn { chat_limiter = paid.0 } } in
      if_split (λ st'. Spoken mm st st') paid.1
        (λ y. to_bound_room-Spoken mm v not_in dropped build charged mine)
        (λ n. refuse_with-Spoken mm _ charged)

  pub with_room_budget-Spoken :
      (v : DeskView) (act : Desk k → Desk k) (st : Desk k)
      → ((st' : Desk k) → Spoken (some st'.hub.waiting) st' (act st'))
      → Spoken (some st.hub.waiting) st (with_room_budget k v act st)
  unfolding with_room_budget allow_room
  with_room_budget-Spoken v act st said =
      let own_paid = spend k st.conn.room_limiter v.now in
      let charged : Desk k = record st { conn = record st.conn { room_limiter = own_paid.0 } } in
      let address_paid = allow k st.room_limiters st.conn.remote_ip v.now in
      let both : Desk k = record charged { room_limiters = address_paid.0 } in
      let Said : Desk k × Bool → Type 0 =
        λ (a : Desk k × Bool). Spoken (some st.hub.waiting) st (if a.1 then act a.0 else a.0) in
      if_split Said (not own_paid.1) (λ n. refuse_with-Spoken (some st.hub.waiting) _ charged)
        (λ y.
          if_split Said address_paid.1 (λ t. said both)
            (λ f. refuse_with-Spoken (some st.hub.waiting) _ both))

  settle_hub-Spoken :
      (mm : Moves) (answer : HubError → ServerMessage) (a : Hub × Option HubError) (st : Desk k)
      → Settles mm st.conn.sess st.conn.room st.hub.log a
      → Spoken mm st (settle_hub k answer a st)
  unfolding settle_hub reply
  settle_hub-Spoken mm answer (h, none) st x = x
  settle_hub-Spoken mm answer (h, some e) st x =
      Speaks-after mm st.conn.sess st.conn.room x
        (Speaks-tell mm st.conn.sess st.conn.room h.log (answer e))

  own_create : (st : Desk k) → (st.conn.sess == st.conn.sess || false) ≡ true
  own_create st = rw (eq_refl st.conn.sess) refl

  -- Whether a connection may move: where no game in play holds it, and with those who wait.
  abbrev pub may_move : DeskView → Desk k → Moves
  may_move v st = if is_mid_game k v st then none else some st.hub.waiting

  split_mid_game :
      (st refused acted : Desk k) (mid_game : Bool)
      → Spoken none st refused
      → Spoken (some st.hub.waiting) st acted
      → Spoken
          (if mid_game then none else some st.hub.waiting)
          st
          (if mid_game then refused else acted)
  split_mid_game st refused acted true x y = x
  split_mid_game st refused acted false x y = y

  -- What a message may do that opens or joins a room, where no game in play rules it out.
  pub unless_mid_game-Spoken :
      (v : DeskView) (act : Desk k → Desk k) (st : Desk k)
      → Spoken (some st.hub.waiting) st (act st)
      → Spoken (may_move v st) st (unless_mid_game k v act st)
  unfolding unless_mid_game
  unless_mid_game-Spoken v act st said =
      split_mid_game st _ _ (is_mid_game k v st) (refuse_with-Spoken none already_in_a_game st) said

  pub open_bot_game-Spoken :
      (v : DeskView) (level : WireDifficulty) (st : Desk k)
      → Spoken (some st.hub.waiting) st (open_bot_game k v level st)
  unfolding open_bot_game start_bot_room
  open_bot_game-Spoken v level st =
      opt_split (λ st'. Spoken (some st.hub.waiting) st st') (difficulty_of level)
        (λ n. refuse_with-Spoken (some st.hub.waiting) _ st)
        λ d is. settle_hub-Spoken (some st.hub.waiting) room_create_error _ st (
          seat_first-Settles st.hub.waiting st.conn.sess st.conn.room v.hub_view
            (start_bot st.conn.sess d) st.hub.log _ (λ code. eq_refl st.conn.sess)
            (new_registered_room-Opens st.hub.waiting st.conn.sess st.conn.room v.hub_view st.hub))

  pub open_room_for-Spoken :
      (v : DeskView) (st : Desk k) → Spoken (some st.hub.waiting) st (open_room_for k v st)
  unfolding open_room_for create_room
  open_room_for-Spoken v st = settle_hub-Spoken (some st.hub.waiting) room_create_error _ st (
      seat_first-Settles st.hub.waiting st.conn.sess st.conn.room v.hub_view
        (create st.conn.sess false) st.hub.log _ (λ code. own_create st)
        (new_registered_room-Opens st.hub.waiting st.conn.sess st.conn.room v.hub_view st.hub))

  pub enter_room-Spoken :
      (v : DeskView) (code : Text) (st : Desk k)
      → Spoken (some st.hub.waiting) st (enter_room k v code st)
  unfolding enter_room
  enter_room-Spoken v code st =
      let paid = allow k st.join_limiter st.conn.remote_ip v.now in
      let charged : Desk k = record st { join_limiter = paid.0 } in
      if_split (λ st'. Spoken (some st.hub.waiting) st st') paid.1
        (λ y.
          settle_hub-Spoken (some st.hub.waiting) (not_found) _ charged
            (join_room-Settles st.hub.waiting st.conn.sess st.conn.room v.hub_view code st.hub))
        (λ n. refuse_with-Spoken (some st.hub.waiting) _ charged)

  pub ask_quick_match-Spoken :
      (v : DeskView) (st : Desk k) → Spoken (some st.hub.waiting) st (ask_quick_match k v st)
  unfolding ask_quick_match pair_up
  ask_quick_match-Spoken v st =
      if_split (λ st'. Spoken (some st.hub.waiting) st st') (is_seated st.conn.room)
        (λ y. refuse_with-Spoken (some st.hub.waiting) _ st)
        λ n. with_room_budget-Spoken v _ st (λ st'.
          settle_hub-Spoken (some st'.hub.waiting) (quick_match_error) _ st'
            (quick_match-Settles st'.conn.sess st'.conn.room v.hub_view st'.hub))
