-- ===== src/Wsapi/Session/Answers.antt =====
-- What one message adds to the log: an answer or an input of its own connection, and never nothing.
use noitu.Prelude.{
  Option, not, append_nil, append_assoc, ◌≡◌, refl, sym, ap, ◌∙◌, Bool, true, false, ◌&&◌, ◌||◌,
  List, [], ◌∷◌, ◌++◌, none, some, Text, same, null, All, ◌==◌, arith, All-append,
}
use noitu.Game.State.{PlayerId}
use noitu.Wsapi.Message.{
  ServerMessage, quick_match_status_msg, error_msg, server_full, server_restarting,
  room_start_failed,
}
use noitu.Wsapi.Room.{Session}
use noitu.Wsapi.Room.Loop.{
  RoomInput, create, start_bot, join, submit_word, bot_move, lobby, say, give_up, claim_dead_end,
  report_word, disconnect, resume, turn_timer, grace_timer, idle_timer,
}
use noitu.Wsapi.Hub.{HubEffect, tell, open_room, to_room, cancel_room, queued}
use noitu.Wsapi.Session.{Binding}

-- Whether a seat of a room is the one that a connection is bound to.
abbrev pub is_bound : Binding → Text → PlayerId → Bool
is_bound none code p = false
is_bound (some (room, q)) code p = same room code && same q p

abbrev pub is_bound_room : Binding → Text → Bool
is_bound_room none code = false
is_bound_room (some (room, q)) code = same room code

-- Whether a connection may move to a room, and then, who waits for a quick match.
abbrev pub Moves : Type 0
Moves = Option (List Session)

abbrev pub can_move : Moves → Bool
can_move none = false
can_move (some waiting) = true

-- Whether a session may be paired with: one of those that wait.
abbrev pub is_partner : Moves → Session → Bool
is_partner none s' = false
is_partner (some waiting) s' = queued s' waiting

-- What the partner of a quick match is told: that it waits no more, or that no room was opened.
abbrev pub is_match_news : ServerMessage → Bool
is_match_news (quick_match_status_msg waiting) = not waiting
is_match_news (error_msg server_full) = true
is_match_news (error_msg server_restarting) = true
is_match_news (error_msg room_start_failed) = true
is_match_news _ = false

-- The inputs that a message of a connection may send to a room: with its own session, and, where
-- the input acts for a seat, in the room and for the seat that it is bound to. Only one that may
-- move opens a room, asks to join one, or opens one for its partner in a quick match, who waits.
abbrev pub own_input : Moves → Session → Binding → Text → RoomInput → Bool
own_input may_move s b code (create s' pair) =
    can_move may_move && s' == s || (pair && is_partner may_move s')
own_input may_move s b code (start_bot s' level) = can_move may_move && s' == s
own_input may_move s b code (join s') = can_move may_move && s' == s
own_input may_move s b code (submit_word s' p word turn_seq) = s' == s && is_bound b code p
own_input may_move s b code (bot_move word turn_seq) = false
own_input may_move s b code (lobby s' p action) = s' == s && is_bound b code p
own_input may_move s b code (say s' p text) = s' == s && is_bound b code p
own_input may_move s b code (give_up s' p) = s' == s && is_bound b code p
own_input may_move s b code (claim_dead_end s' p) = s' == s && is_bound b code p
own_input may_move s b code (report_word s' word) = s' == s && is_bound_room b code
own_input may_move s b code (disconnect s' p) = false
own_input may_move s b code (resume s' p prior) = s' == s
own_input may_move s b code turn_timer = false
own_input may_move s b code grace_timer = false
own_input may_move s b code idle_timer = false

abbrev pub own_effect : Moves → Session → Binding → HubEffect → Bool
own_effect may_move s b (tell s' m) = s' == s || (is_partner may_move s' && is_match_news m)
own_effect may_move s b (open_room code) = can_move may_move
own_effect may_move s b (to_room code i) = own_input may_move s b code i
own_effect may_move s b (cancel_room code) = false

-- What is appended to a log, all of it the connection's own.
pub record Adds (may_move : Moves) (s : Session) (b : Binding) (before after : List HubEffect)
    : Type 0 where
  pub added : List HubEffect
  pub log_is : after ≡ before ++ added
  pub own : All (λ e. own_effect may_move s b e ≡ true) added

-- The same, and something is.
pub record Speaks (may_move : Moves) (s : Session) (b : Binding) (before after : List HubEffect)
    : Type 0 where
  pub adds : Adds may_move s b before after
  pub heard : null adds.added ≡ false

null-append : {A : Type 0} (xs ys : List A) → null xs ≡ false → null (xs ++ ys) ≡ false
null-append (x ∷ xs) ys h = refl
null-append [] ys h = ground arith

null-append-last : {A : Type 0} (xs ys : List A) → null ys ≡ false → null (xs ++ ys) ≡ false
null-append-last [] ys h = h
null-append-last (x ∷ xs) ys h = refl

pub eq_refl : (s : Session) → (s == s) ≡ true
eq_refl s = ground arith

module _ (may_move : Moves) (s : Session) (b : Binding) where
  pub Adds-none : (l : List HubEffect) → Adds may_move s b l l
  Adds-none l = record { added = []; log_is = sym (append_nil l); own = tt }

  pub Speaks-one :
      (l : List HubEffect) (e : HubEffect)
      → own_effect may_move s b e ≡ true
      → Speaks may_move s b l (l ++ e ∷ [])
  Speaks-one l e mine = record {
    adds = record { added = e ∷ []; log_is = refl; own = (mine, tt) };
    heard = refl;
  }

  pub Adds-both :
      {l m n : List HubEffect}
      → Adds may_move s b l m
      → Adds may_move s b m n
      → Adds may_move s b l n
  Adds-both {l} x y = record {
    added = x.added ++ y.added;
    log_is = y.log_is ∙ ap (λ r. r ++ y.added) x.log_is ∙ append_assoc l x.added y.added;
    own = All-append _ x.added y.added x.own y.own;
  }

  pub Speaks-then :
      {l m n : List HubEffect}
      → Speaks may_move s b l m
      → Adds may_move s b m n
      → Speaks may_move s b l n
  unfolding Adds-both
  Speaks-then x y = record {
    adds = Adds-both x.adds y;
    heard = null-append x.adds.added y.added x.heard;
  }

  pub Speaks-tell :
      (l : List HubEffect) (m : ServerMessage) → Speaks may_move s b l (l ++ tell s m ∷ [])
  Speaks-tell l m = Speaks-one l (tell s m) (ground (arith, eq_refl s))

  pub Speaks-after :
      {l m n : List HubEffect}
      → Adds may_move s b l m
      → Speaks may_move s b m n
      → Speaks may_move s b l n
  unfolding Adds-both
  Speaks-after x y = record {
    adds = Adds-both x y.adds;
    heard = null-append-last x.added y.adds.added y.heard;
  }
