-- ===== src/Wsapi/Room/Games/Newcomer.antt =====
-- What a player who joins a room is shown of its conversation.
use noitu.Prelude.{◌≡◌, refl, Bool, true, false, List, [], ◌∷◌, ◌++◌}
use noitu.Wsapi.Message.{ErrCode, chat_history_msg}
use noitu.Wsapi.Room.{Session, Room, Effect, send, refuse, emit}

-- Whether frames show a line of the conversation before.
abbrev pub shows_past : List Effect → Bool
shows_past [] = false
shows_past (send sess (chat_history_msg (line ∷ lines)) ∷ es) = true
shows_past (_ ∷ es) = shows_past es

-- What the room does more than before, none of it a line said before.
pub record IsQuiet (before after : Room) : Type 0 where
  pub added : List Effect
  pub log_is : after.log ≡ before.log ++ added
  pub no_past : shows_past added ≡ false

refuse-IsQuiet : (r : Room) (sess : Session) (code : ErrCode) → IsQuiet r (refuse sess code r)
unfolding refuse emit
refuse-IsQuiet r sess code = record { added = _; log_is = refl; no_past = refl }
