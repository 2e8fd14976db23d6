-- ===== src/Wsapi/Room/Guards.antt =====
-- The owner's start in a room, and what stands in its way.
use noitu.Prelude.{◌≡◌, true, false, not, none, some, same_refl, arith, ltb, if◌then◌else◌}
use noitu.Vietnamese.{Unicode}
use noitu.Wsapi.Nickname.{Tables}
use noitu.Wsapi.Message.{
  ErrCode, game_start_failed, not_in_a_room, game_in_progress, need_more_players, player_offline,
  not_everyone_ready,
}
use noitu.Wsapi.Room.{
  Session, Room, RoomDictionary, Surroundings, refuse, occupies, in_lobby, seated_count,
  all_connected, min_players, broadcast_error,
}
use noitu.Wsapi.Room.Say.{can_start}
use noitu.Wsapi.Room.Play.{begin_game}
use noitu.Wsapi.Room.Lobby.{start_action, handle_start, handle_lobby, is_leave, lobby_action}
use noitu.Wsapi.Room.Loop.{lobby, handle}

-- The room after a start that is carried out.
abbrev pub started_room : RoomDictionary → Surroundings → Room → Room
started_room d w r = elim (begin_game d w r) [
  | none ↦ broadcast_error game_start_failed r
  | some begun ↦ begun
]

-- What stands in the way of a start.
abbrev pub obstacle : Room → ErrCode
obstacle r = elim r.strategy [
  | some level ↦ not_in_a_room
  | none ↦
      if not (in_lobby r)
      then game_in_progress
      else if ltb (seated_count r) min_players
      then need_more_players
      else if not (all_connected r)
      then player_offline
      else not_everyone_ready
]

module _ (d : RoomDictionary) (u : Unicode) (t : Tables) (w : Surroundings) where
  -- On a server that is not draining, a start by the connection in the owner's seat is carried
  -- out exactly where the lobby says that the game can start, and is refused with what stands in
  -- the way elsewhere.
  pub start_when_can_start :
      (r : Room) (sess : Session)
      → occupies r sess r.owner ≡ true
      → w.draining ≡ false
      → handle d u t w (lobby sess r.owner start_action) r
        ≡ (if can_start r then started_room d w r else refuse sess (obstacle r) r)
  unfolding handle handle_lobby lobby_action handle_start can_start occupies is_leave
  start_when_can_start r sess here on = ground (arith, same_refl r.owner)
