-- ===== src/Wsapi/Room/Expiry.antt =====
-- The reconnect windows that run out: no seat is left that is past its window.
use noitu.Prelude.{ℕ, Bool, true, not, ◌&&◌, ◌||◌, List, [], ◌∷◌, Option, none, some, contains}
use noitu.Game.State.{PlayerId}
use noitu.Game.Engine.{Engine}
use noitu.Wsapi.Room.{Seat, Room}
use noitu.Wsapi.Room.Presence.{has_expired}

-- The players of seats.
abbrev ids : List Seat → List PlayerId
ids [] = []
ids (s ∷ gone) = s.id ∷ ids gone

-- Whether every seat that is past its window is one of these players'.
abbrev covered : ℕ → List PlayerId → List (Option Seat) → Bool
covered now ps [] = true
covered now ps (none ∷ seats) = covered now ps seats
covered now ps (some s ∷ seats) =
    (not (has_expired now s) || contains ps s.id) && covered now ps seats
