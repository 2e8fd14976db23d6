-- ===== src/Wsapi/Session/Notices.antt =====
-- The notices that a connection has gone, and how often they name a seat.
use noitu.Prelude.{
  ℕ, ◌+◌, ◌≡◌, refl, Bool, true, not, ◌&&◌, List, [], ◌∷◌, ◌++◌, none, some, Text, same, ◌==◌,
  if◌then◌else◌, arith,
}
use noitu.Game.State.{PlayerId}
use noitu.Wsapi.Room.{Session}
use noitu.Wsapi.Room.Loop.{disconnect}
use noitu.Wsapi.Hub.{HubEffect, to_room}
use noitu.Wsapi.Session.{Binding}

-- The rooms that are told that a connection has gone.
abbrev pub told_gone : Session → List HubEffect → List (Text × PlayerId)
told_gone s [] = []
told_gone s (to_room code (disconnect s' p) ∷ es) =
    if s' == s then (code, p) ∷ told_gone s es else told_gone s es
told_gone s (_ ∷ es) = told_gone s es

pub told_gone-append :
    (s : Session) (xs ys : List HubEffect)
    → told_gone s (xs ++ ys) ≡ told_gone s xs ++ told_gone s ys
told_gone-append s [] ys = refl
told_gone-append s (to_room code (disconnect s' p) ∷ xs) ys =
    ground (arith, told_gone-append s xs ys)
told_gone-append s (_ ∷ xs) ys = told_gone-append s xs ys

-- The seat that a connection holds, if it holds one, as a list.
abbrev pub held_seat : Binding → List (Text × PlayerId)
held_seat none = []
held_seat (some seat) = seat ∷ []

-- No two seats in a row are in one room.
abbrev pub apart : List (Text × PlayerId) → Bool
apart [] = true
apart (a ∷ []) = true
apart (a ∷ (b ∷ rest)) = not (same a.0 b.0) && apart (b ∷ rest)

-- How often a seat is in a list.
abbrev pub times : Text → PlayerId → List (Text × PlayerId) → ℕ
times code p [] = 0
times code p ((c, q) ∷ rest) = (if same c code && same q p then 1 else 0) + times code p rest

pub times-append :
    (code : Text) (p : PlayerId) (xs ys : List (Text × PlayerId))
    → times code p (xs ++ ys) ≡ times code p xs + times code p ys
times-append code p [] ys = omega arith
times-append code p ((c, q) ∷ xs) ys = ground (arith, times-append code p xs ys)

pub told_gone_disconnect :
    (s : Session) (code : Text) (p : PlayerId)
    → told_gone s (to_room code (disconnect s p) ∷ []) ≡ (code, p) ∷ []
told_gone_disconnect s code p = ground arith
