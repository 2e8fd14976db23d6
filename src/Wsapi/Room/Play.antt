-- ===== src/Wsapi/Room/Play.antt =====
-- server/internal/wsapi/room_game.go: starting a game, playing it, and what an elimination or a
-- result means to each seat. Metrics and the corpus log are left out.
use noitu.Prelude.{
  ℕ, zero, suc, ◌+◌, true, false, not, ◌||◌, List, [], ◌∷◌, ◌++◌, Option, none, some, Text, same,
  length, take, ◌==◌, if◌then◌else◌,
}
use noitu.Game.State.{PlayerId}
use noitu.Game.Engine.{Engine, turn, has_legal_move, no_move, resign, suggestions, timeout}
use noitu.Game.Submit.{started, refused, new}
use noitu.Wsapi.Message.{u32, not_your_seat, game_not_started, turn_of_another, not_a_dead_end}
use noitu.Wsapi.Room.{
  Session, Seat, Room, RoomDictionary, Surroundings, Effect, send, game_begins, think, emit, refuse,
  next_seq, occupies, broadcast, is_connected, bot_player, max_suggestions, stop_counting_live,
}
use noitu.Wsapi.Room.Say.{game_started_for, broadcast_turn, broadcast_elimination, game_over_for}

-- The seats of the players of a game, in order.
unfoldable pub held_ids : List (Option Seat) → List PlayerId
held_ids [] = []
held_ids (none ∷ seats) = held_ids seats
held_ids (some s ∷ seats) = s.id ∷ held_ids seats

unfoldable pub drop_ids : ℕ → List PlayerId → List PlayerId
drop_ids zero ps = ps
drop_ids (suc n) [] = []
drop_ids (suc n) (p ∷ ps) = drop_ids n ps

-- `slices.Concat(ids[lead:], ids[:lead])`.
unfoldable pub rotate : ℕ → List PlayerId → List PlayerId
rotate n ps = drop_ids n ps ++ take n ps

-- `s.ready = false; s.missedResult = nil` on every seat.
unfoldable pub clear_seats : List (Option Seat) → List (Option Seat)
clear_seats [] = []
clear_seats (none ∷ seats) = none ∷ clear_seats seats
clear_seats (some s ∷ seats) =
    some (record s { ready = false; missed_result = none }) ∷ clear_seats seats

-- `mark`: how many players were out, and who was to act.
pub record Mark : Type 0 where
  pub out : ℕ
  pub to_act : PlayerId

unfoldable pub mark_of : Option Engine → Mark
mark_of none = record { out = 0; to_act = [] }
mark_of (some e) = record { out = length e.out_order; to_act = turn e }

-- The winner's tally.
unfoldable pub credit : PlayerId → List (Option Seat) → List (Option Seat)
credit p [] = []
credit p (none ∷ seats) = none ∷ credit p seats
credit p (some s ∷ seats) =
    if same s.id p
    then some (record s { wins = u32 (s.wins + 1) }) ∷ seats
    else some s ∷ credit p seats

-- The loop that hands each seat its result: kept for a seat without a connection, sent to the others.
unfoldable pub keep_results : Room → Engine → List (Option Seat) → List (Option Seat)
keep_results r e [] = []
keep_results r e (none ∷ seats) = none ∷ keep_results r e seats
keep_results r e (some s ∷ seats) =
    if same s.id bot_player
    then some s ∷ keep_results r e seats
    else some (record s {
      missed_result = if is_connected s.sess then none else some (game_over_for r e s);
    })
      ∷ keep_results r e seats

unfoldable pub result_frames : Room → Engine → List (Option Seat) → List Effect
result_frames r e [] = []
result_frames r e (none ∷ seats) = result_frames r e seats
result_frames r e (some s ∷ seats) =
    let rest = result_frames r e seats in
    if same s.id bot_player
    then rest
    else elim s.sess [ none ↦ rest | some sess ↦ send sess (game_over_for r e s) ∷ rest ]

unfoldable pub broadcast_game_over : Engine → Room → Room
broadcast_game_over e r =
    let quiet = stop_counting_live r in
    let told : Room = record quiet { seats = credit e.winner quiet.seats } in
    record told {
      seats = keep_results told e told.seats;
      log = told.log ++ result_frames told e told.seats;
      lobby_changed = true;
    }

unfoldable pub tell_out : Engine → List Text → List PlayerId → Room → Room
tell_out e suggested [] r = r
tell_out e suggested (p ∷ ps) r = tell_out e suggested ps (broadcast_elimination e suggested p r)

module _ (d : RoomDictionary) where
  unfoldable pub maybe_schedule_bot : Engine → Room → Room
  maybe_schedule_bot e r = elim r.strategy [
    | none ↦ r
    | some level ↦
        if e.over || not (same (turn e) bot_player) then r else emit (think r.turn_seq ∷ []) r
  ]

  -- What `beginGame` does with the engine that it has built.
  unfoldable pub open_game : Engine → Text → Room → Room
  open_game e opening r =
      let next : Room = record (next_seq r) {
        engine = some e;
        opening = opening;
        out_wire = [];
        seats = clear_seats r.seats;
        live_counted = true;
        log = r.log ++ game_begins ∷ [];
      } in
      maybe_schedule_bot e (broadcast (game_started_for d next e) next)

  unfoldable pub start_engine : Surroundings → Text → Room → Option Room
  start_engine w opening r =
      let ids = held_ids r.seats in
      let order : List PlayerId = elim r.strategy [
        | none ↦ rotate (w.lead (length ids)) ids
        | some level ↦ ids
      ] in
      elim (new d.base order opening r.turn_limit w.now) [
        | refused why ↦ none
        | started e ↦ some (open_game e opening r)
      ]

  -- `none` is an error, after which the room is as it was.
  unfoldable pub begin_game : Surroundings → Room → Option Room
  begin_game w r = elim w.opening [ none ↦ none | some opening ↦ start_engine w opening r ]

  -- `applyEliminations` where there is a game.
  unfoldable pub report_out : Mark → Engine → Room → Room
  report_out before e r =
      let told =
        tell_out e (suggestions d.base e max_suggestions) (drop_ids before.out e.out_order) r in
      if length e.out_order == before.out
      then r
      else if e.over
      then broadcast_game_over e told
      else broadcast_turn d e none (if same (turn e) before.to_act then told else next_seq told)

  unfoldable pub apply_eliminations : Mark → Room → Room
  apply_eliminations before r = elim r.engine [ none ↦ r | some e ↦ report_out before e r ]

  -- An engine operation, and the report of whom it took out.
  unfoldable pub after_engine : Engine → Engine → Room → Room
  after_engine e e' r = report_out (mark_of (some e)) e' (record r { engine = some e' })

  unfoldable pub resign_turn : Surroundings → Session → PlayerId → Engine → Room → Room
  resign_turn w sess p e r =
      if e.over
      then r
      else if not (same (turn e) p)
      then refuse sess turn_of_another r
      else if (resign d.base e p w.now).1
      then after_engine e (resign d.base e p w.now).0 r
      else record r { engine = some (resign d.base e p w.now).0 }

  unfoldable pub handle_resign : Surroundings → Session → PlayerId → Room → Room
  handle_resign w sess p r =
      if not (occupies r sess p) then refuse sess not_your_seat r else elim r.engine [
        | none ↦ refuse sess game_not_started r
        | some e ↦ resign_turn w sess p e r
      ]

  unfoldable pub claim_turn : Surroundings → Session → PlayerId → Engine → Room → Room
  claim_turn w sess p e r =
      if e.over
      then r
      else if not (same (turn e) p)
      then refuse sess turn_of_another r
      else if has_legal_move d.base e
      then refuse sess not_a_dead_end r
      else if (no_move d.base e w.now).1
      then after_engine e (no_move d.base e w.now).0 r
      else record r { engine = some (no_move d.base e w.now).0 }

  unfoldable pub handle_claim_dead_end : Surroundings → Session → PlayerId → Room → Room
  handle_claim_dead_end w sess p r =
      if not (occupies r sess p) then refuse sess not_your_seat r else elim r.engine [
        | none ↦ refuse sess game_not_started r
        | some e ↦ claim_turn w sess p e r
      ]

  -- The turn timer.
  unfoldable pub handle_turn_timer : Surroundings → Room → Room
  handle_turn_timer w r = elim r.engine [
    | none ↦ r
    | some e ↦
        if (timeout d.base e w.now).1
        then after_engine e (timeout d.base e w.now).0 r
        else record r { engine = some (timeout d.base e w.now).0 }
  ]
