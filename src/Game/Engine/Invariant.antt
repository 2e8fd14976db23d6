-- ===== src/Game/Engine/Invariant.antt =====
-- What holds of an engine between two calls, and that taking a seat out keeps it.
use noitu.Prelude.{
  ℕ, suc, ◌+◌, ◌≤◌, ◌<◌, ◌≡◌, refl, sym, ◌∙◌, Bool, true, false, List, [], ◌∷◌, ◌++◌, arith, get_or,
  set, length, length-append, length-set, same_iff, contains, contains-append, Distinct,
  Distinct-snoc, if◌then◌else◌, ◌==◌, leb, Bool-cases, Option-cases, ◌⊎◌, inl, inr,
}
use noitu.Game.State.{PlayerId, EndReason}
use noitu.Game.Engine.{
  Engine, turn, advance, crown, mark_out, take_out, eliminate, index_from, index_of,
}
use noitu.Game.Engine.Flags.{
  count_true, count_true-set, get_or-set, lt_of_get_or, seat_of_count, index_from-get_or,
  index_from_sound,
}
use noitu.Game.Engine.Rotation.{Landing, advance_from-Landing}

-- Each seat has a flag, `aliveN` counts those in the game, no player sits twice, and who is out is
-- exactly who the list of departures names, once each.
pub record Table (players : List PlayerId) (alive : List Bool) (alive_n : ℕ)
    (out_order : List PlayerId) : Type 0 where
  pub flagged : length alive ≡ length players
  pub counted : alive_n ≡ count_true alive
  pub seated_once : Distinct players
  pub out_once : Distinct out_order
  pub all_placed : length out_order + alive_n ≡ length players
  pub out_iff :
      (i : ℕ)
      → i < length players
      → contains out_order (get_or players i []) ≡ (if get_or alive i false then false else true)

abbrev pub IsTable : Engine → Type 0
IsTable e = Table e.players e.alive e.alive_n e.out_order

-- Between calls the player to act is in the game, which is over exactly when one is left; then
-- that one has won.
pub record IsValid (e : Engine) : Type 0 where
  pub table : IsTable e
  pub to_act : get_or e.alive e.turn_index false ≡ true
  pub ended : e.over ≡ leb e.alive_n 1
  pub won : e.over ≡ true → e.winner ≡ turn e

-- Names of two seats differ.
names_differ :
    (ps : List PlayerId) (i j : ℕ)
    → Distinct ps
    → i < length ps
    → j < length ps
    → get_or ps i [] ≡ get_or ps j []
    → i ≡ j
names_differ ps i j d hi hj h =
    ground (arith, index_from-get_or ps i 0 d hi, index_from-get_or ps j 0 d hj)

module _ (e : Engine) (i : ℕ) (p : PlayerId) (reason : EndReason) (t : IsTable e)
    (here : get_or e.alive i false ≡ true) (named : get_or e.players i [] ≡ p) where
  inside : i < length e.players
  inside = omega (arith, t.flagged, lt_of_get_or e.alive i here)

  not_out : contains e.out_order p ≡ false
  not_out = ground (arith, t.out_iff i inside)

  out_iff_after :
      (j : ℕ)
      → j < length e.players
      → contains (e.out_order ++ p ∷ []) (get_or e.players j [])
        ≡ (if get_or (set e.alive i false) j false then false else true)
  unfolding contains
  out_iff_after j h = ground (
    arith,
    t.out_iff j h,
    t.flagged,
    contains-append e.out_order (p ∷ []) (get_or e.players j []),
    get_or-set e.alive i j false (lt_of_get_or e.alive i here),
    same_iff p (get_or e.players j []),
    names_differ e.players i j t.seated_once inside h,
  )

  mark_out-IsTable : IsTable (mark_out e i p reason)
  unfolding mark_out
  mark_out-IsTable = record {
    flagged = omega (arith, t.flagged, length-set e.alive i false);
    counted = omega (arith, t.counted, count_true-set e.alive i here);
    seated_once = t.seated_once;
    out_once = Distinct-snoc e.out_order p t.out_once not_out;
    all_placed = omega (
      arith,
      t.all_placed,
      t.counted,
      length-append e.out_order (p ∷ []),
      count_true-set e.alive i here,
    );
    out_iff = out_iff_after;
  }

-- With an agreeing table, a turn index in range and somebody in the game, advance lands on a seat
-- that is in the game, at least one and at most one whole round on, and every seat that it passed
-- is out.
pub advance-Landing :
    (e : Engine)
    → IsTable e
    → e.turn_index < length e.players
    → 0 < e.alive_n
    → Landing (length e.players) e.alive (length e.players) e.turn_index (advance e).turn_index
unfolding advance
advance-Landing e t h pos =
    let (s, seated) = seat_of_count e.alive (omega (arith, t.counted)) in
    advance_from-Landing e.alive (length e.players) e.turn_index s h
      (omega (arith, t.flagged, lt_of_get_or e.alive s seated)) seated

-- The last test of `eliminate` sets the end and the winner.
crown-IsValid :
    (e : Engine)
    → IsTable e
    → get_or e.alive e.turn_index false ≡ true
    → e.over ≡ false
    → IsValid (crown e)
unfolding crown turn
crown-IsValid e t h o = elim (Bool-cases (leb e.alive_n 1)) [
  | inl last ↦ rw last (record { table = t; to_act = h; ended = sym last; won = λ _. refl })
  | inr more ↦
      rw more (record { table = t; to_act = h; ended = o ∙ sym more; won = λ w. absurd (cc) })
]

module _ (e : Engine) (i : ℕ) (p : PlayerId) (reason : EndReason) (v : IsValid e)
    (playing : e.over ≡ false) (here : get_or e.alive i false ≡ true)
    (named : get_or e.players i [] ≡ p) where
  two_left : 2 ≤ e.alive_n
  two_left = ground (arith, v.ended)

  -- The seat that went out was to act: the next seat in the game is.
  moved-IsValid : IsValid (crown (advance (mark_out e i p reason)))
  unfolding advance mark_out
  moved-IsValid =
      let t = mark_out-IsTable e i p reason v.table here named in
      let landing =
        advance-Landing (mark_out e i p reason) t
          (omega (arith, lt_of_get_or e.alive e.turn_index v.to_act, v.table.flagged))
          (omega (arith, two_left)) in
      crown-IsValid (advance (mark_out e i p reason)) t landing.seated playing

  -- Another seat went out: whoever was to act still is.
  kept-IsValid : (e.turn_index == i) ≡ false → IsValid (crown (mark_out e i p reason))
  unfolding mark_out
  kept-IsValid off =
      crown-IsValid (mark_out e i p reason) (mark_out-IsTable e i p reason v.table here named)
        (ground
          (arith, get_or-set e.alive i e.turn_index false (lt_of_get_or e.alive i here), v.to_act))
        playing

  pub take_out-IsValid : IsValid (take_out e i p reason)
  unfolding take_out
  take_out-IsValid = elim (Bool-cases (e.turn_index == i)) [
    | inl at ↦ rw at moved-IsValid
    | inr off ↦ rw off (kept-IsValid off)
  ]

  pub alive_n-take_out : suc (take_out e i p reason).alive_n ≡ e.alive_n
  unfolding take_out crown advance mark_out
  alive_n-take_out = ground (arith, two_left)

-- A player found in the game is taken out of a valid engine, and any other call changes nothing.
pub eliminate_cases :
    (e : Engine) (p : PlayerId) (reason : EndReason)
    → IsValid e
    → ((i : ℕ) × (get_or e.alive i false ≡ true)
        × (get_or e.players i [] ≡ p)
        × (eliminate e p reason ≡ (take_out e i p reason, true)))
      ⊎ (eliminate e p reason ≡ (e, false))
unfolding eliminate index_of
eliminate_cases e p reason v = elim (Option-cases (index_from e.players p 0)) [
  | inl none_there ↦ inr (rw (none_there, eliminate, index_of))
  | inr (i, found) ↦
      let (j, at, lt, named) = index_from_sound e.players p 0 i found in
      let seat : i ≡ j = omega arith in
      elim (Bool-cases (get_or e.alive i false)) [
        | inl here ↦ inl (i, here, rw seat named, rw (found, eliminate, index_of) (rw here))
        | inr gone ↦ inr (rw (found, eliminate, index_of) (rw gone))
      ]
]
