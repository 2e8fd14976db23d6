-- ===== src/Game/Submit/Valid.antt =====
-- `New` and `Submit` keep the invariant of the table.
use noitu.Prelude.{
  ℕ, ◌≤◌, ◌<◌, ◌≡◌, refl, true, false, not, List, [], ◌∷◌, arith, Text, same, contains, length,
  length-replicate, All, same_iff, sym, if_split, inl, inr, Distinct, Option-cases, some,
}
use noitu.Vietnamese.{Unicode}
use noitu.Game.State.{PlayerId, Dictionary, RejectReason, Move}
use noitu.Game.Engine.{Engine, turn, advance, is_expired, has_legal_move}
use noitu.Game.Engine.Flags.{count_true-replicate, get_or-replicate, lt_of_get_or}
use noitu.Game.Engine.Invariant.{IsValid, advance-Landing}
use noitu.Game.Engine.Clock.{expire-IsValid}
use noitu.Game.Submit.{
  has_duplicate, opened, new, start_with, started, play, answer, submit, judge, Verdict, legal,
  reject,
}

unseen :
    (p : PlayerId) (seen ps : List PlayerId)
    → All (λ q. contains (p ∷ seen) q ≡ false) ps
    → (contains ps p ≡ false) × All (λ q. contains seen q ≡ false) ps
unfolding contains
unseen p seen [] h = (refl, tt)
unseen p seen (q ∷ qs) h =
    let (rest, old) = unseen p seen qs h.1 in
    (ground (arith, same_iff p q, same_iff q p, h.0), (ground (arith, h.0), old))

-- The loop over `seen` passes only lists without repetition.
has_duplicate-Distinct :
    (seen ps : List PlayerId)
    → has_duplicate seen ps ≡ false
    → Distinct ps × All (λ q. contains seen q ≡ false) ps
unfolding has_duplicate
has_duplicate-Distinct seen [] h = (tt, tt)
has_duplicate-Distinct seen (p ∷ ps) h =
    let (once, fresh) = has_duplicate-Distinct (p ∷ seen) ps (ground arith) in
    let (alone, old) = unseen p seen ps fresh in ((alone, once), (ground arith, old))

pub opened-IsValid :
    (players : List PlayerId) (canonical last : Text) (turn_limit now : ℕ)
    → 2 ≤ length players
    → Distinct players
    → IsValid (opened players canonical last turn_limit now)
unfolding opened contains
opened-IsValid players canonical last turn_limit now two d = record {
  table = record {
    flagged = length-replicate (length players) true;
    counted = sym (count_true-replicate (length players));
    seated_once = d;
    out_once = tt;
    all_placed = omega arith;
    out_iff = λ i h. ground (arith, get_or-replicate (length players) i h);
  };
  to_act = get_or-replicate (length players) 0 (omega arith);
  ended = ground arith;
  won = λ w. absurd (cc);
}

pub play-IsValid :
    (e : Engine) (m : Move) (now : ℕ) → IsValid e → e.over ≡ false → IsValid (play e m now)
unfolding play advance turn
play-IsValid e m now v playing =
    let landing =
      advance-Landing e v.table
        (omega (arith, lt_of_get_or e.alive e.turn_index v.to_act, v.table.flagged))
        (ground (arith, v.ended)) in
    record { table = v.table; to_act = landing.seated; ended = v.ended; won = λ w. absurd (cc) }

module _ (dict : Dictionary) where
  answer-IsValid :
      (e : Engine) (p : PlayerId) (raw : Text) (now : ℕ) (w : Verdict)
      → IsValid e
      → e.over ≡ false
      → IsValid (answer dict e p raw now w).0
  unfolding answer
  answer-IsValid e p raw now (reject r) v playing = v
  answer-IsValid e p raw now (legal w) v playing = play-IsValid e _ now v playing

  pub submit-IsValid :
      (u : Unicode) (e : Engine) (p : PlayerId) (raw : Text) (now : ℕ)
      → IsValid e
      → IsValid (submit dict u e p raw now).0
  unfolding submit
  submit-IsValid u e p raw now v =
      if_split After e.over (λ o. v)
        λ playing.
          if_split After (not (same p (turn e))) (λ o. v)
            λ mine.
              if_split After (is_expired e now) (λ o. expire-IsValid dict e now v playing)
                λ fresh. answer-IsValid e p raw now (judge dict u e raw) v playing
    where
      After : Engine × Move × RejectReason → Type 0
      After r = IsValid r.0

  -- A started game is the opened one, at a word with a last syllable that a word can follow.
  pub new_cases :
      (players : List PlayerId) (opening : Text) (turn_limit now : ℕ) {e : Engine}
      → new dict players opening turn_limit now ≡ started e
      → (canonical : Text) × (last : Text) × (dict.resolve opening ≡ some canonical)
        × (dict.last_syllable canonical ≡ some last)
        × (e ≡ opened players canonical last turn_limit now)
        × (has_legal_move dict e ≡ true)
        × (2 ≤ length players)
        × (0 < turn_limit)
        × Distinct players
  unfolding new start_with
  new_cases players opening turn_limit now {e} h = elim (Option-cases (dict.resolve opening)) [
    | inl r ↦ absurd (ground arith)
    | inr (canonical, r) ↦ elim (Option-cases (dict.last_syllable canonical)) [
      | inl l ↦ absurd (ground arith)
      | inr (last, l) ↦
          let once : has_duplicate [] players ≡ false = ground arith in
          (
            canonical,
            last,
            r,
            l,
            ground arith,
            ground arith,
            ground arith,
            ground arith,
            (has_duplicate-Distinct [] players once).0,
          )
    ]
  ]

  pub new-IsValid :
      (players : List PlayerId) (opening : Text) (turn_limit now : ℕ) {e : Engine}
      → new dict players opening turn_limit now ≡ started e
      → IsValid e
  new-IsValid players opening turn_limit now h =
      let (canonical, last, r, l, is, open_end, two, pos, once) =
        new_cases players opening turn_limit now h in
      rw is (opened-IsValid players canonical last turn_limit now two once)
