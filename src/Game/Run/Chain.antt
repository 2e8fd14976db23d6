-- ===== src/Game/Run/Chain.antt =====
-- The chain of words: every word links to the one before it, none is played twice, and the scores
-- are what the words earned.
use noitu.Prelude.{
  ℕ, ◌+◌, ◌≡◌, refl, sym, ◌∙◌, false, List, [], ◌∷◌, ◌++◌, map, Text, same, contains,
  contains-append, Distinct, Distinct-snoc, All, All-append, some, lookup_or, arith, if◌then◌else◌,
}
use mathlib.Core.List.{map-append}
use mathlib.Core.Path.{subst}
use noitu.Vietnamese.{Unicode}
use noitu.Game.State.{
  PlayerId, Dictionary, Move, RejectReason-discrete, reason_none, reason_timeout,
}
use noitu.Game.Engine.{Engine, score}
use noitu.Game.Engine.Invariant.{IsValid}
use noitu.Game.Engine.Clock.{timeout-IsValid, no_move-IsValid, resign-IsValid}
use noitu.Game.Submit.{submit, new, started, opened, zero_scores}
use noitu.Game.Submit.Valid.{submit-IsValid, new-IsValid, new_cases}
use noitu.Game.Submit.Effect.{IsFair, IsPlayed, submit_effect}
use noitu.Game.Submit.Outcome.{Explains, submit_refused, submit_late, submit-Explains}
use noitu.Game.Run.{Input, word, clock, stuck, leave, step, run}
use noitu.Game.Run.Words.{
  SameWords, expire-SameWords, timeout-SameWords, no_move-SameWords, resign-SameWords,
}

abbrev pub words : List Move → List Text
words h = map (λ (m : Move). m.word) h

-- From the syllable `s`, each move answers the end of the one before it, and `c` is the last end.
abbrev pub Linked : Text → List Move → Text → Type 0
Linked s [] c = c ≡ s
Linked s (m ∷ ms) c = (m.first ≡ s) × Linked m.last ms c

-- The points that a player's words earned.
unfoldable pub earned : PlayerId → List Move → ℕ
earned q [] = 0
earned q (m ∷ ms) = (if same m.player q then m.points else 0) + earned q ms

Linked-snoc :
    (s : Text) (h : List Move) (c : Text) (m : Move)
    → Linked s h c
    → m.first ≡ c
    → Linked s (h ++ m ∷ []) m.last
Linked-snoc s [] c m l f = (f ∙ l, refl)
Linked-snoc s (n ∷ h) c m l f = (l.0, Linked-snoc n.last h c m l.1 f)

earned-snoc :
    (q : PlayerId) (h : List Move) (m : Move)
    → earned q (h ++ m ∷ []) ≡ (if same m.player q then earned q h + m.points else earned q h)
unfolding earned
earned-snoc q [] m = ground arith
earned-snoc q (n ∷ h) m = ground (arith, earned-snoc q h m)

module _ (dict : Dictionary) (opening : Text) where
  -- The words from the opening on, the entries of the dictionary that they are, and the scores.
  pub record IsChain (e : Engine) : Type 0 where
    pub opened_on : Text
    pub opens : dict.last_syllable opening ≡ some opened_on
    pub linked : Linked opened_on e.history e.current
    pub once : Distinct (opening ∷ words e.history)
    pub spent : (w : Text) → contains e.used w ≡ contains (opening ∷ words e.history) w
    pub entries :
        All
          (λ (m : Move).
            (dict.first_syllable m.word ≡ some m.first) × (dict.last_syllable m.word ≡ some m.last))
          e.history
    pub paid : (q : PlayerId) → score e q ≡ earned q e.history

  SameWords-IsChain : (e e' : Engine) → SameWords e e' → IsChain e → IsChain e'
  unfolding score
  SameWords-IsChain e e' s c = record {
    opened_on = c.opened_on;
    opens = c.opens;
    linked = rw (s.history, s.current) c.linked;
    once = rw s.history c.once;
    spent = rw (s.history, s.used) c.spent;
    entries = rw s.history c.entries;
    paid = rw (s.history, s.scores) c.paid;
  }

  played-IsChain :
      (e e' : Engine) (p : PlayerId) (raw : Text) (m : Move) (now : ℕ)
      → IsFair dict e p raw m
      → IsPlayed e m now e'
      → IsChain e
      → IsChain e'
  unfolding contains
  played-IsChain e e' p raw m now f d c =
      let grown = map-append (λ (n : Move). n.word) e.history (m ∷ []) in
      let fresh : contains (opening ∷ words e.history) m.word ≡ false =
        sym (c.spent m.word) ∙ f.fresh in
      record {
        opened_on = c.opened_on;
        opens = c.opens;
        linked =
            rw (d.recorded, d.linked)
              (Linked-snoc c.opened_on e.history e.current m c.linked f.answers);
        once =
            rw (d.recorded, grown) (Distinct-snoc (opening ∷ words e.history) m.word c.once fresh);
        spent = λ w.
            rw (d.recorded, grown)
              (ground (
                arith,
                d.spent w,
                c.spent w,
                contains-append (opening ∷ words e.history) (m.word ∷ []) w,
              ));
        entries =
            rw d.recorded (All-append _ e.history (m ∷ []) c.entries ((f.starts, f.ends), tt));
        paid = λ q. rw d.recorded (ground (arith, d.paid q, c.paid q, earned-snoc q e.history m));
      }

module _ (dict : Dictionary) (u : Unicode) (opening : Text) where
  submit-IsChain :
      (e : Engine) (p : PlayerId) (raw : Text) (now : ℕ)
      → IsValid e
      → IsChain dict opening e
      → IsChain dict opening (submit dict u e p raw now).0
  submit-IsChain e p raw now v c =
      elim (RejectReason-discrete (submit dict u e p raw now).2 reason_none) [
        | yes h ↦
            let (fair, played) = submit_effect dict u e p raw now v h in
            played-IsChain dict opening e _ p raw _ now fair played c
        | no h ↦ elim (RejectReason-discrete (submit dict u e p raw now).2 reason_timeout) [
          | yes k ↦
              let (playing, mine, late) =
                subst (Explains dict u e p raw now) k (submit-Explains dict u e p raw now) in
              rw (submit_late dict u e p raw now playing mine late)
                (SameWords-IsChain dict opening e _ (expire-SameWords dict e now) c)
          | no k ↦ rw ((submit_refused dict u e p raw now h k).0) c
        ]
      ]

  -- A game that is kept valid and a chain by every input.
  pub step-IsChain :
      (e : Engine) (i : Input)
      → IsValid e × IsChain dict opening e
      → IsValid (step dict u e i) × IsChain dict opening (step dict u e i)
  unfolding step
  step-IsChain e (word p raw now) h =
      (submit-IsValid dict u e p raw now h.0, submit-IsChain e p raw now h.0 h.1)
  step-IsChain e (clock now) h = (
    timeout-IsValid dict e now h.0,
    SameWords-IsChain dict opening e _ (timeout-SameWords dict e now) h.1,
  )
  step-IsChain e (stuck now) h = (
    no_move-IsValid dict e now h.0,
    SameWords-IsChain dict opening e _ (no_move-SameWords dict e now) h.1,
  )
  step-IsChain e (leave p now) h = (
    resign-IsValid dict e p now h.0,
    SameWords-IsChain dict opening e _ (resign-SameWords dict e p now) h.1,
  )

  -- Every game reached from a valid chain, by any inputs at all, is one.
  pub run-IsChain :
      (is : List Input) (e : Engine)
      → IsValid e × IsChain dict opening e
      → IsValid (run dict u e is) × IsChain dict opening (run dict u e is)
  unfolding run
  run-IsChain [] e h = h
  run-IsChain (i ∷ is) e h = run-IsChain is (step dict u e i) (step-IsChain e i h)

earned-zero : (q : PlayerId) (players : List PlayerId) → lookup_or 0 q (zero_scores players) ≡ 0
unfolding lookup_or zero_scores
earned-zero q [] = refl
earned-zero q (p ∷ ps) = ground (arith, earned-zero q ps)

new-IsChain :
    (dict : Dictionary) (players : List PlayerId) (first_word : Text) (turn_limit now : ℕ)
    {e : Engine}
    → new dict players first_word turn_limit now ≡ started e
    → (canonical : Text) × (dict.resolve first_word ≡ some canonical) × IsChain dict canonical e
unfolding score contains opened earned
new-IsChain dict players first_word turn_limit now h =
    let (canonical, last, r, l, is, open_end, two, pos, once) =
      new_cases dict players first_word turn_limit now h in
    (
      canonical,
      r,
      rw is (record {
        opened_on = last;
        opens = l;
        linked = refl;
        once = (refl, tt);
        spent = λ w. refl;
        entries = tt;
        paid = λ q. earned-zero q players;
      }),
    )

-- Whatever words, clock ticks, dead-end claims and resignations are fed to a game that New
-- started, the table stays valid (flags, counts, departures and winner agree), and the words form
-- a chain: the opening is the canonical spelling of the given word, each word answers the last
-- syllable of the one before, none is played twice, the used set holds exactly these words, and
-- each score is the sum of the points of the player's own moves.
pub game_correct :
    (dict : Dictionary) (u : Unicode) (players : List PlayerId) (first_word : Text)
    (turn_limit now : ℕ) {e : Engine} (is : List Input)
    → new dict players first_word turn_limit now ≡ started e
    → (canonical : Text) × (dict.resolve first_word ≡ some canonical)
      × IsValid (run dict u e is)
      × IsChain dict canonical (run dict u e is)
game_correct dict u players first_word turn_limit now {e} is h =
    let (canonical, r, c) = new-IsChain dict players first_word turn_limit now h in
    let kept =
      run-IsChain dict u canonical is e (new-IsValid dict players first_word turn_limit now h, c) in
    (canonical, r, kept.0, kept.1)
