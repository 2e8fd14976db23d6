-- ===== src/Bot/Fair.antt =====
-- The bot plays by the rules that everybody plays by: what it chooses for a game, the game accepts.
use noitu.Prelude.{
  ℕ, ◌≤◌, ◌≡◌, refl, true, false, not, List, [], ◌∷◌, some, arith, Text, same_iff, contains, length,
  keep, All, All-contains,
}
use noitu.Vietnamese.{Unicode, normalize}
use noitu.Game.State.{PlayerId, Dictionary, reason_none, Move}
use noitu.Game.Engine.{Engine, legal_moves, has_legal_move, some_unused, advance}
use noitu.Game.Submit.{move_of, play, submit}
use noitu.Game.Submit.Rules.{IsWord}
use noitu.Game.Submit.Outcome.{MayAct, submit_accepts}
use noitu.Bot.{freeze_board, count_open, remaining_out_degree}
use noitu.Bot.Choice.{IsLegal}

-- A dictionary whose lists hold its own words: each is a normal form of two syllables or more, its
-- own canonical spelling, and starts on the syllable that lists it.
pub record IsIndex (dict : Dictionary) (u : Unicode) : Type 0 where
  pub last_of : Text → Text
  pub syllables_of : Text → List Text
  pub listed :
      (s : Text)
      → All
          (λ w.
            (normalize u w ≡ some (w, syllables_of w))
            × (2 ≤ length (syllables_of w))
            × (dict.resolve w ≡ some w)
            × (dict.first_syllable w ≡ some s)
            × (dict.last_syllable w ≡ some (last_of w)))
          (dict.words_starting_with s)

contains-keep :
    (used ws : List Text) (w : Text)
    → contains (keep (λ v. not (contains used v)) ws) w ≡ true
    → (contains ws w ≡ true) × (contains used w ≡ false)
unfolding contains
contains-keep used [] w h = absurd (ground arith)
contains-keep used (v ∷ ws) w h = ground (arith, h, contains-keep used ws w, same_iff v w)

some_unused-zero :
    (used ws : List Text) (w : Text)
    → count_open (λ v. contains used v) w ws ≡ 0
    → some_unused (w ∷ used) ws ≡ false
unfolding count_open some_unused contains
some_unused-zero used [] w h = refl
some_unused-zero used (v ∷ ws) w h =
    ground (arith, h, some_unused-zero used ws w, same_iff v w, same_iff w v)

module _ (dict : Dictionary) (u : Unicode) (x : IsIndex dict u) (e : Engine) where
  legal-IsWord :
      (w : Text)
      → IsLegal (freeze_board dict e) w
      → IsWord dict u e w (record {
        canonical = w;
        first = e.current;
        last = x.last_of w;
        count = length (x.syllables_of w);
      })
  unfolding freeze_board legal_moves
  legal-IsWord w h =
      let (listed, fresh) = contains-keep e.used (dict.words_starting_with e.current) w h in
      let (is, long, resolves, first, last) =
        All-contains _ (dict.words_starting_with e.current) w (x.listed e.current) listed in
      record {
        normalized = w;
        syllables = x.syllables_of w;
        normalizes = is;
        enough = long;
        counted = refl;
        resolves = resolves;
        starts = first;
        links = refl;
        fresh = fresh;
        ends = last;
      }

  -- Over a dictionary whose lists hold its own normal words, a legal move of the frozen board is
  -- accepted by Submit, as that word, when a player who may act submits it.
  pub bot_move_accepted :
      (p : PlayerId) (w : Text) (now : ℕ)
      → IsLegal (freeze_board dict e) w
      → MayAct dict u e p w now
      → ((submit dict u e p w now).2 ≡ reason_none) × ((submit dict u e p w now).1.word ≡ w)
  unfolding move_of
  bot_move_accepted p w now h may =
      rw (submit_accepts dict u e p w now _ may (legal-IsWord w h)) (refl, refl)

-- A move after which the frozen board counts no reply leaves the next player of the game without
-- a legal move.
pub win_leaves_none :
    (dict : Dictionary) (e : Engine) (m : Move) (now : ℕ)
    → remaining_out_degree (freeze_board dict e) m.last m.word ≡ 0
    → has_legal_move dict (play e m now) ≡ false
unfolding play advance freeze_board remaining_out_degree has_legal_move
win_leaves_none dict e m now h = some_unused-zero e.used (dict.words_starting_with m.last) m.word h
