-- ===== src/Game/Run.antt =====
-- A whole game: the inputs that the room feeds to its engine, one after the other.
pub mod Words
pub mod Chain
pub mod Ending
pub mod Leaving
use noitu.Prelude.{ℕ, List, [], ◌∷◌, Text}
use noitu.Vietnamese.{Unicode}
use noitu.Game.State.{PlayerId, Dictionary}
use noitu.Game.Engine.{Engine, timeout, no_move, resign}
use noitu.Game.Submit.{submit}

-- The calls that change an engine.
pub data Input : Type 0 where
  word : PlayerId → Text → ℕ → Input
  clock : ℕ → Input
  stuck : ℕ → Input
  leave : PlayerId → ℕ → Input

module _ (dict : Dictionary) (u : Unicode) where
  unfoldable pub step : Engine → Input → Engine
  step e (word p raw now) = (submit dict u e p raw now).0
  step e (clock now) = (timeout dict e now).0
  step e (stuck now) = (no_move dict e now).0
  step e (leave p now) = (resign dict e p now).0

  unfoldable pub run : Engine → List Input → Engine
  run e [] = e
  run e (i ∷ is) = run (step e i) is
