-- ===== src/Game.antt =====
-- server/internal/game: the rules of the game. State.antt has the types of state.go; the children
-- of Engine.antt prove what the operations of engine.go keep and do.
pub mod State
pub mod Score
pub mod Engine
pub mod Submit
pub mod Report
pub mod Run
pub mod Tests
