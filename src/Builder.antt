-- ===== src/Builder.antt =====
-- server/cmd/build-dictionary: which entries of the sources become words of the game.
pub mod Syllable
pub mod Accept
pub mod Alias
pub mod Wikitext
mod Tests
