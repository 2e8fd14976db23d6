-- ===== src/Lib.antt =====
-- Noitu is an online game of linked Vietnamese words: each player answers the last syllable of
-- the word before with a word that starts on it. These modules model the server's core.
--
-- server/internal/game is the engine of one game. It keeps the seats, the words played, the
-- syllable to answer, the scores and the deadline, and it reads words through the Dictionary
-- interface, which is a record of functions here. The room feeds it words, clock ticks,
-- dead-end claims and resignations; server/internal/bot chooses words for it over a frozen
-- board; server/internal/vietnamese puts the words that players type into normal form; and the
-- filter of server/internal/wsapi/nickname.go cleans what players call themselves. The words
-- come from the tables of server/internal/dictionary, and server/internal/wsapi/ratelimit.go
-- bounds how often a client may call. A room of server/internal/wsapi seats up to four
-- connections around one engine and is the only code that changes it. A connection's messages
-- go through the dispatch of its session to the hub, which opens rooms and pairs strangers, or
-- to the room that it sits in. server/cmd/build-dictionary makes the words, their other
-- spellings and their definitions out of word lists and a dump of Wiktionary.
--
-- Prelude: tests, lists, texts, association lists and the stable sort.
-- Vietnamese: server/internal/vietnamese/normalize.go, Normalize and HasEnoughSyllables.
-- Game/State: server/internal/game/state.go, the types.
-- Game/Score: server/internal/game/engine.go, pointsFor, speedPoints and rarityPoints.
-- Game/Engine: the same file, Engine with turns, clocks and departures; Engine/Rotation is
-- about advance, Engine/Flags about the flags of the seats, Engine/Invariant and Engine/Clock
-- about what every operation keeps.
-- Game/Submit: New and Submit of the same file; Submit/Rules says what the refusals mean.
-- Game/Report: Standings, Snapshot and the other reports.
-- Game/Run: whole games as lists of inputs.
-- Store: server/internal/dictionary/store.go, the tables, their validation and the lookups;
-- Store/Openings is the binary search of pickOpeningWord, and Store/Served the store as the
-- dictionary of a game.
-- Bot: server/internal/bot, the strategies easy (strategy_easy.go) and medium
-- (strategy_medium.go), and the frozen board of server/internal/wsapi/bot_board.go; Bot/Search
-- is the negamax of strategy_hard.go and Bot/Hard is its Choose; Bot/Fair joins the bot to the
-- engine.
-- Wsapi/Nickname: server/internal/wsapi/nickname.go, sanitizeText and distinguish.
-- Wsapi/RateLimit: server/internal/wsapi/ratelimit.go, bucket and keyedLimiter.
-- Wsapi/Hub: server/internal/wsapi/hub.go; Hub/Queue is about the queue of a quick match,
-- Hub/Calls about every call, Hub/Tokens about the registered sessions, and Hub/Codes is
-- randomCode.
-- Wsapi/Message: convert.go, errcodes.go and codec.go of server/internal/wsapi, what the server
-- sends.
-- Wsapi/Session: session.go of server/internal/wsapi, one connection and its seat.
-- Session/Dispatch is dispatch.go, Session/Serve the read loop with Decode of codec.go, and
-- Session/Outbox send and trySend. Session/Answers says what a message may add to the log,
-- Session/Opening shows it for the calls of the hub, Session/Spoken for the arms that use them
-- and Session/Routes for every message; Session/Face and Session/Kept are about what a message
-- leaves alone, Session/Handshake about the hello, Session/Budgets about a whole connection,
-- and Session/Notices and Session/Leaving about its rooms.
-- Wsapi/Room: room.go of server/internal/wsapi, the room and its seats. Below it, Chat is
-- room_chat.go; Say is what room_game.go and room_lobby.go show of a position, a result and a
-- lobby; Play and Words are the rest of room_game.go; Lobby is room_lobby.go; Presence is
-- room_presence.go; Loop is run of room.go with the inputs of room_inputs.go. Guards, Vacate,
-- Windows, Expiry and Pair are about single inputs and short runs, and Games is about every
-- round: Games/Moves the engine's operations, Games/Seats seating and the lobby, Games/Rounds
-- the other inputs, Games/Refines what follows for a game, Games/Talk for the conversation and
-- Games/Newcomer for who joins it.
-- Builder: server/cmd/build-dictionary, the syllable test of syllable.go and accept of
-- filter.go.
-- Builder/Alias: aliases.go of server/cmd/build-dictionary; Alias/Clusters is about decompose,
-- Alias/Shift about toneShiftVariant, Alias/Varied and Alias/Cross about variantsFor.
-- Builder/Wikitext: wikitext.go of server/cmd/build-dictionary. Wikitext/Codes is its tables,
-- Wikitext/Headings the section and its headings, Wikitext/Templates and Wikitext/Links the
-- markup, and Wikitext/Senses the definitions; Wikitext/Pieces, Wikitext/Fuel, Wikitext/Runs,
-- Wikitext/Lines, Wikitext/Caps and Wikitext/Glosses are about them.
--
-- A Go string is the list of its code points. A map is an association list, or a list of its
-- keys where it is a set; a pointer receiver is an engine that is handed on. Times and
-- durations are natural numbers of nanoseconds: a deadline in int64 nanoseconds does not
-- overflow for the turn limits of the server, and points are at most 100 for a word. The loop
-- of settle runs on fuel, as many rounds as players are in the game; the binary search on the
-- number of openers; bits.Len on 64 rounds, the width of a uint; the loop of distinguish on one
-- try more than there are taken names; a search on its depth; the templates of a text on one
-- more than its runes, since what stands inside one is shorter; the loops over links on its
-- runes.
--
-- The hub draws the codes of rooms from a list of buffers of random bytes, and a call of it
-- comes with the codes drawn next, which connections have ended and which rooms take a message.
-- It tells rooms and sessions by its log, as a room does. A connection is a number, so two
-- pointers to a session are equal where the numbers are, and a room that a connection is bound
-- to is its code. A message comes with the time, which rooms are in play, full or over, and the
-- seats of other connections; a client's clock in a ping is a natural number. The notice to a
-- room that a connection left for another is sent by a goroutine of its own: it is pending
-- until that room takes it, in any order, or has finished. What a handler sends, and what it
-- asks of the hub and of connections, is appended to the room's log in order. An input comes
-- with what it finds outside the room: the time, which connections have ended, whether the
-- server drains, whether a select takes the end of a cancelled room before an input that waits,
-- the opening word, who leads, and the names asked for. Inputs and timers come in any order, so
-- that what is shown of every round holds for each schedule of goroutines; a bot's answer is an
-- input with any word. Wins and turn numbers wrap as uint32 where the source does; seq and
-- chatFrom are uint64 counters that no room reaches the end of.
--
-- Parameters are NFC and NFD, the Unicode tables, the random draws, the floating-point scores
-- of the search and tokens of the limits, the encoding and decoding of the protobuf library,
-- and the matches and the replacements of the scanner's regular expressions, HTML entities
-- included; the rows of the SQLite file behind the dictionary are arguments of the loops that
-- load them. Not modelled are the SQLite calls, the goroutines, sockets and timers of a
-- connection, the HTTP server and the metrics of server/internal/wsapi, the files and the dump
-- reader of server/cmd/build-dictionary, the command server/cmd/noitu-server, the generated
-- messages under server/gen, and the web client.
pub mod Prelude
pub mod Vietnamese
pub mod Store
pub mod Game
pub mod Bot
pub mod Wsapi
pub mod Builder
