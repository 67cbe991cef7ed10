-- ===== src/Lib.antt =====
-- Verification of GoMahjong, a server for four-player riichi mahjong: the rules of the game service, its
-- rooms, the queues of the march service, and the packets that clients exchange with the connector.
--
-- A client sends packets to a connector (Protocol). A user who joins a queue waits in Redis until march
-- takes enough players out of it, looks up their connectors and asks a game node for a room (March); the
-- game node creates the room, with an engine of its own, and routes the players to it (Rooms).
--
-- The rules of a game are Go code under GoMahjong/game/runtime/engines/mahjong. One actor goroutine
-- takes the events of a game from a queue and hands each to `processEvent`; the handlers change the
-- players, the deck, the clocks and the answers that are being collected. Clocks have goroutines of
-- their own, which put an event on the queue when they run out.
--
-- The parts, with the files of GoMahjong/game/runtime/engines/mahjong that they model:
--   Tiles    material.go: tiles, winds, the deck of 136 tiles
--   Deck     material.go: `DeckManager`, the wall, the dead wall and the counters `remain34`;
--            Deck/Invariant and Deck/Trace follow any sequence of its calls
--   Player   player_image.go: `PlayerImage`, the hand, the discards and the points
--   Search   searcher.go: `canFormMelds` and the winning shapes; Search/Groups, Counts, Melds,
--            Splits, Agari and Special say what they decide; Search/Cache is the `Searcher` with
--            its two caches; Sound and Waits say what it answers, Tally, Seek and Candidates
--            follow `SeekCandidates`
--   Yaku     yaku.go: the registry, and `evalClaimYakuman` of riichi_mahjong_4p_engine.go
--   Score    score_calculator.go: fu and points
--   Turn     turn_manager.go: `PlayerTicker` with the goroutine `timerLoop`, and `TurnManager`;
--            Turn/Ticker and Loops follow one clock, Stopping and Phases the calls that stop and
--            start the clocks
--   Engine   riichi_mahjong_4p_engine.go: the state of a game. Engine/Ending ends a round and pays
--            points; Engine/Options (opt_selector.go, checker.go) offers calls; Engine/Turns,
--            Reactions, Answers, Rounds, Kans and Handlers are the handlers, named in snake case as
--            the source names them
-- Other parts, with the files under GoMahjong:
--   Protocol connector/infrastructure/message/protocol/protocal.go and tools.go, of which game and march
--            carry copies: messages and the dictionary of routes; Protocol/Frames has the packets
--   Connector connector/runtime/worker.go, connection.go and white_list.go: the connections, their users,
--            and the routes that other services look up; Connector/Counts and Reconnect
--   Rooms    game/runtime/room_manager.go, room.go and share/user_info.go, over the interface `Engine`
--            of game/runtime/engines/engine.go; Rooms/Routes, Trace and Created follow its calls;
--            Rooms/Riichi is InitializeEngine, Clone and Close of riichi_mahjong_4p_engine.go
--   March    march/infrastructure/realtime/march_queue.go with its Lua scripts and
--            march/runtime/match_strategy.go; March/Pool is match_pool.go, callGameCreateRoom of worker.go,
--            match_service_impl.go and domain/vo/ranking.go; March/Queues, Sound, Popped and Matching
--            follow the calls
--   Search/Shanten  the shanten numbers of searcher.go
--   Common   tests on numbers, lists, the integers, and maps with string keys
--   Examples hands, tables and games on which the theorems are applied
--
-- State is passed explicitly: a method that changes its receiver returns the new record, with its
-- result beside it. A nil pointer is `none`, an error is `false`. A hand of 34 counters is a list of
-- 34 numbers, and the backtracking search is modelled with its edits in place and their undoing. A Go
-- `int` that may be negative is a ℤ, without the overflow of 64 bits; the counters of bytes that may
-- wrap keep their `% 256`. A loop over a fixed range takes the number of rounds left as its first
-- argument, 34 or 4, so it never runs short; the search recurs on the number of groups left to form. The
-- search for the shanten number takes one more than the tiles of the hand as its fuel, and each of its
-- branches takes a tile away. An id of 64 bits is written in at most ten rounds.
--
-- Code that is not of this repository is a parameter: `Rng` is the shuffle of math/rand, assumed to
-- reorder its tiles; `MapOrder` is the order in which Go visits a map, assumed to reorder it. `Codecs` are
-- strings.TrimSpace, zlib and JSON; `Redis` is Redis, with the laws of its commands on hashes and sorted
-- sets, whose members are distinct; `Services` are the router and the node selector; `Engines` is the interface of an engine, which
-- keeps the users of a room; the engine of riichi mahjong fills it. Identifiers of rooms and of
-- connections, which are random, are arguments.
-- A goroutine takes the lock of its clock in steps, `register`, `expire` and `finish`, each of which
-- may come between the calls of others, also between those that `EnterDropPhase` makes
-- (`enter_drop_phase_amid`); the handlers of the engine are modelled with no such step within a handler.
--
-- Not modelled: the messages to the clients (push.go), the records of games (persist.go), the
-- goroutines of a game with its delayed start, the loops, connections and wiring of the connector, march and game
-- services, the auth and gate services, and infrastructure and generated code.
pub mod Common
pub mod Tiles
pub mod Deck
pub mod Player
pub mod Search
pub mod Yaku
pub mod Score
pub mod Turn
pub mod Engine
pub mod Protocol
pub mod Connector
pub mod Rooms
pub mod March
mod Examples
