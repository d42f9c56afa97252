-- ===== src/Lib.antt =====
-- Verification of the servers of manglemix: the crates messagist (framing of messages),
-- mangle-api-core (tokens, authorization, sign-in, the builder of a server) and bola-api (the server of
-- the game Bola: sessions of players, leaderboards, the player database).
--
-- How the parts interact. `main` (bola-api/src/main.rs) loads the HTTPS credentials, builds an `API` and
-- runs it. Every request passes `BearerAuth::authorize`. A websocket request becomes a `SessionState`, with
-- a login token where it carries one, and `WsApiHandler::handle` reads its messages: `login` signs a
-- player in over OpenID, whose answer comes by a redirect to another route, reads or creates the player's
-- profile in the database and grants a login token; score updates go to the leaderboard, which writes
-- them to the database, keeps the best entries and tells the sibling nodes, each of which keeps its own.
-- The nodes and the control client talk in the frames of messagist; the websockets carry JSON texts.
--
-- Base: names of the libraries, and what the files share. Base/Outcome is the result of a Rust call, which
--   can also panic; Base/Text has strings as lists of bytes; Base/Map is the interface of a map, with
--   association lists that meet it; Base/Sort is a stable sort; Base/Decimal is `to_string` and
--   `parse::<u16>`.
-- Messagist/Bin: messagist/src/bin.rs. `Pipe` is the transport; `send_message`, `recv_message`, with
--   `frame` and `size_field` for the buffer. `usize` has 64 bits.
-- Messagist/Text: messagist/src/text.rs, JSON over a `TextStreamApi`, which Core/Ws fills, and over the frames of
--   Messagist/Bin. A call that waits comes to a `Receipt`.
-- Messagist/Pipes: the loop of `start_listener` of messagist/src/pipes.rs, for a handler that is given.
-- Core/Token: mangle-api-core/src/auth/token.rs. `TokenGranter` and its operations; the sleeping task of an
--   entry is its `wakes_at`, and `run_task` is the task at a given time. Core/Token/BiMap is the interface of
--   the crate bimap. Core/Token/Trace replays sequences of calls. Core/Token/Request is the extraction of a
--   token from a request.
-- Core/Bearer: mangle-api-core/src/auth/bearer.rs, `authorize`.
-- Core/Openid: mangle-api-core/src/auth/openid.rs and auth_pages.rs. `OidcState` has the pending sign-ins
--   and what was sent to the receivers; Core/Openid/Laws has sequences of events on it.
-- Core/Oauth2: mangle-api-core/src/auth/oauth2.rs; Core/Oauth2/Laws makes of its client one of Core/Openid.
-- Core/Webrtc: mangle-api-core/src/webrtc.rs. A room has the channels of its members, which are those of an
--   interface of documented laws, `MpscApi`; `join_session` is `check_session` and `take_session`, since it
--   gives the room back in between. Channels is the sending of the offers, Calls has each call, Rooms the
--   steps of a manager whose calls interleave, Flaws what goes wrong.
-- Core/Ws: mangle-api-core/src/ws.rs, `ManagedWebSocket` on what comes from the peer.
-- Core/Tls: mangle-api-core/src/tls.rs, `poll_accept` on what the polls below it come to.
-- Core/Logging: `setup_logger` of mangle-api-core/src/lib.rs, which record goes into which log.
-- Core/Api: mangle-api-core/src/lib.rs, the builder `API`; `endpoint` is the match at the end of `run`.
-- Core/Credentials: `get_https_credentials` of the same file, on the state of its two files.
-- Core/Distributed: mangle-api-core/src/distributed.rs, the messages that a `Node` sends to its siblings;
--   Core/Siblings is the task that accepts them.
-- Bola/Leaderboard: bola-api/src/leaderboard.rs. A board is a list; `add_leaderboard_entry` and
--   `receive_update` record the requests to the database and the messages to siblings in the state.
--   Bola/Leaderboard/Ideal has the specification, a board that forgets nobody; Service is about the three
--   boards of a node, Siblings about two nodes.
-- Bola/Pull: the boards that `Leaderboard::new` reads at the start, from items as Bola/Db writes them.
-- Bola/Network: bola-api/src/network.rs, and the loop of the task that `Leaderboard::new` spawns, from the
--   stream of a sibling to `receive_update`.
-- Bola/Control: bola-api/src/control.rs, the handler for Messagist/Pipes and the future that stops the server.
-- Bola/Db: bola-api/src/db.rs. An item is a map from names to `AttributeValue`. The table is a service outside: its
--   answers and whether it takes a request are arguments, and the requests that write are results. Sets is about
--   items that come back with their number sets in another order, Wins about what a win asks the table for.
-- Bola/Tournament: bola-api/src/tournament.rs; the clock is what the loop sees in its rounds.
-- Bola/WsApi: bola-api/src/ws_api.rs. Bola/WsApi/Login is `login`, Handle is `handle`, Request is
--   `from_request`; Steps, LoginSteps and Rounds give every action as a sequence of
--   steps of the state, Waiting and Ending are about when it waits for a frame.
-- Bola/State: `new_global!` of bola-api/src/state.rs, the defaults of bola-api/src/config.rs that it uses, and
--   the Google client of mangle-api-core/src/auth/openid.rs.
-- Bola/Command: the head of `main`, `pre_matches` of mangle-api-core/src/lib.rs, and `wait_for_error` of
--   messagist/src/bin.rs on what the reads of a connection come to.
-- Bola/Main: bola-api/src/main.rs, from the HTTPS configuration to the builder that `run` is called on. The
--   handlers are given, and with them the stylesheet that one of them serves.
--
-- Bounds and fuel. The loop of `handle` is run for one round more than there are arrivals to come, and a
-- round without one waits for a frame; the loop of a sign-up is by recursion on the arrivals. `digits` has a unit of
-- fuel more than the number, which has no more digits than that. Scores are natural numbers, since no
-- operation computes with them; the numbers of a profile are read with the bound of `u16`.
--
-- The loops of `wait_for_error` are given how many rounds they may make, since they go on as long as the
-- peer does; on a websocket a round takes at least one event off the list. `poll_times` is given how often
-- the web server polls.
--
-- Not modelled: the Redis client, sync.rs and neo_api of mangle-api-core, which hand values through; the
-- answers of a room's members on their oneshot channels, beyond what one is made of; manglext; multiplayer.rs
-- of bola-api; what clap makes of the command line, the format of a log line and the layers of the web
-- server.
--
-- What is not in the repository stands as parameters: bincode, bimap, serde_json, tokio's channels, regex,
-- axum's sockets, the polls of listeners and handshakes, the OAuth2, OpenID and ACME clients, DynamoDB's
-- answers, `RegexSet`, `constant_time_eq`, the clock and random bytes.
pub mod Base
pub mod Messagist
pub mod Core
pub mod Bola
