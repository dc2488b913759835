-- ===== src/Lib.antt =====
-- A plugin for San Andreas Multiplayer that serves a JSON API over HTTP (src/api, src/share/log).
--
-- The parts and how they interact. `Load` of src/api/Api.cpp opens the log, reads `server.cfg`, and
-- makes an endpoint that listens on a port. The game server then calls the plugin's callbacks: two
-- keep the map of players, and `ProcessTick` polls the I/O service, which calls the handlers of the
-- operations that have completed. An accepted connection becomes a session, which reads a request,
-- hands it to the handler and writes the answer. The handler authorises the request, finds the
-- route whose template the target fits, and calls the function of that route, which calls natives
-- of the game server and fills a message in; the message is encoded as JSON.
--
-- Which file models which part:
--   Route       src/api/Route.hpp, Route.cpp. `Route::set` is `set`, `Match::test` is `test`,
--               `Match::get` is `get`. A template has a meaning without regular expressions in
--               Route/Template; Route/Pattern and Route/Backtracking relate the two, and
--               Route/Filling makes urls of templates.
--   Regex       The part of `std::regex` (ECMAScript) that the patterns and the templates use: a
--               parser, a backtracking matcher, and the search of `sregex_token_iterator` and
--               `regex_replace`.
--   Handler     src/api/Handler.hpp, and the class `Handler` of Handler.cpp. `HandleRequest` is
--               `handle_request`, `Authorize` is `authorize`, the loops are `find_route` and
--               `scan_whitelist`, and `RouteHandler<T>::HandleRequest` is `run_message`,
--               `run_players` and `run_settings` at the three types that it is used at.
--               Handler/Effects has a description of the routes that does not go through this
--               code, and Handler/Schema the types of the objects that are answered.
--   Functions   The namespaces `player`, `misc` and `settings` of src/api/Handler.cpp.
--   Messages    src/api/Types.hpp, SampTypes.hpp: structs, and the objects that are encoded.
--   Codecs      The members that the codecs of the requests in these files read, and the structs
--               that they make.
--   Config      src/api/Config.hpp, Config.cpp. The three overloads of `Get` are `get`, `get_args`
--               and `get_default`.
--   Players     src/api/Player.hpp, Player.cpp, PlayerManager.hpp, PlayerManager.cpp.
--   Session     src/api/Session.hpp, Session.cpp, SessionManager.hpp, SessionManager.cpp. An
--               asynchronous operation is a field of the session that says that it is outstanding,
--               and the lambda that completes it is a function: `on_written`, `on_deadline`, and
--               `on_read` of Server. A write that ends with an error is told apart from one that
--               does not, although the lambda treats them alike.
--   Server      src/api/Endpoint.hpp, Endpoint.cpp, and the callbacks of Api.cpp. A history is a
--               list of events, and a tick has a list of completions in the order of the service; a
--               read that completes comes with what `remote_endpoint()` finds. Server/Reachable has
--               the same as a step relation, in which only outstanding operations complete.
--               Server/Game describes what the game server and its clients see of the plugin, as a
--               replay of the events, without sessions, routing and deadlines; Session/Serving is
--               the part of it for one request, which Session/Meaning puts in the terms of
--               `server.cfg`.
--   Globals     The global pointers of Api.cpp, Config.cpp, PlayerManager.cpp and Log.cpp; a
--               pointer is null, live or deleted.
--   Plugin      `Load` of src/api/Api.cpp; `new_handler` is what the constructor of `Endpoint`
--               makes. Numbers models `std::stoi` and `std::stoul` with 32 bits. Plugin/Lifecycle
--               has `Unload` and every callback as steps on the globals; a call through a pointer
--               that is null or deleted is `undefined`. Plugin/Lifecycle/Life describes any calls,
--               over several loads and unloads.
--   Log         src/share/log/Log.hpp, Log.cpp, and `OpenLog` of src/api/Api.cpp. Log/Console is
--               the sink of src/api/LogSink.hpp.
--   Prelude     Tests on native numbers, lists, bags, texts as lists of character codes, and `std::map`
--               with texts as keys. Tests has a small game server and instances.
--
-- Outside code is a parameter: the natives of the game server and the writing of log lines (Samp),
-- the JSON library (Codecs), fmt, XXH32, the clock, the iteration order of the hash map and memory
-- that is read before it is written (Env), the file system, the sinks and the formatters of spdlog
-- (Log), and what `Load` finds (Plugin).
--
-- Bounds. A `uint32_t` wraps by `to_u32`, a `uint16_t` by `to_u16`; a signed argument of a native
-- is its bit pattern. The search for matches of a pattern (`scan` of Regex/Search) runs on fuel,
-- one more than the length of the text; a match of the pattern takes at least one character, so
-- the fuel is enough (Regex/Fuel). All other loops are structural.
--
-- Not modelled: the mutex of the console sink, since the plugin has one thread; `DropLoggers`, since
-- no logger is registered with spdlog; src/api/FieldsAlloc.hpp, a copy of an example of Boost.Beast
-- that no file uses; the copy of xxHash in src/share; and the debug build, in which `SAMP_DEBUG`
-- writes log lines.
pub mod Prelude
pub mod Regex
pub mod Route
pub mod Config
pub mod Samp
pub mod Players
pub mod Messages
pub mod Codecs
pub mod Env
pub mod Functions
pub mod Handler
pub mod Session
pub mod Server
pub mod Log
pub mod Numbers
pub mod Globals
pub mod Plugin
pub mod Tests
