-- ===== src/Lib.antt =====
-- weightless_core: the model of weightless-core, a library for asynchronous programs of generators.
--
-- The parts of the program and the files that model them:
-- - weightless/core/_compose_py.py, `compose`: runs a stack of nested generators as one. Compose/Machine
--   is its loop, over any generators (the interface `Generators`); Compose/Tree is a small language of
--   generators and Compose/Reference what its programs mean without a stack; Compose/Messages and
--   Compose/Flatten hold the proofs.
-- - weightless/http/httpspec.py: Http/Regexp has the compiled expressions as matchers, and its child
--   modules say what a match does with more data (Extend) and how much it takes (Shorter); Http/Headers
--   has the headers as a dictionary and Http/Names the names that the code looks up.
-- - weightless/http/_httprequest1_1.py: Http/Chunked/Code has `_deChunk`, `_oneChunk` and `_trailers` as
--   generators in the interface of Compose/Machine, Http/Chunked/Decoder what the three amount to;
--   Http/Strategy reads the headers of a response and chooses a reader; Http/Body has the readers.
-- - weightless/io/_reactor.py: Io/Reactor/State has the fields, Io/Reactor/Methods the methods and
--   Io/Reactor/Step the step with its callbacks. The operating system and the callbacks are parameters.
--   `resumeProcess` takes any handle, as in the source; that of a descriptor comes to stand among the
--   running processes, and the invariant of Io/Reactor/Apart is about callers that do not do that.
-- - weightless/http/_httprequest1_1.py, `_do`: Http/Driver has the calls it makes and how their results and
--   exceptions go on (a log of calls, from which the environment `Env` answers); Driver/Request sends the
--   request, Driver/Connection makes and closes sockets, Driver/Run is the driver itself. Driver/Keeps
--   has the rules by which the other child modules prove what every run does.
-- - weightless/http/_httprequest.py, `_do`: Http/OldRequest, in the same calls. The socket that TLS makes
--   around another has a number of its own.
-- - weightless/http/_httpreader.py, `HttpReader`: Http/Reader, with the chunks that it sends in
--   Http/Chunked/Encode.
-- - weightless/http/_httpserver.py, `HttpHandler`: Http/Server, on the requests of Http/Headers. zlib is a
--   parameter. Http/Response writes a response that is not compressed, Http/Response/Compress one that is,
--   with its headers changed as in Http/Response/Update; Http/Server/Accept chooses the encoding.
-- - weightless/io/_suspend.py: Io/Suspend, over the methods of the reactor.
-- - weightless/http/_socketpool.py: Http/SocketPool.
-- - weightless/core/utils/_utils.py: Utils has `copyBytes` and `readRe`.
-- - weightless/core/_observable.py: Observable has `call`, `do` and `Transparent`, Observable/Once the walk
--   of `once`.
--
-- A method that may raise gives a result and the new state, also when it raises. A byte is a natural
-- number. Times are milliseconds. Tracebacks, printed messages and the log are left out.
--
-- Fuel: the loop of `compose` takes one unit for each pass, and the refinement theorems give the fuel with
-- which it ends. The chunks of a piece of data take one unit each, and `held` is enough. The last
-- callbacks of bad descriptors take one unit each; callbacks that always add another would keep the source
-- in that loop for ever. `loop` of the reactor takes one unit for each step. The walk of `once` takes one unit
-- for each level of observers, and the purge of the socket pool one for each random choice. The
-- server takes one unit for each of its methods, and one for each byte of the data is enough for a chunked
-- body. The loop of `_do` has fuel for two passes, after which it never goes on. A loop that sends data is
-- resumed as often as the environment says (`patience`), and is closed by `GeneratorExit` after that; the
-- length of the data is enough.
--
-- Not modelled: `all` and `any` of Observable, whose observers are called one by one while their generators
-- run; the control pipe that wakes the reactor from another thread, the C versions of `compose` and
-- `local`, forms of the HTTP server, the options of sockets, `gio` and the thin wrappers around sockets.
pub mod Base
pub mod Compose
pub mod Http
pub mod Io
pub mod Observable
pub mod Utils
