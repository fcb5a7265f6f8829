-- ===== src/Lib.antt =====
-- jsonrpcForCpp: a JSON-RPC 2.0 client and server in C++ on Boost.Asio, Boost.Beast and Boost.JSON.
--
-- The parts. A server holds a table of methods. A connection reads an HTTP request, checks it and
-- parses its body to requests; the registry runs these as tasks of a thread pool, each through the
-- wrapper of its method, which converts the JSON parameters to C++ values and the result back; the
-- responses are put into the order of the requests and written as the body of the HTTP response.
-- A client serialises a request, sends it, and parses the answer.
--
-- The files, with the code that each models:
--   Errors            include/jsonrpc/errors.hpp: `Error`, its codes, `what()` and `to_json`.
--   Types             include/jsonrpc/types.hpp, impl/types.ipp: `Request` and `Response`.
--   Protocol          include/jsonrpc/impl/protocol.ipp: texts to and from requests and responses;
--                     Protocol/Contract is the class of include/jsonrpc/detail/protocol.hpp
--                     as an interface with the promises of its comments.
--   Converter         include/jsonrpc/detail/type_converter.hpp: `json_converter<T>` is
--                     `T_from_json` and `T_to_json`, put together in `T_converter`;
--                     Converter/Args is `extract_args`, Converter/Map the conversion of
--                     `std::map`, Converter/CString that of `const char*` from JSON.
--   IndexSequence     include/jsonrpc/detail/index_sequence.hpp, by which `extract_args` reads.
--   FunctionTraits    include/jsonrpc/detail/function_traits.hpp.
--   Wrapper           include/jsonrpc/detail/method_wrapper.hpp: `MethodWrapperImpl` is `wrap`,
--                     `MethodWrapperImplBase` is `wrap_base`.
--   Registry          include/jsonrpc/impl/method_registry.ipp; `invoke_batch` is Registry/Batch,
--                     and of one request in Registry/Batch/Single; Registry/Batch/Stopped stops the
--                     pool under it.
--   ServerSession     include/jsonrpc/impl/server_session.ipp: `process_request` is `receive`, the
--                     batch of the registry, and `reply`; the handlers of the connection are in
--                     ServerSession/Lifecycle.
--   ClientSession     include/jsonrpc/impl/client_session.ipp: the synchronous exchange and `call`;
--                     ClientSession/Async has `async_call`, with continuations for its handlers,
--                     which run at once; ClientSession/Pending has these handlers one at a time.
--   Client            include/jsonrpc/impl/client.ipp: the typed calls, and in Client/Remote such a
--                     call through the session of a server, in Client/Batch a batch;
--                     Client/Failures is what the calls throw, Client/Identifiers which
--                     identifiers they take; Client/Contract is the class of
--                     include/jsonrpc/client.hpp as an interface, which examples use;
--                     Client/EventLoop is `run`, `poll`, `run_for` and `run_until_idle`;
--                     Client/Loop has the sessions of the asynchronous calls in one event loop,
--                     where their handlers interleave with each other and with the calls that wait:
--                     what one handler does in Handlers, such a call in Asking, the callbacks of
--                     a run in Events, Accounts, Outcomes and Counts, a list of
--                     handlers in Orders, those that end every call in Fair, and a call of the
--                     loop that an exception of a callback ends in Throws.
--   Server            include/jsonrpc/impl/server.ipp: the members and operations of `Server::Impl`.
--                     Server/Lifecycle has `start` and `stop` against the worker thread, with its
--                     invariant in Sound, its way out of `stop` in Stops and Ends, and a
--                     context that the user stops in Outside, and a handler that outlives `stop` in
--                     Doubles; Running is a lemma on `start`;
--                     Server/Blocking has `run` against `stop`; Server/Restarts a start that
--                     fails; Server/Settings the size of the pool; Server/Connections its
--                     sessions, whose handlers interleave; Server/Contract is the class of
--                     include/jsonrpc/server.hpp as an interface, with what holds between calls.
--   Examples          examples/: Examples/Calculator is calculator/calculator_server.cpp with its
--                     functions, Examples/CalculatorClient calculator/calculator_client.cpp,
--                     Examples/ErrorHandling error_handling/main.cpp, Examples/BatchRequest
--                     batch_request/main.cpp, Examples/Retry timeout_retry/main.cpp,
--                     Examples/Users type_conversion/main.cpp, Examples/AsyncClient
--                     async_client/main.cpp. A `main` is a function to
--                     what the program prints and its exit code; below each, a module has
--                     what it does against the calculator or whatever the network does.
--   Json, Asio, Results, Prelude  what the code uses of Boost.JSON and of the acceptors of
--                     Boost.Asio; calls that may throw; lists, texts and integers.
--   Tests             a small JSON library, and the theorems and definitions at concrete values.
--
-- How state and control are modelled. Boost.JSON is a record of operations with the laws that the
-- code relies on, `JsonLib`; Tests/Sample has an instance. A call that may throw returns a
-- `Result`, whose exceptions are an `Error`, another `std::exception`, or anything else. The state
-- that user functions share is an argument and a result of every call of one. The thread pool is a
-- step relation: a task runs and stores its response in one step and counts itself down in another,
-- in any order with the steps of the other tasks. What a user function does to the shared state is taken
-- as one atomic action, so two functions that race on it are outside the model. The connection is a step relation on what
-- the network reports: a request, the end of the stream, an error, or the end of a write. A client
-- session runs over a record of the operations of the resolver and the stream, each of which
-- succeeds or fails; a handler of the event loop is a continuation, or, where sessions interleave,
-- one step: the operation that a session waits for ends and its handler runs, in any order with the
-- steps of the other sessions. An exception of a callback ends the call of `run_for` or `poll`, and
-- the handlers after it run in the next such call. Each of these has a record of operations of its own over one state,
-- and an order of the handlers is a list of session numbers; a number that waits for nothing stands
-- for a handler of Boost's own. The server object is a record
-- with the operations that are pending on its `io_context`, the completed accepts whose handlers are
-- queued there, and the point where its worker thread is; one owner that calls `start` and `stop`, and the worker thread, take steps in any order, and
-- `stop` is one step for each of its statements. A `std::map` is the list of its entries in the
-- order of their keys. The types of C++ are a parameter of the traits, and a pack of types is a
-- list.
--
-- What C++ leaves open in the calculator is a parameter: an `int` result that overflows, the casts
-- to `double` and the division of doubles.
--
-- Bounds. `int` is 32 bits wide and narrowing to it is `to_int32`; `int64_t` and `uint64_t` values
-- are in their range by hypothesis where it matters; the size of the pool is cut to 32 bits as its
-- `unsigned` is. Every loop but one is a recursion on a list, or in the example of the retries on the
-- rounds that are left, so no fuel is needed, and `invoke_batch` ends after two steps for each request.
-- `run_until_idle` polls until a poll runs nothing or throws: its fuel is enough when it is above a
-- measure that every other poll lowers.
--
-- Not modelled: sockets, timeouts and the bytes of HTTP, which Boost does; mutexes, whose sections
-- are single steps; a logger that throws; a user that runs the `io_context` of a server itself;
-- a callback that itself waits for another call (an asynchronous call that it makes is a step after
-- its handler); the tests; the macros of include/jsonrpc/config.hpp and the files that only include
-- others.
mod Prelude
pub mod Asio
pub mod Json
pub mod Errors
pub mod Examples
pub mod Results
pub mod Types
pub mod IndexSequence
pub mod FunctionTraits
pub mod Protocol
pub mod Converter
pub mod Wrapper
pub mod Registry
pub mod ServerSession
pub mod ClientSession
pub mod Client
pub mod Server
mod Tests
