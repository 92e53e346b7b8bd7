-- ===== src/Lib.antt =====
-- foxhttp: a C++ HTTP server library on Boost.Beast. Requests are parsed, run through a chain of
-- middlewares and handed to the handler that the router finds; a client keeps its connections in a
-- pool. This library models the parts that decide something, and leaves sockets, TLS, threads and
-- JSON to the libraries they come from.
--
-- Prelude          shared names: tests on numbers, lists, bytes, maps, std::getline, std::sort,
--                  std::to_string, reading of hexadecimal digits
-- Url              url_encode and the loop of url_decode (src/parser/form_parser.cpp,
--                  src/server/request_context.cpp)
-- Router           src/router: Pattern is RouteBuilder, Route is StaticRoute and DynamicRoute,
--                  Table is RouteTable, Named its named instances with the facade Router; Regex is the
--                  part of std::regex that patterns use
-- Middleware       src/middleware: Code is what a middleware does, seen through its calls, with the
--                  default asynchronous operator; Pipeline is the asynchronous run (execute_async,
--                  execute_next_async_step, the timers, cancel), Sync the synchronous one (execute),
--                  Chain the list of middlewares; RateLimit is
--                  include/foxhttp/middleware/advanced/rate_limit_middleware.hpp; Static is
--                  StaticMiddleware, over the answers of the file system; Auth is
--                  include/foxhttp/middleware/advanced/auth_middleware.hpp; Compression is
--                  CompressionMiddleware; Headers is CorsMiddleware and SecurityHeadersMiddleware;
--                  BodyParser is BodyParserMiddleware over the parsers of Parser
-- Base64           the decoders of the authentication middleware and of the multipart parser
-- Parser           src/parser: Form is FormParser, PlainText is PlainTextParser, Multipart is
--                  MultipartStreamParser, Field is MultipartParser with MultipartField, JsonParser is
--                  JsonParser around the JSON library
-- Server           src/server: Context is RequestContext, Timer is TimerBucket and TimerManager its
--                  manager, Session is Session with SessionBase and, in Ssl, SslSession with a loop of
--                  its own; Strands is StrandPool
-- Client           src/client: Pool is ConnectionPool, Target reads URLs, Request is RequestBuilder
-- Tests            the theorems at concrete inputs
--
-- How the parts meet: a middleware is a value of Code, which the two pipelines run; RateLimit gives
-- such a value, and so do Auth, Compression, Headers and BodyParser, which calls the parsers of Parser;
-- Chain keeps the list that a run starts from. Table stores the routes that Pattern and Route make, and
-- Named shares tables between routers. Form and Context decode with Url. TimerManager picks the bucket
-- of Timer for a task.
--
-- Strings are lists of bytes; numbers are natural numbers, with the wrap of a 64-bit counter written
-- out in the connection pool. Maps are association lists without an order of their own. A callback, a
-- clock and the state of a socket are arguments. What happens to a run after it started (a late call
-- of next or of a callback, a timer, cancel, pause, time) is a list of events, and so is what the
-- network, the timers and the chain do to a session. A timer of a session keeps apart the wait that is
-- pending and the handlers that are queued, which a cancellation does not reach.
--
-- Fuel: a pattern of n bytes is read with n + 1 rounds, since each round passes at least two bytes;
-- a pipeline of n middlewares runs with n + 1 steps, since each step moves the index on; a stream
-- parser with n bytes in its buffer takes 3 n + 3 rounds, since a round shortens the buffer or leaves
-- the content of a field.
--
-- Not modelled: locks (each operation holds its own for as long as it touches shared state), the
-- execution times in the statistics, timer callbacks that stop the timers or throw what is no
-- std::exception, copies of a request builder (they share its specification), logging, and the
-- components that are not listed above. std::sort leaves the order of equivalent elements open; the
-- model keeps it.
pub mod Prelude
pub mod Base64
pub mod Url
pub mod Tests
pub mod Router
pub mod Middleware
pub mod Client
pub mod Parser
pub mod Server
