-- ===== src/Lib.antt =====
-- Verification of vermell, a C++ web framework: a model of its request and response pipeline, and
-- the theorems that make it correct.
--
-- How the parts meet. The event loop collects bytes of a connection and asks `Message::inspect`
-- whether they are a whole request; a complete one goes to `ExecuteRoute`. That calls
-- `Message::parse`, looks for an exact route, a pattern route or a static mount, runs the middlewares
-- of a route on a `Query` made from the message, and sends the response as a head and a body.
--
-- Modules, and the files that they model:
--   Prelude        shared names; byte strings as lists of numbers, with the searches of
--                  `std::string_view`; decimal numbers (`std::to_chars`, `std::from_chars`)
--   Http.Text      the text helpers of include/vermell/http/message.hpp (namespace detail)
--   Http.Decode    `url_decode`, `percent_decode`, `parse_query` of the same file
--   Http.Chunked   `Message::scan_chunked`
--   Http.Head      `head_bounds`, `scan_head`, `line_endings_ok` and the character tests
--   Http.Message   `Message::inspect`, `Message::parse` and the accessors
--   Http.Response  include/vermell/http/response.hpp
--   Http.Multipart uploads and `parse_multipart` of include/vermell/http/message.hpp
--   Json           include/vermell/util/json.hpp: values, printer, parser and the legacy builder
--   Params         include/vermell/request/parameters.hpp and sources/request/parameters.cpp
--   Request        `Request` of sources/request/request.cpp
--   Query          `Query` and `Core_init_t::execute` of include/vermell/routes.hpp and
--                  sources/request/routes.cpp
--   Mime           include/vermell/util/mime_types.hpp
--   Rendering      include/vermell/util/secure_render.h
--   Templates      include/vermell/util/basic_render.h, ver_reader.h, data_render.h, notify.h
--   Facade         include/vermell/vermell.h and config.hpp, the socket settings of
--                  sources/sockets.cpp
--   Static         include/vermell/util/static_files.h
--   Dispatch       `ExecuteRoute` and `TimeGuard` of sources/request/io.cpp
--   Connections    the event loop of sources/request/io.cpp (`RequestIO`): accepting, reading, the
--                  loop over requests, sweeping, completions, shutdown
--   Pool           sources/threading/thread_pool.cpp
--   Routing        route keys, path segments and patterns of include/vermell/routes.hpp
--   Environment    sources/environment.cpp
--   Examples       tests, and the theorems at concrete inputs
--
-- Conventions. A byte is a number; that it is below 256 is a hypothesis where it matters. A view and
-- a position in it are the bytes from there on, so a search returns what stands before and behind
-- the match, and a loop that moves a position is a recursion on what is left. `std::nullopt` and
-- `npos` are `none`. A `size_t` has 64 bits: `npos` is 2^64 - 1, and the overflow checks of the
-- source are written out.
--
-- Parameters. A file system is a record of functions, for the calls of the kernel and of
-- std::filesystem that the source uses; the write of an upload is a function on any state; a
-- middleware is a function on the query and any other state; a clock is the readings that the code
-- takes, in nanoseconds; what recv, accept4 and epoll return to the event loop is an argument of each
-- step; a double is its bits, and its conversions to text and back are a record of functions.
--
-- Fuel. The loops of `scan_chunked` take one more unit than the body has bytes; every round takes at
-- least the two bytes of a CRLF, so more fuel changes nothing. The loop of `parse_multipart` takes
-- one more unit than there are bytes behind the first delimiter, and every round takes a delimiter.
-- The loops of `parse_array` and `parse_object` take one more unit than there are bytes left, and
-- every round takes its comma. The loop of `HandleReadable` takes as many units as the buffer has
-- bytes, and every round takes a request, which has bytes. `decimal` takes the number's successor,
-- and a number has fewer digits than that.
--
-- Casts that C++ leaves undefined. The seconds in the default text of a guard are cast to `int`; from
-- 2^31 on the model prints the least `int`, as x86 does, and the theorem on that text asks for less.
--
-- Not modelled: the threads of the event loops, the system calls of the sockets,
-- and /proc.
pub mod Connections
pub mod Dispatch
pub mod Environment
pub mod Examples
pub mod Facade
pub mod Http
pub mod Json
pub mod Mime
pub mod Params
pub mod Pool
pub mod Prelude
pub mod Query
pub mod Rendering
pub mod Request
pub mod Routing
pub mod Static
pub mod Templates
