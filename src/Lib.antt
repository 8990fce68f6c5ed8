-- ===== src/Lib.antt =====
-- A model of the MetaInfo Framework (MIF): a C++ library for services, their calls over a network,
-- an HTTP stack and a database layer. Paths are from the root of the repository; headers stand
-- under include/mif, sources under src/mif.
--
-- The parts and how they interact. A connection hands the bytes that it reads to a client
-- (`Net::Client`), which processes them and posts bytes of its own; a chain of clients hands what
-- each one posts to the next, and the last one's to the connection. A frame reader and a frame writer
-- at the ends of a chain cut the stream of bytes into messages. The HTTP server runs a session per
-- connection, that reads a request, finds the handler of its path, and queues the reply, which is
-- written in portions; a handler is a web service, which chooses again among its own resources, or a
-- servlet, which gives every session id a client of its own. Services are made by factories, found
-- through a locator, and lent by pools. A database connection has statements, recordsets and
-- transactions. Objects are made JSON texts or XML documents, and back, by templates on their
-- types. A proxy makes a call of a service a message, which a client of the chain hands to a stub at
-- the peer, and waits for the response until its timeout is over; an object manager keeps the peer's
-- stubs by their ids.
--
-- The files:
--   Prelude            Boolean tests, exceptions as values (`Result`), lists measured by native
--                      numbers, and `std::map` as an association list (Map)
--   Net/Framing        src/mif/net/clients/frame_reader.cpp, frame_writer.cpp
--   Net/Client         include/mif/net/client.h, src/mif/net/client.cpp
--   Net/Chain          include/mif/net/clients_chain.h, src/mif/net/clients/gzip_compressor.cpp and
--                      gzip_decompressor.cpp, include/mif/remote/predefined/protocol
--   Net/Tcp            src/mif/net/tcp/detail/session.cpp
--   Net/Http/Url       EncodeUrl and DecodeUrl of src/mif/net/http/detail/utility.cpp
--   Net/Http/Target    Target of the same file
--   Net/Http/Codes     ConvertCode and ConvertMethodType of the same file
--   Net/Http/OutputPack  src/mif/net/http/detail/output_pack.h
--   Net/Http/Routing   the choice of a handler in src/mif/net/http/detail/session.cpp
--   Net/Http/Request   HandleRequest of the same file
--   Net/Http/Session   the queue, the reads and the writes of the same file
--   Net/Http/WebService  src/mif/net/http/web_service.cpp
--   Net/Http/ParamPack  include/mif/net/http/detail/param_pack.h, converter/url/param.h
--   Net/Http/ServletSession, Net/Http/Servlet  src/mif/net/http/servlet.cpp
--   Db/Transaction     src/mif/db/transaction.cpp
--   Db/Recordset, Db/Statement  src/mif/db/postgresql/detail/recordset.cpp, statement.cpp
--   Common/Crc32       include/mif/common/crc32.h
--   Serialization/Json  include/mif/serialization/json.h, and the texts of enumerations in
--                      include/mif/reflection/reflection.h
--   Serialization/Xml  include/mif/serialization/xml.h
--   Remote/Packet      include/mif/remote/serialization/json.h
--   Remote/Archive     include/mif/remote/serialization/boost.h
--   Remote/Stub, Remote/Proxy  include/mif/remote/detail/ps.h, and the classes of the macros in
--                      include/mif/remote/ps.h
--   Remote/Manager, Remote/Client  include/mif/remote/ps_client.h, detail/registry.h
--   Remote/Call        a call from end to end, over both clients
--   Service/Locator, Service/Pool, Service/PerThreadPool  locator.cpp, pool.cpp and
--                      per_thread_pool.cpp of src/mif/service
--   Service/Query, Service/Counter  include/mif/service/iservice.h, detail/service.h, and
--                      src/mif/service/external.cpp
--   Service/Factory    include/mif/service/factory.h
--
-- How the code is rendered. A method of an object is a function from its state to its result and
-- its state after; an exception is a value of `Result`, and a `try` block a function on it. A byte
-- is a number; an `int32_t` is its bit pattern, and so is a double; a template on a type is a function
-- by clauses on a universe of types; where the code computes with `size_t`, `int32_t` or
-- `unsigned long long` the wrap-around is written out. A session of TCP, one of HTTP and a pool
-- with its holders are relations of steps, whose reachable states the theorems are about. A call
-- under a lock is one step.
--
-- Bounds and fuel. The search for a handler shortens the url in every round, so the length of the
-- url is fuel enough (Routing/Longest shows that nothing is missed); the portions of a body and
-- the rows of a recordset are asked for on fuel, and the theorems on them say how much is enough. The
-- lengths of frames are below 2 ^ 31 where a theorem says so, and buffers below 2 ^ 63 bytes.
--
-- Undefined behaviour is an outcome of its own: a range that ends before it begins (Net/Framing), a null
-- pointer that is followed (Serialization/Json, Remote/Manager). A theorem that promises a result
-- excludes it or proves that it does not happen.
--
-- What stands outside. Boost (asio, Beast, the gzip filters, the JSON library, the archives, the
-- tree of XML and the streams that read its numbers), libpq, what a factory creates, the handlers of
-- a server and the client of a servlet are parameters. Not modelled: sockets and timers
-- (src/mif/net/tcp/server.cpp and clients.cpp, http/server.cpp, http/connection.cpp,
-- http/clients.cpp), the templates that bind a method to the parameters of a request, interfaces as
-- the parameters of remote calls, the remote serializer over XML, tuples and arrays in XML (their
-- readers do not compile), the pretty printer of JSON and its associative containers, the thread
-- pool and the client that moves a call to it, the hashes, and applications, configuration and
-- logging, which are input and output.
pub mod Prelude
pub mod Net
pub mod Common
pub mod Db
pub mod Serialization
pub mod Remote
pub mod Service
