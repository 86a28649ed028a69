-- ===== src/Lib.antt =====
-- The parts of httplib, an HTTP and WebSocket server and client on Boost.Beast, that decide what
-- happens to a request.
--
--  - A server takes a request to its router (lib/server/router_impl.cpp). The router splits the
--    path into segments, looks for a node of its tree of routes that has a handler for the method,
--    and runs that handler or answers with an error. Routes are put into the same tree by
--    `insert`.
--  - A handler of a mounted directory (lib/server/mount_point_entry.cpp) checks that the rest of
--    the path stays below the directory before it opens a file.
--  - Every answer is set through the setters of `response` (lib/server/response.cpp).
--  - All of them use the text functions of include/httplib/util/misc.hpp.
--  - A session (lib/server/session.cpp) reads the requests of a connection one by one, has the
--    router handle each, and writes the answers.
--  - A multipart form (lib/body/form_data_body.cpp) is written and read in pieces, as buffers come.
--  - lib/html holds the parsers of query parameters and byte ranges, lib/mime_types.hpp the types
--    of files, and lib/util/action_queue_impl.hpp a queue of coroutines that are run one by one.
--  - Clients are kept for reuse by the pools of include/httplib/client.
--
-- Files:
--  - Base: numbers, lists, texts (lists of byte values) and Boolean tests.
--  - Util/Trim: boost::trim_copy, which is third party, as a parameter with its documented effect.
--  - Util/Split: `util::split`. Split/Pieces is the description by pieces, Split/Total that the
--    loop ends, Split/Laws that both agree, Split/Lacks that no part has the delimiter.
--  - Util/Url: `hex2dec`, `url_decode` (in place, on two positions) and `url_encode`.
--  - Server/MountPoint: `detail::is_valid_path`; MountPoint/Components and MountPoint/Confinement
--    describe it by the components of the path and by resolving them.
--  - Server/MountPoint/Serving: `mount_point_entry::operator()`.
--  - Server/Response: the setters of `response`, each as the calls it makes on the message of
--    Boost.Beast; Response/Effects says what such a call does, Response/Setters what a sequence of
--    setters leaves, Response/File models `set_file_content`, and Response/FileLength compares
--    `Content-Length` with the bytes of the body.
--  - Server/Router: `Node` with its children, as a tree; Router/Insert is `insert`, with the write
--    through the returned pointer as an argument; Router/Match is `match_nodes`, where the maps
--    that the source changes are passed along; Router/Routing is the rest of router_impl.cpp.
--  - Server/Request: the constructor and the accessors of `request`.
--  - Server/Session: `http_task::then` and `async_write`, over the results of what they wait for;
--    Session/Watching, Session/Deadlines and Session/Answers are about them, Session/Tasks models
--    `session::run`, Session/Proxy `http_proxy_task::then` and `detail::transfer`.
--  - Server/Accepting: `co_accept`, `co_run`, `handle_accept` and `stop` of
--    lib/server/server_impl.cpp; Accepting/Sessions and Accepting/Aborts follow the set of sessions,
--    Accepting/Loop the accept loop.
--  - Server/WebSocket: `websocket_conn_impl`; WebSocket/Calls is about the order of its handlers.
--  - Html/QueryParams and Html/Ranges: lib/html/query_params.cpp and `http_ranges::parse`;
--    Ranges/Bounds and Ranges/Large are about one element, Ranges/Numbers about the
--    numbers of a part, Ranges/Within about a whole header.
--  - Bodies/FormData: lib/html/form_data.cpp. FormData/Disposition: the parsers of a part's header
--    (lib/body/form_data_body.cpp), Disposition/Pairs and Disposition/Lines what they read.
--    FormData/Writer and FormData/Reader: `form_data_body::writer` and `form_data_body::reader`, the
--    state of each with its calls. Writer/Drained follows the calls of `get`; Reader/Stream says what
--    a reader waits for, Reader/Steps, HeaderSteps, ContentSteps and Contents are about one call of
--    `put`, Reader/Runs, FormData/ContentType and FormData/RoundTrip about all of them, and
--    Reader/Puts about any bytes.
--  - Bodies/FileBody: `file_body` of include/httplib/body/file_body.hpp and lib/body/file_body.cpp;
--    FileBody/Reads, Pieces, Ranges, Parts and Truncated are about what the calls of `get` give.
--  - Bodies/AnyBody: `any_body` of lib/body/any_body.cpp, and `basic_compressor` and the factory of
--    lib/body/compressor.cpp; AnyBody/Coded is about forms behind a compressor.
--  - Mime: lib/mime_types.hpp, the table in four parts; Mime/MediaTypes is about its answers.
--  - Util/ActionQueue: `action_queue::impl`; ActionQueue/History says what sequences of steps
--    there are.
--  - Client/Pool and Client/MultiPool: the two pools, each operation as one step, as the mutex
--    makes it; History, below each, says what histories of calls there are.
--  - Client/Http: `http_client::impl` of lib/client/client_impl.cpp, over the results of its waits;
--    Http/Watched says which waits have a deadline.
--  - Tests: concrete inputs.
--
-- Fuel: the loop of `split` makes a round for each delimiter it meets and one more, so one more
-- than the length of the text is enough; the outer loop of `is_valid_path` uses a component up in
-- each round, so one more than the length of the path is enough. A session runs each kind of task
-- at most once, so fuel for five rounds is enough. A round of `parse_content_disposition` takes a
-- byte or more, so one more than the length of the text is enough. `get` of any_body goes on for as long as
-- the filter holds back what the writer behind it gives; nothing is claimed of its fuel.
--
-- Parameters: `Trimming` (boost::trim_copy), `Regex` (std::regex), `Names` (http::to_string and
-- boost::join), `Joining` (boost::join with its effect),
-- `Hashing` (std::unordered_multimap, whose order is left open), `Format` (http::obsolete_reason and
-- numbers in decimal), `FileSystem` and `Listing` (std::filesystem, and the pages of a directory),
-- `prepare_payload` of Boost.Beast and
-- `Filter` (boost::iostreams); `Texts` and `FileState` are the dates, boundaries and
-- files of an answer.
--
-- Not modelled: sockets, streams, TLS, compression, the bodies of Boost.Beast, logging, dates and
-- random boundaries, which are calls of other libraries; the WebSocket client, the choice of an encoding in
-- lib/html/accept_content.cpp, the listings of lib/html/html.cpp, and the JSON, string and empty bodies, which pass calls on; and `router.inl`, which wraps handlers.
pub mod Base
pub mod Util
pub mod Mime
pub mod Html
pub mod Bodies
pub mod Server
pub mod Client
pub mod Tests
