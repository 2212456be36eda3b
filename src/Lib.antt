-- ===== src/Lib.antt =====
-- The stereo camera node: what its C++ does, modelled and proved.
--
-- The node stands between camera services and clients. `SDKSlotManager` asks a camera's service to
-- start and stop data types over HTTP and receives frames from it over ZMQ. Each frame goes to a
-- `DataBuffer` and to an `SPSCQueue`, from which a publisher thread hands it on to subscribers and to
-- the WebSocket server, which queues it for each client that subscribed to it. Clients drive captures
-- through `AdminServer`, which routes their requests to `ClientHandler`. `ConfigManager` reads the
-- configuration and keeps the parameters of `ParameterManager` in a file.
--
-- Which file models what:
--   Types          include/stereo_camera/common/Types.h: data types, groups, bundles, frames
--   Ring           include/stereo_camera/data/DataBuffer.h: `RingBuffer`
--   Buffer         include/stereo_camera/data/DataBuffer.h, src/data/DataBuffer.cpp: `DataBuffer`
--   Spsc           include/stereo_camera/data/SPSCQueue.h; Spsc.Threads: its two threads; Spsc.Loop:
--                  the loop that empties a queue
--   Client         src/api/CameraSDKClient.cpp, src/common/Response.cpp: requests and responses;
--                  Client.Decode: what `http_post` makes of a reply
--   Json           what the code uses of the JSON library, as an interface with laws
--   Parameters     src/common/Parameter.cpp
--   Config         include/stereo_camera/data/ConfigManager.h, src/data/ConfigManager.cpp
--   Slots          src/data/SDKSlotManager.cpp: captures and subscriptions
--   Sessions       src/api/ClientHandler.cpp: the clients' sessions and commands; Sessions.Status:
--                  `handle_check_status`
--   Admin          src/api/AdminServer.cpp: a request from its bytes to its answer; Admin.Listener:
--                  `start` and `stop`; Admin.Pool: the accept thread, the workers and their queue
--   Pipeline       include/stereo_camera/data/DataPipeline.h; Pipeline.Dealer: `dealer_loop` of
--                  src/data/SDKSlotManager.cpp; Pipeline.Publisher: src/data/DataPublisher.cpp and the
--                  callback of src/main.cpp; Pipeline.Encode: the encode path of src/data/WSServer.cpp,
--                  Pipeline.Encode.Loop: its `encode_loop`
--   Wire           src/data/WSServer.cpp: WebSocket frames
--   Server         src/data/WSServer.cpp: `client_loop`, `send_loop` and `accept_loop`;
--                  Server.Listener: `start` and `stop`, with what they and `accept_loop` open and close
--   Sockets        src/data/DataPublisher.cpp, src/data/LoopbackSubscriber.cpp: `start` and `stop`
--   Handles        the log of what is opened and closed, for the four classes that start and stop
--   Loopback       src/data/LoopbackSubscriber.cpp
--   Storage        src/data/DataStorage.cpp
--   Startup        src/main.cpp: what it assembles, starts and stops
--   Vision         src/vision/DisparityMap.cpp, DepthMap.cpp and PointCloud.cpp
--   Calibration    src/calibration/Calibration2D.cpp and Calibration3D.cpp
--   Floats         what Vision uses of `float`, as an interface with laws
--   Common         loops, lists, maps, sets, bits and `size_t`, for the other modules
--   Examples       runs at concrete inputs
-- A C++ name `handle_connect` or `active_types` keeps its spelling; a type `SDKSlot` is `SdkSlot`.
--
-- How the code is read. A method that runs under a mutex is one function on its object's state, and
-- errors are return values as in the source; where an exception may leave a function, its result is an
-- `Option`, and what the code did before the exception stays. `SPSCQueue` has no lock: Spsc.Threads
-- cuts it at its memory accesses and lets the two threads take turns in any order. The threads of a
-- WebSocket client meet at its queue's lock: Server.Queue takes what they do in any order. A `size_t`
-- is a natural number below 2 ^ 64 with its wrap written out (`add_size`, `sub_size`); the ring is
-- treated with the wrap of its counters, the queue until its counters wrap. The ring's capacity is at
-- most 2 ^ 32, as `next_power_of_two` smears 32 bits. The counters of subscribers and calls do not
-- overflow here. An unordered map is a list of entries with unique keys, in the order of iteration. A
-- `std::shared_ptr` is its bundle, which has an address, by which the code compares. The bytes of an
-- HTTP request are a text. The `int64_t` of a timestamp stand as their 64 bits. Where the code ends the
-- process (`std::terminate`), the result is none.
--
-- Parameters: the JSON library (`JsonOps`, with its documented laws `IsJson`; in places only the few
-- readings that a handler needs), the camera service's replies (`Replies`), `double` (a type `R`) and
-- its arithmetic (`percent`), the default of an item type (`dflt`), what C++ leaves uninitialised
-- (`Fresh`), which sockets are bound (`bound`), which files open (`opens`), `std::stoul`, JPEG
-- compression (`compress`), the allocator (`allocate`), and a TLS connection (`ssl_read`), of which
-- `Delivers` states what OpenSSL documents of a blocking read. Whether a write succeeds or a client
-- comes is an argument of the step that depends on it, and so is what the system answers to `start`. The
-- arithmetic of `float` (`FloatOps`, with laws `IsFloat`) and `double` and its text in JSON (`ValueOps`,
-- with laws `IsValue`) are parameters of Vision and Calibration.
--
-- Fuel: `read_loop` has the number of bytes left to read, since a read gives one at least; a loop that
-- empties a queue has the queue's capacity, since it holds no more. The other loops run over a list or
-- count (`for_up`, by the number of rounds left).
--
-- Not modelled: log lines; the calls of libcurl, ZMQ, OpenSSL and JPEG, with the handshake's hash; the
-- waking of threads and their time-outs; in `main`, signals, the notices before the stop, and requests
-- that come while it stops the parts.
pub mod Common
pub mod Types
pub mod Ring
pub mod Buffer
pub mod Spsc
pub mod Client
pub mod Json
pub mod Handles
pub mod Sockets
pub mod Startup
pub mod Parameters
pub mod Config
pub mod Slots
pub mod Server
pub mod Sessions
pub mod Admin
pub mod Pipeline
pub mod Loopback
pub mod Storage
pub mod Floats
pub mod Vision
pub mod Calibration
pub mod Wire
pub mod Examples
