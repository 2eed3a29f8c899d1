-- ===== src/Lib.antt =====
-- NovaChat, an instant messenger of a Qt client and an asio server that exchange protobuf messages
-- in binary frames over TCP. This library models the program, its windows without their looks, and
-- proves the results listed at the end.
--
-- How the parts work together. The client's services (client/src/service) make request messages,
-- and TcpClient (client/src/network) numbers them, keeps a callback for each number, frames them
-- with ProtocolCodec (proto) and writes them to its socket. A ClientSession of the server
-- (server/src/network) feeds what it reads to a codec of its own; the handler in
-- server/src/main.cpp gives each packet to AuthHandler, ContactHandler or ChatHandler
-- (server/src/handler), which work on the one ServerStorage (server/src/storage) and write answers
-- to the session, and a message also to the session where its receiver is online. Back in the
-- client an answer runs the callback of its number, and a push goes to ChatService; the services
-- keep what they learn in the tables of a local database through the repositories
-- (client/src/storage). The services tell the windows (client/src/ui) of it by signals, and
-- client/src/main.cpp opens and closes the windows.
--
-- Which file models which part:
--   Prelude and its children      numbers, lists, std::string as its bytes, int64_t as an integer,
--                                 unordered_map and unordered_set as lists of entries
--   MessageType                   proto/MessageType.h
--   Codec                         proto/ProtocolCodec.h and .cpp: encode, feed; Codec/Words,
--                                 Codec/Frame, Codec/Stream and Codec/Octets hold the proofs
--   Proto                         the messages of proto/*.proto, and `Wire`, their parsers and
--                                 serializers
--   Server/Hex, Server/Storage    server/src/storage/ServerStorage.cpp: generateHex and the ids,
--                                 every method of the store; Server/Storage/* hold the proofs
--   Server/Persist                loadFromFile and saveToFile of the same file;
--                                 Server/Persist/RoundTrip holds the proof
--   Server/World                  server/src/network/ClientSession.cpp, and what the handlers share
--   Server/AuthHandler, ContactHandler, ChatHandler
--                                 the files of these names in server/src/handler
--   Server/Dispatch               the packet handler of server/src/main.cpp, and one read of a
--                                 session
--   Server/Soundness, Server/Safety
--                                 the store's order, and that each handler keeps it
--   Server/Answering, Server/Replies and its children
--                                 which answers each handler sends
--   Server/Process                the rest of server/src/main.cpp, server/src/network/TcpServer.cpp,
--                                 and the runs of the server
--   Server/Chunks and its children
--                                 reads of cut and mixed bytes against packets that come whole
--   Server/Effects and its children
--                                 what one packet may do to the store
--   Server/Archive, Server/Authors and its child, Server/Runs
--                                 what each of these effects keeps, and what a run keeps
--   Server/Restart, Server/Damage what a restart keeps, and what a damaged file does
--   Server/Access, Delivery, ConvId
--                                 tokens, messages on their way, conversation ids
--   Client/TcpClient              client/src/network/TcpClient.h and .cpp; Client/Connection,
--                                 Client/IoThread, Client/Requests, Client/Chunks and Client/Answers
--                                 hold the proofs
--   Client/Db and its children    the tables and the repositories of client/src/storage, the
--                                 records of client/src/core; Client/Db/Statements has all their
--                                 statements and DatabaseManager.cpp; Client/Db/Contacts/Sync,
--                                 Client/Db/Messages/Page and Client/Db/Keys hold proofs
--   Client/App                    the state that the services share
--   Client/AuthService, ContactService, ChatService
--                                 the files of these names in client/src/service
--   Client/EventLoop              the callbacks that TcpClient posts to the main thread
--   Client/Session, Outbox, Inbox, Resync, Lost
--                                 proofs about the services and the tables; Client/Db/Messages/Saved
--                                 and Client/Db/Tables/Rows, Order and Unique hold lemmas for them
--   Client/Config                 client/src/config/AppConfig.h and .cpp; Client/Config/Saved holds
--                                 the proof
--   Client/Ui and its children    the files of these names in client/src/ui; Client/Ui/Transcript,
--                                 Failure, Mirror, Panels and Layout hold the proofs
--   Client/Start                  client/src/main.cpp; Client/Restart and Client/Profiles hold the
--                                 proofs
--   Client/Process                what Qt's event loop may run next, and the runs of the client;
--                                 Client/Told, Client/Ui/Shown, Client/Home, Client/Runs and its child
--                                 hold the proof about them
--   Client/Suite and its children client/tests: the repository's test cases for the codec and the
--                                 repositories, run on the model
--   Exchange and its children     a message between two clients and the server
--   Tests and its children        the theorems at concrete inputs
--
-- How the code is read. An operation is a function from the state to the state, under the name of
-- the source's function in lower case; a method that holds a mutex is one step. A lambda that takes
-- an answer is a function of its own (`login_answered`, `message_answered`), and a lambda that
-- waits is a constructor of `Callback`. What asio decides (when a read completes and with what,
-- whether a connection comes about, when a timer ends) is the order in which handlers are applied.
-- What doConnect and disconnectFromServer post to the io thread stands in a list until it runs, and
-- the handler of the reconnect timer is two steps, as the main thread may call disconnectFromServer
-- in the middle of it; what sendPacket posts is taken as written at once.
-- A pointer to a session is the session's number. An uncaught std::out_of_range is `thrown`.
--
-- Numbers. Integers are unbounded where the source's cannot reach their bounds; the codec's words
-- and the client's sequence numbers wrap as in the source (`% 2 ^ 32`). A host is taken to be
-- little-endian, as the source's byte order helpers take it.
--
-- Fuel. The loop of `feed` runs on fuel, for which the length of the buffer is enough, since every
-- round takes twelve bytes or more away. The digits of a number are made on fuel above the number.
--
-- The windows. A slot is a function of the window's record and of the services' state; what a
-- service announces is an `Event`, and `take_event` of a window is what its constructor connects. The
-- texts of Qt are bytes in UTF-8, and the functions of QString that slots call are a parameter (`Qt`).
-- What the user does and when Qt calls a slot is the order in which slots are applied. A window that
-- is closed is left out of the state, as nothing shows it again.
--
-- Not modelled: protobuf's wire format, the JSON and YAML libraries, the random device and Qt's
-- functions on texts, which are parameters (`Wire`, `JsonLib`, `Yaml`, `Rng`, `Qt`), as are the
-- local servers by which processes find each other (`LocalServers`); asio's sockets, of which only
-- `closed`, `connecting` and `opened` are told apart, and its errors on accept; SQLite's own failures;
-- layout, painting and scroll positions (client/src/ui), of which only the boxes of a message's
-- bubble are modelled; the application object and message boxes of client/src/main.cpp, and the log
-- (client/src/logger); of client/tests the cases that ask SQLite for its catalogue or read YAML text.
mod Prelude
pub mod MessageType
pub mod Codec
pub mod Proto
pub mod Server
pub mod Client
pub mod Exchange
mod Tests
