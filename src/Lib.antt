-- ===== src/Lib.antt =====
-- ntmd, the network traffic monitoring daemon.
--
-- ntmd captures the packets of a network device, finds the process that each packet belongs to,
-- adds up traffic by the name of the application, and deposits the sums in a database at an
-- interval. Clients of its API may watch the traffic live.
--
-- Parts, and the files that model them:
--   src/util/LRUArray.hpp
--       in Util/LruArray: the least recently used array
--   src/util/StringUtil.cpp
--       in Util/StringUtil: trim, split, tests on texts
--   std::stoi, std::to_string
--       in Util/Decimal: as the callers use them
--   src/net/IPList.cpp
--       in Net/IpList: the local addresses
--   src/net/Packet.cpp
--       in Net/Packet: a packet from the captured bytes
--   src/net/PacketHash.cpp
--       in Net/PacketHash: the key that joins packets and sockets
--   src/proc/SocketIndex.cpp
--       in Proc/SocketIndex: from a packet to the inode of its socket
--   sscanf
--       in Proc/Scanf: the directives of its formats
--   src/proc/ProcessIndex.cpp
--       in Proc/ProcessIndex: from an inode to its process
--   src/proc/ProcessResolver.cpp
--       in Proc/ProcessResolver: both indexes in a row
--   src/traffic/DBController.hpp
--       in Traffic/TrafficLine: the counters
--   src/traffic/DBController.cpp
--       in Traffic/DbController: the statements that it sends to the database, and what it makes
--       of the answers
--   sqlite3
--       in Traffic/Sqlite, a parameter; Traffic/Tables, Traffic/Sql and Traffic/DbController/Lawful
--       say what its statements mean, and Traffic/DbController/Memory is a value that meets this
--   src/traffic/TrafficStorage.cpp
--       in Traffic/TrafficStorage: traffic in memory
--   the threads around it
--       in Traffic/System: packets, waits and deposits as steps
--       in Traffic/History: the deposits, one after the other, in the database
--   src/net/Sniffer.cpp, src/net/SnifferLoop.cpp
--       in Net/Sniffer: the callback for a captured packet
--   src/config/ArgumentParser.cpp
--       in Config/ArgumentParser: the command line
--   src/config/Config.cpp
--       in Config/Configuration: the configuration file
--   src/api/APIController.cpp
--       in Api/Requests: requests, up to the call of a handler
--       in Api/Handlers: what the handlers send
--       in Api/Server and Api/Server/Rounds: connections and streams, beside the threads of
--       Traffic/System
--   the JSON library
--       in Api/Json, a parameter
--   src/util/HumanReadable.cpp
--       in Util/HumanReadable: amounts for the reader, over `double` as a parameter
--   src/Daemon.cpp
--       in Daemon: signals, and the loop of main
--   src/main.cpp
--       in Main: the start of all components
-- Base holds what these share: Outcome, the result of code that may
-- throw, exit or have undefined behaviour; association lists for std::unordered_map; texts as
-- lists of bytes; the interface Eq for operator==.
--
-- How they interact: main runs the loop of the sniffer while Daemon.running holds. The callback
-- (Sniffer.pkt_callback) builds a Packet (Packet.parse) with the addresses of IpList; its PacketHash
-- leads to a socket inode (SocketIndex.get), the inode to a process (ProcessIndex.get), both by
-- ProcessResolver.resolve, and TrafficStorage.add counts the packet for the process. Traffic/System
-- runs `add`, `deposit` and `await_snapshot` in any order, as the mutex lets the threads do,
-- and Api/Server runs connections of clients and their streams beside them, over the database: there
-- a captured packet is parsed and resolved in one step and counted in another, as `add` takes its
-- lock in between, and what ends the daemon or is undefined on the way ends the run.
-- Config.init gives the sniffer its device and the size of the cache of pids.
--
-- Choices. A method is a function from its object's fields to the new fields and the result. What
-- an operation reads from the system (the entries of /proc, the list of getifaddrs, the captured
-- bytes) is an argument, and the answers of /proc may be any. Machine integers are natural numbers
-- with their wrap-around written out; `int` is a signed type where its sign matters. Loops are
-- structural recursion; `contains_from` counts the rounds of its loop, and the printing of numbers
-- runs on fuel that is one above the number, and each round divides the number by ten. The loops of
-- HumanReadable run on fuel: six rounds are enough for 10 ^ 18 bytes, and for an infinite rate no
-- number of rounds is.
--
-- Not modelled: the destructors and Sniffer.dispatch, which call a library alone; the paths of
-- FilesystemUtil, which nothing calls; the printing of packets, which is for debugging; and all
-- output on stderr. What POSIX answers, and whether `send` finds the client, is in arguments and
-- events of Api/Server; a connection has the number of its `accept` in place of its descriptor. What
-- std::localtime and std::mktime make of the day is an argument of the handler of traffic-daily.
pub mod Api
pub mod Base
pub mod Config
pub mod Daemon
pub mod Main
pub mod Net
pub mod Proc
pub mod Traffic
pub mod Util
