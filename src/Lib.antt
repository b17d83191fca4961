-- ===== src/Lib.antt =====
-- Distributed mutual exclusion: clients that read and write the files of a group of servers, and that
-- agree by messages among themselves on who may use a file.
--
-- A client sends a request (ENQUIRY, READ, WRITE) to servers over sockets. Before READ and WRITE it
-- asks the object that runs the algorithm for the file (Ricart-Agrawala or Maekawa), which exchanges
-- messages with the same object at other clients and lets the client in. Every message is a `Packet`,
-- stamped by the node's Lamport clock; one to the node itself goes through its message queue.
--
-- Which file models what:
--   Base      shared names: Boolean tests, lists measured by native numbers, texts as lists of bytes,
--             `int` values (ℤ with the wrap-around written out), loops over tables of flags
--   Utils     src/utils.cpp: intToChar, charToInt, splitString; `Decimal` has std::to_string and
--             atoi, `Files` _readLastLineOfFile, countLine, _writeToFile, `Lines` what they yield,
--             `Config` getQuorumsFromConfig, `Addresses` getIpAddrsAndPortsFromConfig, `Generate`
--             _generateRandomInputFile, `Scan` the conversions of sscanf
--   Packet    src/packet.cpp, include/distributed-me/packet.h: `Types` has the packet and its types,
--             `Wire` toMessage and MessageToPacket, `Buffer` what toMessage leaves in a buffer,
--             `Stream` splitReadDataFromSocket
--   LamportClock, MessageQueue   src/lamportclock.cpp, src/messagequeue.cpp
--   Node      src/node/node.cpp: the constructor, compare, createMessage and the functions that send;
--             `Addresses` the side that connectToOtherClient of src/node/client.cpp takes
--   Ra        src/CriticalSectionAlg/RACriticalSectionAlgStrategy.cpp: one function per method;
--             `Effects` what the loops do to one peer, `Text` the way of a message text, `Network` the
--             clients of one file as a step relation, `Link` what holds between two clients,
--             `Invariant` what holds of all, `Safety` mutual exclusion, `Work` what is left to do for the
--             requests made, `Progress` and `Service` that they are served, `Schedule` runs by evaluation
--   Mkw       src/CriticalSectionAlg/MKWCriticalSectionAlgStrategy.cpp: `Requester` and `Arbiter` with
--             `Queueing` have the two halves of Maekawa's algorithm, `History` an arbiter over any
--             sequence of messages, `Network` the clients of one file as a step relation, with where
--             the lock of each arbiter is (`Tokens`, `Balance`), mutual exclusion (`Safety`) and runs
--             by evaluation (`Schedule`)
--   Server    src/node/server.cpp: the handlers over the hosted files, a round of the loop that reads,
--             `Serving` how clients connect and the loop over what a thread reads
--   Client    src/node/client.cpp: the messages of other clients; `Service` the requests to servers and
--             their answers, `Input` the requests of an input file, `Connecting` how the sockets come
--             into the tables, `Threads` the loops over what is read, `Dispatch` the objects made for the
--             files, `Replies` a REQUEST and the REPLY back, `Answers` and `Writing` writes
--   Logger, Startup  src/logger.cpp, and the start of the nodes: the log files that they share, and the
--             barrier at the head of Client::run
--
-- Conventions. A method takes the object and returns it with what it sends. Sending is a list of
-- messages, or of bytes per socket. `none` stands for undefined behaviour, an uncaught exception or an
-- exit of the program. Memory that the code does not initialise is an argument. A method that holds
-- its mutex throughout is one function; a method that waits is cut at the wait. Addition of `int`
-- wraps around. `std::priority_queue` is the sequence in which it delivers.
--
-- Fuel. splitReadDataFromSocket has one more than the bytes read: each packet takes 20 bytes at least,
-- or the read faults. The loops over a file have the length of what is left of it, since a round
-- reads a byte at least.
--
-- The network of Ricart-Agrawala has channels that keep the order of each sender's messages, as the
-- sockets do, and lets the threads of a client interleave between the methods. In the code
-- `can_enter_critical_section` and `enter_critical_section` take the lock one after the other: a
-- request that is treated in between takes a permission away that the client goes on to use, and then
-- two clients may be in the section together (`Ra/Tests` has such a run). The theorems about the
-- network therefore name the condition that no message is treated at that point (`NotCleared`).
--
-- The network of Maekawa's algorithm lets the messages on their way be treated in any order. The handler of
-- INQUIRE waits, tests `received_failed` and sends its RELINQUISH under locks of their own: these are three
-- steps, between which the other threads run. A client that is refused thus answers an INQUIRE that comes
-- late, after its RELEASE, in its next round, and it answers although a LOCKED that is treated after the test
-- has let it into the section. The arbiter then takes the lock from a client that may be in the section:
-- `Mkw/Network/Tests` has a run of each kind with two clients there whose quorums share a member. Mutual
-- exclusion therefore names the condition on the answer, at the time when it is sent (`Rightly`).
--
-- Not modelled: printing and logging, but for the lines that the nodes count at their start; the calls of
-- the socket interface (what accept, socket, connect and read return is an argument), sleeps, starting and
-- joining threads, and how the threads of a process interleave outside the networks; src/main.cpp, src/run_client.cpp,
-- src/run_server.cpp and the command lines; the tests. The entries that readdir lists and the values of
-- rand are arguments of what uses them.
pub mod Base
pub mod Utils
pub mod Packet
pub mod LamportClock
pub mod MessageQueue
pub mod Node
pub mod Ra
pub mod Mkw
pub mod Server
pub mod Client
pub mod Logger
pub mod Startup
