-- ===== src/Lib.antt =====
-- myLinux: servers and thread libraries of a Linux programming course, verified in part.
--
-- The newest server, 8.11/epollServer.2, is an edge-triggered epoll reactor (epollServer.hpp over
-- epoll.hpp) that takes packages of a calculator protocol (protocol.hpp) off each connection, has
-- them answered by a handler (main.cc), and sends the answers.
--
-- Text (std::string and <cstdlib> on lists of bytes): find, substr, atoi, to_string, and the
-- conversions between int and size_t, with their wrap-around. A C string that is not terminated
-- inside its array, and a position that substr refuses, are `none`.
-- Protocol (8.11/epollServer.2/protocol.hpp): readPackage, removeHeader, addHeader as read_package,
-- remove_header, add_header (package is a reserved word here, so it is called packet), the classes
-- Request and Response with serialize and deserialize. jsoncpp is not in the repository: Protocol/Json
-- holds what is used of it, with its documented behaviour as laws.
-- Calc (8.11/epollServer.2/main.cc): calculateHandler as calculate_handler; none is undefined
-- behaviour.
-- Epoll (8.11/epollServer.2/epollServer.hpp, epoll.hpp): the server object as a record with the
-- connection table, the heap that its pointers go to, and the kernel's epoll set; each member function
-- is a function of the same name in a monad over it, which can end in a crash. Connections holds
-- AddConnection, Accepter and Excepter, Io holds HandleRecive, Reciver, Sender, EnableReadWrite and
-- HandleRequest, Loop holds LoopOnce and Dispatcher, Deliveries holds Reciver, up to the sending, for a stream that
-- comes in pieces. What accept, recv, send and epoll_wait return
-- are lists in the state, in the order of the calls and of any content, after which the calls fail
-- with EAGAIN; so the loops recur on these lists. The loop of HandleRequest has fuel, one more than
-- the bytes in the buffer, and is shown to end before it runs out. epoll_ctl fails just on a
-- descriptor that is there already, or not there.
--
-- Ring (7.9/sem/RingQueue.hpp): a ring between producers and consumers. Each thread has a program
-- counter, one statement of push or pop runs at a time, and a schedule says which thread is next; so
-- every interleaving of the statements is a list of events. A statement that has to wait is passed
-- over. Semaphores are counters, mutexes flags; an access outside the vector is its own outcome.
--
-- BlockQueue (7.3/blockingQueue/blockQueue.hpp): the queue with one mutex and two condition variables, in
-- the same way. pthread_cond_wait gives the mutex back and sleeps at once; a thread that is woken asks
-- for the mutex and tests again. A signal wakes one sleeping thread of the kernel's choice, and a
-- thread may wake with no signal.
--
-- Formula (7.20/netCalculator/client.cc): splitFormula. Http (7.22/httpServer/main.cc, funcSet.hpp):
-- readLine, separateString and Desarialize; Http/Response (with http_server.hpp) readFile, getContentType,
-- handlerHttpRequest and the service of one client, over what stat, open and read give for a path.
-- The loops of splitFormula and Desarialize have fuel: how much is enough on the inputs that they are
-- meant for, and where none is, is among the results.
--
-- Pool (7.10/threadPool): the thread pool, over any type of tasks and what their call makes of them, in
-- the same way, with a place for workers that have not been started. Pool/Singleton is get_instance
-- with its two checks, over a heap of pools and the results of pthread_create. The class Task is not modelled: its
-- operator() returns no value, which is undefined behaviour.
--
-- CtrlProc (5.26/CtrlProc): the parent and the children of the process pool, one step at a time in any
-- order, with the pipes and who holds their write ends. What is typed is a list of numbers of any size; one
-- that is no int makes cin fail, and then, as at the end, it gives 0; pipe can fail, fork succeeds.
--
-- NetCalculator (7.20/netCalculator): readPackage, which calls recv itself, and serviceIO of the server with
-- a thread for each client; what they share with 8.11 is taken from Protocol and Epoll/Requests.
--
-- Chat (7.17/v2_udp_socket_/udp_server.hpp): the chat server, whose two threads run one statement at a time
-- in any order, over what recvfrom returns. Its queue is a list of bounded length (Ring has the class that
-- it is). The map of users keeps the order of insertion, where that of unordered_map is not specified.
--
-- TcpServer (7.19/tcp_socket/tcp_server.hpp): the service of a client, over what read returns.
--
-- Multiplex (8.6/selectServer.2/SelectServer.hpp, 8.7/pollServer/PollServer.hpp,
-- 8.7/epollServer.1/epollServer.hpp): the select, poll and level-triggered epoll servers.
-- Multiplex holds the column of descriptors and what the kernel returns, Multiplex/Select the
-- select server: the array, FD_SET and the sets, Accepter, IOService, HandlerEvent and the loop
-- of start_server, one round for each result of select. The array has 1024 places, like the set;
-- none is undefined behaviour. accept gives no descriptor that is open, and after the end of its
-- list recv fails. Multiplex/Poll is the poll server in the same way, over an array of 4096
-- pollfd that poll writes the events to, Multiplex/Plain the first version of the select server
-- (8.6/selectServer.1/SelectServer.hpp), which waits to read alone, and Multiplex/Level the first epoll server, which has no
-- array but the epoll set, and a function that answers as a parameter.
--
-- Not modelled: logging, the set-up of sockets, SetNonBlock, destructors, the dead branches of the
-- macro MYPROTOCOL, and the overflow of `n - length` in removeHeader, which is computed exactly.
pub mod Base
pub mod Text
pub mod Protocol
pub mod Calc
pub mod Epoll
pub mod Ring
pub mod BlockQueue
pub mod Formula
pub mod Http
pub mod Multiplex
pub mod Pool
pub mod CtrlProc
pub mod NetCalculator
pub mod Chat
pub mod TcpServer
pub mod Tests
