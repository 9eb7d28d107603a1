-- ===== src/Lib.antt =====
-- The programs of SOII-ipc: a server, the delivery manager, that passes the messages of three
-- producers on to the clients that subscribed to them, the producers, the clients, the CLI from
-- which the server is commanded, the protocol between server and clients, and the linked list on
-- which the server keeps its state.
--
-- The parts, and the files that model them:
--
-- server/src/list.c is modelled twice. LinkedList.antt is the pointer code on an explicit heap
-- (Heap.antt): nodes, objects behind `void *` pointers, NULL and freed cells as faults, `exit` as
-- an outcome, the addresses that `calloc` returns as arguments. Heap/Chain.antt says what a list
-- in memory is: distinct nodes that lead to an empty sentinel. Seq.antt is the contract on plain
-- sequences, and the children of LinkedList prove that the pointer code meets it. The walks take
-- fuel; one more round than the list has items is enough, and each theorem says so. `list_t` is a
-- value that is passed along, so its own allocation and release are not modelled, nor are those of
-- the array that list_create_from_array gets. How many bytes an object has, and what the first of
-- them are, is an argument of list_to_array. LinkedList/Api.antt is server/include/list.h: the
-- functions as their callers see them, with laws that list.c keeps.
--
-- common/src/protocol.c is Protocol.antt: packet_t, gen_packet, check_packet_MD5, get_file_MD5.
-- The bytes of a packet in memory, which `write` and `read` carry, are Protocol/Wire.antt. MD5 is
-- a parameter (the record Md5) with the laws that its documentation gives. `time` does not fail
-- with a valid argument, so the retry loop of gen_packet runs once. What dump_packet prints is
-- Protocol/Dump.antt.
--
-- server/src/srv_util.c and the loop of server/src/srv.c are Server.antt and its children:
-- Server/Util.antt (the helpers), Server/Clients.antt (an event of a client's socket: a new
-- connection, a hang-up, an acknowledgement, an authentication), Server/Commands.antt (a command
-- of the CLI), Server/Messages.antt (a message of a producer), Server/Cleanup.antt (the two
-- cleanings) and Server/Loop.antt (a round of the main loop). The state is the record Server; the
-- server's lists are sequences there, by the contract of Seq.antt. A write through a pointer into
-- a list is a write at the index that the search found. What the server does to the world is its
-- trace, a list of effects. What the world gives it is an argument: the results of `accept`,
-- `rand` and `read`, the readings of `time` in order (those that the code uses), the messages and
-- the commands. Server/Subscribers.antt says what holds between sessions and rooms; its children
-- follow it through every step of the loop. Server/Loop/Handlers.antt has the handlers by
-- their branches, Server/Loop/Inductive.antt takes what every handler
-- keeps to what a run keeps; Server/Wire.antt follows what is written to clients by it, and
-- Server/Broker.antt an abstract broker, which forgets the order of a room's entries and of what
-- goes to different sockets, and whose events have their causes in what a run meets. A failed
-- `read` leaves the buffer as it was; the model takes what the buffer holds as given. Failures of
-- `write`, `send`, `close` and `epoll_ctl` only print (the server ignores SIGPIPE), and are left out, as is all output to the
-- terminal. `none` is undefined behaviour: NULL is used, a room does not exist, or a text has no
-- end. An acknowledgement of an unknown token takes the address of the first field behind NULL and
-- calls `time` with it, which stores nothing: the model goes on.
--
-- An `int` is its 32-bit pattern, and -1 is 2 ^ 32 - 1; the small indices of list.c are integers.
-- A `time_t` is a number of seconds that does not wrap. What `%u` and `%f` print is a parameter
-- (the record Printf).
--
-- The other parts of the server: Server/Setup.antt is `main` up to its loop, with what its calls
-- return as arguments; Server/Logging.antt is get_datetime and log_event, with what `strftime`
-- makes as a parameter (the record Strftime) and the text that the format makes as an argument;
-- Server/Exit.antt is srv_on_exit, on the heap of the linked list, over that interface.
--
-- The producers, productores/src, are Producers.antt and its children, one for each program; what
-- they share, and common/src/mq_util.c, is Queue.antt. A round's readings (time, /proc, `rand`,
-- whether the queue takes the message) are its arguments. A run is as many rounds as its list has;
-- the theorems are about all lists.
--
-- server/src/cli.c is Cli.antt. `strtok` works on the text that it has not looked at yet. `atoi`
-- is defined where its number fits an `int`.
--
-- client/src/cliente.c is Client.antt (the start, the loop, send_ack) and Transfer/Receiver.antt
-- (recv_file); server/src/srv_util.c:handle_loq_req is Transfer/Sender.antt. What `recv` leaves in
-- the buffer is given, as a failure, as the end of the stream, or as a packet. The loops run over
-- lists of what arrives. The client does not ignore SIGPIPE, so that a write to a closed connection
-- ends it; which writes meet one is part of its state. Uninitialised variables are arguments. Client/Session.antt and
-- Client/Answers.antt put client and server together, Producers/Published.antt producers and
-- server, Server/Setup/Serves.antt setup and loop, Transfer/Delivery.antt the two threads of a
-- transfer, Cli/Served.antt CLI and server.
--
-- Not modelled: the vendored zip and miniz, whose results are arguments of the thread that calls
-- them; what the programs print, but for dump_packet; the build files and scripts.
--
-- Tests.antt holds the theorems at concrete inputs and runs of the model.
mod Base
pub mod Cli
pub mod Client
pub mod Heap
pub mod LinkedList
pub mod Producers
pub mod Protocol
pub mod Queue
pub mod Seq
pub mod Server
pub mod Transfer
mod Tests
