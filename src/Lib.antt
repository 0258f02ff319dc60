-- ===== src/Lib.antt =====
-- Programs of a course on communication protocols, written in C and C++, and what is proved of them.
--
-- The programs and how their parts interact:
--   tema1: a software router. `main` of tema1/router.c reads packets, answers ICMP echo requests and
--   ARP requests for its own addresses, learns from ARP replies, and forwards the other IP packets by
--   its sorted routing table; packets for an unknown next hop wait in a queue. The frames and the
--   checksums are those of tema1/skel.c.
--   tema2: a broker. Stations publish messages by UDP; clients subscribe by TCP to topics, and what is
--   published while a client is away is stored for it. tema2/server.cpp is the loop, tema2/server_helper.cpp
--   has its handlers, tema2/subscriber_helper.cpp is the client.
--   tema3: a client of a library service over HTTP, which keeps a cookie and a token between requests.
--   test_practic: a server whose clients have numbers and send texts to one another, and its client.
--   laboratoare/lab-02: a copy of files over a link, message by message, each of which is answered.
--   laboratoare/lab-03/link_emulator: a link with delay, loss and corruption between two UDP peers. One
--   thread fills a buffer, one empties it at the speed of the link.
--   laboratoare/lab-03/send.c and recv.c: a transfer with checksums within a window over that link.
--   laboratoare/lab-04/router.c: a router with fixed tables, whose sort and search find the longest prefix.
--   laboratoare/lab-05: ping and traceroute over a raw socket; a ping of the router of tema1 is followed
--   through both programs.
--   laboratoare/lab-10: a client of HTTP, its buffer, its requests, and how it sends and receives.
--   laboratoare/lab-11/send_mail.c: a client of SMTP that mails a file.
--   laboratoare/lab-08/server.c: a chat server that relays messages between its clients, with select.
--
-- Which file models which part:
--   Router/Checksum.antt: ip_checksum and icmp_checksum of tema1/skel.c, at any address of the data.
--   Router/RouteTable.antt: get_best_route, compar and the entries of the routing table.
--   Router/Frames.antt: the builders and parsers of frames of tema1/skel.c (build_ethhdr, send_icmp,
--   send_icmp_error, send_arp, parse_arp, parse_icmp).
--   Router/ArpTable.antt: get_arp_entry, and the growth of the table in main of tema1/router.c.
--   Router/Forward.antt: forward_packet. Router/MainLoop.antt: get_packet and the loop of main.
--   Router/Queue.antt: tema1/queue.c and tema1/list.c, on the memory of Cells.antt.
--   Broker.antt: tema2/server_helper.cpp and tema2/common_stuff.h. Broker/Loop.antt: tema2/server.cpp.
--   Subscriber.antt: tema2/subscriber_helper.cpp and a turn of the loop of tema2/subscriber.cpp.
--   Library.antt: the class Handler of tema3/client.cpp. Library/Loop.antt: its main.
--   Library/Texts.antt: what it finds in a response. Library/Requests.antt: tema3/requests.cpp.
--   Exam.antt: test_practic/server.cpp. Exam/Client.antt: test_practic/client.cpp.
--   Link/Queue.antt: laboratoare/lab-03/link_emulator/queue.c on the same memory.
--   Link/Channel.antt: link_scheduler and run_forwarding of laboratoare/lab-03/link_emulator/link.c.
--   Link/Peer.antt: receive_message1, receive_message2 and run_reverse_forwarding of link.c.
--   FileCopy.antt: send.c and recv.c of laboratoare/lab-02/schelet lab2.
--   Transfer.antt: laboratoare/lab-03/send.c and recv.c.
--   Static.antt: get_best_route, get_arp_entry, sort_rtable and main of laboratoare/lab-04/router.c.
--   Ping.antt: ping and traceroute of laboratoare/lab-05/icmp.c, relevant_packet and time_packet of
--   laboratoare/lab-05/utils.c.
--   Http/Buffer.antt: laboratoare/lab-10/buffer.c. Http/Client.antt: send_to_server and
--   receive_from_server of laboratoare/lab-10/helpers.c. Http/Requests.antt: laboratoare/lab-10/requests.c.
--   Mail.antt: laboratoare/lab-11/send_mail.c. Chat.antt: the loop of main of laboratoare/lab-08/server.c.
--   Common.antt: lists, bytes, machine words, `^`, maps, outcomes of C code. Tests.antt: concrete runs.
--
-- How state and operations correspond: a C struct is a record, a union of cases a data type, a payload
-- a function from offsets to bytes. Machine words are natural numbers with the wrap-around written out.
-- A piece of code that can end the program or leave its memory returns an Outcome: a value, an exit or
-- a fault, which also stands for an exception that C++ code does not catch. Global state (routing
-- table, ARP table, queue) is passed explicitly. Inside the main loop the queue of waiting packets is
-- a list; the queue in memory is shown to be that list. The two threads of the link emulator are a
-- relation of single steps, so that every interleaving is one sequence of steps.
--
-- Fuel: get_best_route runs on as much fuel as the table has entries and one, the deferred carries of
-- ip_checksum on three steps; both are shown to be enough; send_to_server has as much fuel as the
-- message has bytes and one, enough on a socket that works; run_reverse_forwarding has
-- a step for each datagram and one more; the loop of tema3/client.cpp has a step for each line, and more
-- make no difference. All other loops are structural.
--
-- Parameters: the addresses of the interfaces, what an access to a waiting packet finds once the call
-- of forward_packet has returned whose local variable it is, if it does not go wrong, qsort with the law that it permutes its input into order, what malloc and
-- rand return, what select, accept, recv, recvfrom, fgets, lseek and read return, whether select, write and send fail, the text of
-- floats and addresses, and the operations of the JSON library of tema3.
--
-- Not modelled: the opening of sockets and the set-up of the interfaces, the parsing of the routing
-- table's text, the command line of the link emulator, what the programs print unless it is named above,
-- laboratoare/lab-02/schelet lab2/link_emulator and the buffer and helpers of tema3, which are copies of
-- code that is modelled, and the small programs of laboratoare/lab-01, lab-06, lab-07 and lab-09.
pub mod Broker
pub mod Cells
pub mod Chat
pub mod Common
pub mod Exam
pub mod FileCopy
pub mod Http
pub mod Library
pub mod Link
pub mod Mail
pub mod Ping
pub mod Router
pub mod Static
pub mod Subscriber
pub mod Tests
pub mod Transfer
