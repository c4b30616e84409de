-- ===== src/Lib.antt =====
-- NetLock: the lock server and the client.
--
-- NetLock is a lock manager split between a programmable switch and servers. The switch grants the
-- locks whose queues fit into it; a lock server owns the others, or buffers the requests that do not
-- fit into the switch's queue. A client sends the requests of its transactions, keeps the grants, and
-- releases the locks. This library models the C programs dpdk_code/lock_server_code/server.c and
-- dpdk_code/client_code/client.c, with the queues and headers that they use, and the receive loop of
-- dpdk_code/client_code/simple_socket.c, which is a server or a client by its role. Where the two
-- directories have the same file, the names are those of dpdk_code/lock_server_code.
--
-- Parts
--   Common      lists measured by native numbers, Boolean tests, arrays as functions.
--   Wire        the NetLock header, htonl, ntohl, htons, and generate_write_request_pkt.
--   Template    init_header_template of include/util.h: the IP and UDP headers and the checksum. The
--               Ethernet header, which is constant, is left out.
--   Setup       nc_init of include/util.h: ports, queues, and which core works on them. Dpdk is what the
--               library DPDK answers.
--   Linked      a singly linked queue in an explicit memory: the text that lock_queue.c, txn_queue.c
--               and think_queue.c share. A memory maps addresses to nodes, a handle holds head, tail
--               and size, and `none` is a fault. What a freed node still shows is a parameter,
--               `after_free`, since the C standard says nothing about it.
--   LockQueue, TxnQueue, ThinkQueue
--               the queues of lock_queue.c, txn_queue.c and think_queue.c, and their refinement by
--               lists.
--   Server      np_client_rx_loop of server.c on one packet: acquire_primary and release_primary are
--               the branches of the server that owns a lock, release_secondary that of the server that
--               only buffers, reset_secondary the failure notification, process the dispatch. The
--               queues are the lists that LockQueue refines. Holders says by the queue alone who holds
--               a lock, Counters when num_ex and num_sh are right, History is the relation of a
--               lock's requests, grants and releases.
--   Transmit    send_pkt_burst, enqueue_pkt and acquire_enqueue_pkt of include/util.h. The network card
--               is a parameter, which says how many of the offered packets it takes.
--   Client      client.c. Receive is np_client_rx_loop on one packet; Transaction is what
--               np_client_tx_write_loop does with the transaction that it has sent all requests of;
--               Visit is a round of that loop for one client,
--               Cores the round over the clients of a core; Failure follows both over a failure of
--               the switch.
--   System      the server and the clients together: a step is a round of a client's sending core, a
--               packet at the server, a reply at a client, or a drain of a think queue, and the
--               network delivers in any order. Its conditions are those under which the parts are
--               told apart above: the clients run outside TPC-C and in normal operation, memory and
--               room for samples are at hand, and the packets reach the lock's own server.
--   Polling     a round of np_client_rx_loop around the packets, which the programs share: the timer that
--               sends the table of packets, the bursts of the receive queues, and the rounds one after the
--               other. Server.Loop and Client.Loop are np_client_rx_loop of server.c and client.c as
--               rounds of it, with the measurement on core 0.
--   Combined    np_client_rx_loop of simple_socket.c, translated from its own text: Serving and Asking are
--               the handling of a packet by the one role and the other, Handling the test of the role,
--               Measure the measurement of core 0. Alike and Split compare it with the loops of
--               server.c and client.c. generate_write_request_pkt, the queues and compute_latency are
--               those of the other programs, which have the same text.
--   Start       main of server.c up to the launch of the cores; Start.Clients is main of client.c. Both
--               give the globals that the loops begin with. Launch is np_client_loop of a core of the
--               lock server. Nothing in them looks whether machine_id and client_num fit into
--               ip_list and failure_act: what is read and written behind the arrays is an argument.
--   Traces      get_traces and get_batch_map in dpdk_code/client_code/include/new_order.h; Files is the
--               choice and the opening of the file. Modes and Bounds tell what a client
--               finds in a trace.
--   Layout      get_queue_len_in_switch of server.c: the lengths of the switch's queues.
--   Meter       what core 0 does at the start of a round of np_client_rx_loop: the statistics of both
--               programs. A reading is what the round finds: the time stamp and the cores' counters.
--   Latency     compute_latency and timediff_in_us, and how collect_results of include/collect.h sorts the
--               samples.
--   Args        nc_parse_args of both programs.
--
-- How the model stands to the code
--   Machine integers keep their width where they can wrap: the counters of the server and the
--   statistics are taken modulo 2^32 and 2^64. The fields of type int that count (size_of_queue,
--   txn_r, txn_s) and the index into a trace are numbers without a bound: to overflow they would need
--   2^31 nodes or requests.
--   Hosts are little-endian, so that htonl, ntohl and htons reverse bytes.
--   The arrays of the server and the client are functions on their indices. Where a packet decides the
--   index, a number outside of the array gives `none`; the indices that come from a client's own trace
--   and settings are taken to be within the arrays.
--   The contents of files, time stamps, random numbers, the success of malloc and what an unset local
--   holds are arguments.
--   Calls that only print or wait are left out. A packet is handed to the table of Transmit in the
--   order of the lists that the other parts give out.
--   Every loop is a recursion on a list or on the rounds that are left, but for the loop of a sending
--   core over its clients, whose counter is of 8 bits: it takes fuel for 257 rounds, and it is proved
--   when they are enough.
--   A history in Server lets the oldest holder go at a release: the holders are alike in mode, and
--   the server does not look at who releases.
--
-- Not modelled: DPDK and the launch of the cores by it; printing and files of results; the
-- floating-point Zipf generator of include/zipf.h; of dpdk_code/client_code/simple_socket.c the send
-- loop, the packet generators, get_queue_len_in_switch, the command line and main, whose text is that of
-- client.c and server.c up to a wait and to names of files, and process_packet_server, which nothing
-- calls; and the programs in switch_code, which are P4 and Python.
pub mod Common
pub mod Wire
pub mod Linked
pub mod LockQueue
pub mod TxnQueue
pub mod ThinkQueue
pub mod Server
pub mod Transmit
pub mod Latency
pub mod Client
pub mod Args
pub mod Traces
pub mod Layout
pub mod Template
pub mod Setup
pub mod Meter
pub mod Polling
pub mod Combined
pub mod Start
pub mod System
