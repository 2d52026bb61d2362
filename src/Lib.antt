-- ===== src/Lib.antt =====
-- A model of controller_project: access points measure their wireless network and the TCP flows
-- through it, and send the measurements to a collector; a controller decides on them by a tree.
--
-- Parts and files:
-- * sendudp/sendudp.c, a kernel module on each access point. Every millisecond `callback` runs
--   `get_information`, which asks the drivers, writes what is new into a buffer of 1024 bytes and
--   records the state of the round in a ring of 250. `Sender/Buffer.antt` has the buffer
--   (`write_2_public_buffer`, `send_the_buffer`), `Sender/Collect.antt` the round,
--   `Sender/Report.antt` the answer of `recv_cb` to the request `states`.
-- * EXP/newstructures.h and the same structures in sendudp/sendudp.c. `Records.antt` has them with
--   their memory on the access point (32 bits wide, big endian), `Wire.antt` the byte swaps,
--   `Wire/Decimal.antt` the numbers in text, `Wire/Compare.antt` the comparison of bytes.
-- * EXP/receive.c, the collector. `Receiver/Pool.antt` has the ring of datagrams between the
--   receiving threads and `g_mes_tn_process`, one step for each stretch under `mutex_pool`;
--   `Receiver/Process.antt` the loop of `process` over the messages of a datagram;
--   `Receiver/Read.antt` what the decoders read; `Receiver/Flows.antt` the table of TCP flows
--   (`insert_flow_info`, `clear_flow_info`, `ack_flow_info`); `Receiver/Decode.antt` the decoders
--   with the lists that they fill; `Receiver/Format.antt`, `Receiver/Format/Gather.antt` and
--   `Receiver/Format/Round.antt` the thread `format_data`, which averages over these lists and
--   writes a line for each retransmission and each packet.
-- * `Pipeline.antt` joins the access point and the collector: the datagrams of the one are what the
--   other takes apart.
-- * EXP/hash_lin.h, a chained hash table. `Hash.antt` has it, a chain as a list.
-- * create_tree/createtree.c, the controller. `Tree.antt` has the construction of the decision tree
--   from the rows of a file and the search, `Tree/Text.antt` the functions that cut a text
--   (`strtok_r`, `atoi`), and `Tree/Parse.antt` `init_linger` and `create_items`, which read the rows
--   and the measured values. `Control.antt` has the conversation with an access point: `main`,
--   `init_linger_m` and `main_linger`, which asks for the states, searches the tree with them and
--   sets the window of the busiest flow; `Control/State.antt` its globals, what a turn gets and what
--   it sends, `Control/Text.antt` the texts that are printed (`set_cwnd`), `Control/BuiltIn.antt` the
--   tree that the program has in its text (`get_openflow_input`).
-- * project/flow.c, the switch of the access point. `Datapath.antt` has what was added to
--   `key_extract` for TCP packets: `Datapath/Options.antt` the loop over the options,
--   `Datapath/Table.antt` the table `flow_linger`, `Datapath/Handle.antt` the whole with the message
--   to the collector, which goes through the same buffer as the others.
-- * codel.h and project/sch_fq_codel.c, the queue of the access point. `Codel.antt` has what was added
--   to them, the list of the TCP packets that the queue dropped: `codel_dequeue` adds to it, and the
--   callback of sendudp.c asks for it (`dpt_queue_linger`) and gives it back
--   (`destroy_after_transmitted_codel`). A pointer is the address of a node; the chain from
--   `packet_linger` on is a list of nodes.
-- * udp/server.c, on the host of a flow. `Window.antt` has the search of the output of `ss` for a flow
--   and the answer to the controller's question, `struct tcp_ss`, which is that of `Control`.
-- * project/status.c. `Status.antt` has what was added to it, the list of the TCP packets that a
--   station did not acknowledge, which the callback asks for with `dpt_mac_linger`. It shares its
--   chain of nodes with `Codel.antt`, but frees nodes one by one.
-- * project/scan.c. `Beacons.antt` has what was added to `ieee80211_scan_rx`, the list of the access
--   points that are heard, with `find_beacon`, `del_node` and `beacon_time_out`.
-- * `Base.antt` is shared by all: tests, lists and bits over the native numbers.
-- * `Tests.antt` and the modules below it run the definitions on concrete data.
--
-- State is a record that each operation takes and returns. Integers are natural numbers with the
-- wrap-around of their type written out where the code can reach it; a signed number is its bit
-- pattern. A buffer is a list of bytes or a function of the index. A linked list is a list, a
-- pointer to its last node the end of the list.
--
-- Fuel: `process_loop` gets one more step than the datagram has bytes, and every step moves the
-- offset on; `create_tree` gets a depth, and as many calls as there are rows are enough. A loop over
-- tokens gets the length of the text, since every token takes a character; `scan` gets one round more
-- than there are options, and `packets_loop` and `skip_times` the number of times that wait, of
-- which each round takes one.
--
-- Digits are printed by `digits 10`, since 32 bits have at most ten.
--
-- Order of steps: the callback of sendudp.c runs as a whole between two dropped packets or two lost
-- ones, so `Codel` and `Status` do not have a packet that is linked while the callback follows the
-- list. While `format_data` looks at the packets that wait, the head of their ring stays: a time that
-- is added between two rounds, when the source gives up its lock, is not part of `packets_loop`, and
-- its uninitialized variables hold the same in each round.
--
-- Parameters: for `Sender` what the drivers return (status.c, scan.c, mac80211, codel.h); the address
-- that `kmalloc` gives; in `Beacons` whether freed memory keeps its contents until it is read
-- (`stale`); which messages the sockets deliver; for `Control` the answers of the kernel module and of
-- the socket; for `Window` the lines that `fgets` reads from `ss`; for both what lies in memory behind
-- an unterminated text (`behind`); for `Tree.Parse` how many bytes a block of `malloc` really has
-- (`usable`), which decides whether the closing `0` of a name lies in it, while `Control` takes it to
-- have the room; `decode_iw`, whose text does not compile; and the type `float` with
-- its test `<=`, its conversions and its products and quotients.
--
-- Not modelled: what is printed or logged, the calls of sockets and netlink and their errors, memory
-- exhaustion, the functions of createtree.c that free its data, new_fsm.c, which does not compile and
-- is mostly stubs, the copies of Open vSwitch, Linux and stateMachine files, older copies of the
-- programs, and the scripts.
pub mod Base
pub mod Wire
pub mod Records
pub mod Sender
pub mod Receiver
pub mod Pipeline
pub mod Hash
pub mod Tree
pub mod Datapath
pub mod Codel
pub mod Beacons
pub mod Status
pub mod Control
pub mod Window
pub mod Tests
