-- ===== src/Lib.antt =====
-- Horizon Operating System: models of parts of its C code, with what is proved of them.
--
-- The system is an experimental kernel for x86_64, in C and Rust. Its C part has small kernel
-- services, drivers, a network stack and the FAT file system. The parts that are modelled here
-- build on each other: the lists of src/include/kernel/list.h hold the entries of the block cache,
-- the wait queues and the sockets; the reader-writer lock guards the entries of the block cache;
-- the block cache holds the sectors of a FAT. The BIOS emulator runs the code of a video BIOS. A FIFO
-- hands the bytes of an interrupt handler on.
--
-- The files and the code that they model:
--
--   Common            Boolean tests, lists and 32-bit words that all modules share.
--   Kernel.Fifo       src/kernel/fifo.c and src/include/kernel/fifo.h, whole: fifo_init, fifo_put,
--                     fifo_get, fifo_status. Its specification is a bounded queue.
--   Kernel.RwLock     src/kernel/rwlock.c, whole. The functions that sleep are cut where another
--                     thread can run: System has the threads and their steps as a relation.
--   Kernel.BlockCache src/kernel/block_cache.c: block_cache_create, block_cache_read,
--                     block_cache_write, the two functions that end a use, and the choice of the
--                     entry to reuse. The device behind the callbacks is a parameter.
--   Kernel.LinkedList src/include/kernel/list.h, its functions. The memory gives the two pointers
--                     of every node. Its specification is the sequence of the nodes.
--   Kernel.DynArray   src/lib/dyn_array.c and src/include/dyn_array.h: dyn_array_new, the appending,
--                     the reading and the walk. Its specification is a list.
--   Kernel.Timer      src/driver/timer/timer.c: timer_set_timeout, timer_is_timeout,
--                     timer_callback_enable and timer_count_ms.
--   Fat.Utf           src/fs/fat/name.c, the conversions between UTF-16 and UTF-8.
--   Fat.Name          src/fs/fat/name.c, the tests of names, short_name_new and fat_checksum.
--   Fat.LongEntry     src/fs/fat/entry.c, the entries that fat_longname_entry_write makes, and
--                     read_long_name of src/fs/fat/name.c.
--   Fat.Cluster       src/fs/fat/cluster.c, the entries of the table: get_next_cluster, set_cluster,
--                     alloc_cluster, free_cluster and is_eof. The sectors are those that the block
--                     cache serves, with what it hands out for one that it has not read.
--   Net.Buffer        src/driver/network/buffer.c, but for the two functions that call the
--                     allocator. A pointer is its address.
--   Net.Protocols     src/include/driver/network/protocols/protocols.h, ProtocolResult.
--   Net.Ipv4          src/driver/network/protocols/ipv4/ipv4.c: the checksum, the headers that
--                     ipv4_wrap makes, and ipv4_recv up to the call of the next layer.
--   Net.Neighbour     src/driver/network/neighbour.c, whole, and ipv4_neigh_update and
--                     ipv4_lookup_mac of ipv4.c, which use the table.
--   Net.Arp           src/driver/network/protocols/ipv4/arp.c, arp_recv over the table of
--                     neighbours and the locks of its entries.
--   Net.Udp           src/driver/network/protocols/udp.c: the headers, the checksum, and udp_recv up to
--                     the callback of a socket.
--   Net.Dhcp          src/driver/network/protocols/ipv4/dhcp.c, the client: its states, its timers
--                     and their handlers, the options of a reply and what a reply does.
--   Net.TcpRecv       src/driver/network/protocols/tcp.c, tcp_recv_data.
--   Net.Tcp           src/driver/network/protocols/tcp.c, the connection: tcp_rx_handler with the
--                     options and the acknowledgements, tcp_timeout_handler, tcp_shutdown,
--                     tcp_reset_conn, tcp_notify_unreachable, and the packets they send.
--   Net.TcpSend       src/driver/network/protocols/tcp.c, tcp_send_data over its window.
--   Storage.Requests  src/driver/storage/storage_io_queue.c: storage_add_request and the merging of
--                     requests.
--   Storage.Transfer  src/driver/storage/storage_io.c: the splitting of a transfer into requests,
--                     their way into the queue of Storage.Requests, and the results.
--   BiosEmu           src/arch/x86/bios_emu/ops/alu.c, bt.c and conditions.c: operations on operands
--                     of 8, 16 and 32 bits, the flags they set, and the conditions of jumps.
--
-- A model keeps the names of the source. A function that changes an object takes its state and
-- gives the new one; a read behind the end of a buffer, a write through a null pointer and a wait
-- for a lock are values. A signed or unsigned 32-bit integer is its bit pattern, a number below
-- 2 ^ 32, and additions wrap around; where the source compares it as an int, the model does. Bytes
-- and UTF-16 units are numbers, and the width is a hypothesis where a theorem depends on it. A
-- pointer into a text is the list of what lies from it on. An index of the source that can be -1 is
-- given plus one.
--
-- Loops that the source bounds by a counter are recursions on it. Four others run on fuel: the loop
-- of fat_utf8_to_utf16 on one more than the length of the text, since every round takes a byte; the
-- loop of check_long_name on one more than the length, since every round moves on; and the loops of
-- list_find and list_length on fuel that the caller gives, where `none` says that it did not last:
-- one more than the number of nodes is enough. The loop of tcp_options_handler is on fuel that the
-- caller gives too: one more than the size of the options is enough if no option has a length byte
-- 0 where they follow one another, and with one the loop need not end. The loop of dhcp_parse_options is on fuel as well, and one more
-- than the bytes of the options is enough.
--
-- The memory that an allocation finds, the busyness of a disk and the success of a sending are
-- arguments; so is what the request for an unknown neighbour does to its entry. A timer of the DHCP
-- client is the count that it is given, and whether it was enabled while it was in the list of its device
-- already; when it fires is left open.
--
-- The events of a connection are a segment, a time-out, a call of tcp_shutdown and a host that is not
-- reachable; what the clock tells and the initial sequence number come with the event. Of a packet sent the
-- flags and the two numbers are kept; addresses, ports, its options, its data and its checksum are
-- left out, and so is the wait of tcp_half_close for the data to be sent. An operation of the BIOS
-- emulator takes its operands and flags as values.
--
-- Not modelled: the code in Rust (memory, threads, ACPI) and in assembly; the drivers of devices,
-- which read and write registers; block_cache_destroy and the failing allocations of
-- block_cache_create; the order in which a wait queue wakes its threads, which is left open; the
-- opening of a connection by calls and the checksum of TCP; ICMP, Ethernet and the detection of
-- address conflicts; the bytes of the messages of ARP and DHCP; dyn_array_remove; the cluster lists and
-- directories of FAT; the decoding, the memory, the division and the string instructions of the BIOS
-- emulator; the C library functions of src/lib.
pub mod Common
pub mod Kernel
pub mod Fat
pub mod Net
pub mod Storage
pub mod BiosEmu
