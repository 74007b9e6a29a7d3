-- ===== src/Net.antt =====
-- The network stack of src/driver/network: its results (protocols.h), its buffers (buffer.c), IPv4
-- (protocols/ipv4/ipv4.c) with the table of neighbours (neighbour.c), ARP (protocols/ipv4/arp.c), UDP
-- (protocols/udp.c), DHCP (protocols/ipv4/dhcp.c), and TCP (protocols/tcp.c): the windows, and the
-- connection.
pub mod Protocols
pub mod Buffer
pub mod TcpRecv
pub mod Ipv4
pub mod Neighbour
pub mod Arp
pub mod Udp
pub mod Dhcp
pub mod Tcp
pub mod TcpSend
