-- ===== src/Lib.antt =====
-- HaoVPN's server core: the sessions of VPN accounts and how their packets are routed, the frames
-- on the wire and their encryption, the connections that carry them, the pool of virtual addresses,
-- accounts and the policies that their clients are told of, logins and web sessions, bans of
-- addresses that probe the server, the table of flows, and the address rules that these share.
--
-- The parts and how they interact. A TLS connection delivers chunks of bytes, which the decoder of
-- internal/transport/frame.go turns into frames. After a login internal/sessionmgr registers the
-- account's session on that connection. Data frames go to HandleInbound, which decrypts them
-- (internal/crypto), checks source and destination against the account's address, its networks and
-- the other accounts' addresses (internal/netutil), and hands the packet to another session or to
-- the TUN device; packets from the TUN device go through RouteOutbound. internal/ippool hands out
-- the virtual addresses; internal/vpnaccount decides which address an account gets and for how
-- long, changes the tables of accounts and allocations together with the pool, resolves the
-- networks that a client is told of, and marks whom a change of policy concerns. internal/auth
-- checks passwords for the tunnel and the web interface, locks addresses out, and keeps the web
-- sessions. Before a connection gets to TLS, internal/probedefense checks its address against bans
-- and lists; it bans addresses that were rejected too often. internal/flowmon counts the packets
-- that the session manager passes. The client dials again after its connection ends
-- (internal/transport/reconnect.go).
--
-- Where each part is:
--   Prelude      shared names, Boolean tests, results, texts as character codes, finite maps as
--                association lists, insertion sort
--   Net          what the code uses of Go's package net: addresses, masks, texts of IPv4
--                addresses and networks. The operations on texts of IPv6 addresses are the
--                parameter Text6.
--   Transport    internal/transport: Frame (frame.go), Config (config.go), Conn (transport.go,
--                conn_loops.go, mtu.go), Reconnect (reconnect.go)
--   IpPool       internal/ippool/pool.go: New, Reserve, Allocate, AllocateSpecific, Release,
--                IsAllocated, incIP
--   NetUtil      internal/netutil/ipmatch.go, addr.go (Lan: the networks that a client may
--                advertise), hostport.go, cidr.go, validate_ip.go, source_ip.go
--   SafeUtil     internal/safeutil: Throttle (throttle.go), Retry (retry.go)
--   SessionMgr   internal/sessionmgr: types (manager.go, conn.go), ViaIndex and Lan
--                (register_lan.go), Settings (manager.go), Stats (stats.go, recordDisconnect),
--                Grace (register_grace.go), Register (register.go), Kick (kick.go, RemoveIfConn),
--                Policy (route_policy.go, route_lookup.go), Route (route.go), Inbound
--                (route_inbound.go)
--   Auth         internal/auth: Lockout (lockout.go, PruneExpiredLockouts), WebSession (session.go),
--                Login (login.go, tunnel_login.go)
--   Crypto       internal/crypto/wg_crypto.go: Encrypt, Decrypt and the nonces (Nonce, Replay)
--   FlowMon      internal/flowmon/tracker.go: Key and Shards (types, shardIndex), Observe
--                (ObservePacket), SortQuery (ParseSortQuery), Listing (List)
--   ProbeDefense internal/probedefense: Guard (guard.go, auto_ban.go, exempt.go), Bans
--                (manual_ban.go, exempt.go), FrameLength (ClassifyFrameLength), over the Tables of
--                internal/persist/security_store.go
--   DialErr      internal/dialerr: reject codes and fatal errors of a dial
--   Paginate     internal/paginate
--   ClientGui    internal/clientgui/engine_op_queue.go: OpQueue
--   VpnAccount   internal/vpnaccount: the methods of Service on the store and the pool (service.go,
--                delete.go, enable.go), Provision (provision.go, patch.go), Policy (peer_policy.go,
--                dns_resolve.go), Apply (peer_apply.go), Writes (peer_write.go),
--                Dns (dns_write.go and the dns_ files of internal/persist), over the Tables
--                of internal/persist
--   Examples     concrete data, runs on it, and the theorems at it
--
-- How state is modelled. A method is a function from the manager (or pool, or decoder) to the one
-- after it, with its effects on the outside as a list in order. Sessions are shared objects: the
-- tables hold references into a heap, so an update through one table is seen through the other.
-- Where the code gives its lock up within a method, the parts are functions of their own (detach
-- and attach of RegisterVPN, open_packet and deliver of HandleInbound), so that other calls can run
-- between them; a login takes what other calls do between its parts as an argument. The iteration
-- over a Go map is the order of the association list, but a listing of flows takes its iteration as
-- an argument, since callers read it page by page.
--
-- Parameters: Cipher is crypto.Session, a state with encrypt and decrypt; Env is the clock, whether
-- a connection takes a frame, and when its peer was last active; Accounts is the store's lookup of
-- users and bcrypt's comparison; random tokens are arguments; Text6 as above. CipherAead and Filter
-- are the AEAD and the replay filter that internal/crypto takes from other packages; theorems that
-- need their laws have them as hypotheses (IsAead, IsReplayFilter). No law of the others is
-- assumed. Crypto.session_cipher makes a Cipher of the two.
--
-- Fuel: feed_loop runs on one more round than the buffer has bytes, and each round but the last
-- takes five bytes or more; Allocate runs on the 256 rounds of its loop; the loop that makes room
-- for a flow runs on the number of the account's flows, of which each round deletes one.
--
-- Not modelled: logging; writes to the store that fail; times before 1970; byte counts are
-- unbounded, though a dropped packet's count wraps at 2^64; account ids and connections are
-- numbers, ids at least 0; texts are read as ASCII. Sockets, TLS, the HTTP interface, the calls of
-- the operating system, and the clients but for their reconnect loop and the intents that queue up
-- behind a busy engine are left out.
pub mod Prelude
pub mod Net
pub mod Transport
pub mod IpPool
pub mod NetUtil
pub mod SafeUtil
pub mod SessionMgr
pub mod Auth
pub mod Crypto
pub mod FlowMon
pub mod ProbeDefense
pub mod DialErr
pub mod ClientGui
pub mod Paginate
pub mod VpnAccount
pub mod Examples
