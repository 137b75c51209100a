-- ===== src/Lib.antt =====
-- proxy_switcher: the core of the proxy engine of this repository, crates/proxy-core, with the policy
-- of its daemon, crates/proxy-daemon, and what is proved of it.
--
-- The program keeps a pool of public proxies, probes them, and sends the traffic of a TUN device or
-- of a local listener through the best of them. Its parts and how they meet:
--   * packet reads the IPv4 and TCP headers of what the device delivers and builds the answers;
--   * routing decides for a destination whether a proxy applies, by address ranges, names, ports and
--     exemptions;
--   * pool holds the proxies under one lock: sources merge into it, probes and traffic report to it,
--     and the router and the listener choose from it;
--   * credentials says which proxies a client's policy allows, and reads a client's name;
--   * dns reads the responses that pass through the device, so that a connection to an address is
--     decided by its name;
--   * the local proxy, a listener for programs, reads a request, asks the credentials who sends it,
--     and carries it through a proxy that the policy allows, one per session, slot or request;
--   * health probes a proxy by a request to a target, and the pool takes its verdict;
--   * the connectors speak to a proxy in its own protocol until it carries the connection;
--   * the scraper reads the lists of proxies that the pool is filled from;
--   * geo finds the country of a proxy's exit address, which the pool notes;
--   * router opens a tunnel for each new flow and carries its data;
--   * the daemon resolves the policy's names and routes what they come to into the device.
--
-- Which file models what (all paths below crates/proxy-core/src, but for Daemon):
--   Common           lists, texts as code points, Boolean tests, and outcomes: a value, an error of
--                    the code's own, or a panic, which is what an index out of range gives
--   Address          std::net::Ipv4Addr and IpAddr
--   Packet           packet/ip.rs (Ip), packet/tcp.rs (Tcp), packet/mod.rs: ParsedPacket (Parse), the
--                    checksums (Checksum), the builders (Build); proofs in Total, RoundTrip, Verifies
--   Routing          routing.rs: is_local (Local), matches_cidr (Cidr), matches_domain (Domain),
--                    RoutePolicy (Policy); proofs in Parsed, Prefix, Subdomain, Decides
--   Pool             pool/mod.rs and the records of proxy/mod.rs and health/mod.rs: Types, Index and
--                    State; what enters and leaves (Discovery), what probes teach (Health), what is
--                    chosen (Select); every operation that changes the state as one step (Operations);
--                    proofs in Indexed, Operations, Ranking, Sorting, Kept, Capacity, Maximum, Chosen,
--                    Held, Evicted, Noted, Merged, Exhausted, Rotation;
--                    pool/statistics.rs (Statistics), proofs in Ranged, Tallied, Sums; next_due_at (Due)
--   Credentials      credentials.rs: ProxyPolicy (Policy), ClientName (Names)
--   Dns              dns/mod.rs: decode_name and skip_name (Names), parse_dns_response (Response),
--                    DnsCache (Cache); proofs in Total, Plain, Loops
--   Router           router/mod.rs, router/connection.rs, router/udp.rs: State, the handshake
--                    (Outgoing), the flows (Flows); proofs in Guarded, Routes, Repeats,
--                    Stream
--   Geo              geo.rs: flag, GeoDatabase::from_csv and lookup; proofs in Finds
--   Listener         local_proxy.rs: its tables (State), the choice and the rotation of proxies
--                    (Sessions), open_tunnel (Tunnel), base64_decode (Base64), the request (Request),
--                    policy_for and handle (Serve), every change of the tables as one step
--                    (Operations); proofs in Allowed, Apart, Rotated, Attempts, Tables, History, Decoded,
--                    Authorised
--   Connectors       proxy/connector: base.rs and a handshake as a run over the server's bytes (Base),
--                    the address of trojan.rs and shadowsocks.rs (Address), the handshakes of socks5.rs,
--                    socks4.rs, http.rs and trojan.rs (Handshakes), the keys and the stream of
--                    shadowsocks.rs (Sealed, Chunks); proofs in Accepted, Refused, Readable,
--                    Steady, Opened, Delivered, Keys
--   Health           health/mod.rs: the url of a target and what a target reports (Reported), the probe
--                    of a proxy and the target in use (Probe); proofs in Proven, Conclusive,
--                    Enough
--   Scraper          scraper/parse.rs (Build, Tables, Parse) and scraper/links.rs (Links); proofs in
--                    Built
--   Daemon           crates/proxy-daemon/src/policy.rs: resolve_policy and routes_for (Routes); proofs in
--                    Covers
--   Tests            the theorems at concrete inputs
--
-- How state and operations correspond. A method that holds a lock for its whole body is a function
-- from the state under the lock to the new state and the value returned; its name is the method's.
-- The clock, the answers of the network and of databases, and what other tasks do in between, are
-- arguments. A HashMap is a function or a list of entries, a HashSet a list. An f64 is a value of the
-- interface Pool.Types.Floats: no law of floating point is assumed, and the theorem on the best proxy
-- states the order that it needs. Machine integers keep their wrap-around (% 2 ^ 32, and
-- % 2 ^ 64 for the counters of bytes) and saturation.
--
-- The tables of the local proxy stand behind several locks; one choice of a proxy is one step here,
-- with nothing of other tasks between its locks, and the search for a tunnel lets other tasks change
-- the tables between its attempts. handle_outgoing and the end of its task let
-- other tasks change the router between their locks: in front of the pending flows, in front of the
-- decision, and behind the removal from the pending flows; the name, the decision and the active proxy
-- are read at one time. A handshake is a function of the bytes that the server will send, to
-- the bytes that it has written and those that it leaves unread.
--
-- Bounds and fuel. The loop of decode_name follows pointers that the data chooses, so it has fuel, and
-- running out is an outcome of its own; Dns.Loops shows data for which no fuel is enough. skip_name
-- only goes forward, and its fuel, one more than the length of the data, is proved to be enough. The
-- loop of poll_read has two rounds more than the socket has bytes, and two are proved to be enough
-- where the socket gives bytes without pause.
-- The loops over the header lines and the blanks of a probe's answer and over the blocks of a derived
-- key have a length as fuel, proved enough in Health.Enough and Connectors.Keys. The
-- loop of the handshake's task counts its further attempts, two, down. All other loops go over a list.
--
-- Not modelled: sockets, the storage, the fetching of lists, TLS, the copying of bytes
-- by the local proxy, the daemon's API and main loop, and the command-line programs, which are I/O
-- around this core, the order of the keys of the daemon's map of destinations, and the
-- parts in TypeScript. How the standard library reads and writes an IPv6 address, the readers of JSON
-- and HTML, the ciphers and digests, and the check of a name and password are parameters. The
-- socket below a Shadowsocks stream is the list of its answers, which may be pending or an error.
pub mod Common
pub mod Address
pub mod Packet
pub mod Routing
pub mod Pool
pub mod Credentials
pub mod Daemon
pub mod Dns
pub mod Geo
pub mod Health
pub mod Connectors
pub mod Listener
pub mod Router
pub mod Scraper
pub mod Tests
