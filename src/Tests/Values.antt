-- ===== src/Tests/Values.antt =====
-- Shared inputs of the tests.
use Prim.Native.Nat.{compare}
use proxy_switcher.Address.{Ipv4Addr}
use proxy_switcher.Common.{ℕ, ◌/◌, ◌*◌, refl, arith, min, true, none, some, List, [], ◌∷◌, leb, ltb}
use proxy_switcher.Common.Text.{Text, codes, equal}
use proxy_switcher.Packet.Parse.{ParsedPacket}
use proxy_switcher.Packet.Tcp.{TcpHeader, flags_of}
use proxy_switcher.Pool.Index.{position}
use proxy_switcher.Pool.Indexed.{IsIndexed}
use proxy_switcher.Pool.State.{PoolInner}
use proxy_switcher.Pool.Types.{Floats, ProxyInfo, http, unknown}
use proxy_switcher.Router.State.{FlowKey, Router}
use proxy_switcher.Routing.Policy.{RoutePolicy, allow_list}

-- Whole numbers for scores, which do not age.
abbrev pub whole : Floats
whole = record {
  F = ℕ;
  of_u64 = λ n. n;
  half = 0;
  div = λ a b. a / b;
  mul = λ a b. a * b;
  fmin = λ a b. min a b;
  powf = λ a b. 1;
  ge = λ a b. leb b a;
  lt = λ a b. ltb a b;
  partial_cmp = λ a b. some (compare a b);
}

abbrev pub address : ℕ → ℕ → ℕ → ℕ → Ipv4Addr
address a b c d = record { a = a; b = b; c = c; d = d }

-- A proxy whose probe succeeded at a time, with a score.
abbrev pub probed : Text → ℕ → ℕ → ProxyInfo ℕ
probed id at_time score = record {
  id = id;
  host = codes "h";
  port = 8080;
  protocol = http;
  anonymity = unknown;
  latency_ms = some 100;
  country = none;
  country_reported = none;
  last_checked = some at_time;
  last_success = some at_time;
  first_seen = 0;
  next_probe_at = 0;
  cipher = none;
  password = none;
  supports_tunnel = true;
  exit_ip = none;
  consecutive_failures = 0;
  score = score;
}

abbrev pub client : Ipv4Addr
client = address 10 0 0 2

abbrev pub server : Ipv4Addr
server = address 93 184 216 34

abbrev pub syn_header : TcpHeader
syn_header = record {
  source_port = 40000;
  destination_port = 443;
  sequence_number = 1000;
  acknowledgment_number = 0;
  data_offset = 20;
  flags = flags_of 2;
  window_size = 65535;
  checksum = 0;
  urgent_pointer = 0;
}

abbrev pub from_client : TcpHeader → List ℕ → ParsedPacket
from_client tcp payload = record {
  ip = record {
    version = 4;
    ihl = 20;
    total_length = 40;
    identification = 0;
    flags = 2;
    fragment_offset = 0;
    ttl = 64;
    protocol = 6;
    checksum = 0;
    source = client;
    destination = server;
  };
  tcp = some tcp;
  payload = payload;
}

abbrev pub flow : FlowKey
flow = record { src_ip = client; src_port = 40000; dst_ip = server; dst_port = 443 }

abbrev pub proxied : RoutePolicy
proxied = record {
  mode = allow_list;
  cidrs = codes "93.184.216.0/24" ∷ [];
  domains = [];
  ports = [];
  always_direct = [];
}

-- A pool of two proxies, of which the first is active; the second waits for its eviction.
abbrev pub two : PoolInner ℕ
two = record {
  proxies = probed (codes "a") 100 5 ∷ probed (codes "b") 200 7 ∷ [];
  index = λ k. position k (codes "a" ∷ codes "b" ∷ []);
  active_index = some 0;
  pending_eviction = codes "b" ∷ [];
  condemned = [];
}

pub two-IsIndexed : IsIndexed two
unfolding equal position
two-IsIndexed = record {
  indexed = λ id. refl;
  distinct = (refl, (refl, tt));
  active = λ i e. ground arith;
}

-- A router with that pool, which proxies the network of the server.
abbrev pub router : Router ℕ
router = record {
  tracker = [];
  pending = [];
  routed = [];
  dns_cache = [];
  policy = proxied;
  pool = two;
  sent = [];
  tunnels_opened = 0;
  bytes_out = 0;
  bytes_in = 0;
}
