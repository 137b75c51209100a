-- ===== src/Tests/Flows.antt =====
-- The router: the theorems at one flow.
use proxy_switcher.Common.{arith, ℕ, ◌≤◌, ◌≡◌, refl, false, Option, some, none, [], ◌∷◌, length}
use proxy_switcher.Common.Text.{Text, codes}
use proxy_switcher.Packet.Parse.{ParsedPacket}
use proxy_switcher.Packet.Tcp.{flags_of}
use proxy_switcher.Pool.State.{default_schedule}
use proxy_switcher.Router.Flows.{bytes, pump_each}
use proxy_switcher.Router.Guarded.{Starts, handle_outgoing-Starts}
use proxy_switcher.Router.Outgoing.{Handshake, alone, Setting, attempts, handle_outgoing}
use proxy_switcher.Router.Routes.{AllProxied, attempts-AllProxied}
use proxy_switcher.Router.State.{Router, TcpState, tracked}
use proxy_switcher.Router.Stream.{segments, pump_each-segments}
use proxy_switcher.Routing.Cidr.{matches_cidr}
use proxy_switcher.Routing.Local.{is_local}
use proxy_switcher.Tests.Values.{whole, probed, two, router, flow, from_client, syn_header}

abbrev no_ipv6 : Text → Option ℕ
no_ipv6 t = none

abbrev syn : ParsedPacket
syn = from_client syn_header []

abbrev task : Handshake ℕ
task = record {
  key = flow;
  target = codes "93.184.216.34";
  client_isn = 1000;
  route = some (probed (codes "a") 100 5);
}

syn_starts : (handle_outgoing whole no_ipv6 alone syn router).1.task ≡ some task
unfolding handle_outgoing is_local matches_cidr
syn_starts = refl

handle_outgoing-Starts_example : Starts whole no_ipv6 alone router flow task.route
handle_outgoing-Starts_example =
    handle_outgoing-Starts whole no_ipv6 alone syn router task syn_starts

abbrev setting : Setting whole
setting = record { schedule = default_schedule; min_score = 1; now = 300 }

attempts-AllProxied_example :
    AllProxied []
      (attempts whole setting
        (λ left route. false)
        (λ left pool. pool)
        2
        (some (probed (codes "a") 100 5))
        []
        two).tried
    × (length
          (attempts whole setting
            (λ left route. false)
            (λ left pool. pool)
            2
            (some (probed (codes "a") 100 5))
            []
            two).tried
        ≤ 3)
attempts-AllProxied_example =
    attempts-AllProxied whole setting (λ left route. false) (λ left pool. pool) 2
      (probed (codes "a") 100 5) [] two refl

abbrev open_flow : TcpState
open_flow = record {
  client_isn = 1000;
  server_isn = 77;
  client_next_seq = 1001;
  server_next_seq = 78;
}

abbrev open_router : Router ℕ
open_router = record router { tracker = (flow, open_flow) ∷ [] }

abbrev with_data : ParsedPacket
with_data = from_client (record syn_header { flags = flags_of 0x18 }) (1 ∷ 2 ∷ [])

flow_is_open : tracked open_router.tracker flow ≡ some open_flow
unfolding tracked
flow_is_open = refl

pump_each-segments_example :
    ((pump_each ((flow, bytes (1 ∷ 2 ∷ [])) ∷ (flow, bytes (3 ∷ [])) ∷ []) open_router).1
      ≡ segments flow 1001 78 ((1 ∷ 2 ∷ []) ∷ (3 ∷ []) ∷ []))
    × ((pump_each ((flow, bytes (1 ∷ 2 ∷ [])) ∷ (flow, bytes (3 ∷ [])) ∷ []) open_router).0.bytes_in
        ≡ 3)
pump_each-segments_example =
    pump_each-segments flow open_flow ((1 ∷ 2 ∷ []) ∷ (3 ∷ []) ∷ []) open_router flow_is_open
      (omega arith, (omega arith, tt)) (omega arith)
