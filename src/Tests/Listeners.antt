-- ===== src/Tests/Listeners.antt =====
-- The local proxy: the theorems at a listener with one pinned client.
use proxy_switcher.Common.{
  ℕ, ◌≤◌, ◌≡◌, ◌≢◌, ◌⊎◌, refl, arith, true, false, none, some, List, [], ◌∷◌, ◌++◌, map, length,
}
use proxy_switcher.Common.Member.{In}
use proxy_switcher.Common.Table.{find, remove, put}
use proxy_switcher.Common.Text.{Text, codes, equal}
use proxy_switcher.Connectors.Base.{Target}
use proxy_switcher.Credentials.Policy.{ProxyPolicy, default_policy, sticky, allows}
use proxy_switcher.Listener.Allowed.{proxy_for-allows}
use proxy_switcher.Listener.Apart.{PinnedApart, sticky_proxy-PinnedApart, sticky_proxy_again}
use proxy_switcher.Listener.Attempts.{open_tunnel-Distinct}
use proxy_switcher.Listener.Authorised.{Justified, handle-Justified}
use proxy_switcher.Listener.Base64.{base64_decode}
use proxy_switcher.Listener.Decoded.{base64, base64_decode-base64}
use proxy_switcher.Listener.History.{IsConsistent, run-new_listener-IsConsistent}
use proxy_switcher.Listener.Operations.{
  Call, chooses, turns_session, pins, fails, changes_pool, run_listener, new_listener,
}
use proxy_switcher.Listener.Request.{RequestHead}
use proxy_switcher.Listener.Rotated.{Pinned, FallsBack, rotated_session_moves}
use proxy_switcher.Listener.Serve.{Surroundings, answers, default_config, handle}
use proxy_switcher.Listener.Sessions.{sticky_proxy, proxy_for, rotate_session, or_none}
use proxy_switcher.Listener.State.{LocalProxy, Moment, Session, session_of}
use proxy_switcher.Listener.Tunnel.{Network, open_tunnel}
use proxy_switcher.Pool.Index.{Distinct, position}
use proxy_switcher.Pool.Indexed.{IsIndexed}
use proxy_switcher.Pool.Operations.{merges}
use proxy_switcher.Pool.State.{PoolInner, default_schedule, insert_key}
use proxy_switcher.Pool.Types.{ProxyInfo}
use proxy_switcher.Tests.Values.{whole, probed, two}

-- Two proxies on two servers.
abbrev near : ProxyInfo ℕ
near = record (probed (codes "a") 100 5) { host = codes "one" }

abbrev far : ProxyInfo ℕ
far = record (probed (codes "b") 200 7) { host = codes "two" }

abbrev servers : PoolInner ℕ
servers = record two { proxies = near ∷ far ∷ [] }

servers-IsIndexed : IsIndexed servers
unfolding equal position
servers-IsIndexed = record {
  indexed = λ id. refl;
  distinct = (refl, (refl, tt));
  active = λ i e. ground arith;
}

abbrev at_start : Moment ℕ
at_start = record { schedule = default_schedule; min_score = 1; now = 300; instant = 1000 }

abbrev policy : ProxyPolicy ℕ
policy = record (default_policy whole) { rotation = sticky }

-- A client "c" that is pinned to the better proxy.
abbrev pin : Session
pin = session_of 0 600 far

abbrev listener : LocalProxy ℕ
listener = record {
  pool = servers;
  sessions = (codes "c", pin) ∷ [];
  slots = [];
  avoided = [];
  recent = [];
  failures = 0;
  rotations = 0;
}

proxy_for-allows_example : allows whole policy near ≡ true
unfolding proxy_for equal allows
proxy_for-allows_example =
    proxy_for-allows whole at_start (codes "d") (codes "default") policy listener near refl

abbrev second_pin : Session
second_pin = session_of 1000 600 near

sticky_proxy-PinnedApart_example :
    (p : ProxyInfo ℕ) × PinnedApart whole at_start (codes "d") policy listener second_pin p
unfolding sticky_proxy find equal allows
sticky_proxy-PinnedApart_example =
    sticky_proxy-PinnedApart whole at_start (codes "d") policy listener second_pin refl refl

sticky_proxy_again_example :
    sticky_proxy whole at_start
      (codes "d")
      policy
      (sticky_proxy whole at_start (codes "d") policy listener).0
    ≡ ((sticky_proxy whole at_start (codes "d") policy listener).0, some near)
unfolding sticky_proxy find equal allows
sticky_proxy_again_example =
    sticky_proxy_again whole at_start at_start (codes "d") policy listener second_pin near
      servers-IsIndexed refl refl refl

abbrev turned_away : List Text
turned_away = insert_key pin.proxy_id (or_none (find (codes "c") listener.avoided))

abbrev turned_over : LocalProxy ℕ
turned_over =
    (sticky_proxy whole at_start (codes "c") policy (rotate_session (codes "c") listener).0).0

rotated_session_moves_example :
    ((near.id ≢ pin.proxy_id)
      × Pinned whole at_start (codes "c") policy turned_away turned_over near)
    ⊎ FallsBack whole at_start
        (codes "c")
        policy
        listener.pool
        (remove (codes "c") listener.sessions)
        turned_away
        turned_over
        near
unfolding sticky_proxy rotate_session find remove put equal allows
rotated_session_moves_example =
    rotated_session_moves whole at_start (codes "c") policy listener pin near refl refl

abbrev site : Target
site = record { host = codes "example.com"; port = 443 }

-- A network that lets no proxy through.
abbrev shut : Network whole
shut = record {
  moment = λ left. at_start;
  has_time = λ left. true;
  tunnels = λ left p t. false;
  forwards = λ left p. false;
  others = λ left l. l;
}

open_tunnel-Distinct_example :
    Distinct (map (λ (q : ProxyInfo ℕ). q.host) (open_tunnel whole shut 3 site near listener).tried)
    × (length (open_tunnel whole shut 3 site near listener).tried ≤ 3)
    × ((q : ProxyInfo ℕ)
        → (open_tunnel whole shut 3 site near listener).carried ≡ some q
        → In q (open_tunnel whole shut 3 site near listener).tried)
open_tunnel-Distinct_example = open_tunnel-Distinct whole shut 3 site near listener

abbrev calls : List (Call whole)
calls =
    changes_pool (merges (λ n. n) (near ∷ far ∷ []))
    ∷ chooses at_start (codes "c") (codes "default") policy
    ∷ turns_session (codes "c")
    ∷ pins 1000 (codes "d") near 600
    ∷ fails at_start near
    ∷ []

run-new_listener-IsConsistent_example : IsConsistent (run_listener whole calls new_listener)
run-new_listener-IsConsistent_example = run-new_listener-IsConsistent whole calls

listener-IsConsistent : IsConsistent listener
listener-IsConsistent = record {
  indexed = servers-IsIndexed;
  one_pin = (refl, tt);
  one_slot = tt;
  few = omega arith;
}

abbrev head : RequestHead
head = record {
  method = codes "GET";
  raw = codes "GET http://example.com/ HTTP/1.1" ++ 13 ∷ 10 ∷ 13 ∷ 10 ∷ [];
}

abbrev surroundings : Surroundings whole
surroundings = record {
  config = record default_config { allow_anonymous = true };
  store = none;
  peer = codes "127.0.0.1";
  moment = at_start;
  network = shut;
  forwarding = λ p. answers;
  parse_ipv6 = λ t. none;
}

handle-Justified_example :
    Justified whole surroundings head (handle whole surroundings head listener).service
handle-Justified_example = handle-Justified whole surroundings head listener

abbrev secret : List ℕ
secret = codes "name:pw"

base64_decode-base64_example : base64_decode (base64 secret) ≡ some secret
base64_decode-base64_example = base64_decode-base64 secret (
  omega arith,
  (omega arith, (omega arith, (omega arith, (omega arith, (omega arith, (omega arith, tt)))))),
)
