-- ===== src/Health/Probe.antt =====
-- The probe of one proxy, and the target of the probes: `check_one`, `probe_against` and `resolve_target`
-- of crates/proxy-core/src/health/mod.rs. The lock of the target is never poisoned here.
use proxy_switcher.Address.{IpAddr, ip_eq}
use proxy_switcher.Common.{
  ℕ, ◌*◌, ◌-◌, Bool, true, false, not, ◌&&◌, Option, none, some, List, [], ◌∷◌, ◌++◌, map,
  if◌then◌else◌, leb, ltb, ◌==◌, is_empty, get_elem?, take,
}
use proxy_switcher.Common.Outcome.{Bytes}
use proxy_switcher.Common.Text.{
  Text, codes, trim, words, lines, starts_with, parse_uint, split_once_text,
}
use proxy_switcher.Common.Utf8.{from_utf8_lossy}
use proxy_switcher.Connectors.Base.{is_plain_http}
use proxy_switcher.Health.Reported.{
  parse_target, TargetView, parse_target_view, classify_anonymity, extract_exit_ip, first_line,
}
use proxy_switcher.Pool.State.{second}
use proxy_switcher.Pool.Types.{HealthResult, Verdict, working, failed, inconclusive, is_some}
use proxy_switcher.Routing.Cidr.{parse_ip_addr}

-- `HealthResult::working`, `failed` and `inconclusive`
abbrev pub working_result : Text → ℕ → Option IpAddr → Bool → HealthResult
working_result proxy_id latency_ms exit_ip tunneled = record {
  proxy_id = proxy_id;
  verdict = working;
  latency_ms = latency_ms;
  error = none;
  tunneled = tunneled;
  anonymity = none;
  exit_ip = exit_ip;
}

abbrev pub failed_result : Text → Text → HealthResult
failed_result proxy_id reason = record {
  proxy_id = proxy_id;
  verdict = failed;
  latency_ms = 0;
  error = some reason;
  tunneled = false;
  anonymity = none;
  exit_ip = none;
}

abbrev pub inconclusive_result : Text → Text → HealthResult
inconclusive_result proxy_id reason = record (failed_result proxy_id reason) {
  verdict = inconclusive;
}

-- How a step over the network comes out within its budget.
pub data Timed (A : Type 0) : Type 0 where
  in_time : A → Timed A
  error : Text → Timed A
  late : Timed A

-- What one probe meets: the tunnel, the writing of the request, the answer, the connection and the
-- answer of plain forwarding, and the milliseconds that it takes.
pub record Meeting : Type 0 where
  pub tunnel : Timed (Unit {0})
  pub write : Timed (Unit {0})
  pub answer : Timed Bytes
  pub connect_tcp : Timed (Unit {0})
  pub write_plain : Option Text
  pub read_response : Timed Text
  pub elapsed_ms : ℕ

pub record ProbedProxy : Type 0 where
  pub id : Text
  pub host : Text

pub record ActiveTarget : Type 0 where
  pub url : Text
  pub host : Text
  pub port : ℕ
  pub path : Text
  pub own_exit_ip : Option IpAddr
  pub verified : Bool
  pub checked_at : ℕ

abbrev pub status_of : Text → Text
status_of response = trim (first_line (lines response))

abbrev pub or_zero : Option ℕ → ℕ
or_zero none = 0
or_zero (some n) = n

-- The code of a status line, or zero.
abbrev pub parsed_code : Option Text → Option ℕ
parsed_code none = none
parsed_code (some c) = parse_uint 65535 c

abbrev pub code_of : Text → ℕ
code_of status = or_zero (parsed_code (get_elem? (words status) 1))

abbrev pub is_success : ℕ → Bool
is_success code = leb 200 code && ltb code 300

abbrev pub is_own : Option IpAddr → IpAddr → Bool
is_own none exit = false
is_own (some own) exit = ip_eq own exit

-- The body behind the head of a response.
abbrev pub body_of : Option (Text × Text) → Text
body_of none = []
body_of (some (head, body)) = body

module _ (parse_ipv6 : Text → Option ℕ) (show_ipv6 : ℕ → Text) where
  -- How plain forwarding is judged: a result, or the reason why it is none.
  pub data Plain : Type 0 where
    carried : HealthResult → Plain
    reason : Text → Plain

  abbrev pub judge_exit : Text → ℕ → Option IpAddr → Plain
  judge_exit id elapsed none = reason (codes "the proxy answered in place of the target")
  judge_exit id elapsed (some exit_ip) = carried (working_result id elapsed (some exit_ip) false)

  unfoldable pub judge_response : Text → ℕ → Text → Plain
  unfolding lines trim starts_with words parse_uint split_once_text extract_exit_ip
  judge_response id elapsed response =
      let status = status_of response in
      let code = code_of status in
      if not (starts_with (codes "HTTP/1.") status)
      then reason (codes "not an HTTP response: " ++ status)
      else if code == 407
      then reason (codes "the proxy requires authentication")
      else if not (is_success code)
      then reason (codes "the target answered " ++ status)
      else judge_exit id elapsed
          (extract_exit_ip parse_ipv6 (body_of (split_once_text (13 ∷ 10 ∷ 13 ∷ 10 ∷ []) response)))

  abbrev pub plain_answer : Text → ℕ → Timed Text → Plain
  plain_answer id elapsed late = reason (codes "read timeout")
  plain_answer id elapsed (error e) = reason e
  plain_answer id elapsed (in_time response) = judge_response id elapsed response

  abbrev pub plain_written : Text → Meeting → Option Text → Plain
  plain_written id m (some e) = reason e
  plain_written id m none = plain_answer id m.elapsed_ms m.read_response

  abbrev pub plain_connected : Text → Meeting → Timed (Unit {0}) → Plain
  plain_connected id m late = reason (codes "connect timed out")
  plain_connected id m (error e) = reason e
  plain_connected id m (in_time u) = plain_written id m m.write_plain

  -- `check_plain_forwarding`, which needs the proxy's host to be an address.
  unfoldable pub check_plain_forwarding : ProbedProxy → Meeting → Plain
  unfolding parse_ip_addr judge_response
  check_plain_forwarding proxy m =
      if not (is_some (parse_ip_addr parse_ipv6 proxy.host))
      then reason (codes "the proxy address is not numeric")
      else plain_connected proxy.id m m.connect_tcp

  abbrev pub of_plain : Text → Text → Plain → HealthResult
  of_plain id tunnel_error (carried result) = result
  of_plain id tunnel_error (reason e) =
      failed_result id
        (codes "no tunnel (" ++ (tunnel_error ++ (codes ") and no plain forwarding: " ++ e)))

  -- A tunnel is only working if the target reports an address that is not the engine's own.
  abbrev pub judge_view : Text → ℕ → Option IpAddr → TargetView → Option IpAddr → HealthResult
  judge_view id elapsed own view none =
      failed_result id (codes "the proxy answered in place of the target")
  judge_view id elapsed own view (some exit_ip) =
      if is_own own exit_ip
      then failed_result id (codes "the endpoint did not proxy the request")
      else record {
        proxy_id = id;
        verdict = working;
        latency_ms = elapsed;
        error = none;
        tunneled = true;
        anonymity = classify_anonymity show_ipv6 view own;
        exit_ip = some exit_ip;
      }

  unfoldable pub judge_answer : Text → ℕ → Option IpAddr → Text → HealthResult
  unfolding lines trim starts_with words parse_uint parse_target_view classify_anonymity
  judge_answer id elapsed own response =
      let status = status_of response in
      let code = code_of status in
      let view = parse_target_view parse_ipv6 response in
      if not (starts_with (codes "HTTP/1.0") status) && not (starts_with (codes "HTTP/1.1") status)
      then (if is_empty status
          then inconclusive_result id (codes "no HTTP response")
          else failed_result id (codes "not an HTTP proxy: " ++ status))
      else if code == 407
      then failed_result id (codes "proxy requires authentication")
      else if not (is_success code)
      then inconclusive_result id (codes "target answered " ++ status)
      else judge_view id elapsed own view view.exit_ip

  abbrev pub judge_read : ProbedProxy → Meeting → Option IpAddr → Timed Bytes → HealthResult
  judge_read proxy m own late = inconclusive_result proxy.id (codes "read timeout")
  judge_read proxy m own (error e) = failed_result proxy.id (codes "read error: " ++ e)
  judge_read proxy m own (in_time buf) =
      judge_answer proxy.id m.elapsed_ms own (from_utf8_lossy buf)

  abbrev pub judge_write : ProbedProxy → Meeting → Option IpAddr → Timed (Unit {0}) → HealthResult
  judge_write proxy m own late = inconclusive_result proxy.id (codes "write timeout")
  judge_write proxy m own (error e) = failed_result proxy.id (codes "write error: " ++ e)
  judge_write proxy m own (in_time u) = judge_read proxy m own m.answer

  abbrev pub judge_tunnel :
      ProbedProxy → ℕ → Meeting → Option IpAddr → Timed (Unit {0}) → HealthResult
  judge_tunnel proxy port m own late = inconclusive_result proxy.id (codes "connect timeout")
  judge_tunnel proxy port m own (error e) =
      if not (is_plain_http port)
      then failed_result proxy.id (codes "connect error: " ++ e)
      else of_plain proxy.id e (check_plain_forwarding proxy m)
  judge_tunnel proxy port m own (in_time u) = judge_write proxy m own m.write

  -- `check_one`
  unfoldable pub check_one : ProbedProxy → ActiveTarget → Meeting → HealthResult
  unfolding from_utf8_lossy judge_answer check_plain_forwarding
  check_one proxy target m = judge_tunnel proxy target.port m target.own_exit_ip m.tunnel

  abbrev pub is_conclusive : Verdict → Bool
  is_conclusive working = true
  is_conclusive failed = true
  is_conclusive inconclusive = false

  abbrev pub or_unprobed : Text → Option HealthResult → HealthResult
  or_unprobed id none = inconclusive_result id (codes "no probe target is configured")
  or_unprobed id (some result) = result

  -- The loop of `probe_against`, with the last result that proved nothing.
  unfoldable pub probe_each :
      ProbedProxy
      → (ActiveTarget → Meeting)
      → List ActiveTarget
      → Option HealthResult
      → HealthResult
  unfolding check_one
  probe_each proxy meet [] last = or_unprobed proxy.id last
  probe_each proxy meet (target ∷ targets) last =
      elim (is_conclusive (check_one proxy target (meet target)).verdict) [
        | true ↦ check_one proxy target (meet target)
        | false ↦ probe_each proxy meet targets (some (check_one proxy target (meet target)))
      ]

  -- `probe_against`
  unfoldable pub probe_against :
      ℕ → ProbedProxy → (ActiveTarget → Meeting) → List ActiveTarget → HealthResult
  unfolding probe_each
  probe_against max_targets_per_proxy proxy meet targets =
      probe_each proxy meet (take max_targets_per_proxy targets) none

-- The checker's own state: what it is set to, and the target that it last confirmed.
pub record HealthChecker : Type 0 where
  pub target_urls : List Text
  pub max_targets_per_proxy : ℕ
  pub active_target : Option ActiveTarget

-- `with_max_targets_per_proxy`
abbrev pub new_checker : List Text → ℕ → HealthChecker
new_checker target_urls max_targets = record {
  target_urls = target_urls;
  max_targets_per_proxy = if ltb max_targets 1 then 1 else max_targets;
  active_target = none;
}

abbrev pub target_at : ℕ → Option IpAddr → Text → ActiveTarget
target_at now own url =
    let (host, port, path) = parse_target url in
    record {
      url = url;
      host = host;
      port = port;
      path = path;
      own_exit_ip = own;
      verified = is_some own;
      checked_at = now;
    }

-- `targets`
unfoldable pub targets : ℕ → HealthChecker → Option IpAddr → List ActiveTarget
unfolding parse_target
targets now c own = map (target_at now own) c.target_urls

-- A target that was confirmed within the last 300 seconds.
abbrev pub is_fresh : ℕ → Option ActiveTarget → Bool
is_fresh now none = false
is_fresh now (some t) = ltb (now - t.checked_at) (300 * second)

-- The first target that answers a direct request with an address.
unfoldable pub first_reached : ℕ → (Text → Option IpAddr) → List Text → Option ActiveTarget
unfolding parse_target
first_reached now request_direct [] = none
first_reached now request_direct (url ∷ urls) =
    let later = first_reached now request_direct urls in
    elim (request_direct url) [ none ↦ later | some exit ↦ some (target_at now (some exit) url) ]

abbrev pub or_first : ℕ → List Text → Option ActiveTarget → Option ActiveTarget
or_first now urls (some t) = some t
or_first now [] none = none
or_first now (url ∷ urls) none = some (target_at now none url)

-- The target is written down, if there is one.
abbrev pub confirmed : HealthChecker → Option ActiveTarget → HealthChecker × Option ActiveTarget
confirmed c none = (c, none)
confirmed c (some t) = (record c { active_target = some t }, some t)

-- `resolve_target`, with what a direct request to each target reports.
unfoldable pub resolve_target :
    ℕ → (Text → Option IpAddr) → HealthChecker → HealthChecker × Option ActiveTarget
unfolding first_reached parse_target
resolve_target now request_direct c =
    if is_fresh now c.active_target
    then (c, c.active_target)
    else confirmed c (or_first now c.target_urls (first_reached now request_direct c.target_urls))
