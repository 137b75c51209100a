-- ===== src/Health/Proven.antt =====
-- What a verdict of a probe rests on, in check_one of crates/proxy-core/src/health/mod.rs.
use proxy_switcher.Address.{IpAddr}
use proxy_switcher.Common.{ℕ, ◌≡◌, ◌≢◌, ◌⊎◌, true, Option, none, some, [], ◌∷◌}
use proxy_switcher.Common.Outcome.{Bytes}
use proxy_switcher.Common.Text.{Text, split_once_text}
use proxy_switcher.Common.Utf8.{from_utf8_lossy}
use proxy_switcher.Connectors.Base.{is_plain_http}
use proxy_switcher.Health.Probe.{
  in_time, Meeting, ActiveTarget, status_of, code_of, is_success, body_of, Plain, carried, reason,
}
use proxy_switcher.Health.Reported.{extract_exit_ip}
use proxy_switcher.Pool.Types.{HealthResult}

module _ (parse_ipv6 : Text → Option ℕ) (show_ipv6 : ℕ → Text) where
  -- A tunnel carried the request, the target answered with success, and the address that it reports
  -- is not the engine's own.
  abbrev pub Tunnelled : ActiveTarget → Meeting → IpAddr → Type 0
  Tunnelled target m exit =
      (buf : Bytes) × (m.answer ≡ in_time buf)
      × (extract_exit_ip parse_ipv6 (from_utf8_lossy buf) ≡ some exit)
      × (is_success (code_of (status_of (from_utf8_lossy buf))) ≡ true)
      × (target.own_exit_ip ≢ some exit)

  -- The proxy opened no tunnel, and forwarded a plain request, whose answer has an address in its body.
  abbrev pub Forwarded : ActiveTarget → Meeting → IpAddr → Type 0
  Forwarded target m exit =
      (response : Text) × (m.read_response ≡ in_time response)
      × (extract_exit_ip parse_ipv6 (body_of (split_once_text (13 ∷ 10 ∷ 13 ∷ 10 ∷ []) response))
          ≡ some exit)
      × (is_success (code_of (status_of response)) ≡ true)
      × (is_plain_http target.port ≡ true)

  -- What proves that a proxy works.
  abbrev pub Proof : ActiveTarget → Meeting → HealthResult → Type 0
  Proof target m r =
      (exit : IpAddr) × (r.exit_ip ≡ some exit)
      × (Tunnelled target m exit ⊎ Forwarded target m exit)

  abbrev result_of : Plain parse_ipv6 show_ipv6 → Option HealthResult
  result_of (carried r) = some r
  result_of (reason e) = none
