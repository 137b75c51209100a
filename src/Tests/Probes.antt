-- ===== src/Tests/Probes.antt =====
-- The probes: the theorems at one proxy and two targets.
use proxy_switcher.Address.{v4}
use proxy_switcher.Common.{ℕ, true, Option, none, some, List, [], ◌∷◌, ◌++◌, take}
use proxy_switcher.Common.Text.{Text, codes}
use proxy_switcher.Health.Probe.{Meeting, in_time, late, ProbedProxy, ActiveTarget, probe_against}
use proxy_switcher.Health.Conclusive.{FirstConclusive, probe_against-FirstConclusive}

abbrev no_ipv6 : Text → Option ℕ
no_ipv6 t = none

abbrev shown : ℕ → Text
shown n = []

abbrev proxy : ProbedProxy
proxy = record { id = codes "a"; host = codes "h" }

abbrev target : ActiveTarget
target = record {
  url = codes "http://echo/";
  host = codes "echo";
  port = 80;
  path = codes "/";
  own_exit_ip = some (v4 (record { a = 1; b = 2; c = 3; d = 4 }));
  verified = true;
  checked_at = 0;
}

abbrev answered : Meeting
answered = record {
  tunnel = in_time tt;
  write = in_time tt;
  answer = in_time (codes "HTTP/1.1 200 OK" ++ 13 ∷ 10 ∷ 13 ∷ 10 ∷ codes "9.8.7.6");
  connect_tcp = late;
  write_plain = none;
  read_response = late;
  elapsed_ms = 120;
}

abbrev silent : Meeting
silent = record answered { answer = late }

abbrev targets : List ActiveTarget
targets = target ∷ target ∷ target ∷ []

probe_against-FirstConclusive_example :
    FirstConclusive no_ipv6 shown proxy
      (λ t. silent)
      (take 2 targets)
      (probe_against no_ipv6 shown 2 proxy (λ t. silent) targets)
probe_against-FirstConclusive_example =
    probe_against-FirstConclusive no_ipv6 shown 2 proxy (λ t. silent) targets
