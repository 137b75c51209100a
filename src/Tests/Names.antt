-- ===== src/Tests/Names.antt =====
-- Names: of hosts in DNS responses, and of clients.
use proxy_switcher.Common.{◌≡◌, refl, arith, true, false, some, [], ◌∷◌, ◌++◌}
use proxy_switcher.Common.Outcome.{ok, err, Safe, Bytes}
use proxy_switcher.Common.Text.{codes, trim}
use proxy_switcher.Credentials.Names.{parse_client_name, parse_parameters, is_key}
use proxy_switcher.Credentials.Names.Longest.{IsLongest, parse_client_name-IsLongest}
use proxy_switcher.Credentials.Names.Written.{join_dashes, written, parse_parameters-written}
use proxy_switcher.Dns.Loops.{self_pointer-decode_name}
use proxy_switcher.Dns.Plain.{AreAscii, decode_name-wire}
use proxy_switcher.Dns.Names.{out_of_fuel, decode_name, join_dots}
use proxy_switcher.Dns.Response.{parse_dns_response}
use proxy_switcher.Dns.Total.{UnderOneName, parse_dns_response-Safe}
use proxy_switcher.Tests.Values.{server}

-- A response to a question for a name, whose answer points back to it.
abbrev response : Bytes
response =
    (0 ∷ 1 ∷ 0x81 ∷ 0x80 ∷ 0 ∷ 1 ∷ 0 ∷ 1 ∷ 0 ∷ 0 ∷ 0 ∷ 0 ∷ 7 ∷ codes "example")
    ++ ((3 ∷ codes "com")
        ++ (0 ∷ 0 ∷ 1 ∷ 0 ∷ 1 ∷ 0xc0 ∷ 12 ∷ 0 ∷ 1 ∷ 0 ∷ 1 ∷ 0 ∷ 0 ∷ 0 ∷ 60 ∷ 0 ∷ 4 ∷ 93 ∷ 184 ∷ 216
            ∷ 34 ∷ []))

response_is_read : parse_dns_response 5 response ≡ ok ((codes "example.com", server) ∷ [])
unfolding parse_dns_response join_dots
response_is_read = refl

parse_dns_response-Safe_example : Safe UnderOneName (parse_dns_response 5 response)
parse_dns_response-Safe_example = parse_dns_response-Safe 5 response

self_pointer-decode_name_example : decode_name 1000 (0xc0 ∷ 0 ∷ []) 0 ≡ err out_of_fuel
self_pointer-decode_name_example =
    self_pointer-decode_name (0xc0 ∷ 0 ∷ []) 0 0xc0 0 1000 refl refl refl refl

parse_client_name-IsLongest_example :
    IsLongest
      (trim (codes "work-eu-session-3"))
      (codes "work" ∷ codes "work-eu" ∷ [])
      (parse_client_name
        (codes "work-eu-session-3")
        (codes "work" ∷ codes "work-eu" ∷ [])).credential
parse_client_name-IsLongest_example =
    parse_client_name-IsLongest (codes "work-eu-session-3") (codes "work" ∷ codes "work-eu" ∷ [])

session_is_key : is_key (codes "session") ≡ true
unfolding is_key
session_is_key = refl

three_is_value : is_key (codes "3") ≡ false
unfolding is_key
three_is_value = refl

de_is_value : is_key (codes "de") ≡ false
unfolding is_key
de_is_value = refl

country_is_key : is_key (codes "country") ≡ true
unfolding is_key
country_is_key = refl

parse_parameters-written_example :
    parse_parameters
      (join_dashes (written ((codes "country", codes "de") ∷ (codes "session", codes "3") ∷ [])))
    ≡ (codes "country", codes "de") ∷ (codes "session", codes "3") ∷ []
parse_parameters-written_example =
    parse_parameters-written ((codes "country", codes "de") ∷ (codes "session", codes "3") ∷ []) (
      country_is_key,
      de_is_value,
      (refl, refl),
      (refl, refl),
      (session_is_key, three_is_value, (refl, refl), (refl, refl), tt),
    )

example_is_ascii : AreAscii (codes "example")
example_is_ascii = (
  omega arith,
  (omega arith, (omega arith, (omega arith, (omega arith, (omega arith, (omega arith, tt)))))),
)

com_is_ascii : AreAscii (codes "com")
com_is_ascii = (omega arith, (omega arith, (omega arith, tt)))

decode_name-wire_example :
    decode_name 3 response 12 ≡ ok (some (join_dots (codes "example" ∷ codes "com" ∷ []), 25))
decode_name-wire_example =
    decode_name-wire response (codes "example") (codes "com" ∷ []) 3 12
      (0 ∷ 1 ∷ 0 ∷ 1 ∷ 0xc0 ∷ 12 ∷ 0 ∷ 1 ∷ 0 ∷ 1 ∷ 0 ∷ 0 ∷ 0 ∷ 60 ∷ 0 ∷ 4 ∷ 93 ∷ 184 ∷ 216 ∷ 34
        ∷ [])
      (omega arith, omega arith, example_is_ascii, (omega arith, omega arith, com_is_ascii, tt))
      (omega arith) refl
