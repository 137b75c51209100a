-- ===== src/Tests/Proxies.antt =====
-- The clients of the proxy protocols and the scraper: the theorems at concrete bytes.
use proxy_switcher.Common.{
  ℕ, zero, suc, ◌-◌, ◌≡◌, ◌∙◌, ap, inl, refl, arith, Option, none, some, List, [], ◌∷◌, ◌++◌,
  length, take, take-append, length-append,
}
use proxy_switcher.Common.Text.{Text, codes}
use proxy_switcher.Common.Utf8.{as_bytes}
use proxy_switcher.Connectors.Accepted.{
  Agreement, by_password, Bound, at_ipv4, given, agreeing, accepting, greeting, connect_bytes, wire,
  socks5_handshake-accepting,
}
use proxy_switcher.Connectors.Address.{encode_address, decode_address}
use proxy_switcher.Connectors.Base.{Target, done, failed, refused}
use proxy_switcher.Connectors.Handshakes.{socks5_handshake}
use proxy_switcher.Connectors.Readable.{decode_address-encode_address}
use proxy_switcher.Connectors.Refused.{
  Refusal, no_connection, offered, refusing, sent_by_then, socks5_handshake-refused,
}
use proxy_switcher.Connectors.Chunks.{Accept, takes, wrote, poll_write, new_reader}
use proxy_switcher.Connectors.Delivered.{read_to_end, read_to_end-poll_write}
use proxy_switcher.Connectors.Opened.{IsAead}
use proxy_switcher.Connectors.Steady.{TakesAll, in_pieces}
use proxy_switcher.Connectors.Sealed.{Crypto, Seal, chacha20_poly1305}
use proxy_switcher.Pool.Types.{http}
use proxy_switcher.Router.State.{show_ipv4}
use proxy_switcher.Routing.Cidr.{parse_ip_addr}
use proxy_switcher.Scraper.Built.{AllUnproved, parse_list-AllUnproved}
use proxy_switcher.Scraper.Parse.{Readers, parse_list}
use proxy_switcher.Tests.Values.{whole, address}

abbrev no_ipv6 : Text → Option ℕ
no_ipv6 t = none

abbrev shown : ℕ → Text
shown n = []

decode_address-encode_address_example :
    decode_address shown (encode_address no_ipv6 (codes "8.8.8.8") 53) ≡ some (codes "8.8.8.8", 53)
unfolding parse_ip_addr as_bytes show_ipv4
decode_address-encode_address_example =
    decode_address-encode_address no_ipv6 shown (codes "8.8.8.8") (some (address 8 8 8 8)) 53 refl
      (
        inl (omega arith),
        (
          inl (omega arith),
          (
            inl (omega arith),
            (inl (omega arith), (inl (omega arith), (inl (omega arith), (inl (omega arith), tt)))),
          ),
        ),
      )
      (omega arith)

abbrev site : Target
site = record { host = codes "a.b"; port = 443 }

abbrev agreement : Agreement
agreement = by_password (record { username = codes "u"; password = codes "p" })

abbrev bound : Bound
bound = at_ipv4 (127 ∷ 0 ∷ 0 ∷ 1 ∷ [])

socks5_handshake-accepting_example :
    socks5_handshake no_ipv6 site
      (given agreement)
      (wire (agreeing agreement (accepting bound (1 ∷ 187 ∷ []) (codes "hello"))) [])
    ≡ done tt (
        wire
          (codes "hello")
          (greeting agreement ++ connect_bytes site (parse_ip_addr no_ipv6 site.host)))
unfolding as_bytes
socks5_handshake-accepting_example =
    socks5_handshake-accepting no_ipv6 site agreement bound (1 ∷ 187 ∷ []) (codes "hello")
      (omega arith) refl refl

abbrev refusal : Refusal
refusal = no_connection agreement 4 0 1

socks5_handshake-refused_example :
    socks5_handshake no_ipv6 site (offered refusal) (wire (refusing refusal []) [])
    ≡ failed
        (refused (codes "host unreachable"))
        (wire [] (sent_by_then site (parse_ip_addr no_ipv6 site.host) refusal))
unfolding as_bytes
socks5_handshake-refused_example =
    socks5_handshake-refused no_ipv6 site refusal [] (omega arith) (λ e. omega (arith, e))

abbrev readers : Readers no_ipv6 whole 7 http
readers = record { from_str = λ t. none; rows = λ t. [] }

abbrev body : Text
body = codes "# found" ++ 10 ∷ codes "10.0.0.1:8080 socks5" ++ 10 ∷ []

parse_list-AllUnproved_example : AllUnproved whole (parse_list no_ipv6 whole 7 http readers body)
parse_list-AllUnproved_example = parse_list-AllUnproved whole 7 http no_ipv6 readers body

-- A cipher that only adds a tag of zeros, and a key of zeros.
abbrev zeros : List ℕ
zeros = 0 ∷ 0 ∷ 0 ∷ 0 ∷ 0 ∷ 0 ∷ 0 ∷ 0 ∷ 0 ∷ 0 ∷ 0 ∷ 0 ∷ 0 ∷ 0 ∷ 0 ∷ 0 ∷ []

abbrev tagging : Crypto
tagging = record {
  encrypt = λ cipher key nonce message. some (message ++ zeros);
  decrypt = λ cipher key nonce sealed. some (take (length sealed - 16) sealed);
  md5 = λ bytes. zeros;
  expand = λ salt master n. some (take n (zeros ++ zeros));
}

tagging-IsAead : IsAead tagging
tagging-IsAead = record {
  seals = λ cipher key nonce message k short. (
    message ++ zeros,
    refl,
    length-append message zeros,
    (let fits : length (message ++ zeros) - 16 ≡ length message =
          omega (arith, length-append message zeros) in
        ap (λ n. some (take n (message ++ zeros))) fits ∙ ap some (take-append message zeros)),
  );
}

-- A socket that takes three bytes at each poll.
abbrev takes_three : ℕ → List Accept
takes_three zero = []
takes_three (suc n) = takes 3 ∷ takes_three n

takes_three-TakesAll : (n : ℕ) → TakesAll (takes_three n)
takes_three-TakesAll zero = tt
takes_three-TakesAll (suc n) = (omega arith, takes_three-TakesAll n)

read_to_end-poll_write_example :
    (final : Seal) × (out : List ℕ) × (left : List Accept) × (poll_write tagging
        (record { cipher = chacha20_poly1305; key = zeros ++ zeros; counter = 0 })
        (takes_three 175)
        (codes "hello")
      ≡ wrote final out left)
    × (read_to_end tagging 6 2
          (new_reader tagging [] chacha20_poly1305 (in_pieces (4 ∷ 20 ∷ []) (zeros ++ out)))
        ≡ some (codes "hello"))
read_to_end-poll_write_example =
    read_to_end-poll_write tagging 2 chacha20_poly1305 [] zeros (zeros ++ zeros) (codes "hello")
      (takes_three 175) (4 ∷ 20 ∷ []) tagging-IsAead refl refl refl (omega arith)
      (takes_three-TakesAll 175) (omega arith)
