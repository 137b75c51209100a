-- ===== src/Scraper/Built.antt =====
-- What the proxies that are read from a list have in common.
use proxy_switcher.Common.{
  ℕ, ◌≡◌, refl, Bool, true, false, not, ◌||◌, Option, none, some, List, [], ◌∷◌, ◌++◌, map, arith,
  if◌then◌else◌, is_empty, ◌==◌, any, ltb, length,
}
use proxy_switcher.Common.Text.{
  Text, codes, equal, trim, lines, words, split, split_once, split_once_text, lowercase,
  starts_with, parse_uint,
}
use proxy_switcher.Common.Utf8.{as_bytes}
use proxy_switcher.Connectors.Base.{show_port}
use proxy_switcher.Pool.Types.{
  Floats, ProxyInfo, ProxyProtocol, Anonymity, unknown, trojan, shadowsocks, socks5, http,
}
use proxy_switcher.Scraper.Build.{
  build, build_link, keep_some, unproved, is_one_of, is_host_char, or_hint,
}
use proxy_switcher.Scraper.Links.{
  linked, trojan_of, shadowsocks_of, build_shadowsocks, decoded_link, whole_decoded,
  parse_shadowsocks, parse_user, by_scheme, parse_link, links_of, parse_links,
}
use proxy_switcher.Scraper.Parse.{
  Row, Format, html, plain_text, csv, json, links, with_anonymity, proxy_at, proxy_of_row,
  html_rows, read_row, Readers, parse_as, parse_list, detect,
}
use proxy_switcher.Scraper.Tables.{
  Value, Values, Fields, other, number, text, array, object, nil, cons, end, field, built,
  plain_line, plain_lines, parse_plain_text, csv_row, csv_fields, csv_lines, parse_csv,
  object_address, object_at, proxy_from_object, collect_json, collect_values, collect_fields,
  collected, is_skipped, get_field, find_text, port_value, non_empty, address_keys, first_protocol,
  first_country, split_address, protocol_in,
}

module _ (fl : Floats) where
  open fl use {F, of_u64}

  -- The proxy has a host, its id is the host and the port, and no probe has said anything of it.
  abbrev pub IsUnproved : ProxyInfo F → Type 0
  IsUnproved p =
      (is_empty p.host ≡ false)
      × (p.id ≡ p.host ++ b':' ∷ show_port p.port)
      × (p.last_checked ≡ none)
      × (p.last_success ≡ none)
      × (p.consecutive_failures ≡ 0)
      × (p.score ≡ of_u64 0)
      × (p.country ≡ none)

  abbrev pub AllUnproved : List (ProxyInfo F) → Type 0
  AllUnproved [] = Unit {0}
  AllUnproved (p ∷ ps) = IsUnproved p × AllUnproved ps

  abbrev IfAny : Option (ProxyInfo F) → Type 0
  IfAny none = Unit {0}
  IfAny (some p) = IsUnproved p

  IfAny-guard :
      (b : Bool) (o : Option (ProxyInfo F)) → (b ≡ false → IfAny o) → IfAny (if b then none else o)
  IfAny-guard true o h = tt
  IfAny-guard false o h = h refl

  -- A choice among four, or nothing.
  IfAny-choice :
      (a b c d : Bool) (w x y z : Option (ProxyInfo F))
      → IfAny w
      → IfAny x
      → IfAny y
      → IfAny z
      → IfAny (if a then w else if b then x else if c then y else if d then z else none)
  IfAny-choice true b c d w x y z hw hx hy hz = hw
  IfAny-choice false true c d w x y z hw hx hy hz = hx
  IfAny-choice false false true d w x y z hw hx hy hz = hy
  IfAny-choice false false false true w x y z hw hx hy hz = hz
  IfAny-choice false false false false w x y z hw hx hy hz = tt

  keep_some-AllUnproved :
      (o : Option (ProxyInfo F)) (ps : List (ProxyInfo F))
      → IfAny o
      → AllUnproved ps
      → AllUnproved (keep_some o ps)
  keep_some-AllUnproved none ps h k = k
  keep_some-AllUnproved (some p) ps h k = (h, k)

  AllUnproved-append :
      (ps qs : List (ProxyInfo F)) → AllUnproved ps → AllUnproved qs → AllUnproved (ps ++ qs)
  AllUnproved-append [] qs h k = k
  AllUnproved-append (p ∷ ps) qs h k = (h.0, AllUnproved-append ps qs h.1 k)

  AllUnproved-if :
      (b : Bool) (ps qs : List (ProxyInfo F))
      → AllUnproved ps
      → AllUnproved qs
      → AllUnproved (if b then ps else qs)
  AllUnproved-if true ps qs h k = h
  AllUnproved-if false ps qs h k = k

  module _ (now : ℕ) where
    build-IfAny :
        (host : Text) (port : ℕ) (protocol : ProxyProtocol) (country : Option Text)
        → IfAny (build fl now host port protocol country)
    unfolding build
    build-IfAny host port protocol country =
        let h = trim host in
        IfAny-guard (is_empty h || any (λ c. c == b'/') h || any (λ c. c == 32) h)
          (if ltb 253 (length (as_bytes h)) || any (λ c. not (is_host_char c)) h
            then none
            else some (unproved (of_u64 0) now h port protocol none none country))
          λ e.
            IfAny-guard (ltb 253 (length (as_bytes h)) || any (λ c. not (is_host_char c)) h)
              (some (unproved (of_u64 0) now h port protocol none none country))
              λ _. (ground (arith, e), refl, refl, refl, refl, refl, refl)

    build_link-IfAny :
        (protocol : ProxyProtocol) (host : Text) (port : ℕ) (password cipher : Option Text)
        → IfAny (build_link fl now protocol host port password cipher)
    unfolding build_link
    build_link-IfAny protocol host port password cipher =
        IfAny-guard (is_empty host || port == 0)
          (some (unproved (of_u64 0) now host port protocol password cipher none))
          λ e. (ground (arith, e), refl, refl, refl, refl, refl, refl)

    linked-IfAny :
        (protocol : ProxyProtocol) (password cipher : Option Text) (o : Option (Text × ℕ))
        → IfAny (linked fl now protocol password cipher o)
    linked-IfAny protocol password cipher none = tt
    linked-IfAny protocol password cipher (some (host, port)) =
        build_link-IfAny protocol host port password cipher

    trojan_of-IfAny : (o : Option (Text × Text)) → IfAny (trojan_of fl now o)
    trojan_of-IfAny none = tt
    trojan_of-IfAny (some (credentials, host_port)) = linked-IfAny trojan _ none _

    build_shadowsocks-IfAny :
        (credentials host_port : Text) → IfAny (build_shadowsocks fl now credentials host_port)
    build_shadowsocks-IfAny credentials host_port = parts (split_once b':' credentials)
      where
        parts : (o : Option (Text × Text)) → IfAny (shadowsocks_of fl now host_port o)
        parts none = tt
        parts (some (method, password)) = linked-IfAny shadowsocks (some password) (some method) _

    decoded_link-IfAny : (o : Option (Text × Text)) → IfAny (decoded_link fl now o)
    decoded_link-IfAny none = tt
    decoded_link-IfAny (some (credentials, host_port)) =
        build_shadowsocks-IfAny credentials host_port

    whole_decoded-IfAny : (o : Option Text) → IfAny (whole_decoded fl now o)
    whole_decoded-IfAny none = tt
    whole_decoded-IfAny (some decoded) = decoded_link-IfAny (split_once b'@' decoded)

    parse_shadowsocks-IfAny :
        (rest : Text) (o : Option (Text × Text)) → IfAny (parse_shadowsocks fl now rest o)
    parse_shadowsocks-IfAny rest none = whole_decoded-IfAny _
    parse_shadowsocks-IfAny rest (some (credentials, host_port)) = build_shadowsocks-IfAny _ _

    parse_user-IfAny :
        (protocol : ProxyProtocol) (rest : Text) → IfAny (parse_user fl now protocol rest)
    parse_user-IfAny protocol rest = linked-IfAny protocol _ none _

    by_scheme-IfAny : (o : Option (Text × Text)) → IfAny (by_scheme fl now o)
    by_scheme-IfAny none = tt
    by_scheme-IfAny (some (scheme, rest)) =
        let s = lowercase scheme in
        IfAny-choice (equal s (codes "trojan")) (equal s (codes "ss"))
          (is_one_of s (codes "socks5" ∷ codes "socks4" ∷ codes "socks" ∷ []))
          (is_one_of s (codes "http" ∷ codes "https" ∷ []))
          (trojan_of fl now (split_once b'@' rest))
          (parse_shadowsocks fl now rest (split_once b'@' rest)) (parse_user fl now socks5 rest)
          (parse_user fl now http rest) (trojan_of-IfAny (split_once b'@' rest))
          (parse_shadowsocks-IfAny rest (split_once b'@' rest)) (parse_user-IfAny socks5 rest)
          (parse_user-IfAny http rest)

    links_of-AllUnproved : (ls : List Text) → AllUnproved (links_of fl now ls)
    unfolding links_of parse_link
    links_of-AllUnproved [] = tt
    links_of-AllUnproved (line ∷ rest) =
        let t = trim line in
        let later = links_of-AllUnproved rest in
        AllUnproved-if (is_empty t || starts_with (codes "#") t) (links_of fl now rest)
          (keep_some (parse_link fl now t) (links_of fl now rest)) later
          (keep_some-AllUnproved (parse_link fl now t) (links_of fl now rest)
            (by_scheme-IfAny (split_once_text (codes "://") t)) later)

    module _ (hint : ProxyProtocol) where
      built-IfAny :
          (protocol : ProxyProtocol) (country : Option Text) (o : Option (Text × ℕ))
          → IfAny (built fl now hint protocol country o)
      built-IfAny protocol country none = tt
      built-IfAny protocol country (some (host, port)) = build-IfAny host port protocol country

      plain_line-IfAny : (ws : List Text) → IfAny (plain_line fl now hint ws)
      plain_line-IfAny [] = tt
      plain_line-IfAny (address ∷ rest) =
          built-IfAny (or_hint (protocol_in rest) hint) none (split_address address)

      plain_lines-AllUnproved : (ls : List Text) → AllUnproved (plain_lines fl now hint ls)
      unfolding plain_lines
      plain_lines-AllUnproved [] = tt
      plain_lines-AllUnproved (line ∷ rest) =
          let t = trim line in
          let ps = plain_lines fl now hint rest in
          let later = plain_lines-AllUnproved rest in
          AllUnproved-if (is_skipped t) ps (keep_some (plain_line fl now hint (words t)) ps) later (
            keep_some-AllUnproved (plain_line fl now hint (words t)) ps (plain_line-IfAny (words t))
              later)

      csv_row-IfAny :
          (host : Text) (o : Option ℕ) (rest : List Text) → IfAny (csv_row fl now hint host o rest)
      csv_row-IfAny host none rest = tt
      csv_row-IfAny host (some port) rest =
          IfAny-guard (is_empty (trim host) || any (λ c. c == 32) (trim host))
            (build fl now (trim host) port (or_hint (first_protocol rest) hint)
              (first_country rest))
            λ _.
              build-IfAny (trim host) port (or_hint (first_protocol rest) hint) (first_country rest)

      csv_fields-IfAny : (fs : List Text) → IfAny (csv_fields fl now hint fs)
      csv_fields-IfAny [] = tt
      csv_fields-IfAny (f ∷ []) = tt
      csv_fields-IfAny (host ∷ port ∷ rest) = csv_row-IfAny host (parse_uint 65535 port) rest

      csv_lines-AllUnproved : (ls : List Text) → AllUnproved (csv_lines fl now hint ls)
      unfolding csv_lines
      csv_lines-AllUnproved [] = tt
      csv_lines-AllUnproved (line ∷ rest) =
          let t = trim line in
          let fs = map trim (split b',' t) in
          let ps = csv_lines fl now hint rest in
          let later = csv_lines-AllUnproved rest in
          AllUnproved-if (is_skipped t) ps (keep_some (csv_fields fl now hint fs) ps) later
            (keep_some-AllUnproved (csv_fields fl now hint fs) ps (csv_fields-IfAny fs) later)

      object_address-IfAny :
          (protocol : ProxyProtocol) (country : Option Text) (address : Text)
          (parts : Option (Text × ℕ)) (declared : Option ℕ)
          → IfAny (object_address fl now hint protocol country address parts declared)
      object_address-IfAny protocol country address (some (host, port)) declared =
          build-IfAny host port protocol country
      object_address-IfAny protocol country address none (some port) =
          build-IfAny address port protocol country
      object_address-IfAny protocol country address none none = tt

      object_at-IfAny : (fs : Fields) (o : Option Text) → IfAny (object_at fl now hint fs o)
      object_at-IfAny fs none = tt
      object_at-IfAny fs (some address) =
          object_address-IfAny _ _ address (split_address address)
            (port_value (get_field (codes "port") fs))

      proxy_from_object-IfAny : (fs : Fields) → IfAny (proxy_from_object fl now hint fs)
      unfolding proxy_from_object
      proxy_from_object-IfAny fs =
          object_at-IfAny fs (non_empty (find_text (address_keys fl now hint) fs))

      object_or_nested :
          (o : Option (ProxyInfo F)) (nested : List (ProxyInfo F))
          → IfAny o
          → AllUnproved nested
          → AllUnproved (elim o [ none ↦ nested | some p ↦ p ∷ [] ])
      object_or_nested none nested h k = k
      object_or_nested (some p) nested h k = (h, tt)

      mutual
        unfolding collect_json

        collect_json-AllUnproved : (v : Value) → AllUnproved (collect_json fl now hint v)
        collect_json-AllUnproved other = tt
        collect_json-AllUnproved (number n) = tt
        collect_json-AllUnproved (text t) = tt
        collect_json-AllUnproved (array vs) = collect_values-AllUnproved vs
        collect_json-AllUnproved (object fs) =
            object_or_nested (proxy_from_object fl now hint fs) (collect_fields fl now hint fs)
              (proxy_from_object-IfAny fs) (collect_fields-AllUnproved fs)

        collect_values-AllUnproved : (vs : Values) → AllUnproved (collect_values fl now hint vs)
        collect_values-AllUnproved nil = tt
        collect_values-AllUnproved (cons v vs) =
            AllUnproved-append (collect_json fl now hint v) (collect_values fl now hint vs)
              (collect_json-AllUnproved v) (collect_values-AllUnproved vs)

        collect_fields-AllUnproved : (fs : Fields) → AllUnproved (collect_fields fl now hint fs)
        collect_fields-AllUnproved end = tt
        collect_fields-AllUnproved (field k v fs) =
            AllUnproved-append (collect_json fl now hint v) (collect_fields fl now hint fs)
              (collect_json-AllUnproved v) (collect_fields-AllUnproved fs)

      collected-AllUnproved : (o : Option Value) → AllUnproved (collected fl now hint o)
      collected-AllUnproved none = tt
      collected-AllUnproved (some v) = collect_json-AllUnproved v

      module _ (parse_ipv6 : Text → Option ℕ) where
        with_anonymity-IfAny :
            (a : Anonymity) (o : Option (ProxyInfo F))
            → IfAny o
            → IfAny (with_anonymity parse_ipv6 fl now hint a o)
        with_anonymity-IfAny a none h = tt
        with_anonymity-IfAny a (some p) h = h

        proxy_at-IfAny :
            (row : Row) (address : Option Text) (port : Option ℕ)
            → IfAny (proxy_at parse_ipv6 fl now hint row address port)
        proxy_at-IfAny row none port = tt
        proxy_at-IfAny row (some address) none = tt
        proxy_at-IfAny row (some address) (some port) =
            with_anonymity-IfAny row.anonymity (build fl now address port row.protocol row.country)
              (build-IfAny address port row.protocol row.country)

        html_rows-AllUnproved :
            (rows : List (List Text)) → AllUnproved (html_rows parse_ipv6 fl now hint rows)
        unfolding html_rows
        html_rows-AllUnproved [] = tt
        html_rows-AllUnproved (cells ∷ rows) =
            let row = read_row parse_ipv6 (map trim cells) (record {
              address = none;
              port = none;
              protocol = hint;
              country = none;
              anonymity = unknown;
            }) in
            let ps = html_rows parse_ipv6 fl now hint rows in
            let later = html_rows-AllUnproved rows in
            AllUnproved-if (is_empty cells) ps
              (keep_some (proxy_of_row parse_ipv6 fl now hint row) ps) later
              (keep_some-AllUnproved (proxy_of_row parse_ipv6 fl now hint row) ps
                (proxy_at-IfAny row row.address row.port) later)

        parse_as-AllUnproved :
            (readers : Readers parse_ipv6 fl now hint) (format : Format) (body : Text)
            → AllUnproved (parse_as parse_ipv6 fl now hint readers format body)
        unfolding parse_links parse_csv parse_plain_text
        parse_as-AllUnproved readers links body = links_of-AllUnproved (lines body)
        parse_as-AllUnproved readers json body = collected-AllUnproved (readers.from_str body)
        parse_as-AllUnproved readers csv body = csv_lines-AllUnproved (lines body)
        parse_as-AllUnproved readers plain_text body = plain_lines-AllUnproved (lines body)
        parse_as-AllUnproved readers html body = html_rows-AllUnproved (readers.rows body)

        -- Every proxy that a list of any format gives, whatever the body and the readers of JSON and
        -- HTML, has a host that is not empty, is named by its host and port, and has nothing proved of
        -- it: it was never checked, has had no success and no failure, its score is zero and no country
        -- was found for it.
        pub parse_list-AllUnproved :
            (readers : Readers parse_ipv6 fl now hint) (body : Text)
            → AllUnproved (parse_list parse_ipv6 fl now hint readers body)
        unfolding parse_list
        parse_list-AllUnproved readers body = parse_as-AllUnproved readers (detect body) body
