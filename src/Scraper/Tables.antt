-- ===== src/Scraper/Tables.antt =====
-- The lists of crates/proxy-core/src/scraper/parse.rs that are not links: plain lines, comma separated
-- values, JSON documents and HTML tables. The readers of JSON and of HTML are third-party code; what
-- they give is a document, and the texts of a table's cells.
use proxy_switcher.Common.{
  ℕ, Bool, not, ◌&&◌, ◌||◌, Option, none, some, List, [], ◌∷◌, ◌++◌, map, if◌then◌else◌, leb, ◌==◌,
  any, is_empty,
}
use proxy_switcher.Common.Text.{
  Text, codes, equal, trim, split, rsplit_once, parse_uint, words, lines, starts_with,
}
use proxy_switcher.Pool.Types.{Floats, ProxyInfo, ProxyProtocol, is_some}
use proxy_switcher.Scraper.Build.{build, parse_protocol, or_hint, keep_some}
use proxy_switcher.Scraper.Links.{with_port}

abbrev pub is_skipped : Text → Bool
is_skipped line = is_empty line || starts_with (codes "#") line

-- `find_map(parse_protocol)`
unfoldable pub first_protocol : List Text → Option ProxyProtocol
unfolding parse_protocol
first_protocol [] = none
first_protocol (f ∷ fs) =
    let later = first_protocol fs in elim (parse_protocol f) [ none ↦ later | some p ↦ some p ]

-- The first field that is a text and no protocol.
unfoldable pub first_country : List Text → Option Text
unfolding parse_protocol
first_country [] = none
first_country (f ∷ fs) =
    let later = first_country fs in
    if not (is_empty f) && not (is_some (parse_protocol f)) then some f else later

abbrev pub trimmed_host : Option (Text × ℕ) → Option (Text × ℕ)
trimmed_host none = none
trimmed_host (some (host, port)) = some (trim host, port)

abbrev pub address_parts : Option (Text × Text) → Option (Text × ℕ)
address_parts none = none
address_parts (some (host, port)) = trimmed_host (with_port host (parse_uint 65535 (trim port)))

-- `split_address`
unfoldable pub split_address : Text → Option (Text × ℕ)
unfolding trim rsplit_once parse_uint
split_address address =
    let address = trim address in
    if is_empty address then none else address_parts (rsplit_once b':' address)

-- A document of the JSON library; a number is one that fits 64 bits without a sign, or another.
mutual
  pub data Value : Type 0 where
    other : Value
    number : ℕ → Value
    text : Text → Value
    array : Values → Value
    object : Fields → Value

  pub data Values : Type 0 where
    nil : Values
    cons : Value → Values → Values

  pub data Fields : Type 0 where
    end : Fields
    field : Text → Value → Fields → Fields

-- `map.get(key)`
unfoldable pub get_field : Text → Fields → Option Value
unfolding equal
get_field key end = none
get_field key (field k v fs) = if equal k key then some v else get_field key fs

abbrev pub as_str : Option Value → Option Text
as_str (some (text t)) = some t
as_str _ = none

unfoldable pub find_text : List Text → Fields → Option Text
unfolding get_field
find_text [] fs = none
find_text (key ∷ keys) fs =
    let later = find_text keys fs in
    elim (as_str (get_field key fs)) [ none ↦ later | some t ↦ some t ]

abbrev pub non_empty : Option Text → Option Text
non_empty none = none
non_empty (some t) = if is_empty (trim t) then none else some (trim t)

-- `u16::try_from` of a number, or of a text that is one.
abbrev pub as_port : Option ℕ → Option ℕ
as_port none = none
as_port (some n) = if leb n 65535 then some n else none

abbrev pub port_value : Option Value → Option ℕ
port_value (some (number n)) = as_port (some n)
port_value (some (text t)) = as_port (parse_uint 18_446_744_073_709_551_615 t)
port_value _ = none

abbrev pub first_value : Option Value → Option Value → Option Value
first_value none v = v
first_value (some v) w = some v

abbrev pub protocol_value : Option Value → Option ProxyProtocol
protocol_value (some (text t)) = parse_protocol t
protocol_value _ = none

-- The protocol behind an address, if there is one.
abbrev pub protocol_in : List Text → Option ProxyProtocol
protocol_in [] = none
protocol_in (t ∷ ts) = parse_protocol t

module _ (fl : Floats) (now : ℕ) (hint : ProxyProtocol) where
  open fl use {F}

  abbrev pub built : ProxyProtocol → Option Text → Option (Text × ℕ) → Option (ProxyInfo F)
  built protocol country none = none
  built protocol country (some (host, port)) = build fl now host port protocol country

  -- A line `address:port protocol`.
  abbrev pub plain_line : List Text → Option (ProxyInfo F)
  plain_line [] = none
  plain_line (address ∷ rest) = built (or_hint (protocol_in rest) hint) none (split_address address)

  unfoldable pub plain_lines : List Text → List (ProxyInfo F)
  unfolding trim words starts_with split_address parse_protocol build
  plain_lines [] = []
  plain_lines (line ∷ rest) =
      let line = trim line in
      let proxies = plain_lines rest in
      if is_skipped line then proxies else keep_some (plain_line (words line)) proxies

  -- `parse_plain_text`
  unfoldable pub parse_plain_text : Text → List (ProxyInfo F)
  unfolding plain_lines lines
  parse_plain_text body = plain_lines (lines body)

  abbrev pub csv_row : Text → Option ℕ → List Text → Option (ProxyInfo F)
  csv_row host none rest = none
  csv_row host (some port) rest =
      if is_empty (trim host) || any (λ c. c == 32) (trim host)
      then none
      else build fl now (trim host) port (or_hint (first_protocol rest) hint) (first_country rest)

  -- The fields of a line; there have to be two.
  abbrev pub csv_fields : List Text → Option (ProxyInfo F)
  csv_fields (host ∷ port ∷ rest) = csv_row host (parse_uint 65535 port) rest
  csv_fields _ = none

  unfoldable pub csv_lines : List Text → List (ProxyInfo F)
  unfolding trim split starts_with first_protocol first_country parse_uint build
  csv_lines [] = []
  csv_lines (line ∷ rest) =
      let line = trim line in
      let proxies = csv_lines rest in
      if is_skipped line
      then proxies
      else keep_some (csv_fields (map trim (split b',' line))) proxies

  -- `parse_csv`
  unfoldable pub parse_csv : Text → List (ProxyInfo F)
  unfolding csv_lines lines
  parse_csv body = csv_lines (lines body)

  abbrev pub object_address :
      ProxyProtocol → Option Text → Text → Option (Text × ℕ) → Option ℕ → Option (ProxyInfo F)
  object_address protocol country address (some (host, port)) declared =
      build fl now host port protocol country
  object_address protocol country address none (some port) =
      build fl now address port protocol country
  object_address protocol country address none none = none

  abbrev pub object_at : Fields → Option Text → Option (ProxyInfo F)
  object_at fs none = none
  object_at fs (some address) =
      object_address
        (or_hint
          (protocol_value (
            first_value (get_field (codes "protocol") fs)
              (first_value (get_field (codes "type") fs) (get_field (codes "scheme") fs))))
          hint)
        (non_empty (
          as_str
            (first_value (get_field (codes "country") fs) (get_field (codes "country_code") fs))))
        address (split_address address) (port_value (get_field (codes "port") fs))

  abbrev pub address_keys : List Text
  address_keys =
      codes "ip" ∷ codes "host" ∷ codes "address" ∷ codes "addr" ∷ codes "ip_address" ∷ []

  -- `proxy_from_object`
  unfoldable pub proxy_from_object : Fields → Option (ProxyInfo F)
  unfolding find_text get_field trim split_address parse_protocol parse_uint build
  proxy_from_object fs = object_at fs (non_empty (find_text address_keys fs))

  -- `collect_json`: an object that is a proxy is not searched any further.
  unfoldable mutual
    unfolding proxy_from_object

    pub collect_json : Value → List (ProxyInfo F)
    collect_json other = []
    collect_json (number n) = []
    collect_json (text t) = []
    collect_json (array vs) = collect_values vs
    collect_json (object fs) =
        let nested = collect_fields fs in
        elim (proxy_from_object fs) [ none ↦ nested | some p ↦ p ∷ [] ]

    pub collect_values : Values → List (ProxyInfo F)
    collect_values nil = []
    collect_values (cons v vs) = collect_json v ++ collect_values vs

    pub collect_fields : Fields → List (ProxyInfo F)
    collect_fields end = []
    collect_fields (field k v fs) = collect_json v ++ collect_fields fs

  abbrev pub collected : Option Value → List (ProxyInfo F)
  collected none = []
  collected (some v) = collect_json v
