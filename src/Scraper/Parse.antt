-- ===== src/Scraper/Parse.antt =====
-- `parse_html`, `detect` and `parse` of crates/proxy-core/src/scraper/parse.rs.
use proxy_switcher.Common.{
  ℕ, Bool, true, false, not, ◌&&◌, ◌||◌, Option, none, some, List, [], ◌∷◌, map, if◌then◌else◌, leb,
  ◌==◌, length, any, is_empty, select,
}
use proxy_switcher.Common.Text.{
  Text, codes, trim, trim_start_by, split, parse_uint, is_whitespace, words, lines, starts_with,
  has_text, lowercase,
}
use proxy_switcher.Common.Utf8.{as_bytes}
use proxy_switcher.Pool.Types.{
  Floats, ProxyInfo, ProxyProtocol, Anonymity, transparent, anonymous, elite, unknown, is_some,
}
use proxy_switcher.Routing.Cidr.{parse_ip_addr}
use proxy_switcher.Scraper.Build.{build, parse_protocol, is_letter, keep_some}
use proxy_switcher.Scraper.Links.{parse_links}
use proxy_switcher.Scraper.Tables.{Value, parse_plain_text, parse_csv, collect_json, collected}

pub data Format : Type 0 where
  html plain_text csv json links : Format

-- A line of a list of links.
abbrev pub is_link : Text → Bool
is_link l =
    let t = trim_start_by is_whitespace l in
    has_text (codes "://") l && starts_with (codes "trojan") t
    || starts_with (codes "ss://") t
    || starts_with (codes "socks5://") t
    || starts_with (codes "socks4://") t

abbrev pub is_blank : Text → Bool
is_blank l = is_empty (trim l)

abbrev pub has_comma : List Text → Bool
has_comma [] = false
has_comma (l ∷ ls) = any (λ c. c == b',') l && leb 2 (length (split b',' l))

abbrev pub starts_json : Text → Bool
starts_json t = starts_with (codes "{") t || starts_with (codes "[") t

abbrev pub has_table : Text → Bool
has_table lower =
    has_text (codes "<table") lower
    || has_text (codes "<html") lower
    || has_text (codes "<tbody") lower

-- `detect`
unfoldable pub detect : Text → Format
unfolding trim trim_start_by is_whitespace lines has_text starts_with lowercase split
detect body =
    let written = select (λ l. not (is_blank l)) (lines body) in
    if starts_json (trim_start_by is_whitespace body)
    then json
    else if not (is_empty written) && not (any (λ l. not (is_link l)) written)
    then links
    else if has_table (lowercase body)
    then html
    else if has_comma written
    then csv
    else plain_text

-- What the cells of a row have told so far.
pub record Row : Type 0 where
  pub address : Option Text
  pub port : Option ℕ
  pub protocol : ProxyProtocol
  pub country : Option Text
  pub anonymity : Anonymity

abbrev pub is_port : Option ℕ → Option ℕ → Bool
is_port (some n) none = leb 1 n
is_port _ _ = false

abbrev pub is_upper_first : Text → Bool
is_upper_first [] = false
is_upper_first (c ∷ s) = leb b'A' c && leb c b'Z'

-- `looks_like_country`
unfoldable pub looks_like_country : Text → Bool
unfolding trim as_bytes
looks_like_country cell =
    let cell = trim cell in
    not (is_empty cell)
    && leb (length (as_bytes cell)) 32
    && not (any (λ c. not (is_letter c || c == 32)) cell)
    && is_upper_first cell

abbrev pub is_name_char : ℕ → Bool
is_name_char c = is_letter c || leb b'0' c && leb c b'9' || c == b'.' || c == b'-' || c == b'_'

module _ (parse_ipv6 : Text → Option ℕ) where
  -- `looks_like_address`
  unfoldable pub looks_like_address : Text → Bool
  unfolding trim parse_ip_addr as_bytes
  looks_like_address cell =
      let cell = trim cell in
      if is_empty cell || any (λ c. c == 32) cell
      then false
      else if is_some (parse_ip_addr parse_ipv6 cell)
      then true
      else leb (length (as_bytes cell)) 253
        && not (any (λ c. not (is_name_char c)) cell)
        && any (λ c. c == b'.') cell

  -- The words of a cell that is no port, protocol or address.
  abbrev pub read_words : Text → Row → Row
  read_words cell row =
      let lower = lowercase cell in
      if has_text (codes "transparent") lower
      then record row { anonymity = transparent }
      else if has_text (codes "anonymous") lower
      then record row { anonymity = anonymous }
      else if has_text (codes "elite") lower
      then record row { anonymity = elite }
      else if not (is_some row.country) && looks_like_country cell
      then record row { country = some cell }
      else row

  abbrev pub read_address : Text → Row → Row
  read_address cell row =
      if not (is_some row.address) && looks_like_address cell
      then record row { address = some cell }
      else read_words cell row

  abbrev pub read_protocol : Text → Option ProxyProtocol → Row → Row
  read_protocol cell none row = read_address cell row
  read_protocol cell (some p) row =
      if length (words cell) == 1 then record row { protocol = p } else read_address cell row

  unfoldable pub read_cell : Text → Row → Row
  unfolding parse_uint words parse_protocol has_text lowercase looks_like_country looks_like_address
  read_cell cell row =
      if is_port (parse_uint 65535 cell) row.port
      then record row { port = parse_uint 65535 cell }
      else read_protocol cell (parse_protocol cell) row

  unfoldable pub read_row : List Text → Row → Row
  unfolding read_cell
  read_row [] row = row
  read_row (cell ∷ cells) row = read_row cells (read_cell cell row)

  module _ (fl : Floats) (now : ℕ) (hint : ProxyProtocol) where
    open fl use {F}

    abbrev pub with_anonymity : Anonymity → Option (ProxyInfo F) → Option (ProxyInfo F)
    with_anonymity a none = none
    with_anonymity a (some p) = some (record p { anonymity = a })

    abbrev pub proxy_at : Row → Option Text → Option ℕ → Option (ProxyInfo F)
    proxy_at row (some address) (some port) =
        with_anonymity row.anonymity (build fl now address port row.protocol row.country)
    proxy_at row _ _ = none

    abbrev pub proxy_of_row : Row → Option (ProxyInfo F)
    proxy_of_row row = proxy_at row row.address row.port

    -- `parse_html` over the rows of the document, each with the texts of its cells.
    unfoldable pub html_rows : List (List Text) → List (ProxyInfo F)
    unfolding trim read_row build
    html_rows [] = []
    html_rows (cells ∷ rows) =
        let proxies = html_rows rows in
        if is_empty cells
        then proxies
        else keep_some
            (proxy_of_row (
              read_row (map trim cells) (record {
                address = none;
                port = none;
                protocol = hint;
                country = none;
                anonymity = unknown;
              })))
            proxies

    -- The readers of the libraries: a JSON document, if it is one, and the rows of a page.
    pub record Readers : Type 0 where
      pub from_str : Text → Option Value
      pub rows : Text → List (List Text)

    abbrev pub parse_as : Readers → Format → Text → List (ProxyInfo F)
    parse_as readers links body = parse_links fl now body
    parse_as readers json body = collected fl now hint (readers.from_str body)
    parse_as readers csv body = parse_csv fl now hint body
    parse_as readers plain_text body = parse_plain_text fl now hint body
    parse_as readers html body = html_rows (readers.rows body)

    -- `parse`
    unfoldable pub parse_list : Readers → Text → List (ProxyInfo F)
    unfolding detect parse_links collect_json parse_csv parse_plain_text html_rows
    parse_list readers body = parse_as readers (detect body) body
