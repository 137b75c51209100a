-- ===== src/Connectors/Chunks.antt =====
-- `ShadowsocksStream` of crates/proxy-core/src/proxy/connector/shadowsocks.rs, over a socket
-- whose answers to the polls are given in their order. After an error the stream is not used.
use proxy_switcher.Common.{
  ℕ, zero, suc, ◌+◌, ◌-◌, ◌*◌, true, false, not, Option, none, some, List, [], ◌∷◌, ◌++◌,
  if◌then◌else◌, ltb, ◌==◌, length, take, drop, is_empty, min,
}
use proxy_switcher.Common.Outcome.{Bytes}
use proxy_switcher.Connectors.Base.{byte}
use proxy_switcher.Connectors.Sealed.{
  Cipher, key_len, Crypto, Seal, new_seal, seal, open_sealed, session_key,
}
use proxy_switcher.Packet.Checksum.{be16}

-- `MAX_CHUNK`, `SALT_LEN` and `TAG`
abbrev pub max_chunk : ℕ
max_chunk = 0x3fff

abbrev pub salt_len : ℕ
salt_len = 16

abbrev pub tag : ℕ
tag = 16

-- What the socket answers to a write: it takes as many bytes, or all where there are fewer, or it is
-- pending, or it breaks.
pub data Accept : Type 0 where
  takes : ℕ → Accept
  takes_later takes_no_more : Accept

-- Why a write does not end: a chunk cannot be sealed, the socket takes no byte, breaks, or is pending.
pub data WriteStop : Type 0 where
  not_sealed write_zero write_failed write_pending : WriteStop

-- What the loop over one framed chunk puts out, with the answers behind it.
pub data Sending : Type 0 where
  sent_all : Bytes → List Accept → Sending
  sent_part : WriteStop → Bytes → List Accept → Sending

abbrev pub behind_bytes : Bytes → Sending → Sending
behind_bytes bytes (sent_all out answers) = sent_all (bytes ++ out) answers
behind_bytes bytes (sent_part why out answers) = sent_part why (bytes ++ out) answers

-- The loop that writes a framed chunk; without a further answer the socket is pending.
unfoldable pub send : List Accept → Bytes → Sending
send [] [] = sent_all [] []
send [] (b ∷ bs) = sent_part write_pending [] []
send (a ∷ answers) [] = sent_all [] (a ∷ answers)
send (takes n ∷ answers) (b ∷ bs) =
    let later = send answers (drop n (b ∷ bs)) in
    if n == 0 then sent_part write_zero [] answers else behind_bytes (take n (b ∷ bs)) later
send (takes_later ∷ answers) (b ∷ bs) = sent_part write_pending [] answers
send (takes_no_more ∷ answers) (b ∷ bs) = sent_part write_failed [] answers

-- What a write leaves: the seal, what went out, and the answers behind it, and why it did not end.
pub data Writing : Type 0 where
  wrote : Seal → Bytes → List Accept → Writing
  broke : WriteStop → Seal → Bytes → List Accept → Writing

-- A chunk in front of what is written behind it.
abbrev pub behind_chunk : Bytes → Writing → Writing
behind_chunk framed (wrote s out answers) = wrote s (framed ++ out) answers
behind_chunk framed (broke why s out answers) = broke why s (framed ++ out) answers

-- What the socket answers to a read: bytes that have arrived, of which none is the end of the stream,
-- or it is pending, or it breaks. Behind the last answer is the end of the stream.
pub data Arrival : Type 0 where
  arrives : Bytes → Arrival
  arrives_later arrives_no_more : Arrival

-- How `poll_read_exact` comes out: full, at the end of the stream, in the middle of a piece, pending,
-- which forgets what was read, or broken.
pub data Taken : Type 0 where
  full : Bytes → List Arrival → Taken
  over waits : List Arrival → Taken
  cut breaks : Taken

abbrev pub at_end : Bytes → List Arrival → Taken
at_end [] arrivals = over arrivals
at_end (b ∷ bs) arrivals = cut

-- The loop of `poll_read_exact`, with what it has read; of a longer piece the rest stays.
unfoldable pub gather : List Arrival → ℕ → Bytes → Taken
gather [] zero got = full got []
gather [] (suc n) got = at_end got []
gather (a ∷ arrivals) zero got = full got (a ∷ arrivals)
gather (arrives piece ∷ arrivals) (suc n) got =
    let later = gather arrivals (suc n - length piece) (got ++ piece) in
    if is_empty piece
    then at_end got arrivals
    else if ltb (suc n) (length piece)
    then full (got ++ take (suc n) piece) (arrives (drop (suc n) piece) ∷ arrivals)
    else later
gather (arrives_later ∷ arrivals) (suc n) got = waits arrivals
gather (arrives_no_more ∷ arrivals) (suc n) got = breaks

-- `poll_read_exact`
abbrev pub take_exact : ℕ → List Arrival → Taken
take_exact n arrivals = gather arrivals n []

-- How many bytes arrive.
abbrev pub size : List Arrival → ℕ
size [] = 0
size (arrives piece ∷ arrivals) = length piece + size arrivals
size (arrives_later ∷ arrivals) = size arrivals
size (arrives_no_more ∷ arrivals) = size arrivals

-- The side of the stream that reads, with what the socket still has.
pub record Reader : Type 0 where
  pub master : Bytes
  pub cipher : Cipher
  pub read : Option Seal
  pub plaintext : Bytes
  pub read_at : ℕ
  pub incoming : List Arrival

pub data ReadError : Type 0 where
  unexpected_eof no_key not_opened not_a_length too_long socket_broke : ReadError

pub data PollRead : Type 0 where
  gave : Bytes → Reader → PollRead
  ended pending : Reader → PollRead
  failed : ReadError → PollRead
  out_of_fuel : PollRead

-- The seal of the answers and what stands behind the salt, or why there is none.
pub data KeyRead : Type 0 where
  ready : Seal → List Arrival → KeyRead
  unready : PollRead → KeyRead

-- The next chunk, in the place of the one that was read.
pub data Filled : Type 0 where
  filled : Reader → Filled
  stopped : PollRead → Filled

-- What is left of the last chunk, as far as it fits.
abbrev pub hand_out : ℕ → Reader → PollRead
hand_out n r =
    let k = min (length r.plaintext - r.read_at) n in
    gave (take k (drop r.read_at r.plaintext)) (record r { read_at = r.read_at + k })

-- A reader that has read the salt.
abbrev pub keyed : Reader → Seal → List Arrival → Reader
keyed r s incoming = record r { read = some s; incoming = incoming }

module _ (crypto : Crypto) where
  abbrev pub chunk_sent : Seal → (List Accept → Writing) → Sending → Writing
  chunk_sent s later (sent_all out answers) = behind_chunk out (later answers)
  chunk_sent s later (sent_part why out answers) = broke why s out answers

  abbrev pub sealed_payload :
      Bytes → Option Bytes × Seal → List Accept → (List Accept → Writing) → Writing
  sealed_payload header (none, s) answers later = broke not_sealed s [] answers
  sealed_payload header (some payload, s) answers later =
      chunk_sent s later (send answers (header ++ payload))

  -- The loop of `poll_write`: the length of a chunk, sealed, and the chunk, sealed.
  unfoldable pub write_from : ℕ → Seal → List Accept → Bytes → Writing
  unfolding seal send
  write_from zero s answers buf = wrote s [] answers
  write_from (suc fuel) s answers [] = wrote s [] answers
  write_from (suc fuel) s answers (b ∷ bs) =
      let chunk = take max_chunk (b ∷ bs) in
      let header = seal crypto s (be16 (length chunk)) in
      let payload = seal crypto header.1 chunk in
      let later =
        λ (answers' : List Accept). write_from fuel payload.1 answers' (drop max_chunk (b ∷ bs)) in
      elim (header.0) [
        | none ↦ broke not_sealed header.1 [] answers
        | some h ↦ sealed_payload h payload answers later
      ]

  -- `poll_write`; every round of the loop writes a byte at least. A write that stopped starts over
  -- with all its data when it is polled again.
  unfoldable pub poll_write : Seal → List Accept → Bytes → Writing
  unfolding write_from
  poll_write s answers buf = write_from (length buf) s answers buf

  abbrev pub sealed_with : Option Seal → List Arrival → KeyRead
  sealed_with none incoming = unready (failed no_key)
  sealed_with (some s) incoming = ready s incoming

  abbrev pub key_of : Cipher → Option Bytes → List Arrival → KeyRead
  key_of cipher none incoming = unready (failed no_key)
  key_of cipher (some key) incoming = sealed_with (new_seal cipher key) incoming

  abbrev pub key_behind : Reader → Taken → KeyRead
  key_behind r (over arrivals) = unready (ended (record r { incoming = arrivals }))
  key_behind r (waits arrivals) = unready (pending (record r { incoming = arrivals }))
  key_behind r cut = unready (failed unexpected_eof)
  key_behind r breaks = unready (failed socket_broke)
  key_behind r (full salt incoming) =
      key_of r.cipher (session_key crypto r.master salt (key_len r.cipher)) incoming

  -- The salt of the other side is read once.
  abbrev pub key_read : Reader → Option Seal → KeyRead
  key_read r none = key_behind r (take_exact salt_len r.incoming)
  key_read r (some s) = ready s r.incoming

  abbrev pub opened_payload : Reader → List Arrival → Option Bytes × Seal → Filled
  opened_payload r rest (none, s) = stopped (failed not_opened)
  opened_payload r rest (some opened, s) =
      filled (record r { read = some s; plaintext = opened; read_at = 0; incoming = rest })

  abbrev pub payload_taken : Reader → Seal → Taken → Filled
  payload_taken r s (over arrivals) = stopped (failed unexpected_eof)
  payload_taken r s (waits arrivals) = stopped (pending (keyed r s arrivals))
  payload_taken r s cut = stopped (failed unexpected_eof)
  payload_taken r s breaks = stopped (failed socket_broke)
  payload_taken r s (full sealed rest) = opened_payload r rest (open_sealed crypto s sealed)

  abbrev pub opened_header : Reader → List Arrival → Option Bytes × Seal → Filled
  opened_header r rest (none, s) = stopped (failed not_opened)
  opened_header r rest (some header, s) =
      let n = byte header 0 * 256 + byte header 1 in
      if not (length header == 2)
      then stopped (failed not_a_length)
      else if n == 0
      then stopped (ended (keyed r s rest))
      else if ltb max_chunk n
      then stopped (failed too_long)
      else payload_taken r s (take_exact (n + tag) rest)

  abbrev pub header_taken : Reader → Seal → Taken → Filled
  header_taken r s (over arrivals) = stopped (ended (keyed r s arrivals))
  header_taken r s (waits arrivals) = stopped (pending (keyed r s arrivals))
  header_taken r s cut = stopped (failed unexpected_eof)
  header_taken r s breaks = stopped (failed socket_broke)
  header_taken r s (full sealed rest) = opened_header r rest (open_sealed crypto s sealed)

  abbrev pub fill : Reader → KeyRead → Filled
  fill r (unready x) = stopped x
  fill r (ready s incoming) = header_taken r s (take_exact (2 + tag) incoming)

  -- The loop of `poll_read`, into a buffer of so many bytes.
  unfoldable pub read_loop : ℕ → ℕ → Reader → PollRead
  unfolding open_sealed gather
  read_loop zero n r = out_of_fuel
  read_loop (suc fuel) n r = elim (ltb r.read_at (length r.plaintext)) [
    | true ↦ hand_out n r
    | false ↦ elim (fill r (key_read r r.read)) [ filled r' ↦ read_loop fuel n r' | stopped x ↦ x ]
  ]

  -- `poll_read`; a round of the loop takes a chunk of the socket's bytes, or ends the loop.
  unfoldable pub poll_read : ℕ → Reader → PollRead
  unfolding read_loop
  poll_read n r = read_loop (2 + size r.incoming) n r

  -- A stream that has read nothing.
  abbrev pub new_reader : Bytes → Cipher → List Arrival → Reader
  new_reader master cipher incoming = record {
    master = master;
    cipher = cipher;
    read = none;
    plaintext = [];
    read_at = 0;
    incoming = incoming;
  }
