-- ===== src/Connectors/Opened.antt =====
-- A chunk of a Shadowsocks session, sealed by proxy/connector/shadowsocks.rs and opened again.
use mathlib.Core.List.{append_assoc}
use proxy_switcher.Common.{
  ℕ, zero, suc, ◌+◌, ◌*◌, ◌/◌, ◌%◌, ◌≤◌, ◌<◌, ◌≡◌, refl, ap, ◌∙◌, false, some, List, [], ◌∷◌, ◌++◌,
  arith, ◌==◌, length, length-append, length-take, length-drop, take, drop, le→ltb_false,
}
use proxy_switcher.Common.Outcome.{Bytes}
use proxy_switcher.Connectors.Chunks.{
  Accept, Arrival, Writing, wrote, behind_chunk, chunk_sent, send, sent_all, Reader, ready, filled,
  fill, write_from, max_chunk,
}
use proxy_switcher.Connectors.Steady.{TakesAll, AllArrive, flat, send_whole, take_exact-flat}
use proxy_switcher.Connectors.Sealed.{
  Cipher, key_len, Crypto, Seal, nonce, advanced, seal, open_sealed,
}
use proxy_switcher.Packet.Checksum.{be16}

-- What the code relies on of a cipher: with a key of its length it seals any message of a chunk's
-- size, adds a tag of 16 bytes, and opens what it sealed under the same nonce.
pub record IsAead (crypto : Crypto) : Type 0 where
  pub seals :
      (cipher : Cipher) (key nonce message : Bytes)
      → length key ≡ key_len cipher
      → length message ≤ 0x3fff
      → (sealed : Bytes) × (crypto.encrypt cipher key nonce message ≡ some sealed)
        × (length sealed ≡ length message + 16)
        × (crypto.decrypt cipher key nonce sealed ≡ some message)

abbrev pub HasKey : Seal → Type 0
HasKey s = length s.key ≡ key_len s.cipher

module _ (crypto : Crypto) where
  -- What the two sealings of a chunk give, and what is opened of them.
  pub record Framed (s : Seal) (chunk header payload : Bytes) : Type 0 where
    pub header_sealed : (seal crypto s (be16 (length chunk))).0 ≡ some header
    pub payload_sealed : (seal crypto (advanced s) chunk).0 ≡ some payload
    pub header_length : length header ≡ 18
    pub payload_length : length payload ≡ length chunk + 16
    pub header_opened : (open_sealed crypto s header).0 ≡ some (be16 (length chunk))
    pub payload_opened : (open_sealed crypto (advanced s) payload).0 ≡ some chunk

  pub framed :
      (s : Seal) (chunk : Bytes)
      → IsAead crypto
      → HasKey s
      → length chunk ≤ 0x3fff
      → (header payload : Bytes) × Framed s chunk header payload
  unfolding seal open_sealed
  framed s chunk aead k short =
      let (header, he, hl, ho) =
        aead.seals s.cipher s.key (nonce s.counter) (be16 (length chunk)) k (omega arith) in
      let (payload, pe, pl, po) =
        aead.seals s.cipher s.key (nonce (advanced s).counter) chunk k short in
      (
        header,
        payload,
        record {
          header_sealed = he;
          payload_sealed = pe;
          header_length = hl;
          payload_length = pl;
          header_opened = ho;
          payload_opened = po;
        },
      )

  -- A chunk that is sealed and arrives is read into the place of the last one.
  pub fill_chunk :
      (r : Reader) (s : Seal) (chunk header payload out : Bytes) (arrivals : List Arrival)
      → Framed s chunk header payload
      → 0 < length chunk
      → length chunk ≤ 0x3fff
      → AllArrive arrivals
      → flat arrivals ≡ (header ++ payload) ++ out
      → (rest : List Arrival) × (fill crypto r (ready s arrivals)
          ≡ filled (record r {
            read = some (advanced (advanced s));
            plaintext = chunk;
            read_at = 0;
            incoming = rest;
          }))
        × AllArrive rest
        × (flat rest ≡ out)
  unfolding open_sealed
  fill_chunk r s chunk header payload out arrivals f pos short all same =
      let m = length chunk in
      let value : m / 256 * 256 + m % 256 ≡ m = omega arith in
      let some_bytes : (m == 0) ≡ false = ground (arith, pos) in
      let (behind, h, all', same') =
        take_exact-flat 18 header (payload ++ out) arrivals f.header_length all
          (same ∙ append_assoc header payload out) in
      let (rest, p, all'', left) =
        take_exact-flat (m + 16) payload out behind f.payload_length all' same' in
      (
        rest,
        rw (h, f.header_opened, value, some_bytes, le→ltb_false 0x3fff m short, p, f.payload_opened)
            refl,
        all'',
        left,
      )

  round :
      (framed_chunk : Bytes) (s : Seal) (answers rest : List Accept) (later : List Accept → Writing)
      (final : Seal) (out : Bytes) (left : List Accept)
      → send answers framed_chunk ≡ sent_all framed_chunk rest
      → later rest ≡ wrote final out left
      → chunk_sent crypto s later (send answers framed_chunk)
        ≡ wrote final (framed_chunk ++ out) left
  round framed_chunk s answers rest later final out left whole e =
      ap (chunk_sent crypto s later) whole ∙ ap (behind_chunk framed_chunk) e

  -- The first round of a write: its chunk goes out framed, in front of what the others write.
  abbrev pub Rounds : ℕ → Seal → List Accept → ℕ → Bytes → Type 0
  Rounds fuel s answers b bs =
      (header : Bytes) × (payload : Bytes) × (rest : List Accept) × (final : Seal) × (out : Bytes)
      × (left : List Accept) × Framed s (take max_chunk (b ∷ bs)) header payload
      × (write_from crypto (suc fuel) s answers (b ∷ bs)
          ≡ wrote final ((header ++ payload) ++ out) left)
      × TakesAll rest
      × (35 * length (drop max_chunk (b ∷ bs)) ≤ length rest)
      × (write_from crypto fuel (advanced (advanced s)) rest (drop max_chunk (b ∷ bs))
          ≡ wrote final out left)

  -- What is written to a socket that takes bytes and answers often enough.
  abbrev Written : ℕ → Seal → List Accept → Bytes → Type 0
  Written fuel s answers buf =
      (final : Seal) × (out : Bytes) × (left : List Accept) × (write_from crypto fuel s answers buf
        ≡ wrote final out left)

  chunk_goes :
      (fuel : ℕ) (s : Seal) (answers : List Accept) (b : ℕ) (bs : Bytes)
      → IsAead crypto
      → HasKey s
      → TakesAll answers
      → 35 * length (b ∷ bs) ≤ length answers
      → ((rest : List Accept)
          → TakesAll rest
          → 35 * length (drop max_chunk (b ∷ bs)) ≤ length rest
          → Written fuel (advanced (advanced s)) rest (drop max_chunk (b ∷ bs)))
      → Rounds fuel s answers b bs
  unfolding write_from
  chunk_goes fuel s answers b bs aead k t l goes =
      let chunk = take max_chunk (b ∷ bs) in
      let short = length-take max_chunk (b ∷ bs) in
      let (header, payload, f) = framed s chunk aead k (omega (arith, short)) in
      let long = length-append header payload in
      let size = length-drop max_chunk (b ∷ bs) in
      let later : List Accept → Writing = λ answers'.
        write_from crypto fuel (advanced (advanced s)) answers' (drop max_chunk (b ∷ bs)) in
      let (rest, whole, t', l') =
        send_whole answers (header ++ payload) t
          (omega (arith, l, long, short, f.header_length, f.payload_length)) in
      let room : 35 * length (drop max_chunk (b ∷ bs)) ≤ length rest =
        omega (arith, l, l', long, short, size, f.header_length, f.payload_length) in
      let (final, out, left, e) = goes rest t' room in
      (
        header,
        payload,
        rest,
        final,
        out,
        left,
        f,
        rw (f.header_sealed, f.payload_sealed)
            (round (header ++ payload) (advanced (advanced s)) answers rest later final out left
              whole e),
        t',
        room,
        e,
      )

  -- Every write to a socket that takes bytes succeeds, where it answers often enough: each byte goes
  -- out with at most 34 more.
  pub written :
      (fuel : ℕ) (s : Seal) (answers : List Accept) (buf : Bytes)
      → IsAead crypto
      → HasKey s
      → TakesAll answers
      → 35 * length buf ≤ length answers
      → (final : Seal) × (out : Bytes) × (left : List Accept) × (write_from crypto fuel s answers
            buf
          ≡ wrote final out left)
  unfolding write_from
  written zero s answers buf aead k t l = (s, [], answers, refl)
  written (suc fuel) s answers [] aead k t l = (s, [], answers, refl)
  written (suc fuel) s answers (b ∷ bs) aead k t l =
      let (header, payload, rest, final, out, left, f, e, t', room, more) =
        chunk_goes fuel s answers b bs aead k t l (λ rest t' l'.
          written fuel (advanced (advanced s)) rest (drop max_chunk (b ∷ bs)) aead k t' l') in
      (final, (header ++ payload) ++ out, left, e)

  pub written_chunk :
      (fuel : ℕ) (s : Seal) (answers : List Accept) (b : ℕ) (bs : Bytes)
      → IsAead crypto
      → HasKey s
      → TakesAll answers
      → 35 * length (b ∷ bs) ≤ length answers
      → Rounds fuel s answers b bs
  written_chunk fuel s answers b bs aead k t l =
      chunk_goes fuel s answers b bs aead k t l (λ rest t' l'.
        written fuel (advanced (advanced s)) rest (drop max_chunk (b ∷ bs)) aead k t' l')
