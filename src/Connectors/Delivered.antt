-- ===== src/Connectors/Delivered.antt =====
-- What is written to a Shadowsocks session is what the other side reads.
use mathlib.Core.List.{append_assoc}
use mathlib.Core.Option
use proxy_switcher.Common.{
  ℕ, List, ◌*◌, zero, suc, ◌+◌, ◌-◌, ◌≤◌, ◌<◌, ◌≡◌, inl, inr, refl, sym, ap, ◌∙◌, true, Option,
  none, some, [], ◌∷◌, ◌++◌, arith, ltb, ◌==◌, length, length-append, length-take, length-drop,
  take, drop, take-append-drop, drop_all, min, Bool-cases, le→ltb_false, lt→ltb,
}
use proxy_switcher.Common.Outcome.{Bytes}
use proxy_switcher.Connectors.Chunks.{
  Accept, Arrival, Writing, wrote, broke, Taken, full, over, waits, cut, breaks, gather, take_exact,
  size, Reader, PollRead, gave, ended, pending, failed, out_of_fuel, ready, filled, stopped,
  hand_out, key_read, key_behind, fill, read_loop, poll_read, write_from, poll_write, max_chunk,
  new_reader, keyed,
}
use proxy_switcher.Connectors.Opened.{IsAead, HasKey, fill_chunk, written, written_chunk}
use proxy_switcher.Connectors.Steady.{
  TakesAll, AllArrive, flat, none_arrive, take_exact-flat, in_pieces, in_pieces-AllArrive,
  flat-in_pieces,
}
use proxy_switcher.Connectors.Sealed.{Cipher, key_len, Crypto, Seal, advanced}

drop-add : (i k : ℕ) (xs : Bytes) → drop (i + k) xs ≡ drop k (drop i xs)
drop-add zero k xs = let e : zero + k ≡ k = omega arith in ap (λ j. drop j xs) e
drop-add (suc i) k [] = drop_all (suc i + k) [] (omega arith) ∙ sym (drop_all k [] (omega arith))
drop-add (suc i) k (x ∷ xs) =
    let e : suc i + k ≡ suc (i + k) = omega arith in ap (λ j. drop j (x ∷ xs)) e ∙ drop-add i k xs

both_empty : (xs ys : Bytes) → xs ++ ys ≡ [] → (xs ≡ []) × (ys ≡ [])
both_empty [] ys e = (refl, e)
both_empty (x ∷ xs) ys e = absurd (cc e)

abbrev bytes_of : Writing → Bytes
bytes_of (wrote s out answers) = out
bytes_of (broke why s out answers) = out

module _ (crypto : Crypto) where
  -- The data that is still to be read: the rest of the chunk at hand, and what the socket has of it
  -- sealed, behind the salt if that was not read.
  pub record Holds (r : Reader) (text : Bytes) : Type 0 where
    pub seal_of : Seal
    pub arrivals : List Arrival
    pub sealed : Bytes
    pub rest : Bytes
    pub fuel : ℕ
    pub answers : List Accept
    pub final : Seal
    pub left : List Accept
    pub is_ready : key_read crypto r r.read ≡ ready seal_of arrivals
    pub all_arrive : AllArrive arrivals
    pub is_sealed : flat arrivals ≡ sealed
    pub takes_all : TakesAll answers
    pub often : 35 * length rest ≤ length answers
    pub has_key : HasKey seal_of
    pub enough : length rest ≤ fuel
    pub is_written : write_from crypto fuel seal_of answers rest ≡ wrote final sealed left
    pub is_all : drop r.read_at r.plaintext ++ rest ≡ text

  -- A read gives the front of the data, and the stream holds the rest.
  abbrev pub Gives : PollRead → Bytes → Type 0
  Gives x text =
      (out : Bytes) × (r' : Reader) × (left : Bytes) × (x ≡ gave out r')
      × (0 < length out)
      × (out ++ left ≡ text)
      × Holds r' left

  -- How much of the chunk at hand was read does not matter for the seal.
  key_behind_moved :
      (r : Reader) (j : ℕ) (t : Taken) (s : Seal) (sealed : List Arrival)
      → key_behind crypto r t ≡ ready s sealed
      → key_behind crypto (record r { read_at = j }) t ≡ ready s sealed
  key_behind_moved r j (over arrivals) s sealed h = absurd (cc h)
  key_behind_moved r j (waits arrivals) s sealed h = absurd (cc h)
  key_behind_moved r j cut s sealed h = absurd (cc h)
  key_behind_moved r j breaks s sealed h = absurd (cc h)
  key_behind_moved r j (full salt incoming) s sealed h = h

  key_read_moved :
      (r : Reader) (j : ℕ) (o : Option Seal) (s : Seal) (sealed : List Arrival)
      → key_read crypto r o ≡ ready s sealed
      → key_read crypto (record r { read_at = j }) o ≡ ready s sealed
  key_read_moved r j none s sealed h = key_behind_moved r j (take_exact 16 r.incoming) s sealed h
  key_read_moved r j (some x) s sealed h = h

  hand_out-Gives :
      (n : ℕ) (r : Reader) (text : Bytes)
      → Holds r text
      → r.read_at < length r.plaintext
      → 0 < n
      → Gives (hand_out n r) text
  hand_out-Gives n r text h at_hand pos =
      let left = drop r.read_at r.plaintext in
      let k = min (length r.plaintext - r.read_at) n in
      let some_left = length-drop r.read_at r.plaintext in
      (
        take k left,
        record r { read_at = r.read_at + k },
        drop k left ++ h.rest,
        refl,
        omega (arith, length-take k left, some_left),
        sym (append_assoc (take k left) (drop k left) h.rest)
            ∙ ap (λ x. x ++ h.rest) (take-append-drop k left)
            ∙ h.is_all,
        record {
          seal_of = h.seal_of;
          arrivals = h.arrivals;
          sealed = h.sealed;
          rest = h.rest;
          fuel = h.fuel;
          answers = h.answers;
          final = h.final;
          left = h.left;
          is_ready = key_read_moved r (r.read_at + k) r.read h.seal_of h.arrivals h.is_ready;
          all_arrive = h.all_arrive;
          is_sealed = h.is_sealed;
          takes_all = h.takes_all;
          often = h.often;
          has_key = h.has_key;
          enough = h.enough;
          is_written = h.is_written;
          is_all = ap (λ x. x ++ h.rest) (drop-add r.read_at k r.plaintext);
        },
      )

  -- The next chunk, where the one at hand is read.
  next_chunk :
      (r : Reader) (b : ℕ) (bs : Bytes)
      → IsAead crypto
      → Holds r (b ∷ bs)
      → length r.plaintext ≤ r.read_at
      → (r' : Reader) × (fill crypto r (key_read crypto r r.read) ≡ filled r')
        × Holds r' (b ∷ bs)
        × (r'.read_at < length r'.plaintext)
  unfolding write_from
  next_chunk r b bs aead h used = go h.rest h.fuel all h.enough h.often h.is_written
    where
      all : h.rest ≡ b ∷ bs
      all = sym (ap (λ x. x ++ h.rest) (drop_all r.read_at r.plaintext used)) ∙ h.is_all

      go :
          (rest : Bytes) (fuel : ℕ)
          → rest ≡ b ∷ bs
          → length rest ≤ fuel
          → 35 * length rest ≤ length h.answers
          → write_from crypto fuel h.seal_of h.answers rest ≡ wrote h.final h.sealed h.left
          → (r' : Reader) × (fill crypto r (key_read crypto r r.read) ≡ filled r')
            × Holds r' (b ∷ bs)
            × (r'.read_at < length r'.plaintext)
      go [] fuel e l often w = cc
      go (c ∷ cs) zero e l often w = absurd (omega (arith, l))
      go (c ∷ cs) (suc fuel) e l often w =
          let chunk = take max_chunk (c ∷ cs) in
          let later = drop max_chunk (c ∷ cs) in
          let s = h.seal_of in
          let short = length-take max_chunk (c ∷ cs) in
          let (header, payload, answers, final, out, left, f, goes, takes_all, room, x) =
            written_chunk crypto fuel s h.answers c cs aead h.has_key h.takes_all often in
          let same : wrote final ((header ++ payload) ++ out) left ≡ wrote h.final h.sealed h.left =
            sym goes ∙ w in
          let wire : flat h.arrivals ≡ (header ++ payload) ++ out =
            h.is_sealed ∙ sym (ap bytes_of same) in
          let (behind, read, all_arrive, is_sealed) =
            fill_chunk crypto r s chunk header payload out h.arrivals f (omega (arith, short))
              (omega (arith, short)) h.all_arrive wire in
          (
            record r {
              read = some (advanced (advanced s));
              plaintext = chunk;
              read_at = 0;
              incoming = behind;
            },
            ap (fill crypto r) h.is_ready ∙ read,
            record {
              seal_of = advanced (advanced s);
              arrivals = behind;
              sealed = out;
              rest = later;
              fuel = fuel;
              answers = answers;
              final = final;
              left = left;
              is_ready = refl;
              all_arrive = all_arrive;
              is_sealed = is_sealed;
              takes_all = takes_all;
              often = room;
              has_key = h.has_key;
              enough = omega (arith, l, length-drop max_chunk (c ∷ cs));
              is_written = x;
              is_all = take-append-drop max_chunk (c ∷ cs) ∙ e;
            },
            omega (arith, short),
          )

  -- A read of a stream that holds bytes gives some of them, in their order.
  read_loop-Gives :
      (fuel n : ℕ) (r : Reader) (b : ℕ) (bs : Bytes)
      → IsAead crypto
      → Holds r (b ∷ bs)
      → 0 < n
      → Gives (read_loop crypto (suc (suc fuel)) n r) (b ∷ bs)
  unfolding read_loop
  read_loop-Gives fuel n r b bs aead h pos =
      elim (Bool-cases (ltb r.read_at (length r.plaintext))) [
        | inl e ↦ rw (e, read_loop) (hand_out-Gives n r (b ∷ bs) h (ground (arith, e)) pos)
        | inr e ↦
            let (r', f, h', at_hand) = next_chunk r b bs aead h (ground (arith, e)) in
            rw (e, f, lt→ltb r'.read_at (length r'.plaintext) at_hand, read_loop)
              (hand_out-Gives n r' (b ∷ bs) h' at_hand pos)
      ]

  nothing_written :
      (fuel : ℕ) (s : Seal) (answers : List Accept)
      → write_from crypto fuel s answers [] ≡ wrote s [] answers
  unfolding write_from
  nothing_written zero s answers = refl
  nothing_written (suc fuel) s answers = refl

  -- A read of a stream that holds nothing is its end.
  read_loop-ends :
      (fuel n : ℕ) (r : Reader)
      → Holds r []
      → (r' : Reader) × (read_loop crypto (suc fuel) n r ≡ ended r')
  unfolding read_loop gather
  read_loop-ends fuel n r h =
      let left = drop r.read_at r.plaintext in
      let (none_left, none_rest) = both_empty left h.rest h.is_all in
      let used : length r.plaintext ≤ r.read_at =
        omega (arith, length-drop r.read_at r.plaintext, ap length none_left) in
      let nothing : h.sealed ≡ [] = ap bytes_of (
        sym h.is_written
        ∙ ap (write_from crypto h.fuel h.seal_of h.answers) none_rest
        ∙ nothing_written h.fuel h.seal_of h.answers) in
      let silent : h.arrivals ≡ [] = none_arrive h.arrivals h.all_arrive (h.is_sealed ∙ nothing) in
      let over_now : fill crypto r (key_read crypto r r.read)
          ≡ stopped (ended (keyed r h.seal_of [])) =
        ap (fill crypto r) (h.is_ready ∙ ap (ready h.seal_of) silent) in
      (
        keyed r h.seal_of [],
        rw (le→ltb_false r.read_at (length r.plaintext) used, over_now, read_loop) refl,
      )

  -- What a task gets that reads so many bytes at a time until the end.
  unfoldable pub read_to_end : ℕ → ℕ → Reader → Option Bytes
  unfolding poll_read
  read_to_end zero n r = none
  read_to_end (suc fuel) n r = elim (poll_read crypto n r) [
    | gave out r' ↦ Option.map (λ rest. out ++ rest) (read_to_end fuel n r')
    | ended r' ↦ some []
    | pending r' ↦ none
    | failed e ↦ none
    | out_of_fuel ↦ none
  ]

  read_all :
      (fuel n : ℕ) (r : Reader) (text : Bytes)
      → IsAead crypto
      → Holds r text
      → 0 < n
      → length text < fuel
      → read_to_end fuel n r ≡ some text
  unfolding read_to_end poll_read
  read_all zero n r text aead h pos l = absurd (omega (arith, l))
  read_all (suc fuel) n r [] aead h pos l =
      let two : 2 + size r.incoming ≡ suc (suc (size r.incoming)) = omega arith in
      let (r', e) = read_loop-ends (suc (size r.incoming)) n r h in
      let polled : poll_read crypto n r ≡ ended r' = ap (λ k. read_loop crypto k n r) two ∙ e in
      rw (polled, read_to_end) refl
  read_all (suc fuel) n r (b ∷ bs) aead h pos l =
      let (out, r', left, e, some_out, all, h') =
        read_loop-Gives (size r.incoming) n r b bs aead h pos in
      let two : 2 + size r.incoming ≡ suc (suc (size r.incoming)) = omega arith in
      let sizes : length out + length left ≡ length (b ∷ bs) =
        sym (length-append out left) ∙ ap length all in
      let polled : poll_read crypto n r ≡ gave out r' = ap (λ k. read_loop crypto k n r) two ∙ e in
      rw
        (
          polled,
          read_all fuel n r' left aead h' pos (omega (arith, sizes, some_out, l)),
          read_to_end,
        )
        (ap some all)

  -- What one side writes to a session, at any length, to a socket that takes a byte at least at each
  -- poll and is polled often enough, is written whole and sealed. The other side, which has the same
  -- master key and whose socket is never pending and does not break, reads behind the salt exactly
  -- what was written, in whatever pieces the bytes arrive and in reads of any size, up to the end of
  -- the stream. This holds for a cipher that opens what it sealed and an expansion that gives a key of
  -- the cipher's length.
  pub read_to_end-poll_write :
      (n : ℕ) (cipher : Cipher) (master salt key text : Bytes) (answers : List Accept)
      (pieces : List ℕ)
      → IsAead crypto
      → length salt ≡ 16
      → crypto.expand salt master (key_len cipher) ≡ some key
      → length key ≡ key_len cipher
      → 0 < n
      → TakesAll answers
      → 35 * length text ≤ length answers
      → (final : Seal) × (out : Bytes) × (left : List Accept) × (poll_write crypto
            (record { cipher = cipher; key = key; counter = 0 })
            answers
            text
          ≡ wrote final out left)
        × (read_to_end
              (suc (length text))
              n
              (new_reader crypto master cipher (in_pieces pieces (salt ++ out)))
            ≡ some text)
  unfolding poll_write
  read_to_end-poll_write n cipher master salt key text answers pieces aead salted expanded k pos
        takes_all often =
      let s : Seal = record { cipher = cipher; key = key; counter = 0 } in
      let (final, out, left, e) =
        written crypto (length text) s answers text aead k takes_all often in
      let arrivals = in_pieces pieces (salt ++ out) in
      let r = new_reader crypto master cipher arrivals in
      let same_len : (length key == key_len cipher) ≡ true = ground (arith, k) in
      let (behind, salt_read, all_arrive, is_sealed) =
        take_exact-flat 16 salt out arrivals salted (in_pieces-AllArrive pieces (salt ++ out))
          (flat-in_pieces pieces (salt ++ out)) in
      let at_start : key_read crypto r none ≡ ready s behind =
        rw (salt_read, expanded, same_len) refl in
      (
        final,
        out,
        left,
        e,
        read_all (suc (length text)) n r text aead
            (record {
              seal_of = s;
              arrivals = behind;
              sealed = out;
              rest = text;
              fuel = length text;
              answers = answers;
              final = final;
              left = left;
              is_ready = at_start;
              all_arrive = all_arrive;
              is_sealed = is_sealed;
              takes_all = takes_all;
              often = often;
              has_key = k;
              enough = omega arith;
              is_written = e;
              is_all = refl;
            })
            pos (omega arith),
      )
