-- ===== src/Router/Stream.antt =====
-- The segments that carry what the server sends: pump_responses of crates/proxy-core/src/router/mod.rs.
use proxy_switcher.Common.{
  ℕ, ◌+◌, ◌≤◌, ◌<◌, ◌%◌, ◌^◌, ◌≡◌, refl, ap, ◌∙◌, some, List, [], ◌∷◌, ◌++◌, map, arith, length,
}
use proxy_switcher.Common.Outcome.{Bytes}
use proxy_switcher.Packet.Build.{build_tcp_packet}
use proxy_switcher.Router.Flows.{bytes, pump_bytes, pump_one, pump_each}
use proxy_switcher.Router.Repeats.{tracked-track}
use proxy_switcher.Router.State.{FlowKey, TcpState, tracked, Router}

-- Each chunk has a byte at least, and fits into one packet behind its two headers.
abbrev pub AllFit : List Bytes → Type 0
AllFit [] = Unit {0}
AllFit ([] ∷ chunks) = ⊥
AllFit ((b ∷ bs) ∷ chunks) = (length (b ∷ bs) ≤ 65495) × AllFit chunks

abbrev pub total : List Bytes → ℕ
total [] = 0
total (chunk ∷ chunks) = length chunk + total chunks

-- The segments of a stream that begins at a number: each begins where the one before it ended.
abbrev pub segments : FlowKey → ℕ → ℕ → List Bytes → List Bytes
segments key ack seq [] = []
segments key ack seq (chunk ∷ chunks) =
    build_tcp_packet key.dst_ip key.src_ip key.dst_port key.src_port seq ack 0x18 chunk
    ∷ segments key ack ((seq + length chunk) % 2 ^ 32) chunks

module _ {F : Type 0} where
  pump_one-bytes :
      (key : FlowKey) (s : TcpState) (chunk : Bytes) (r : Router F)
      → tracked r.tracker key ≡ some s
      → pump_one key (bytes chunk) r ≡ pump_bytes key s chunk r
  unfolding pump_one
  pump_one-bytes key s chunk r e = rw (e, pump_one) refl

  -- For the chunks that are read from the connection of a tracked flow, one after the other, each with
  -- a byte at least and 65495 at most, as many as one packet holds, one segment each is built for the
  -- client, in their order. Each segment's number is the one behind the segment before it, modulo 2^32,
  -- beginning with the flow's next number. The counter of incoming bytes, below 2^64, grows by all
  -- their bytes, modulo 2^64.
  pub pump_each-segments :
      (key : FlowKey) (s : TcpState) (chunks : List Bytes) (r : Router F)
      → tracked r.tracker key ≡ some s
      → AllFit chunks
      → r.bytes_in < 2 ^ 64
      → ((pump_each (map (λ chunk. (key, bytes chunk)) chunks) r).1
          ≡ segments key s.client_next_seq s.server_next_seq chunks)
        × ((pump_each (map (λ chunk. (key, bytes chunk)) chunks) r).0.bytes_in
            ≡ (r.bytes_in + total chunks) % 2 ^ 64)
  unfolding pump_each
  pump_each-segments key s [] r e full below = (refl, omega (arith, below))
  pump_each-segments key s ([] ∷ chunks) r e full below = absurd full
  pump_each-segments key s ((b ∷ bs) ∷ chunks) r e full below =
      let step = pump_one-bytes key s (b ∷ bs) r e in
      let after = record s { server_next_seq = (s.server_next_seq + length (b ∷ bs)) % 2 ^ 32 } in
      let next = (pump_bytes key s (b ∷ bs) r).0 in
      let (sent, count) =
        pump_each-segments key after chunks next (tracked-track r.tracker key after) full.1
          (omega arith) in
      let rest : Router F → Router F × List Bytes =
        pump_each (map (λ chunk. (key, bytes chunk)) chunks) in
      (
        ap (λ (one : Router F × List Bytes). one.1 ++ (rest one.0).1) step
            ∙ ap (λ more. (pump_bytes key s (b ∷ bs) r).1 ++ more) sent,
        ap (λ (one : Router F × List Bytes). (rest one.0).0.bytes_in) step ∙ count ∙ omega arith,
      )
