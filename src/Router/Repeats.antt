-- ===== src/Router/Repeats.antt =====
-- A client repeats its packets until they are answered: the handshake that is sent again, and the
-- data that is sent again.
use proxy_switcher.Address.{ipv4_eq_iff}
use proxy_switcher.Common.{
  ℕ, ◌+◌, ◌*◌, ◌%◌, ◌^◌, ◌≡◌, inl, inr, refl, sym, ap, subst, ◌∙◌, true, false, not, Option, none,
  some, ◌∷◌, arith, if◌then◌else◌, length, Bool-cases,
}
use proxy_switcher.Common.Outcome.{Bytes}
use proxy_switcher.Common.Text.{Text}
use proxy_switcher.Packet.Parse.{ParsedPacket, is_tcp_syn, is_tcp_fin}
use proxy_switcher.Packet.Tcp.{TcpHeader}
use proxy_switcher.Pool.Types.{Floats, ProxyInfo}
use proxy_switcher.Router.Flows.{data_on, data_of, handle_data}
use proxy_switcher.Router.Outgoing.{
  Handshake, Reply, nothing, flow_of, answer, start, begin, handshake, outgoing, handle_outgoing,
  finish, alone,
}
use proxy_switcher.Router.State.{
  FlowKey, key_eq, TcpState, Tracker, tracked, track, has_key, without_key, Router,
}
use proxy_switcher.Routing.Policy.{Decision, proxy, direct}

key_eq_refl : (k : FlowKey) → key_eq k k ≡ true
key_eq_refl k = ground (arith, ipv4_eq_iff k.src_ip k.src_ip, ipv4_eq_iff k.dst_ip k.dst_ip)

pub tracked-track :
    (t : Tracker) (key : FlowKey) (s : TcpState) → tracked (track t key s) key ≡ some s
unfolding tracked track
tracked-track t key s = ground (arith, key_eq_refl key)

module _ (fl : Floats) (parse_ipv6 : Text → Option ℕ) where
  open fl use {F}

  -- A SYN comes to the handshake of its flow.
  syn_outgoing :
      (packet : ParsedPacket) (tcp : TcpHeader) (r : Router F)
      → packet.tcp ≡ some tcp
      → is_tcp_syn packet ≡ true
      → handle_outgoing fl parse_ipv6 alone packet r
        ≡ handshake fl parse_ipv6 alone
            (flow_of packet tcp)
            tcp.sequence_number
            (tracked r.tracker (flow_of packet tcp))
            r
  unfolding handle_outgoing outgoing
  syn_outgoing packet tcp r e syn =
      ap (λ b. if not b then (r, nothing) else outgoing fl parse_ipv6 alone packet packet.tcp r) syn
      ∙ ap (λ o. outgoing fl parse_ipv6 alone packet o r) e

  tracked_handshake :
      (key : FlowKey) (seq : ℕ) (s : TcpState) (r : Router F)
      → handshake fl parse_ipv6 alone key seq (some s) r ≡ (
        r,
        record {
          packet = some (answer key s.server_isn ((s.client_isn + 1) % 2 ^ 32) 0x12);
          task = none;
        },
      )
  unfolding handshake
  tracked_handshake key seq s r = refl

  finish-tracked :
      (others : Router F → Router F) (h : Handshake F) (server_isn : ℕ) (r : Router F)
      → tracked (finish fl others h server_isn true r).tracker h.key
        ≡ some (record {
          client_isn = h.client_isn;
          server_isn = server_isn;
          client_next_seq = (h.client_isn + 1) % 2 ^ 32;
          server_next_seq = (server_isn + 1) % 2 ^ 32;
        })
  unfolding finish
  finish-tracked others h server_isn r =
      tracked-track (others (record r { pending = without_key r.pending h.key })).tracker h.key _

  -- Once the tunnel is open, the handshake that the client repeats is answered with the numbers of
  -- the first answer; no second tunnel is started, and nothing changes.
  pub repeated_handshake :
      (others : Router F → Router F) (h : Handshake F) (server_isn : ℕ) (r : Router F)
      (packet : ParsedPacket) (tcp : TcpHeader)
      → packet.tcp ≡ some tcp
      → is_tcp_syn packet ≡ true
      → flow_of packet tcp ≡ h.key
      → handle_outgoing fl parse_ipv6 alone packet (finish fl others h server_isn true r) ≡ (
        finish fl others h server_isn true r,
        record {
          packet = some (answer h.key server_isn ((h.client_isn + 1) % 2 ^ 32) 0x12);
          task = none;
        },
      )
  repeated_handshake others h server_isn r packet tcp e syn same =
      let after = finish fl others h server_isn true r in
      syn_outgoing packet tcp after e syn
      ∙ ap
          (λ k. handshake fl parse_ipv6 alone k tcp.sequence_number (tracked after.tracker k) after)
          same
      ∙ ap (λ s. handshake fl parse_ipv6 alone h.key tcp.sequence_number s after)
          (finish-tracked others h server_isn r)
      ∙ tracked_handshake h.key tcp.sequence_number _ after

  start-waits :
      (d : Decision) (o : Option (ProxyInfo F)) (key : FlowKey) (target : Text) (seq : ℕ)
      (r : Router F) (h : Handshake F)
      → (start fl parse_ipv6 d o key target seq r).1.task ≡ some h
      → (start fl parse_ipv6 d o key target seq r).0 ≡ r
  start-waits direct o key target seq r h e = refl
  start-waits proxy (some p) key target seq r h e = refl
  start-waits proxy none key target seq r h e = cc

  -- A router that started a task waits for it, and is otherwise the same.
  begin-waits :
      (key : FlowKey) (seq : ℕ) (r : Router F) (h : Handshake F)
      → (begin fl parse_ipv6 alone key seq r).1.task ≡ some h
      → (begin fl parse_ipv6 alone key seq r).0 ≡ record r { pending = key ∷ r.pending }
  unfolding begin
  begin-waits key seq r h e = elim (Bool-cases (has_key r.pending key)) [
    | inl t ↦ absurd (cc (rw t at e))
    | inr f ↦ rw f (start-waits _ _ key _ seq _ h (rw f at e))
  ]

  waiting_begin :
      (key : FlowKey) (seq : ℕ) (r : Router F)
      → has_key r.pending key ≡ true
      → begin fl parse_ipv6 alone key seq r ≡ (r, nothing)
  unfolding begin
  waiting_begin key seq r e = rw e refl

  repeated_syn :
      (key : FlowKey) (seq : ℕ) (s : Option TcpState) (r : Router F) (h : Handshake F)
      → tracked r.tracker key ≡ s
      → (handshake fl parse_ipv6 alone key seq s r).1.task ≡ some h
      → let after = (handshake fl parse_ipv6 alone key seq s r).0 in
        handshake fl parse_ipv6 alone key seq (tracked after.tracker key) after ≡ (after, nothing)
  unfolding handshake
  repeated_syn key seq (some s) r h known e = cc
  repeated_syn key seq none r h new e =
      let waits = begin-waits key seq r h e in
      subst
        (λ (after : Router F).
          handshake fl parse_ipv6 alone key seq (tracked after.tracker key) after
          ≡ (after, nothing))
        (sym waits)
        (ap (λ s. handshake fl parse_ipv6 alone key seq s (record r { pending = key ∷ r.pending }))
            new
          ∙ waiting_begin key seq _ (ground (arith, key_eq_refl key)))

  -- While the tunnel of a flow is being opened, the handshake that the client repeats starts no
  -- second one: it is not answered, and nothing changes.
  pub pending_handshake :
      (packet : ParsedPacket) (tcp : TcpHeader) (r : Router F) (h : Handshake F)
      → packet.tcp ≡ some tcp
      → is_tcp_syn packet ≡ true
      → (handle_outgoing fl parse_ipv6 alone packet r).1.task ≡ some h
      → let after = (handle_outgoing fl parse_ipv6 alone packet r).0 in
        handle_outgoing fl parse_ipv6 alone packet after ≡ (after, nothing)
  pending_handshake packet tcp r h e syn started =
      let first = syn_outgoing packet tcp r e syn in
      subst
        (λ (result : Router F × Reply F).
          handle_outgoing fl parse_ipv6 alone packet result.0 ≡ (result.0, nothing))
        (sym first)
        (syn_outgoing packet tcp _ e syn
          ∙ repeated_syn (flow_of packet tcp) tcp.sequence_number _ r h refl
              (ap (λ (result : Router F × Reply F). result.1.task) (sym first) ∙ started))

module _ {F : Type 0} where
  data_on-repeated :
      (key : FlowKey) (seq : ℕ) (b : ℕ) (bs : Bytes) (s : TcpState) (r : Router F)
      → let once = data_on true key seq false (b ∷ bs) (some s) r in
        (data_on true key seq false (b ∷ bs) (tracked once.tracker key) once).bytes_out
        ≡ (r.bytes_out + 2 * length (b ∷ bs)) % 2 ^ 64
  unfolding data_on
  data_on-repeated key seq b bs s r =
      rw
        (tracked-track r.tracker key
          (record s { client_next_seq = (seq + length (b ∷ bs)) % 2 ^ 32 }))
        (omega arith)

  data_of_packet :
      (packet : ParsedPacket) (tcp : TcpHeader) (r : Router F)
      → packet.tcp ≡ some tcp
      → is_tcp_fin packet ≡ false
      → handle_data true packet r
        ≡ data_on true
            (flow_of packet tcp)
            tcp.sequence_number
            false
            packet.payload
            (tracked r.tracker (flow_of packet tcp))
            r
  unfolding handle_data data_of
  data_of_packet packet tcp r e fin =
      ap (λ o. data_of true packet o r) e
      ∙ ap
          (λ f.
            data_on true (flow_of packet tcp) tcp.sequence_number f packet.payload
              (tracked r.tracker (flow_of packet tcp)) r)
          fin

  -- Data that the client sends again, as it does until it is acknowledged, is written to the
  -- connection again: a packet that comes twice counts twice, whatever its sequence number, modulo 2^64.
  pub repeated_data :
      (packet : ParsedPacket) (tcp : TcpHeader) (s : TcpState) (r : Router F) (b : ℕ) (bs : Bytes)
      → packet.tcp ≡ some tcp
      → is_tcp_fin packet ≡ false
      → packet.payload ≡ b ∷ bs
      → tracked r.tracker (flow_of packet tcp) ≡ some s
      → (handle_data true packet (handle_data true packet r)).bytes_out
        ≡ (r.bytes_out + 2 * length packet.payload) % 2 ^ 64
  repeated_data packet tcp s r b bs e fin content known =
      let key = flow_of packet tcp in
      let seq = tcp.sequence_number in
      let once =
        data_of_packet packet tcp r e fin
        ∙ ap (λ p. data_on true key seq false p (tracked r.tracker key) r) content
        ∙ ap (λ o. data_on true key seq false (b ∷ bs) o r) known in
      ap (λ (r : Router F). (handle_data true packet r).bytes_out) once
      ∙ ap (λ (r : Router F). r.bytes_out)
          (data_of_packet packet tcp (data_on true key seq false (b ∷ bs) (some s) r) e fin
            ∙ ap
                (λ p.
                  data_on true key seq false p
                    (tracked (data_on true key seq false (b ∷ bs) (some s) r).tracker key)
                    (data_on true key seq false (b ∷ bs) (some s) r))
                content)
      ∙ data_on-repeated key seq b bs s r
      ∙ ap (λ p. (r.bytes_out + 2 * length p) % 2 ^ 64) (sym content)
