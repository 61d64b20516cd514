-- ===== src/Frames/Tftp/Download.antt =====
-- The blocks of a read.
use mathlib.Core.Path.{subst}
use sprinter_rtl8019a.Base.{
  ℕ, ◌+◌, ◌-◌, ◌*◌, ◌≡◌, ◌<◌, refl, ap, sym, ◌∙◌, false, Option, none, some, List, [], ◌∷◌, arith,
  ltb, ◌==◌, if◌then◌else◌, length, slice, high_byte, u8, u16, word_of, word_of_lem, or_default,
}
use sprinter_rtl8019a.Nic.Types.{Card}
use sprinter_rtl8019a.Nic.Clock.{schedule, push_pending}
use sprinter_rtl8019a.Nic.Clock.Sent.{IsSent}
use sprinter_rtl8019a.Frames.Checksum.{default_server_mac}
use sprinter_rtl8019a.Frames.Udp.{Datagram, udp_datagram}
use sprinter_rtl8019a.Frames.Udp.RoundTrip.{udp_datagram-build_udp_reply}
use sprinter_rtl8019a.Frames.Tftp.{
  get_file, Session, Tftp, respond_tftp, continue_session, next_data, send, matches_block,
  served_port,
}

abbrev pub ack_packet : Datagram → ℕ → Datagram
ack_packet d k = record d { payload = 0 ∷ 4 ∷ high_byte k ∷ u8 k ∷ [] }

-- Block `k + 1` of a file.
abbrev pub block_of : ℕ → List ℕ → ℕ → List ℕ
block_of size file k = slice (k * size) (k * size + size) file

-- The whole addresses of a datagram and of the server's answers to it.
pub record IsReachable (d : Datagram) (t : Tftp) : Type 0 where
  pub source_mac : length d.source_mac ≡ 6
  pub source_ip : length d.source_ip ≡ 4
  pub dest_ip : length d.dest_ip ≡ 4
  pub server_mac : length (or_default t.mac default_server_mac) ≡ 6

-- The server's datagram to the client that `d` comes from: the addresses go back, and so does the
-- client's port; the server answers from the port of the session.
abbrev pub reply_to : Datagram → List ℕ → Session → List ℕ → Datagram
reply_to d mac s body = record {
  source_mac = mac;
  dest_mac = d.source_mac;
  source_ip = d.dest_ip;
  dest_ip = d.source_ip;
  source_port = s.server_port;
  dest_port = d.source_port;
  payload = body;
}

-- The session after it has sent block `k + 1`.
abbrev pub with_sent : Session → ℕ → Session
with_sent s k = record s {
  final_block =
      if ltb (length (block_of s.block_size s.file k)) s.block_size
      then some (k + 1)
      else s.final_block;
}

module _ {P T : Type 0} where
  -- What a call of `send` puts on the wire.
  send_eq :
      (d : Datagram) (body : List ℕ) (t : Tftp) (s : Session) (c : Card P T)
      → t.session ≡ some s
      → IsReachable d t
      → (frame : List ℕ) × IsSent (or_default t.after_ms 1) (frame ∷ []) c (send d body t c)
        × (udp_datagram frame ≡ some (reply_to d (or_default t.mac default_server_mac) s body))
  unfolding send schedule push_pending
  send_eq d body t s c es h = (
    _,
    record { clock = refl; generated = refl; pending = refl },
    udp_datagram-build_udp_reply d body _ (record {
      source_mac = h.server_mac;
      dest_mac = h.source_mac;
      source_ip = h.dest_ip;
      dest_ip = h.source_ip;
    })
        ∙ ap
            (λ (o : Option Session).
              some (record (reply_to d (or_default t.mac default_server_mac) s body) {
                source_port = elim o [ none ↦ served_port t | some s' ↦ s'.server_port ];
              }))
            es,
  )

  pub ack_eq :
      (d : Datagram) (c : Card P T) (t : Tftp) (s : Session) (k : ℕ)
      → t.session ≡ some s
      → d.dest_port ≡ s.server_port
      → s.mode ≡ get_file
      → k < 65535
      → matches_block s.final_block k ≡ false
      → respond_tftp (ack_packet d k) c t ≡ next_data (ack_packet d k) t s k c
  unfolding respond_tftp continue_session
  ack_eq d c t s k es ep em hk hf =
      let opcode : word_of 0 4 ≡ 4 = word_of_lem 0 4 (omega arith) in
      let block : word_of (high_byte k) (u8 k) ≡ k =
        omega (arith, word_of_lem (high_byte k) (u8 k) (omega arith)) in
      ground arith

  pub next_eq :
      (d : Datagram) (c : Card P T) (t : Tftp) (s : Session) (k : ℕ)
      → k < 65535
      → next_data d t s k c ≡ (
        send d
            (0 ∷ 3 ∷ high_byte (k + 1) ∷ u8 (k + 1) ∷ block_of s.block_size s.file k)
            (record t { session = some (with_sent s k) })
            c,
        record t { session = some (with_sent s k) },
      )
  unfolding next_data
  next_eq d c t s k hk =
      let wrap : u16 (k + 1) ≡ k + 1 = omega arith in
      let positive : (k + 1 == 0) ≡ false = ground arith in
      let back : k + 1 - 1 ≡ k = omega arith in rw (wrap, positive, back) refl

  -- An acknowledgement of block `k` of a read, below the last number, that is not of the final block
  -- is answered by exactly one frame, noted and scheduled for the time that `afterMs` says: a datagram
  -- from the server's addresses and the session's port to the client's addresses and port that carries
  -- block `k + 1`, its number and the next bytes of the file. The session goes on, and a short block is
  -- noted as the final one.
  pub respond_tftp-next_block :
      (d : Datagram) (c : Card P T) (t : Tftp) (s : Session) (k : ℕ)
      → t.session ≡ some s
      → d.dest_port ≡ s.server_port
      → s.mode ≡ get_file
      → k < 65535
      → matches_block s.final_block k ≡ false
      → IsReachable d t
      → let after = respond_tftp (ack_packet d k) c t in
        let body = 0 ∷ 3 ∷ high_byte (k + 1) ∷ u8 (k + 1) ∷ block_of s.block_size s.file k in
        (frame : List ℕ) × IsSent (or_default t.after_ms 1) (frame ∷ []) c after.0
        × (udp_datagram frame ≡ some (reply_to d (or_default t.mac default_server_mac) s body))
        × (after.1.session ≡ some (with_sent s k))
  respond_tftp-next_block d c t s k es ep em hk hf h =
      let both = ack_eq d c t s k es ep em hk hf ∙ next_eq (ack_packet d k) c t s k hk in
      let body = 0 ∷ 3 ∷ high_byte (k + 1) ∷ u8 (k + 1) ∷ block_of s.block_size s.file k in
      let (frame, sent, read) =
        send_eq (ack_packet d k) body (record t { session = some (with_sent s k) }) (with_sent s k)
          c refl
          (record {
            source_mac = h.source_mac;
            source_ip = h.source_ip;
            dest_ip = h.dest_ip;
            server_mac = h.server_mac;
          }) in
      (
        frame,
        subst (λ x. IsSent (or_default t.after_ms 1) (frame ∷ []) c x.0) (sym both) sent,
        read,
        ap (λ x. x.1.session) both,
      )
