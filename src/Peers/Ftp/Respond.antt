-- ===== src/Peers/Ftp/Respond.antt =====
-- tools/exe-harness/net-builders.js, lines 680-771: the commands of the control session, the end of the
-- data session, and `respondFtp` as a whole.
use sprinter_rtl8019a.Base.{
  ℕ, zero, suc, ◌+◌, true, not, ◌&&◌, ◌||◌, none, some, List, [], ◌∷◌, ◌++◌, map, leb, ◌==◌,
  if◌then◌else◌, or_default, length, drop, equal, u32, has, codes, decimal, upper,
}
use sprinter_rtl8019a.Nic.Types.{Card}
use sprinter_rtl8019a.Frames.Tcp.{Segment, build_tcp_segment, parse_tcp_segment}
use sprinter_rtl8019a.Peers.Session.{
  TcpSession, established, closed, Rto, tf_syn, tf_ack, segment_options, server_segment,
  response_bytes, post,
}
use sprinter_rtl8019a.Peers.Stream.{tcp_stream_ahead, rto_expired}
use sprinter_rtl8019a.Peers.Store.{find_session, session_of, new_session}
use sprinter_rtl8019a.Peers.Tcp.{is_syn_rcvd, is_empty}
use sprinter_rtl8019a.Peers.Ftp.{
  FtpPeer, with_ftp_session, control_session, split_line, first_word, default_listing, passive_text,
  opening_text, ftp_reply, ftp_start_data,
}

-- The reply to a command that does not start a transfer.
pub reply_text : FtpPeer → TcpSession → List ℕ → List ℕ
reply_text f s verb =
    if equal verb (codes "USER")
    then codes "331 Guest login ok, send your email address as password."
    else if equal verb (codes "PASS")
    then codes "230 Guest login ok, access restrictions apply."
    else if equal verb (codes "TYPE")
    then codes "200 Type set to I."
    else if equal verb (codes "SIZE")
    then codes "213 " ++ decimal (length f.file_bytes)
    else if equal verb (codes "PASV")
    then passive_text s.ends.server_ip (or_default f.pasv_port 55797)
    else if equal verb (codes "QUIT")
    then codes "221 Goodbye."
    else codes "200 ok."

module _ {P T : Type 0} (start_timer : Rto → T) where
  -- A reply on the control session of the serial, and then the data session, if it is there.
  unfoldable pub open_transfer :
      FtpPeer → List ℕ → TcpSession → Card P T → Card P T × FtpPeer × TcpSession
  open_transfer f text s c =
      let (c', s') = ftp_reply f text s c in
      let (c'', f') = ftp_start_data start_timer (record f { retr_issued = true }) c' in
      (c'', f', s')

  unfoldable pub run_command :
      FtpPeer → List ℕ → TcpSession → Card P T → Card P T × FtpPeer × TcpSession
  run_command peer line s c =
      let verb = map upper (first_word line) in
      let f = record peer { commands = peer.commands ++ (line ∷ []) } in
      let listed = record f { file_bytes = or_default f.listing default_listing } in
      let (c', s') = ftp_reply f (reply_text f s verb) s c in
      if equal verb (codes "RETR")
      then open_transfer f (opening_text (drop 5 line) f.file_bytes) s c
      else if equal verb (codes "LIST") || equal verb (codes "NLST")
      then open_transfer listed (codes "150 Opening ASCII mode data connection for file list.") s c
      else (c', f, s')

  -- The loop over the whole lines of the request; each takes two codes or more off the text, so that
  -- the text's length is fuel enough. What is left is the new request.
  unfoldable pub run_commands :
      ℕ → FtpPeer → List ℕ → TcpSession → Card P T → Card P T × FtpPeer × TcpSession
  run_commands zero f text s c = (c, f, record s { request = text })
  run_commands (suc fuel) f text s c = elim (split_line text) [
    | none ↦ (c, f, record s { request = text })
    | some (line, left) ↦
        (let (c', f', s') = run_command f line s c in run_commands fuel f' left s' c')
  ]

  unfoldable pub respond_control : FtpPeer → TcpSession → Segment → Card P T → Card P T × FtpPeer
  respond_control f session seg c =
      let s =
        if seg.seq == session.client_next
        then record session {
          client_next = u32 (seg.seq + length seg.payload);
          request = session.request ++ seg.payload;
        }
        else session in
      let ack =
        post (or_default f.stream.data_ack_delay_ms 1)
          (server_segment s.ends tf_ack s.server_seq s.client_next []) c in
      let (c', f', s') = run_commands (length s.request) f s.request s ack in
      if is_empty seg.payload then (c, f) else (c', with_ftp_session f' s')

  -- The 226 on the control session, once.
  unfoldable pub finish_transfer : FtpPeer → TcpSession → Card P T → Card P T × FtpPeer
  finish_transfer f s c =
      if s.fin_sent && not f.sent_226 && leb (length (response_bytes s)) s.acked_offset
      then (elim (control_session f.sessions f.sessions) [
        | none ↦ (c, record f { sent_226 = true })
        | some control ↦
            (let replied = ftp_reply f (codes "226 Transfer complete.") control c in
              (replied.0, with_ftp_session (record f { sent_226 = true }) (replied.1)))
      ])
      else (c, f)

  unfoldable pub respond_data : FtpPeer → TcpSession → Segment → Card P T → Card P T × FtpPeer
  respond_data f s seg c =
      let (c', s') = tcp_stream_ahead start_timer f.stream s seg c in
      let finished = finish_transfer (with_ftp_session f s') s' c' in
      if s.streaming && not (has seg.flags 0) then finished else (c, f)

  -- The ACK that ends the handshake.
  unfoldable pub establish_ftp : FtpPeer → TcpSession → Card P T → Card P T × FtpPeer
  establish_ftp f session c =
      let s = record session { state = established; server_seq = u32 (session.server_seq + 1) } in
      let text = or_default f.greeting (codes "220 harness FTP server ready.") in
      let (c', s') = ftp_reply f text s c in
      if s.is_control
      then (c', with_ftp_session f s')
      else ftp_start_data start_timer
          (record (with_ftp_session f s) { data_session = some s.serial }) c

  unfoldable pub respond_ftp_session :
      FtpPeer → TcpSession → Segment → Card P T → Card P T × FtpPeer
  respond_ftp_session f session seg c =
      let s = record session { last_window = some seg.window } in
      let f' = with_ftp_session f s in
      if has seg.flags 2
      then (c, with_ftp_session f (record session { state = closed }))
      else if is_syn_rcvd s.state && has seg.flags 4 && is_empty seg.payload
      then establish_ftp f' s c
      else if s.is_control
      then respond_control f' s seg c
      else respond_data f' s seg c

  unfoldable pub respond_ftp_syn : FtpPeer → Segment → Card P T → Card P T × FtpPeer
  respond_ftp_syn f seg c =
      let is_control = seg.dst_port == or_default f.port 21 in
      let isn = or_default f.isn 0x20000000 + (if is_control then 0 else 0x1000) in
      let s = new_session (length f.sessions) is_control f.mac isn seg in
      (
        post (or_default f.stream.after_ms 1)
            (build_tcp_segment s.ends
              (record (segment_options (tf_syn + tf_ack) isn s.client_next []) {
                mss = some (or_default f.stream.mss 1460);
              }))
            c,
        record f { sessions = s ∷ f.sessions },
      )

  unfoldable pub respond_ftp_segment : FtpPeer → Segment → Card P T → Card P T × FtpPeer
  respond_ftp_segment f seg c =
      if seg.flags == tf_syn
      then respond_ftp_syn f seg c
      else elim (find_session seg.src_port f.sessions) [
        | none ↦ (c, f)
        | some s ↦ respond_ftp_session f s seg c
      ]

  -- `respondFtp(frame, card, ftp)`
  unfoldable pub respond_ftp : List ℕ → Card P T → FtpPeer → Card P T × FtpPeer
  respond_ftp frame c f = elim (parse_tcp_segment frame) [
    | none ↦ (c, f)
    | some seg ↦ respond_ftp_segment f seg c
  ]

  -- The callback of `armRto` for a session of `respondFtp`.
  unfoldable pub fire_ftp : Rto → Card P T → FtpPeer → Card P T × FtpPeer
  fire_ftp r c f = elim (session_of r.serial f.sessions) [
    | none ↦ (c, f)
    | some s ↦
        (let expired = rto_expired start_timer f.stream r s c in
          (expired.0, with_ftp_session f (expired.1)))
  ]
