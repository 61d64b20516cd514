-- ===== src/Peers/Chunks.antt =====
-- tools/exe-harness/net-builders.js, lines 453-476: `tcpSendNextChunk`, one segment for each ACK.
pub mod Receiver
pub mod Delivered
use sprinter_rtl8019a.Base.{◌+◌, true, [], leb, if◌then◌else◌, or_default, length, slice, u32}
use sprinter_rtl8019a.Nic.Types.{Card}
use sprinter_rtl8019a.Peers.Session.{
  TcpSession, StreamOptions, tf_fin, tf_psh, tf_ack, server_segment, peer_mss, response_bytes, post,
}

module _ {P T : Type 0} where
  -- Everything is sent: the FIN, once.
  unfoldable pub send_fin : StreamOptions → TcpSession → Card P T → Card P T × TcpSession
  send_fin o s c = if s.fin_sent then (c, s) else (
    post (or_default o.after_ms 1)
        (server_segment s.ends (tf_fin + tf_ack) s.server_seq s.client_next []) c,
    record s { fin_sent = true },
  )

  unfoldable pub send_chunk : StreamOptions → TcpSession → Card P T → Card P T × TcpSession
  send_chunk o s c =
      let chunk = slice s.send_offset (s.send_offset + peer_mss o s) (response_bytes s) in
      (
        post (or_default o.after_ms 1)
            (server_segment s.ends (tf_psh + tf_ack) s.server_seq s.client_next chunk) c,
        record s {
          server_seq = u32 (s.server_seq + length chunk);
          send_offset = s.send_offset + length chunk;
        },
      )

  unfoldable pub tcp_send_next_chunk : StreamOptions → TcpSession → Card P T → Card P T × TcpSession
  tcp_send_next_chunk o s c =
      if leb (length (response_bytes s)) s.send_offset then send_fin o s c else send_chunk o s c
