-- ===== src/Peers/Ftp.antt =====
-- tools/exe-harness/net-builders.js, lines 644-771: `respondFtp`, a passive-mode FTP server with a
-- control and a data session. Text is a list of codes; the verbs of the commands are ASCII.
pub mod Respond
pub mod Lines
pub mod Commands
use sprinter_rtl8019a.Base.{
  ℕ, zero, suc, ◌+◌, ◌/◌, Bool, true, false, not, ◌&&◌, ◌||◌, Option, none, some, List, [], ◌∷◌,
  ◌++◌, map, ltb, leb, ◌==◌, if◌then◌else◌, or_default, or_nonzero, is_some, length, drop, equal,
  u8, u32, has, codes, crlf, decimal, starts_with, upper,
}
use sprinter_rtl8019a.Nic.Types.{Card}
use sprinter_rtl8019a.Frames.Tcp.{Segment, build_tcp_segment, parse_tcp_segment}
use sprinter_rtl8019a.Frames.Udp.{byte_at}
use sprinter_rtl8019a.Peers.Session.{
  TcpSession, StreamOptions, State, established, closed, Rto, tf_syn, tf_psh, tf_ack,
  segment_options, server_segment, response_bytes, post,
}
use sprinter_rtl8019a.Peers.Stream.{stream_emit, tcp_stream_ahead, rto_expired}
use sprinter_rtl8019a.Peers.Store.{find_session, session_of, update_session, new_session}

-- `responders.ftp`, and what `respondFtp` keeps there. `file_bytes` is `_fileBytes` as its first frame
-- sets it, until a listing takes its place; `data_session` is the serial of `_dataSession`.
pub record FtpPeer : Type 0 where
  pub port : Option ℕ
  pub mac : Option (List ℕ)
  pub isn : Option ℕ
  pub greeting : Option (List ℕ)
  pub listing : Option (List ℕ)
  pub pasv_port : Option ℕ
  pub stream : StreamOptions
  pub file_bytes : List ℕ
  pub sessions : List TcpSession
  pub data_session : Option ℕ
  pub retr_issued : Bool
  pub sent_226 : Bool
  pub commands : List (List ℕ)

abbrev pub with_ftp_session : FtpPeer → TcpSession → FtpPeer
with_ftp_session f s = record f { sessions = update_session s f.sessions }

-- `Object.values(ftp._sessions).find((s) => s.control)`: the values are in the order of the ports,
-- and only the newest object of a port is one.
unfoldable pub control_session : List TcpSession → List TcpSession → Option TcpSession
control_session all [] = none
control_session all (s ∷ ss) =
    let rest = control_session all ss in
    let port = s.ends.client_port in
    let current : Bool = elim (find_session port all) [
      | none ↦ false
      | some newest ↦ newest.serial == s.serial
    ] in
    if s.is_control && current
    then (elim rest [
      | none ↦ some s
      | some t ↦ if leb t.ends.client_port port then some t else some s
    ])
    else rest

-- The text before the first line end and after it, if there is one.
abbrev pub split_line : List ℕ → Option (List ℕ × List ℕ)
split_line [] = none
split_line (c ∷ cs) =
    let rest = split_line cs in
    if starts_with crlf (c ∷ cs)
    then some ([], drop 1 cs)
    else elim rest [ none ↦ none | some (line, left) ↦ some (c ∷ line, left) ]

-- `line.split(' ')[0]`
abbrev pub first_word : List ℕ → List ℕ
first_word [] = []
first_word (c ∷ cs) = if c == 32 then [] else c ∷ first_word cs

pub default_listing : List ℕ
default_listing =
    codes "-rw-r--r--   1 root  wheel     2048 May  6 15:28 2k.bin"
    ++ crlf
    ++ codes "-rw-r--r--   1 root  wheel   389579 May  6 15:28 im2.txt"
    ++ crlf

pub passive_text : List ℕ → ℕ → List ℕ
passive_text ip port =
    codes "227 Entering Passive Mode ("
    ++ decimal (byte_at ip 0)
    ++ codes ","
    ++ decimal (byte_at ip 1)
    ++ codes ","
    ++ decimal (byte_at ip 2)
    ++ codes ","
    ++ decimal (byte_at ip 3)
    ++ codes ","
    ++ decimal (port / 256)
    ++ codes ","
    ++ decimal (u8 port)
    ++ codes ")"

pub opening_text : List ℕ → List ℕ → List ℕ
opening_text name file =
    codes "150 Opening BINARY mode data connection for '"
    ++ name
    ++ codes "' ("
    ++ decimal (length file)
    ++ codes " bytes)."

module _ {P T : Type 0} where
  unfoldable pub ftp_reply : FtpPeer → List ℕ → TcpSession → Card P T → Card P T × TcpSession
  ftp_reply f text s c =
      let bytes = text ++ crlf in
      (
        post (or_default f.stream.after_ms 1)
            (server_segment s.ends (tf_psh + tf_ack) s.server_seq s.client_next bytes) c,
        record s { server_seq = u32 (s.server_seq + length bytes) },
      )

module _ {P T : Type 0} (start_timer : Rto → T) where
  -- `ftpStartData` on the object that `_dataSession` holds.
  unfoldable pub start_data_session : FtpPeer → TcpSession → Card P T → Card P T × TcpSession
  start_data_session f session c =
      let s = record session {
        streaming = true;
        response = some f.file_bytes;
        response_seq = session.server_seq;
        sent_offset = some 0;
        acked_offset = 0;
      } in
      let window = if f.stream.ignore_window then none else some (or_nonzero s.last_window 2920) in
      stream_emit start_timer f.stream (or_default f.stream.mss (or_default s.client_mss 1460))
        window (length f.file_bytes) s c

  unfoldable pub ftp_start_data : FtpPeer → Card P T → Card P T × FtpPeer
  ftp_start_data f c =
      let session : Option TcpSession = elim (f.data_session) [
        | none ↦ none
        | some serial ↦ session_of serial f.sessions
      ] in
      elim session [
        | none ↦ (c, f)
        | some s ↦
            (let started = start_data_session f s c in
              if not f.retr_issued || s.streaming
              then (c, f)
              else (started.0, with_ftp_session f (started.1)))
      ]
