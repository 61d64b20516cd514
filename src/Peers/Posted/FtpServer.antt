-- ===== src/Peers/Posted/FtpServer.antt =====
-- `respondFtp` (tools/exe-harness/net-builders.js, lines 657-771) only adds to the card's schedule.
use sprinter_rtl8019a.Base.{
  ℕ, zero, suc, Option, none, some, List, arith, Bool-cases, inl, inr, equal, codes, map, upper,
  ◌||◌, ◌&&◌, not, has,
}
use sprinter_rtl8019a.Nic.Types.{Card}
use sprinter_rtl8019a.Frames.Tcp.{Segment}
use sprinter_rtl8019a.Frames.Tftp.{}
use sprinter_rtl8019a.Peers.Session.{TcpSession, Rto}
use sprinter_rtl8019a.Peers.Tcp.{is_empty}
use sprinter_rtl8019a.Peers.Tcp.Respond.{}
use sprinter_rtl8019a.Peers.Ftp.{
  FtpPeer, first_word, with_ftp_session, ftp_reply, ftp_start_data, start_data_session, split_line,
}
use sprinter_rtl8019a.Peers.Ftp.Respond.{
  open_transfer, run_command, run_commands, respond_control, finish_transfer, respond_data,
  establish_ftp, respond_ftp_session, respond_ftp_syn, respond_ftp_segment, respond_ftp, fire_ftp,
}
use sprinter_rtl8019a.Peers.Posted.{IsPosted, refl-IsPosted, trans-IsPosted, post-IsPosted}
use sprinter_rtl8019a.Peers.Posted.Senders.{
  stream_emit-IsPosted, rto_expired-IsPosted, tcp_stream_ahead-IsPosted,
}

module _ {P T : Type 0} where
  ftp_reply-IsPosted :
      (f : FtpPeer) (text : List ℕ) (s : TcpSession) (c : Card P T)
      → IsPosted c ((ftp_reply f text s c).0)
  unfolding ftp_reply
  ftp_reply-IsPosted f text s c = post-IsPosted _ _ c

module _ {P T : Type 0} (start_timer : Rto → T) where
  ftp_start_data-IsPosted :
      (f : FtpPeer) (c : Card P T) → IsPosted c ((ftp_start_data start_timer f c).0)
  unfolding ftp_start_data start_data_session
  ftp_start_data-IsPosted f c = grind (arith, refl-IsPosted, stream_emit-IsPosted)

  open_transfer-IsPosted :
      (f : FtpPeer) (text : List ℕ) (s : TcpSession) (c : Card P T)
      → IsPosted c ((open_transfer start_timer f text s c).0)
  unfolding open_transfer
  open_transfer-IsPosted f text s c =
      trans-IsPosted c _ _ (ftp_reply-IsPosted f text s c) (ftp_start_data-IsPosted _ _)

  run_command-IsPosted :
      (f : FtpPeer) (line : List ℕ) (s : TcpSession) (c : Card P T)
      → IsPosted c ((run_command start_timer f line s c).0)
  unfolding run_command
  run_command-IsPosted f line s c =
      let verb = map upper (first_word line) in
      let retr = equal verb (codes "RETR") in
      let list = equal verb (codes "LIST") || equal verb (codes "NLST") in
      elim (Bool-cases retr) [
        | inl e ↦ rw e (open_transfer-IsPosted _ _ s c)
        | inr e ↦ rw e (elim (Bool-cases list) [
          | inl d ↦ rw d (open_transfer-IsPosted _ _ s c)
          | inr d ↦ rw d (ftp_reply-IsPosted _ _ s c)
        ])
      ]

  run_lines-IsPosted :
      (fuel : ℕ) (f : FtpPeer) (text : List ℕ) (s : TcpSession) (c : Card P T)
      (lines : Option (List ℕ × List ℕ))
      → ((f' : FtpPeer) (left : List ℕ) (s' : TcpSession) (c' : Card P T)
          → IsPosted c' ((run_commands start_timer fuel f' left s' c').0))
      → IsPosted c (
          (elim lines as (λ _. Card P T × FtpPeer × TcpSession) [
            | none ↦ (c, f, record s { request = text })
            | some (line, left) ↦
                (let (c', f', s') = run_command start_timer f line s c in
                  run_commands start_timer fuel f' left s' c')
          ]).0)
  run_lines-IsPosted fuel f text s c none next = refl-IsPosted c
  run_lines-IsPosted fuel f text s c (some (line, left)) next =
      trans-IsPosted c _ _ (run_command-IsPosted f line s c) (next _ left _ _)

  run_commands-IsPosted :
      (fuel : ℕ) (f : FtpPeer) (text : List ℕ) (s : TcpSession) (c : Card P T)
      → IsPosted c ((run_commands start_timer fuel f text s c).0)
  unfolding run_commands
  run_commands-IsPosted zero f text s c = refl-IsPosted c
  run_commands-IsPosted (suc fuel) f text s c =
      run_lines-IsPosted fuel f text s c (split_line text)
        (λ f' left s' c'. run_commands-IsPosted fuel f' left s' c')

  respond_control-IsPosted :
      (f : FtpPeer) (s : TcpSession) (seg : Segment) (c : Card P T)
      → IsPosted c ((respond_control start_timer f s seg c).0)
  unfolding respond_control
  respond_control-IsPosted f s seg c = elim (Bool-cases (is_empty seg.payload)) [
    | inl e ↦ rw e (refl-IsPosted c)
    | inr e ↦ rw e (trans-IsPosted c _ _ (post-IsPosted _ _ c) (run_commands-IsPosted _ f _ _ _))
  ]

  finish_transfer-IsPosted :
      (f : FtpPeer) (s : TcpSession) (c : Card P T)
      → IsPosted c ((finish_transfer start_timer f s c).0)
  unfolding finish_transfer
  finish_transfer-IsPosted f s c = grind (arith, refl-IsPosted, ftp_reply-IsPosted)

  respond_data-IsPosted :
      (f : FtpPeer) (s : TcpSession) (seg : Segment) (c : Card P T)
      → IsPosted c ((respond_data start_timer f s seg c).0)
  unfolding respond_data
  respond_data-IsPosted f s seg c = elim (Bool-cases (s.streaming && not (has seg.flags 0))) [
    | inl e ↦ rw e (
        trans-IsPosted c _ _ (tcp_stream_ahead-IsPosted start_timer f.stream s seg c)
          (finish_transfer-IsPosted _ _ _))
    | inr e ↦ rw e (refl-IsPosted c)
  ]

  establish_ftp-IsPosted :
      (f : FtpPeer) (s : TcpSession) (c : Card P T)
      → IsPosted c ((establish_ftp start_timer f s c).0)
  unfolding establish_ftp
  establish_ftp-IsPosted f s c = grind (arith, ftp_reply-IsPosted, ftp_start_data-IsPosted)

  respond_ftp_session-IsPosted :
      (f : FtpPeer) (s : TcpSession) (seg : Segment) (c : Card P T)
      → IsPosted c ((respond_ftp_session start_timer f s seg c).0)
  unfolding respond_ftp_session
  respond_ftp_session-IsPosted f session seg c =
      let s : TcpSession = record session { last_window = some seg.window } in
      let f' = with_ftp_session f s in
      ground (
        arith,
        refl-IsPosted c,
        establish_ftp-IsPosted f' s c,
        respond_control-IsPosted f' s seg c,
        respond_data-IsPosted f' s seg c,
      )

  respond_ftp_segment-IsPosted :
      (f : FtpPeer) (seg : Segment) (c : Card P T)
      → IsPosted c ((respond_ftp_segment start_timer f seg c).0)
  unfolding respond_ftp_segment respond_ftp_syn
  respond_ftp_segment-IsPosted f seg c =
      grind (arith, refl-IsPosted, post-IsPosted, respond_ftp_session-IsPosted)

  pub respond_ftp-IsPosted :
      (frame : List ℕ) (c : Card P T) (f : FtpPeer)
      → IsPosted c ((respond_ftp start_timer frame c f).0)
  unfolding respond_ftp
  respond_ftp-IsPosted frame c f = grind (arith, refl-IsPosted, respond_ftp_segment-IsPosted)

  pub fire_ftp-IsPosted :
      (r : Rto) (c : Card P T) (f : FtpPeer) → IsPosted c ((fire_ftp start_timer r c f).0)
  unfolding fire_ftp
  fire_ftp-IsPosted r c f = grind (arith, refl-IsPosted, rto_expired-IsPosted)
