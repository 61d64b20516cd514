-- ===== src/Frames/Tftp/Tests.antt =====
-- Transfers of tools/exe-harness/net-builders.js on concrete input.
use mathlib.Core.List.{flatten}
use sprinter_rtl8019a.Base.{
  ℕ, ◌≡◌, refl, true, false, none, some, List, [], ◌∷◌, arith, map, word_of_lem,
}
use sprinter_rtl8019a.Nic.Types.{Card}
use sprinter_rtl8019a.Nic.Build.{Scenario, rtl8019as, default_quirks, new_card}
use sprinter_rtl8019a.Nic.Prom.{Layout}
use sprinter_rtl8019a.Nic.Types.{never}
use sprinter_rtl8019a.Nic.Clock.Sent.{IsSent}
use sprinter_rtl8019a.Frames.Udp.{Datagram, udp_datagram}
use sprinter_rtl8019a.Frames.Checksum.{default_server_mac}
use sprinter_rtl8019a.Frames.Tftp.{Session, get_file, Tftp, respond_tftp, tftp_read_cstring}
use sprinter_rtl8019a.Frames.Tftp.Upload.{block_packets, respond_all, respond_tftp-upload}
use sprinter_rtl8019a.Frames.Tftp.Download.{ack_packet, reply_to, respond_tftp-next_block}
use sprinter_rtl8019a.Frames.Tftp.Whole.{ack_packets, carried, respond_tftp-download}

abbrev bare : Scenario
bare = record {
  card_present = true;
  slot = 0;
  base = none;
  mac = none;
  variant = rtl8019as;
  quirks = default_quirks;
  prom_layout = Layout.direct;
  prom_signature = none;
  cfg0 = none;
  cfg1 = none;
  cfg2 = none;
  cfg3 = none;
  cfg4 = none;
  poison = false;
  corrupt_dma_read_at = none;
  tx_error = never;
  rx_frames = [];
}

abbrev card : Card Unit Unit
card = new_card bare tt

-- A server with blocks of three bytes.
abbrev server : Tftp
server = record {
  port = none;
  server_port = some 4000;
  files = [];
  oack_blksize = some 3;
  mac = none;
  after_ms = none;
  session = none;
  uploads = [];
}

-- From a client's port to a port of the server; the request writes the file `A`.
abbrev to_port : ℕ → Datagram
to_port port = record {
  source_mac = 2 ∷ 128 ∷ 25 ∷ 17 ∷ 34 ∷ 51 ∷ [];
  dest_mac = 2 ∷ 0 ∷ 0 ∷ 0 ∷ 0 ∷ 1 ∷ [];
  source_ip = 192 ∷ 168 ∷ 7 ∷ 2 ∷ [];
  dest_ip = 192 ∷ 168 ∷ 7 ∷ 1 ∷ [];
  source_port = 49152;
  dest_port = port;
  payload = 0 ∷ 2 ∷ 65 ∷ 0 ∷ 111 ∷ 0 ∷ [];
}

respond_tftp-upload_example :
    (respond_all
      (to_port 69
        ∷ block_packets (to_port 4000) 1 ((1 ∷ 2 ∷ 3 ∷ []) ∷ (4 ∷ 5 ∷ 6 ∷ []) ∷ []) (7 ∷ []))
      card
      server).1.uploads
    ≡ (65 ∷ [], 1 ∷ 2 ∷ 3 ∷ 4 ∷ 5 ∷ 6 ∷ 7 ∷ []) ∷ []
unfolding tftp_read_cstring flatten
respond_tftp-upload_example =
    respond_tftp-upload (to_port 69) (to_port 4000) ((1 ∷ 2 ∷ 3 ∷ []) ∷ (4 ∷ 5 ∷ 6 ∷ []) ∷ [])
      (7 ∷ []) card server refl (word_of_lem 0 2 (omega arith)) (omega arith) refl
      (omega arith, (omega arith, tt)) (omega arith)

-- A read of seven bytes, of which two blocks are sent.
abbrev reading_session : Session
reading_session = record {
  mode = get_file;
  name = 65 ∷ [];
  block_size = 3;
  server_port = 4000;
  expected = 1;
  chunks = [];
  file = 1 ∷ 2 ∷ 3 ∷ 4 ∷ 5 ∷ 6 ∷ 7 ∷ [];
  final_block = none;
}

abbrev serving : Tftp
serving = record server { session = some reading_session }

respond_tftp-next_block_example :
    let after = respond_tftp (ack_packet (to_port 4000) 2) card serving in
    (frame : List ℕ) × IsSent 1 (frame ∷ []) card after.0
    × (udp_datagram frame
        ≡ some
            (reply_to (to_port 4000) default_server_mac reading_session (0 ∷ 3 ∷ 0 ∷ 3 ∷ 7 ∷ [])))
    × (after.1.session ≡ some (record reading_session { final_block = some 3 }))
unfolding default_server_mac
respond_tftp-next_block_example =
    respond_tftp-next_block (to_port 4000) card serving reading_session 2 refl refl refl
      (omega arith) refl
      (record { source_mac = refl; source_ip = refl; dest_ip = refl; server_mac = refl })

respond_tftp-download_example :
    (frames : List (List ℕ)) × IsSent 1 frames card
      (respond_all (ack_packets (to_port 4000) 0 3) card serving).0
    × (flatten (map carried frames) ≡ 1 ∷ 2 ∷ 3 ∷ 4 ∷ 5 ∷ 6 ∷ 7 ∷ [])
unfolding default_server_mac
respond_tftp-download_example =
    respond_tftp-download (to_port 4000) 3 card serving reading_session refl refl refl (omega arith)
      refl (omega arith) (omega arith)
      (record { source_mac = refl; source_ip = refl; dest_ip = refl; server_mac = refl })
