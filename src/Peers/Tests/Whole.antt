-- ===== src/Peers/Tests/Whole.antt =====
-- `respond` of tools/exe-harness/net-builders.js on concrete input.
use sprinter_rtl8019a.Base.{
  set_low, set_high, ℕ, ◌≡◌, refl, true, false, none, some, List, [], ◌∷◌, map, drop, ok, err,
}
use sprinter_rtl8019a.Nic.Types.{Env}
use sprinter_rtl8019a.Nic.Build.{new_card, new_env}
use sprinter_rtl8019a.Nic.Run.{Cycle, rd, wr, run}
use sprinter_rtl8019a.Nic.Run.Settled.{IsSettled}
use sprinter_rtl8019a.Frames.Checksum.{default_server_mac, broadcast_mac, pad_to_60}
use sprinter_rtl8019a.Frames.Arp.{ArpOptions, build_arp_request, build_arp_reply, is_arp_request}
use sprinter_rtl8019a.Peers.Responders.{Counter, Responders, PeerTimer, PeerCard}
use sprinter_rtl8019a.Peers.Dispatch.{
  respond, with_responders, claim, try_arp, try_ftp, try_tcp, try_icmp, try_datagram,
}
use sprinter_rtl8019a.Peers.Dispatch.Drops.{respond_all, respond_all-arp}
use sprinter_rtl8019a.Peers.Posted.Answers.{IsAnswered}
use sprinter_rtl8019a.Peers.Posted.Whole.{respond-IsAnswered, run-with_responders-IsSettled}
use sprinter_rtl8019a.Nic.Clock.{schedule, push_pending}
use sprinter_rtl8019a.Nic.Clock.Sent.{IsSent}
use sprinter_rtl8019a.Nic.Transmit.{
  tx_frame, ram_slice, slice_index, should_fail, clear_txp, loopback_active, put_on_wire,
  finish_transmit, do_transmit,
}
use sprinter_rtl8019a.Nic.Control.{write_cr, stop_or_start, remote_command}
use sprinter_rtl8019a.Nic.Faults.{
  bus_missed, miss, poke, write_dropped, flipped, glitched, rx_glitched,
}
use sprinter_rtl8019a.Nic.Regs.{
  write_reg, write_taken, write_latched, write_page0, count_cycle, read_reg, read_answered,
  read_reg_raw, read_faults,
}
use sprinter_rtl8019a.Frames.Icmp.{icmp_echo_request}
use sprinter_rtl8019a.Frames.Udp.{udp_datagram}
use sprinter_rtl8019a.Peers.Tests.{bare}

abbrev once : Counter
once = record { drop = 1; drops = false; after_ms = none; count = 0 }

abbrev plain_arp : ArpOptions
plain_arp = record { mac = none; ip = none; bad_opcode = false; foreign_destination = false }

abbrev responders : Responders
responders = record {
  arp = some (once, plain_arp);
  ftp = none;
  tcp = none;
  icmp = none;
  dhcp = none;
  dns = none;
  ntp = none;
  tftp = none;
  udp = none;
}

abbrev peer_card : PeerCard
peer_card = new_card bare responders

abbrev who_has : List ℕ
who_has = build_arp_request (192 ∷ 168 ∷ 7 ∷ 1 ∷ []) plain_arp

who_has-known : is_arp_request who_has ≡ true
unfolding default_server_mac broadcast_mac pad_to_60 build_arp_request is_arp_request
who_has-known = refl

respond_all-arp_example :
    (c' : PeerCard) × (respond_all (who_has ∷ who_has ∷ []) peer_card ≡ ok c')
    × IsSent 1
        (map (λ frame. build_arp_reply frame plain_arp) (drop 1 (who_has ∷ who_has ∷ [])))
        peer_card
        c'
    × (c'.peers.arp ≡ some (record once { count = 2 }, plain_arp))
unfolding new_card
respond_all-arp_example =
    respond_all-arp (who_has ∷ who_has ∷ []) peer_card once plain_arp refl refl
      (who_has-known, (who_has-known, tt))

abbrev answered_card : PeerCard
answered_card = elim (respond who_has peer_card) [ err f ↦ peer_card | ok c ↦ c ]

respond-IsAnswered_example : IsAnswered peer_card answered_card
unfolding respond claim try_arp new_card build_arp_request is_arp_request default_server_mac
    pad_to_60 broadcast_mac
respond-IsAnswered_example = respond-IsAnswered who_has peer_card answered_card refl

abbrev peer_env : Env Responders PeerTimer
peer_env = new_env bare none (λ t c. c)

peer_card-IsSettled : IsSettled peer_card
unfolding new_card
peer_card-IsSettled = record { txp_clear = refl; directed = refl }

-- A frame of 60 zero bytes is transmitted, which no responder claims.
abbrev send_cycles : List Cycle
send_cycles =
    wr 0 0x22 ∷ wr 1 0x46 ∷ wr 2 0x80 ∷ wr 5 60 ∷ wr 6 0 ∷ wr 4 0x40 ∷ wr 0 0x26 ∷ rd 0 ∷ []

abbrev sent_card : PeerCard
sent_card = elim (run (with_responders peer_env) peer_card send_cycles) [
  | err f ↦ peer_card
  | ok (values, c) ↦ c
]

run-with_responders-IsSettled_example : IsSettled sent_card
unfolding with_responders respond claim try_arp try_ftp try_tcp try_icmp try_datagram is_arp_request
    icmp_echo_request udp_datagram new_env new_card run write_reg count_cycle write_taken bus_missed
    miss poke write_dropped flipped write_latched write_cr stop_or_start remote_command do_transmit
    tx_frame ram_slice slice_index should_fail clear_txp loopback_active put_on_wire finish_transmit
    schedule push_pending write_page0 read_reg read_answered read_reg_raw read_faults glitched
    rx_glitched set_low set_high
run-with_responders-IsSettled_example =
    run-with_responders-IsSettled peer_env send_cycles peer_card sent_card (0x22 ∷ [])
      peer_card-IsSettled refl
