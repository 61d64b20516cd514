-- ===== src/Peers/Posted/Answers.antt =====
-- The UDP, ARP and ICMP responders of tools/exe-harness/net-builders.js only add to the card's schedule.
use sprinter_rtl8019a.Base.{
  ℕ, refl, ap, Bool, true, false, Option, none, some, List, arith, ◌==◌, ◌&&◌, Bool-cases, inl, inr,
  not, leb, length,
}
use sprinter_rtl8019a.Nic.Clock.{schedule, push_pending}
use sprinter_rtl8019a.Frames.Udp.{Datagram, word_at}
use sprinter_rtl8019a.Frames.Icmp.{Echo}
use sprinter_rtl8019a.Frames.Tftp.{
  Tftp, Session, is_get, matches_block, send, start_get, start_session, next_data, take_data,
  continue_session, respond_tftp,
}
use sprinter_rtl8019a.Peers.Responders.{
  Counter, IcmpPeer, DhcpPeer, Responders, PeerCard, is_dropped, with_peers, answer, answer_dhcp,
  probe, answer_echo,
}
use sprinter_rtl8019a.Peers.Dispatch.{}
use sprinter_rtl8019a.Peers.Posted.{IsPosted, refl-IsPosted, trans-IsPosted, post-IsPosted}
use sprinter_rtl8019a.Peers.Posted.Servers.{}

-- Apart from the responders' own state, `c'` is `c` with more frames generated and more entries
-- scheduled, none of them in the past.
pub record IsAnswered (c c' : PeerCard) : Type 0 where
  pub peers : Responders
  pub posted : IsPosted (with_peers c peers) c'

-- The state of the responders is replaced afterwards.
pub with_peers-IsAnswered :
    (c c' : PeerCard) (r : Responders) → IsPosted c c' → IsAnswered c (with_peers c' r)
with_peers-IsAnswered c c' r p = record {
  peers = r;
  posted = record {
    entries = p.entries;
    frames = p.frames;
    added = ap (λ (x : PeerCard). with_peers x r) p.added;
    later = p.later;
  };
}

pub answer-IsPosted : (k : Counter) (reply : List ℕ) (c : PeerCard) → IsPosted c (answer k reply c)
unfolding answer
answer-IsPosted k reply c = grind (arith, refl-IsPosted, post-IsPosted)

pub probe-IsPosted : (i : IcmpPeer) (frame : List ℕ) (c : PeerCard) → IsPosted c (probe i frame c)
unfolding probe
probe-IsPosted i frame c = grind (arith, refl-IsPosted, post-IsPosted)

pub answer_echo-IsPosted :
    (i : IcmpPeer) (frame : List ℕ) (echo : Echo) (c : PeerCard)
    → IsPosted c (answer_echo i frame echo c)
unfolding answer_echo
answer_echo-IsPosted i frame echo c = elim (Bool-cases (is_dropped i.counter)) [
  | inl e ↦ rw e (refl-IsPosted c)
  | inr e ↦ rw e (trans-IsPosted c _ _ (answer-IsPosted i.counter _ c) (probe-IsPosted i frame _))
]

pub answer_dhcp-IsAnswered :
    (h : DhcpPeer) (type : ℕ) (d : Datagram) (c : PeerCard) → IsAnswered c (answer_dhcp h type d c)
unfolding answer_dhcp
answer_dhcp-IsAnswered h type d c = elim (Bool-cases (type == 1)) [
  | inl e ↦ rw e (record { peers = _; posted = answer-IsPosted _ _ _ })
  | inr e ↦ rw e (elim (Bool-cases (type == 3)) [
    | inl d ↦ rw d (record { peers = _; posted = answer-IsPosted _ _ _ })
    | inr d ↦ rw d (record { peers = c.peers; posted = refl-IsPosted c })
  ])
]

pub send-IsPosted :
    (d : Datagram) (body : List ℕ) (t : Tftp) (c : PeerCard) → IsPosted c (send d body t c)
unfolding send schedule push_pending
send-IsPosted d body t c = record {
  entries = _;
  frames = _;
  added = refl;
  later = (omega arith, tt);
}

pub start_get-IsPosted :
    (d : Datagram) (t : Tftp) (s : Session) (negotiates : Bool) (file : Option (List ℕ))
    (c : PeerCard)
    → IsPosted c ((start_get d t s negotiates file c).0)
unfolding start_get
start_get-IsPosted d t s negotiates none c = send-IsPosted d _ _ c
start_get-IsPosted d t s true (some file) c = send-IsPosted d _ _ c
start_get-IsPosted d t s false (some file) c = send-IsPosted d _ _ c

pub start_session-IsPosted :
    (d : Datagram) (t : Tftp) (is_read : Bool) (c : PeerCard)
    → IsPosted c ((start_session d t is_read c).0)
unfolding start_session
start_session-IsPosted d t true c = start_get-IsPosted d t _ _ _ c
start_session-IsPosted d t false c = send-IsPosted d _ _ c

pub continue_session-IsPosted :
    (d : Datagram) (t : Tftp) (session : Option Session) (c : PeerCard)
    → IsPosted c ((continue_session d t session c).0)
unfolding continue_session next_data take_data
continue_session-IsPosted d t none c = refl-IsPosted c
continue_session-IsPosted d t (some s) c =
    let opcode = word_at d.payload 0 in
    elim (Bool-cases ((opcode == 4) && is_get s.mode && (length d.payload == 4))) [
      | inl e ↦ rw e (elim (Bool-cases (matches_block s.final_block (word_at d.payload 2))) [
        | inl m ↦ rw m (refl-IsPosted c)
        | inr m ↦ rw m (send-IsPosted d _ _ c)
      ])
      | inr e ↦
          rw e
            (elim (Bool-cases ((opcode == 3) && not (is_get s.mode) && leb 4 (length d.payload))) [
              | inl m ↦ rw m (send-IsPosted d _ _ c)
              | inr m ↦ rw m (refl-IsPosted c)
            ])
    ]

pub respond_tftp-IsPosted :
    (d : Datagram) (c : PeerCard) (t : Tftp) → IsPosted c ((respond_tftp d c t).0)
unfolding respond_tftp
respond_tftp-IsPosted d c t =
    grind (arith, refl-IsPosted, start_session-IsPosted, continue_session-IsPosted)
