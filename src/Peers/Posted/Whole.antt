-- ===== src/Peers/Posted/Whole.antt =====
-- `respond` of tools/exe-harness/net-builders.js and the timers of its peers only add to the card's
-- schedule, so that they can stand behind the card's `onTransmit`.
use sprinter_rtl8019a.Base.{
  ℕ, ◌≡◌, ◌∙◌, ap, sym, Bool, true, false, Option, none, some, List, arith, Result, ok, err,
  if◌then◌else◌, Bool-cases, inl, inr, or_default,
}
use sprinter_rtl8019a.Nic.Types.{Env, Fault}
use sprinter_rtl8019a.Nic.Run.{Cycle, run}
use sprinter_rtl8019a.Nic.Run.Settled.{IsSettled, HookKeeps}
use sprinter_rtl8019a.Nic.Run.Invariant.{run-IsSettled}
use sprinter_rtl8019a.Frames.Udp.{Datagram, udp_datagram}
use sprinter_rtl8019a.Frames.Icmp.{icmp_echo_request}
use sprinter_rtl8019a.Frames.Tftp.{}
use sprinter_rtl8019a.Peers.Responders.{
  Counter, Responders, PeerTimer, tcp_timer, ftp_timer, PeerCard, is_dropped, with_peers, Claim,
  or_else, answer_dns,
}
use sprinter_rtl8019a.Peers.Dispatch.{
  try_arp, try_ftp, try_tcp, try_icmp, try_dhcp, try_dns, try_ntp, try_tftp, try_udp, try_datagram,
  claim, respond, fire_peer, with_responders,
}
use sprinter_rtl8019a.Peers.Posted.{refl-IsPosted}
use sprinter_rtl8019a.Peers.Posted.Servers.{respond_tcp-IsPosted, fire_tcp-IsPosted}
use sprinter_rtl8019a.Peers.Posted.FtpServer.{respond_ftp-IsPosted, fire_ftp-IsPosted}
use sprinter_rtl8019a.Peers.Posted.Answers.{
  IsAnswered, with_peers-IsAnswered, answer-IsPosted, answer_echo-IsPosted, answer_dhcp-IsAnswered,
  respond_tftp-IsPosted,
}

abbrev IsClaimAnswered : PeerCard → Claim → Type 0
IsClaimAnswered c none = Unit
IsClaimAnswered c (some (err f)) = Unit
IsClaimAnswered c (some (ok c')) = IsAnswered c c'

-- The shapes of a claim: an absent responder, and a frame that it may leave.
on_some-IsClaimAnswered :
    {A : Type 0} (c : PeerCard) (o : Option A) (f : A → Claim)
    → ((a : A) → IsClaimAnswered c (f a))
    → IsClaimAnswered c (elim o [ none ↦ none | some a ↦ f a ])
on_some-IsClaimAnswered c none f h = tt
on_some-IsClaimAnswered c (some a) f h = h a

on_if-IsClaimAnswered :
    (c : PeerCard) (b : Bool) (x : Result Fault PeerCard)
    → IsClaimAnswered c (some x)
    → IsClaimAnswered c (if b then some x else none)
on_if-IsClaimAnswered c true x h = h
on_if-IsClaimAnswered c false x h = tt

try_arp-IsClaimAnswered : (frame : List ℕ) (c : PeerCard) → IsClaimAnswered c (try_arp frame c)
unfolding try_arp
try_arp-IsClaimAnswered frame c =
    on_some-IsClaimAnswered c (c.peers.arp) _
      λ a. on_if-IsClaimAnswered c _ _ (record { peers = _; posted = answer-IsPosted _ _ _ })

try_ftp-IsClaimAnswered : (frame : List ℕ) (c : PeerCard) → IsClaimAnswered c (try_ftp frame c)
unfolding try_ftp
try_ftp-IsClaimAnswered frame c = on_some-IsClaimAnswered c (c.peers.ftp) _ λ f.
    on_if-IsClaimAnswered c _ _
      (with_peers-IsAnswered c _ _ (respond_ftp-IsPosted ftp_timer frame c f))

try_icmp-IsClaimAnswered : (frame : List ℕ) (c : PeerCard) → IsClaimAnswered c (try_icmp frame c)
unfolding try_icmp
try_icmp-IsClaimAnswered frame c = on_some-IsClaimAnswered c (c.peers.icmp) _ λ i.
    on_some-IsClaimAnswered c (icmp_echo_request frame) _
      λ echo. record { peers = _; posted = answer_echo-IsPosted _ frame echo _ }

try_tcp-IsClaimAnswered : (frame : List ℕ) (c : PeerCard) → IsClaimAnswered c (try_tcp frame c)
unfolding try_tcp
try_tcp-IsClaimAnswered frame c = on_some-IsClaimAnswered c (c.peers.tcp) _ λ t.
    on_if-IsClaimAnswered c _ _
      (with_peers-IsAnswered c _ _ (respond_tcp-IsPosted tcp_timer frame c t))

try_dhcp-IsClaimAnswered : (d : Datagram) (c : PeerCard) → IsClaimAnswered c (try_dhcp d c)
unfolding try_dhcp
try_dhcp-IsClaimAnswered d c =
    on_some-IsClaimAnswered c (c.peers.dhcp) _
      λ h. on_if-IsClaimAnswered c _ _ (answer_dhcp-IsAnswered h _ d c)

answer_dns-IsClaimAnswered :
    (k : Counter) (reply : Option (List ℕ)) (c : PeerCard) (r : Responders)
    → IsClaimAnswered c (some (answer_dns k reply (with_peers c r)))
unfolding answer_dns
answer_dns-IsClaimAnswered k none c r = elim (Bool-cases (is_dropped k)) [
  | inl e ↦ rw e (record { peers = r; posted = refl-IsPosted _ })
  | inr e ↦ rw e tt
]
answer_dns-IsClaimAnswered k (some reply) c r = record {
  peers = r;
  posted = answer-IsPosted k reply _;
}

try_dns-IsClaimAnswered : (d : Datagram) (c : PeerCard) → IsClaimAnswered c (try_dns d c)
unfolding try_dns
try_dns-IsClaimAnswered d c =
    on_some-IsClaimAnswered c (c.peers.dns) _
      λ a. on_if-IsClaimAnswered c _ _ (answer_dns-IsClaimAnswered _ _ c _)

try_ntp-IsClaimAnswered : (d : Datagram) (c : PeerCard) → IsClaimAnswered c (try_ntp d c)
unfolding try_ntp
try_ntp-IsClaimAnswered d c =
    on_some-IsClaimAnswered c (c.peers.ntp) _
      λ a. on_if-IsClaimAnswered c _ _ (record { peers = _; posted = answer-IsPosted _ _ _ })

try_tftp-IsClaimAnswered : (d : Datagram) (c : PeerCard) → IsClaimAnswered c (try_tftp d c)
unfolding try_tftp
try_tftp-IsClaimAnswered d c =
    on_some-IsClaimAnswered c (c.peers.tftp) _
      λ t. with_peers-IsAnswered c _ _ (respond_tftp-IsPosted d c t)

try_udp-IsClaimAnswered : (d : Datagram) (c : PeerCard) → IsClaimAnswered c (try_udp d c)
unfolding try_udp
try_udp-IsClaimAnswered d c =
    on_some-IsClaimAnswered c (c.peers.udp) _
      λ u. on_if-IsClaimAnswered c _ _ (record { peers = _; posted = answer-IsPosted _ _ _ })

or_else-IsClaimAnswered :
    (c : PeerCard) (x y : Claim)
    → IsClaimAnswered c x
    → IsClaimAnswered c y
    → IsClaimAnswered c (or_else x y)
or_else-IsClaimAnswered c none y hx hy = hy
or_else-IsClaimAnswered c (some r) y hx hy = hx

try_datagram-IsClaimAnswered :
    (d : Option Datagram) (c : PeerCard) → IsClaimAnswered c (try_datagram d c)
unfolding try_datagram
try_datagram-IsClaimAnswered none c = tt
try_datagram-IsClaimAnswered (some d) c =
    or_else-IsClaimAnswered c _ _ (try_dhcp-IsClaimAnswered d c) (
      or_else-IsClaimAnswered c _ _ (try_dns-IsClaimAnswered d c) (
        or_else-IsClaimAnswered c _ _ (try_ntp-IsClaimAnswered d c) (
          or_else-IsClaimAnswered c _ _ (try_tftp-IsClaimAnswered d c)
            (try_udp-IsClaimAnswered d c))))

claim-IsClaimAnswered : (frame : List ℕ) (c : PeerCard) → IsClaimAnswered c (claim frame c)
unfolding claim
claim-IsClaimAnswered frame c = or_else-IsClaimAnswered c _ _ (try_arp-IsClaimAnswered frame c) (
    or_else-IsClaimAnswered c _ _ (try_ftp-IsClaimAnswered frame c) (
      or_else-IsClaimAnswered c _ _ (try_tcp-IsClaimAnswered frame c) (
        or_else-IsClaimAnswered c _ _ (try_icmp-IsClaimAnswered frame c)
          (try_datagram-IsClaimAnswered (udp_datagram frame) c))))

abbrev from_ok : PeerCard → Result Fault PeerCard → PeerCard
from_ok c (ok d) = d
from_ok c (err f) = c

claimed :
    (c c' : PeerCard) (x : Claim)
    → IsClaimAnswered c x
    → or_default x (ok c) ≡ ok c'
    → IsAnswered c c'
claimed c c' none h e =
    rw (sym (ap (from_ok c) e)) (record { peers = c.peers; posted = refl-IsPosted c })
claimed c c' (some (ok d)) h e = rw (sym (ap (from_ok c) e)) h
claimed c c' (some (err f)) h e = ground arith

-- Whatever frame is transmitted, and whatever responders there are: if `respond` returns, then the card
-- is, apart from the state of the responders, the one before with more frames generated and more
-- entries scheduled, each due now or later.
pub respond-IsAnswered :
    (frame : List ℕ) (c c' : PeerCard) → respond frame c ≡ ok c' → IsAnswered c c'
unfolding respond
respond-IsAnswered frame c c' e = claimed c c' (claim frame c) (claim-IsClaimAnswered frame c) e

fire_some :
    {A : Type 0} (c : PeerCard) (o : Option A) (f : A → PeerCard)
    → ((a : A) → IsAnswered c (f a))
    → IsAnswered c (elim o [ none ↦ c | some a ↦ f a ])
fire_some c none f h = record { peers = c.peers; posted = refl-IsPosted c }
fire_some c (some a) f h = h a

-- The same of a timer.
pub fire_peer-IsAnswered : (t : PeerTimer) (c : PeerCard) → IsAnswered c (fire_peer t c)
unfolding fire_peer
fire_peer-IsAnswered (tcp_timer r) c =
    fire_some c (c.peers.tcp) _ λ t. with_peers-IsAnswered c _ _ (fire_tcp-IsPosted tcp_timer r c t)
fire_peer-IsAnswered (ftp_timer r) c =
    fire_some c (c.peers.ftp) _ λ f. with_peers-IsAnswered c _ _ (fire_ftp-IsPosted ftp_timer r c f)

-- So the remote DMA is left alone, as the card's invariant asks of a hook.
pub with_responders-HookKeeps : (env : Env Responders PeerTimer) → HookKeeps (with_responders env)
unfolding with_responders
with_responders-HookKeeps env hook frame c c' o e =
    let a : IsAnswered c c' =
      respond-IsAnswered frame c c' (ap (λ h. or_default h respond frame c) o ∙ e) in
    (
      ap (λ (x : PeerCard). x.dma_active) a.posted.added,
      ap (λ (x : PeerCard). x.dma_direction) a.posted.added,
    )

-- With the responders behind the card, no sequence of bus cycles that runs without a throw leaves a
-- transmission pending, or the remote DMA with a direction but inactive or active without one, if it
-- was not so before.
pub run-with_responders-IsSettled :
    (env : Env Responders PeerTimer) (cycles : List Cycle) (c c' : PeerCard) (values : List ℕ)
    → IsSettled c
    → run (with_responders env) c cycles ≡ ok (values, c')
    → IsSettled c'
run-with_responders-IsSettled env =
    run-IsSettled (with_responders env) (with_responders-HookKeeps env)
