-- ===== src/Peers/Stream/Bounds.antt =====
-- How far the sender of tools/exe-harness/net-builders.js, lines 532-605, runs ahead.
use sprinter_rtl8019a.Base.{ℕ, ◌+◌, ◌≤◌, ◌≡◌, true, max, is_some, length}
use sprinter_rtl8019a.Nic.Types.{Card}
use sprinter_rtl8019a.Peers.Session.{TcpSession, Rto}
use sprinter_rtl8019a.Peers.Stream.{sent}

module _ {P T : Type 0} (start_timer : Rto → T) where
  -- The rounds of one burst from `s` to `s'`, up to `rounds` of them.
  record IsBurst (window mss total rounds : ℕ) (s s' : TcpSession) (c c' : Card P T) : Type 0 where
    acked : s'.acked_offset ≡ s.acked_offset
    response : s'.response ≡ s.response
    onwards : sent s ≤ sent s'
    inside : sent s ≤ total → sent s' ≤ total
    admitted : sent s' ≤ max (sent s) (window + s.acked_offset)
    started : is_some s.sent_offset ≡ true → is_some s'.sent_offset ≡ true
    frames : length c'.generated ≤ length c.generated + rounds
