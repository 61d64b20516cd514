-- ===== src/Peers/Stream/Offsets.antt =====
-- The two offsets of a stream of tools/exe-harness/net-builders.js, lines 532-559.
use sprinter_rtl8019a.Base.{
  ℕ, ◌≤◌, ◌≡◌, refl, ap, ◌∙◌, true, ◌||◌, Option, none, some, [], arith, ◌==◌, is_some, or_default,
  length,
}
use sprinter_rtl8019a.Peers.Session.{TcpSession, StreamOptions, response_bytes}
use sprinter_rtl8019a.Peers.Stream.{sent, take_progress, count_dup_ack, start_stream}

-- The offsets of a stream: nothing is acknowledged before the first segment, and neither offset is
-- beyond the response.
pub record IsStream (s : TcpSession) : Type 0 where
  pub fresh : (s.acked_offset == 0) || is_some s.sent_offset ≡ true
  pub acked : s.acked_offset ≤ length (response_bytes s)
  pub ahead : sent s ≤ length (response_bytes s)

-- What a segment does to the offsets before anything is sent.
pub record IsMoved (s s' : TcpSession) : Type 0 where
  pub response : s'.response ≡ s.response
  pub started : is_some s'.sent_offset ≡ true
  pub onwards : s.acked_offset ≤ s'.acked_offset
  pub acked : s'.acked_offset ≤ length (response_bytes s')
  pub sent_below : sent s' ≤ sent s

pub start_stream-IsMoved : (s : TcpSession) → IsStream s → IsMoved s (start_stream s)
start_stream-IsMoved s v = split (s.sent_offset) refl
  where
    split : (o : Option ℕ) → s.sent_offset ≡ o → IsMoved s (start_stream s)
    split none e = rw e (record {
      response = refl;
      started = refl;
      onwards = ground (arith, v.fresh, e);
      acked = omega arith;
      sent_below = omega arith;
    })
    split (some n) e = rw e (record {
      response = refl;
      started = refl;
      onwards = omega arith;
      acked = v.acked;
      sent_below = omega arith;
    })

pub take_progress-IsMoved :
    (s : TcpSession) (ack now : ℕ) → IsMoved s s → IsMoved s (take_progress s ack now)
unfolding take_progress
take_progress-IsMoved s ack now m = ground (arith, m.started, m.acked)

pub count_dup_ack-IsMoved :
    (o : StreamOptions) (s : TcpSession) (ack : ℕ) → IsMoved s s → IsMoved s (count_dup_ack o s ack)
unfolding count_dup_ack
count_dup_ack-IsMoved o s ack m = ground (arith, m.started, m.acked)

pub self-IsMoved : (s s' : TcpSession) → IsMoved s s' → IsMoved s' s'
self-IsMoved s s' m = record {
  response = refl;
  started = m.started;
  onwards = omega arith;
  acked = m.acked;
  sent_below = omega arith;
}

pub trans-IsMoved : (s t u : TcpSession) → IsMoved s t → IsMoved t u → IsMoved s u
trans-IsMoved s t u m n = record {
  response = n.response ∙ m.response;
  started = n.started;
  onwards = omega (arith, m.onwards, n.onwards);
  acked = n.acked;
  sent_below = omega (arith, m.sent_below, n.sent_below);
}

pub response-length :
    (s s' : TcpSession)
    → s'.response ≡ s.response
    → length (response_bytes s') ≡ length (response_bytes s)
response-length s s' e = ap (λ r. length (or_default r [])) e

pub moved-IsStream : (s s' : TcpSession) → IsMoved s s' → IsStream s → IsStream s'
moved-IsStream s s' m v = record {
  fresh = ground (arith, m.started);
  acked = m.acked;
  ahead = omega (arith, m.sent_below, v.ahead, response-length s s' m.response);
}
