-- ===== src/Peers/Chunks/Delivered.antt =====
-- The chunks of `tcpSendNextChunk` (tools/exe-harness/net-builders.js, lines 455-476) at a receiver.
use sprinter_rtl8019a.Base.{
  ℕ, zero, suc, ◌+◌, ◌-◌, ◌*◌, ◌≤◌, ◌<◌, ◌≡◌, refl, sym, ap, ◌∙◌, Bool, true, false, List, [], ◌∷◌,
  ◌++◌, arith, min, leb, length, or_default, length-take, length-drop, drop, slice, drop-drop,
  drop_of_le, take-drop_rest, u32, Bool-cases, inl, inr,
}
use mathlib.Core.Path.{subst}
use sprinter_rtl8019a.Nic.Types.{Card}
use sprinter_rtl8019a.Nic.Clock.Sent.{IsSent, append-IsSent}
use sprinter_rtl8019a.Peers.Session.{
  TcpSession, StreamOptions, tf_fin, tf_psh, tf_ack, server_segment, peer_mss, response_bytes, post,
  post-IsSent,
}
use sprinter_rtl8019a.Peers.Chunks.{send_fin, send_chunk, tcp_send_next_chunk}
use sprinter_rtl8019a.Peers.Chunks.Receiver.{received, IsSendable, received-in_order}

-- A list in the chunks of a sender: one chunk, and what comes behind it.
chunk-rest :
    (mss off : ℕ) (r : List ℕ)
    → let chunk = slice off (off + mss) r in chunk ++ drop (off + length chunk) r ≡ drop off r
chunk-rest mss off r =
    let chunk = slice off (off + mss) r in
    ap (λ t. chunk ++ t) (sym (drop-drop (length chunk) off (off + length chunk) r refl))
    ∙ take-drop_rest (off + mss - off) (drop off r)

-- The session behind a chunk, and the segment that carries the chunk.
abbrev chunk_of : StreamOptions → TcpSession → List ℕ
chunk_of o s = slice s.send_offset (s.send_offset + peer_mss o s) (response_bytes s)

abbrev behind_chunk : StreamOptions → TcpSession → TcpSession
behind_chunk o s = record s {
  server_seq = u32 (s.server_seq + length (chunk_of o s));
  send_offset = s.send_offset + length (chunk_of o s);
}

abbrev chunk_segment : StreamOptions → TcpSession → List ℕ
chunk_segment o s =
    server_segment s.ends (tf_psh + tf_ack) s.server_seq s.client_next (chunk_of o s)

module _ {P T : Type 0} where
  -- `calls` of the function in a row, one for each ACK.
  unfoldable pub send_chunks : ℕ → StreamOptions → TcpSession → Card P T → Card P T × TcpSession
  send_chunks zero o s c = (c, s)
  send_chunks (suc calls) o s c =
      let (c', s') = tcp_send_next_chunk o s c in send_chunks calls o s' c'

  -- Behind the FIN nothing is sent.
  send_chunks-after_fin :
      (calls : ℕ) (o : StreamOptions) (s : TcpSession) (c : Card P T)
      → length (response_bytes s) ≤ s.send_offset
      → s.fin_sent ≡ true
      → send_chunks calls o s c ≡ (c, s)
  unfolding send_chunks tcp_send_next_chunk send_fin
  send_chunks-after_fin zero o s c h f = refl
  send_chunks-after_fin (suc calls) o s c h f =
      let e : leb (length (response_bytes s)) s.send_offset ≡ true = ground arith in
      simp (e, f) (send_chunks-after_fin calls o s c h f)

  -- What a run of calls has done for the receiver: exactly these frames are sent, they carry the rest
  -- of the response up to the FIN, and further calls change nothing.
  abbrev Delivered : StreamOptions → TcpSession → Card P T → Card P T × TcpSession → Type 0
  Delivered o s c r =
      (frames : List (List ℕ)) × IsSent (or_default o.after_ms 1) frames c (r.0)
      × (received s.server_seq frames ≡ (drop s.send_offset (response_bytes s), true))
      × ((more : ℕ) → send_chunks more o (r.1) (r.0) ≡ (r.0, r.1))

  fin_call :
      (calls : ℕ) (o : StreamOptions) (s : TcpSession) (c : Card P T)
      → s.fin_sent ≡ false
      → length (response_bytes s) ≤ s.send_offset
      → send_chunks (suc calls) o s c ≡ (
        post
            (or_default o.after_ms 1)
            (server_segment s.ends (tf_fin + tf_ack) s.server_seq s.client_next [])
            c,
        record s { fin_sent = true },
      )
  unfolding send_chunks tcp_send_next_chunk send_fin
  fin_call calls o s c f h =
      let e : leb (length (response_bytes s)) s.send_offset ≡ true = ground arith in
      simp (e, f) (send_chunks-after_fin calls o (record s { fin_sent = true }) _ h refl)

  last_call :
      (calls : ℕ) (o : StreamOptions) (s : TcpSession) (c : Card P T)
      → IsSendable o s
      → s.fin_sent ≡ false
      → length (response_bytes s) ≤ s.send_offset
      → Delivered o s c (send_chunks (suc calls) o s c)
  last_call calls o s c v f h =
      let done : TcpSession = record s { fin_sent = true } in
      let fin = server_segment s.ends (tf_fin + tf_ack) s.server_seq s.client_next [] in
      subst (Delivered o s c) (sym (fin_call calls o s c f h)) (
        fin ∷ [],
        post-IsSent (or_default o.after_ms 1) fin c,
        received-in_order o s (tf_fin + tf_ack) [] [] v (omega arith) (omega arith)
            ∙ ap (λ x. (x, true)) (sym (drop_of_le s.send_offset (response_bytes s) h)),
        λ more. send_chunks-after_fin more o done _ h refl,
      )

  chunk_call :
      (calls : ℕ) (o : StreamOptions) (s : TcpSession) (c : Card P T)
      → s.send_offset < length (response_bytes s)
      → send_chunks (suc calls) o s c
        ≡ send_chunks calls o
            (behind_chunk o s)
            (post (or_default o.after_ms 1) (chunk_segment o s) c)
  unfolding send_chunks tcp_send_next_chunk send_chunk
  chunk_call calls o s c h =
      let e : leb (length (response_bytes s)) s.send_offset ≡ false = ground arith in simp e

  next_call :
      (calls : ℕ) (o : StreamOptions) (s : TcpSession) (c : Card P T)
      → IsSendable o s
      → length (response_bytes s) ≤ s.send_offset + suc calls * peer_mss o s
      → s.send_offset < length (response_bytes s)
      → ((s' : TcpSession) (c' : Card P T)
          → IsSendable o s'
          → s'.fin_sent ≡ s.fin_sent
          → length (response_bytes s') ≤ s'.send_offset + calls * peer_mss o s'
          → Delivered o s' c' (send_chunks (suc calls) o s' c'))
      → Delivered o s c (send_chunks (suc (suc calls)) o s c)
  next_call calls o s c v h less later =
      let r = response_bytes s in
      let size : length (chunk_of o s) ≡ min (peer_mss o s) (length r - s.send_offset) = omega (
        arith,
        length-take (s.send_offset + peer_mss o s - s.send_offset) (drop s.send_offset r),
        length-drop s.send_offset r,
      ) in
      let c' = post (or_default o.after_ms 1) (chunk_segment o s) c in
      let (frames, sent, got, rest) =
        later (behind_chunk o s) c'
          (record {
            server_mac = v.server_mac;
            client_mac = v.client_mac;
            server_ip = v.server_ip;
            client_ip = v.client_ip;
            server_port = v.server_port;
            client_port = v.client_port;
            server_seq = omega arith;
            client_next = v.client_next;
            positive = v.positive;
            fits = v.fits;
          })
          refl (omega (arith, size, h, less)) in
      subst (Delivered o s c) (sym (chunk_call (suc calls) o s c less)) (
        chunk_segment o s ∷ frames,
        append-IsSent (or_default o.after_ms 1) (chunk_segment o s ∷ []) frames c c'
            (send_chunks (suc calls) o (behind_chunk o s) c').0
            (post-IsSent (or_default o.after_ms 1) (chunk_segment o s) c) sent,
        received-in_order o s (tf_psh + tf_ack) (chunk_of o s) frames v (omega arith)
              (omega (arith, v.fits, size))
            ∙ ap (λ (x : List ℕ × Bool). (chunk_of o s ++ x.0, x.1)) got
            ∙ ap (λ x. (x, true)) (chunk-rest (peer_mss o s) s.send_offset r),
        rest,
      )

  -- Called again and again, once for each ACK, the function sends exactly these frames, each scheduled
  -- for the time that `afterMs` says: a receiver that takes segments in order, whole and followed by a
  -- FIN, gets the rest of the response out of them, in one call more than there are chunks. Calls
  -- beyond that change nothing, so that they send nothing. The numbers of the segments may wrap around.
  pub send_chunks-received :
      (calls : ℕ) (o : StreamOptions) (s : TcpSession) (c : Card P T)
      → IsSendable o s
      → s.fin_sent ≡ false
      → length (response_bytes s) ≤ s.send_offset + calls * peer_mss o s
      → let r = send_chunks (suc calls) o s c in
        (frames : List (List ℕ)) × IsSent (or_default o.after_ms 1) frames c (r.0)
        × (received s.server_seq frames ≡ (drop s.send_offset (response_bytes s), true))
        × ((more : ℕ) → send_chunks more o (r.1) (r.0) ≡ (r.0, r.1))
  send_chunks-received zero o s c v f h = last_call zero o s c v f (omega arith)
  send_chunks-received (suc calls) o s c v f h =
      elim (Bool-cases (leb (length (response_bytes s)) s.send_offset)) [
        | inl e ↦ last_call (suc calls) o s c v f (ground arith)
        | inr e ↦
            next_call calls o s c v h (ground arith)
              λ s' c' v' f' h'. send_chunks-received calls o s' c' v' (f' ∙ f) h'
      ]
