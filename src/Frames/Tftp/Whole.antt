-- ===== src/Frames/Tftp/Whole.antt =====
-- A whole read.
use mathlib.Core.List.{flatten}
use mathlib.Core.Path.{subst}
use sprinter_rtl8019a.Base.{
  ℕ, zero, suc, ◌+◌, ◌-◌, ◌*◌, ◌≡◌, ◌<◌, ◌≤◌, refl, ap, ap₂, sym, ◌∙◌, false, none, some, List, [],
  ◌∷◌, ◌++◌, arith, length, take, drop, take-append-drop, length-take, length-drop, drop-drop,
  drop_of_le, map, or_default,
}
use sprinter_rtl8019a.Nic.Types.{Card}
use sprinter_rtl8019a.Nic.Clock.Sent.{IsSent, nothing-IsSent, append-IsSent}
use sprinter_rtl8019a.Frames.Udp.{Datagram, udp_datagram}
use sprinter_rtl8019a.Frames.Tftp.Upload.{respond_all}
use sprinter_rtl8019a.Frames.Tftp.{get_file, Session, Tftp, respond_tftp, matches_block}
use sprinter_rtl8019a.Frames.Tftp.Download.{
  ack_packet, block_of, IsReachable, with_sent, ack_eq, next_eq, respond_tftp-next_block,
}

-- The blocks of a file from block `k` on, `n` of them.
abbrev blocks_from : ℕ → List ℕ → ℕ → ℕ → List (List ℕ)
blocks_from size file k zero = []
blocks_from size file k (suc n) = block_of size file k ∷ blocks_from size file (k + 1) n

-- Blocks that reach the end of a file make up the rest of it from where they start.
flatten-blocks_from :
    (size : ℕ) (file : List ℕ) (n k : ℕ)
    → length file ≤ k * size + n * size
    → flatten (blocks_from size file k n) ≡ drop (k * size) file
unfolding flatten
flatten-blocks_from size file zero k h = sym (drop_of_le (k * size) file (omega arith))
flatten-blocks_from size file (suc n) k h =
    let next : (k + 1) * size ≡ k * size + size = grind arith in
    let more : (suc n) * size ≡ n * size + size = grind arith in
    let width : k * size + size - k * size ≡ size = omega arith in
    ap₂ (λ a b. a ++ b) (ap (λ w. take w (drop (k * size) file)) width)
      (flatten-blocks_from size file n (k + 1) (omega (arith, next, more))
        ∙ sym (drop-drop size (k * size) ((k + 1) * size) file (sym next)))
    ∙ take-append-drop size (drop (k * size) file)

-- Acknowledgements of the blocks from `k` on, `n` of them.
abbrev pub ack_packets : Datagram → ℕ → ℕ → List Datagram
ack_packets d k zero = []
ack_packets d k (suc n) = ack_packet d k ∷ ack_packets d (k + 1) n

-- The bytes of the file in a frame, behind opcode and number.
abbrev pub carried : List ℕ → List ℕ
carried frame = elim (udp_datagram frame) [ none ↦ [] | some r ↦ drop 4 r.payload ]

full_block :
    (size : ℕ) (file : List ℕ) (k : ℕ)
    → (k + 1) * size ≤ length file
    → length (block_of size file k) ≡ size
full_block size file k h =
    let next : (k + 1) * size ≡ k * size + size = grind arith in
    omega (
      arith,
      length-take (k * size + size - k * size) (drop (k * size) file),
      length-drop (k * size) file,
      next,
    )

module _ {P T : Type 0} (d : Datagram) where
  state_eq :
      (c : Card P T) (t : Tftp) (s : Session) (k : ℕ)
      → t.session ≡ some s
      → d.dest_port ≡ s.server_port
      → s.mode ≡ get_file
      → k < 65535
      → matches_block s.final_block k ≡ false
      → (respond_tftp (ack_packet d k) c t).1 ≡ record t { session = some (with_sent s k) }
  state_eq c t s k es ep em hk hf =
      ap (λ x. x.1) (ack_eq d c t s k es ep em hk hf ∙ next_eq (ack_packet d k) c t s k hk)

  -- A block that is answered, in front of those that the later acknowledgements are answered with.
  first_sent :
      (c : Card P T) (t : Tftp) (s : Session) (k n : ℕ)
      → t.session ≡ some s
      → d.dest_port ≡ s.server_port
      → s.mode ≡ get_file
      → k < 65535
      → s.final_block ≡ none
      → IsReachable d t
      → (let after = respond_tftp (ack_packet d k) c t in
          (frames : List (List ℕ)) × IsSent
            (or_default t.after_ms 1)
            frames
            after.0
            (respond_all (ack_packets d (k + 1) n) after.0 after.1).0
          × (map carried frames ≡ blocks_from s.block_size s.file (k + 1) n))
      → (frames : List (List ℕ)) × IsSent
          (or_default t.after_ms 1)
          frames
          c
          (respond_all (ack_packets d k (suc n)) c t).0
        × (map carried frames ≡ blocks_from s.block_size s.file k (suc n))
  first_sent c t s k n es ep em hk hf h (frames, later, blocks) =
      let after = respond_tftp (ack_packet d k) c t in
      let (frame, sent, read, _) = respond_tftp-next_block d c t s k es ep em hk (rw hf refl) h in
      (
        frame ∷ frames,
        append-IsSent (or_default t.after_ms 1) (frame ∷ []) frames c after.0
            (respond_all (ack_packets d (k + 1) n) after.0 after.1).0 sent later,
        ap₂ (λ b l. b ∷ l)
            (ap (λ o. elim o as (λ _. List ℕ) [ none ↦ [] | some r ↦ drop 4 r.payload ]) read)
            blocks,
      )

  blocks_sent :
      (n k : ℕ) (c : Card P T) (t : Tftp) (s : Session)
      → t.session ≡ some s
      → d.dest_port ≡ s.server_port
      → s.mode ≡ get_file
      → k + n ≤ 65535
      → s.final_block ≡ none
      → (k + n) * s.block_size ≤ length s.file + s.block_size
      → IsReachable d t
      → (frames : List (List ℕ)) × IsSent
          (or_default t.after_ms 1)
          frames
          c
          (respond_all (ack_packets d k n) c t).0
        × (map carried frames ≡ blocks_from s.block_size s.file k n)
  blocks_sent zero k c t s es ep em hk hf full h =
      ([], nothing-IsSent (or_default t.after_ms 1) c, refl)
  blocks_sent (suc zero) k c t s es ep em hk hf full h =
      first_sent c t s k 0 es ep em (omega arith) hf h
        ([], nothing-IsSent (or_default t.after_ms 1) _, refl)
  blocks_sent (suc (suc n)) k c t s es ep em hk hf full h =
      let after = respond_tftp (ack_packet d k) c t in
      let same = state_eq c t s k es ep em (omega arith) (rw hf refl) in
      let z = s.block_size in
      let split : (k + suc (suc n)) * z ≡ (k + 1) * z + z + n * z = grind arith in
      let shift : (k + 1 + suc n) * z ≡ (k + suc (suc n)) * z =
        ap (λ (m : ℕ). m * z) (omega arith) in
      let whole : (k + 1) * z ≤ length s.file = omega (arith, split) in
      let delay : or_default after.1.after_ms 1 ≡ or_default t.after_ms 1 =
        ap (λ (x : Tftp). or_default x.after_ms 1) same in
      let open_still : (with_sent s k).final_block ≡ none =
        ground (arith, full_block s.block_size s.file k whole) in
      let (frames, later, blocks) =
        blocks_sent (suc n) (k + 1) after.0 after.1 (with_sent s k) (ap (λ x. x.session) same) ep em
          (omega arith) open_still (omega (arith, shift))
          (subst (λ x. IsReachable d x) (sym same)
            (record {
              source_mac = h.source_mac;
              source_ip = h.source_ip;
              dest_ip = h.dest_ip;
              server_mac = h.server_mac;
            })) in
      first_sent c t s k (suc n) es ep em (omega arith) hf h (
        frames,
        subst
            (λ delay.
              IsSent delay frames after.0
                (respond_all (ack_packets d (k + 1) (suc n)) after.0 after.1).0)
            delay later,
        blocks,
      )

  -- When a client with whole addresses acknowledges the blocks from 0 on in a running read, as many as
  -- reach the end of the file, with at most the empty block behind a file of whole blocks, and fewer
  -- than 65536, then exactly these frames are noted and scheduled in answer, in order and each for the
  -- time that `afterMs` says, that carry blocks which make up the whole file.
  pub respond_tftp-download :
      (n : ℕ) (c : Card P T) (t : Tftp) (s : Session)
      → t.session ≡ some s
      → d.dest_port ≡ s.server_port
      → s.mode ≡ get_file
      → n ≤ 65535
      → s.final_block ≡ none
      → n * s.block_size ≤ length s.file + s.block_size
      → length s.file ≤ n * s.block_size
      → IsReachable d t
      → (frames : List (List ℕ)) × IsSent
          (or_default t.after_ms 1)
          frames
          c
          (respond_all (ack_packets d 0 n) c t).0
        × (flatten (map carried frames) ≡ s.file)
  respond_tftp-download n c t s es ep em hn hf full whole h =
      let z = s.block_size in
      let start : (0 + n) * z ≡ n * z = ap (λ (m : ℕ). m * z) (omega arith) in
      let before : 0 * z ≡ 0 = omega arith in
      let (frames, sent, blocks) =
        blocks_sent n 0 c t s es ep em (omega arith) hf (omega (arith, start)) h in
      (
        frames,
        sent,
        ap flatten blocks
            ∙ flatten-blocks_from z s.file n 0 (omega (arith, start))
            ∙ ap (λ (m : ℕ). drop m s.file) before,
      )
