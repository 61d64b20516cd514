-- ===== src/Frames/Tftp/Upload.antt =====
-- A whole write.
use mathlib.Core.List.{flatten, append_assoc}
use sprinter_rtl8019a.Base.{
  ℕ, ◌+◌, ◌≡◌, ◌<◌, ◌≤◌, refl, ap, ap₂, ◌∙◌, none, some, List, [], ◌∷◌, ◌++◌, All, arith, ltb,
  if◌then◌else◌, length, drop, high_byte, u8, u16, word_of, word_of_lem, or_default, or_nonzero,
}
use sprinter_rtl8019a.Nic.Types.{Card}
use sprinter_rtl8019a.Frames.Udp.{Datagram, word_at}
use sprinter_rtl8019a.Frames.Tftp.{
  put_file, Session, Tftp, respond_tftp, continue_session, take_data, start_session,
  tftp_read_cstring, served_port,
}

-- The datagram of block `k`.
abbrev block_packet : Datagram → ℕ → List ℕ → Datagram
block_packet d k block = record d { payload = 0 ∷ 3 ∷ high_byte k ∷ u8 k ∷ block }

-- The session after the block that it expects, and what the server holds then.
abbrev with_block : Session → List ℕ → Session
with_block s block = record s { chunks = s.chunks ++ (block ∷ []); expected = u16 (s.expected + 1) }

abbrev after_block : Tftp → Session → List ℕ → Tftp
after_block t s block = record t {
  session = some (with_block s block);
  uploads =
      if ltb (length block) s.block_size
      then (s.name, flatten (s.chunks ++ (block ∷ []))) ∷ t.uploads
      else t.uploads;
}

-- The session that a write request starts.
abbrev fresh : Datagram → Tftp → Session
fresh q t = record {
  mode = put_file;
  name = (tftp_read_cstring q.payload 2).0;
  block_size = or_default t.oack_blksize 512;
  server_port = served_port t;
  expected = 1;
  chunks = [];
  file = [];
  final_block = none;
}

word_of-block : (k : ℕ) → k < 65536 → word_of (high_byte k) (u8 k) ≡ k
word_of-block k h = omega (arith, word_of_lem (high_byte k) (u8 k) (omega arith))

module _ {P T : Type 0} where
  respond_eq :
      (d : Datagram) (c : Card P T) (t : Tftp) (s : Session)
      → t.session ≡ some s
      → d.dest_port ≡ s.server_port
      → word_at d.payload 0 ≡ 3
      → 2 ≤ length d.payload
      → respond_tftp d c t ≡ continue_session d t (some s) c
  unfolding respond_tftp
  respond_eq d c t s es ep eo h = ground arith

  continue_eq :
      (d : Datagram) (c : Card P T) (t : Tftp) (s : Session)
      → s.mode ≡ put_file
      → word_at d.payload 0 ≡ 3
      → 4 ≤ length d.payload
      → continue_session d t (some s) c ≡ take_data d t s c
  unfolding continue_session
  continue_eq d c t s em eo h = ground arith

  take_eq :
      (d : Datagram) (c : Card P T) (t : Tftp) (s : Session)
      → word_at d.payload 2 ≡ s.expected
      → (take_data d t s c).1 ≡ after_block t s (drop 4 d.payload)
  unfolding take_data
  take_eq d c t s e = ground arith

  block_eq :
      (d : Datagram) (c : Card P T) (t : Tftp) (s : Session) (block : List ℕ)
      → t.session ≡ some s
      → d.dest_port ≡ s.server_port
      → s.mode ≡ put_file
      → s.expected < 65536
      → (respond_tftp (block_packet d s.expected block) c t).1 ≡ after_block t s block
  block_eq d c t s block es ep em ek =
      let p = block_packet d s.expected block in
      let opcode : word_at p.payload 0 ≡ 3 = word_of_lem 0 3 (omega arith) in
      ap (λ r. r.1) (respond_eq p c t s es ep opcode (omega arith))
      ∙ ap (λ r. r.1) (continue_eq p c t s em opcode (omega arith))
      ∙ take_eq p c t s (word_of-block s.expected ek)

  -- Packets in order, each to the state that the one before leaves.
  abbrev pub respond_all : List Datagram → Card P T → Tftp → Card P T × Tftp
  respond_all [] c t = (c, t)
  respond_all (d ∷ ds) c t = let after = respond_tftp d c t in respond_all ds after.0 after.1

  request_eq :
      (q : Datagram) (c : Card P T) (t : Tftp)
      → q.dest_port ≡ or_nonzero t.port 69
      → word_at q.payload 0 ≡ 2
      → 2 ≤ length q.payload
      → (respond_tftp q c t).1 ≡ record t { session = some (fresh q t) }
  unfolding respond_tftp start_session
  request_eq q c t ep eo h = ground arith

-- The blocks of a write, numbered from `k` on modulo 65536, the last one apart.
abbrev pub block_packets : Datagram → ℕ → List (List ℕ) → List ℕ → List Datagram
block_packets d k [] last = block_packet d k last ∷ []
block_packets d k (block ∷ blocks) last =
    block_packet d k block ∷ block_packets d (u16 (k + 1)) blocks last

module _ {P T : Type 0} (d : Datagram) (last : List ℕ) where
  blocks_eq :
      (full : List (List ℕ)) (c : Card P T) (t : Tftp) (s : Session)
      → t.session ≡ some s
      → d.dest_port ≡ s.server_port
      → s.mode ≡ put_file
      → s.expected < 65536
      → All (λ block. s.block_size ≤ length block) full
      → length last < s.block_size
      → (respond_all (block_packets d s.expected full last) c t).1.uploads
        ≡ (s.name, flatten (s.chunks ++ (full ++ (last ∷ [])))) ∷ t.uploads
  blocks_eq [] c t s es ep em ek long short =
      ap (λ r. r.uploads) (block_eq d c t s last es ep em ek) ∙ ground arith
  blocks_eq (block ∷ full) c t s es ep em ek long short =
      let next = respond_tftp (block_packet d s.expected block) c t in
      let e = block_eq d c t s block es ep em ek in
      let kept : next.1.uploads ≡ t.uploads = ap (λ r. r.uploads) e ∙ ground arith in
      blocks_eq full next.0 next.1 (with_block s block) (ap (λ r. r.session) e) ep em (omega arith)
        long.1 short
      ∙ ap₂ (λ l u. (s.name, flatten l) ∷ u)
          (append_assoc s.chunks (block ∷ []) (full ++ (last ∷ []))) kept

-- A write request to the listening port, and then the blocks of a file in order to the session's
-- port, all but the last one at least the block size long and the last one shorter, leave the whole
-- file under the requested name, in front of the earlier uploads. The block numbers may wrap around.
pub respond_tftp-upload :
    {P T : Type 0} (q d : Datagram) (full : List (List ℕ)) (last : List ℕ) (c : Card P T) (t : Tftp)
    → q.dest_port ≡ or_nonzero t.port 69
    → word_at q.payload 0 ≡ 2
    → 2 ≤ length q.payload
    → d.dest_port ≡ served_port t
    → All (λ block. or_default t.oack_blksize 512 ≤ length block) full
    → length last < or_default t.oack_blksize 512
    → (respond_all (q ∷ block_packets d 1 full last) c t).1.uploads
      ≡ ((tftp_read_cstring q.payload 2).0, flatten (full ++ (last ∷ []))) ∷ t.uploads
respond_tftp-upload q d full last c t eq eo h ed long short =
    let next = respond_tftp q c t in
    let e = request_eq q c t eq eo h in
    blocks_eq d last full next.0 next.1 (fresh q t) (ap (λ r. r.session) e) ed refl (omega arith)
      long short
    ∙ ap (λ u. ((tftp_read_cstring q.payload 2).0, flatten (full ++ (last ∷ []))) ∷ u)
        (ap (λ r. r.uploads) e)
