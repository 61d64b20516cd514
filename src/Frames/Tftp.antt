-- ===== src/Frames/Tftp.antt =====
-- tools/exe-harness/net-builders.js, lines 283-382: the TFTP server of the tests.
-- Text is a list of ASCII codes; the names of the served files are ASCII.
pub mod Upload
pub mod Download
pub mod Whole
mod Tests
use mathlib.Core.List.{flatten}
use sprinter_rtl8019a.Base.{
  ℕ, zero, suc, ◌+◌, ◌-◌, ◌*◌, ◌/◌, ◌%◌, Bool, true, false, not, ◌&&◌, ◌||◌, Option, none, some,
  List, [], ◌∷◌, ◌++◌, map, ltb, leb, ◌==◌, if◌then◌else◌, is_some, or_default, or_nonzero, length,
  slice, drop, take, equal, u8, u16, high_byte, upper, lower, decimal,
}
use sprinter_rtl8019a.Nic.Types.{Card}
use sprinter_rtl8019a.Nic.Clock.{schedule}
use sprinter_rtl8019a.Frames.Udp.{Datagram, UdpOptions, byte_at, word_at, build_udp_reply}

pub data Mode : Type 0 where
  get_file put_file : Mode

-- `tftp._session`; `file` is set by a read request, `final_block` by its last block.
pub record Session : Type 0 where
  pub mode : Mode
  pub name : List ℕ
  pub block_size : ℕ
  pub server_port : ℕ
  pub expected : ℕ
  pub chunks : List (List ℕ)
  pub file : List ℕ
  pub final_block : Option ℕ

-- `responders.tftp`: how it is set up, and what its calls leave there. `uploads` has the newest first.
pub record Tftp : Type 0 where
  pub port : Option ℕ
  pub server_port : Option ℕ
  pub files : List (List ℕ × List ℕ)
  pub oack_blksize : Option ℕ
  pub mac : Option (List ℕ)
  pub after_ms : Option ℕ
  pub session : Option Session
  pub uploads : List (List ℕ × List ℕ)

-- `bytes.indexOf(0, start)`, or the length, given the bytes from `start` on.
abbrev pub text_end : ℕ → List ℕ → ℕ
text_end start [] = start
text_end start (b ∷ bytes) = if b == 0 then start else text_end (suc start) bytes

-- `tftpReadCString(bytes, start)`: the text, its codes cut to 7 bits, and `next`.
unfoldable pub tftp_read_cstring : List ℕ → ℕ → List ℕ × ℕ
tftp_read_cstring bytes start =
    let end =
      if leb (length bytes) start then length bytes else text_end start (drop start bytes) in
    (map (λ b. b % 128) (slice start end bytes), end + 1)

unfoldable pub find_file : List ℕ → List (List ℕ × List ℕ) → Option (List ℕ)
find_file name [] = none
find_file name (f ∷ files) =
    if equal (map upper f.0) (map upper name) then some f.1 else find_file name files

-- Is `parseInt(value, 10)` a number other than 0? The digits after white space and a sign.
abbrev pub is_digit : ℕ → Bool
is_digit c = leb 48 c && leb c 57

abbrev pub nonzero_digits : List ℕ → Bool
nonzero_digits [] = false
nonzero_digits (c ∷ cs) = is_digit c && (not (c == 48) || nonzero_digits cs)

abbrev pub nonzero_number : List ℕ → Bool
nonzero_number [] = false
nonzero_number (c ∷ cs) =
    if (c == 32) || (leb 9 c && leb c 13)
    then nonzero_number cs
    else if (c == 43) || (c == 45)
    then nonzero_digits cs
    else nonzero_digits (c ∷ cs)

abbrev pub blksize_text : List ℕ
blksize_text = 98 ∷ 108 ∷ 107 ∷ 115 ∷ 105 ∷ 122 ∷ 101 ∷ []

abbrev pub not_found_text : List ℕ
not_found_text = 70 ∷ 105 ∷ 108 ∷ 101 ∷ 32 ∷ 110 ∷ 111 ∷ 116 ∷ 32 ∷ 102 ∷ 111 ∷ 117 ∷ 110 ∷ 100 ∷ []

-- Is `requestedBlksize` a number other than 0 after the loop over the options? Each round moves the
-- cursor on, so that the payload's length is fuel enough.
unfoldable pub requested_blksize : ℕ → List ℕ → ℕ → Bool → Bool
requested_blksize zero payload cursor requested = requested
requested_blksize (suc fuel) payload cursor requested =
    let (key, after_key) = tftp_read_cstring payload cursor in
    let (value, after_value) = tftp_read_cstring payload after_key in
    let rest =
      requested_blksize fuel payload after_value
        (if equal (map lower key) blksize_text then nonzero_number value else requested) in
    if leb (length payload) cursor || (length key == 0) then requested else rest

abbrev pub oack : ℕ → List ℕ
oack size = (0 ∷ 6 ∷ []) ++ blksize_text ++ (0 ∷ []) ++ decimal size ++ (0 ∷ [])

abbrev pub is_get : Mode → Bool
is_get get_file = true
is_get put_file = false

-- `session.finalBlock === ack`
abbrev pub matches_block : Option ℕ → ℕ → Bool
matches_block none ack = false
matches_block (some block) ack = block == ack

abbrev pub served_port : Tftp → ℕ
served_port t = or_nonzero t.server_port 0xbeef

module _ {P T : Type 0} where
  -- `send(body)`
  unfoldable pub send : Datagram → List ℕ → Tftp → Card P T → Card P T
  send datagram body t c =
      let reply = build_udp_reply datagram body (record {
        mac = t.mac;
        ip = none;
        destination_ip = none;
        destination_mac = none;
        source_port = some (elim (t.session) [ none ↦ served_port t | some s ↦ s.server_port ]);
        destination_port = none;
        ttl = none;
        bad_udp_checksum = false;
        bad_ip_checksum = false;
      }) in
      schedule (record c { generated = c.generated ++ (reply ∷ []) }) (or_default t.after_ms 1)
        reply

  -- A read request, once the new session is in place: the file is there or not.
  unfoldable pub start_get :
      Datagram → Tftp → Session → Bool → Option (List ℕ) → Card P T → Card P T × Tftp
  start_get datagram t s negotiates none c = (
    send datagram ((0 ∷ 5 ∷ 0 ∷ 1 ∷ []) ++ not_found_text ++ (0 ∷ []))
        (record t { session = some s }) c,
    record t { session = none },
  )
  start_get datagram t s true (some file) c =
      let t' = record t { session = some (record s { file = file }) } in
      (send datagram (oack s.block_size) t' c, t')
  start_get datagram t s false (some file) c =
      let block = take s.block_size file in
      let t' = record t {
        session = some (record s {
          file = file;
          final_block = if ltb (length block) s.block_size then some 1 else none;
        });
      } in
      (send datagram (0 ∷ 3 ∷ 0 ∷ 1 ∷ block) t' c, t')

  -- `opcode === TFTP_OP_RRQ || opcode === TFTP_OP_WRQ`
  unfoldable pub start_session : Datagram → Tftp → Bool → Card P T → Card P T × Tftp
  start_session datagram t is_read c =
      let payload = datagram.payload in
      let (name, next) = tftp_read_cstring payload 2 in
      let (mode_text, after_mode) = tftp_read_cstring payload next in
      let negotiates =
        is_some t.oack_blksize && requested_blksize (length payload) payload after_mode false in
      let s : Session = record {
        mode = if is_read then get_file else put_file;
        name = name;
        block_size = or_default t.oack_blksize 512;
        server_port = served_port t;
        expected = 1;
        chunks = [];
        file = [];
        final_block = none;
      } in
      if is_read
      then start_get datagram t s negotiates (find_file name t.files) c
      else (let t' = record t { session = some s } in
          (send datagram (if negotiates then oack s.block_size else 0 ∷ 4 ∷ 0 ∷ 0 ∷ []) t' c, t'))

  -- An acknowledgement of a read. Block 0 comes after block 65535, and `subarray` of the negative
  -- start up to 0 is empty.
  unfoldable pub next_data : Datagram → Tftp → Session → ℕ → Card P T → Card P T × Tftp
  next_data datagram t s ack c =
      let next_block = u16 (ack + 1) in
      let start = (next_block - 1) * s.block_size in
      let block = if next_block == 0 then [] else slice start (start + s.block_size) s.file in
      let t' = record t {
        session = some (record s {
          final_block = if ltb (length block) s.block_size then some next_block else s.final_block;
        });
      } in
      (send datagram (0 ∷ 3 ∷ high_byte next_block ∷ u8 next_block ∷ block) t' c, t')

  -- A block of a write: the next one is kept, a short one completes the upload, and any is acknowledged.
  unfoldable pub take_data : Datagram → Tftp → Session → Card P T → Card P T × Tftp
  take_data datagram t s c =
      let payload = datagram.payload in
      let block = drop 4 payload in
      let s' = record s { chunks = s.chunks ++ (block ∷ []); expected = u16 (s.expected + 1) } in
      let t' =
        if word_at payload 2 == s.expected
        then record t {
          session = some s';
          uploads =
              if ltb (length block) s.block_size
              then (s.name, flatten s'.chunks) ∷ t.uploads
              else t.uploads;
        }
        else t in
      (send datagram (0 ∷ 4 ∷ byte_at payload 2 ∷ byte_at payload 3 ∷ []) t' c, t')

  -- A packet of the session that `session` stood for when it came in.
  unfoldable pub continue_session : Datagram → Tftp → Option Session → Card P T → Card P T × Tftp
  continue_session datagram t none c = (c, t)
  continue_session datagram t (some s) c =
      let payload = datagram.payload in
      let opcode = word_at payload 0 in
      if (opcode == 4) && is_get s.mode && (length payload == 4)
      then if matches_block s.final_block (word_at payload 2)
        then (c, record t { session = none })
        else next_data datagram t s (word_at payload 2) c
      else if (opcode == 3) && not (is_get s.mode) && leb 4 (length payload)
      then take_data datagram t s c
      else (c, t)

  -- `respondTftp(datagram, card, tftp)`. A payload without an opcode has opcode 0.
  unfoldable pub respond_tftp : Datagram → Card P T → Tftp → Card P T × Tftp
  respond_tftp datagram c t =
      let opcode = if leb 2 (length datagram.payload) then word_at datagram.payload 0 else 0 in
      let known : Bool = elim (t.session) [
        | none ↦ false
        | some s ↦ datagram.dest_port == s.server_port
      ] in
      if not known && not (datagram.dest_port == or_nonzero t.port 69)
      then (c, t)
      else if (opcode == 1) || (opcode == 2)
      then start_session datagram t (opcode == 1) c
      else if leb 2 (length datagram.payload)
      then continue_session datagram t t.session c
      else (c, t)
