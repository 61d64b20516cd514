-- ===== src/Frames/Dhcp.antt =====
-- tools/exe-harness/net-builders.js, lines 221-281: DHCP messages and the replies of a server.
pub mod Served
use sprinter_rtl8019a.Base.{
  ℕ, zero, suc, ◌+◌, ◌/◌, ◌^◌, Bool, true, false, not, ◌&&◌, ◌||◌, Option, none, some, List, [],
  ◌∷◌, ◌++◌, leb, ◌==◌, if◌then◌else◌, or_default, length, put, slice, replicate, u8,
}
use sprinter_rtl8019a.Frames.Checksum.{default_server_mac}
use sprinter_rtl8019a.Frames.Udp.{Datagram, byte_at, build_udp_reply}

-- `opts`, the newest assignment first.
abbrev pub Opts : Type 0
Opts = List (ℕ × List ℕ)

abbrev pub lookup : ℕ → Opts → Option (List ℕ)
lookup code [] = none
lookup code (o ∷ opts) = if o.0 == code then some o.1 else lookup code opts

-- One round of the loop of `parseDhcpOptions`: the next `i` and the options, or `none` at its end.
-- A length past the end counts as 0; it leaves an empty option, and the loop ends.
unfoldable pub dhcp_step : List ℕ → ℕ → Opts → Option (ℕ × Opts)
dhcp_step payload i opts =
    let code = byte_at payload i in
    let len = byte_at payload (i + 1) in
    if leb (length payload) i || (code == 255)
    then none
    else if code == 0
    then some (i + 1, opts)
    else some (i + 2 + len, (code, slice (i + 2) (i + 2 + len) payload) ∷ opts)

unfoldable pub dhcp_rounds : ℕ → List ℕ → ℕ → Opts → Opts
dhcp_rounds zero payload i opts = opts
dhcp_rounds (suc fuel) payload i opts = elim (dhcp_step payload i opts) [
  | none ↦ opts
  | some (j, more) ↦ dhcp_rounds fuel payload j more
]

-- Each round raises `i`, so that the payload's length is fuel enough.
unfoldable pub parse_dhcp_options : List ℕ → ℕ → Opts
parse_dhcp_options payload start = dhcp_rounds (length payload) payload start []

unfoldable pub is_dhcp_message : List ℕ → Bool
is_dhcp_message payload =
    leb 240 (length payload)
    && (byte_at payload 236 == 0x63)
    && (byte_at payload 237 == 0x82)
    && (byte_at payload 238 == 0x53)
    && (byte_at payload 239 == 0x63)

unfoldable pub dhcp_msg_type : List ℕ → ℕ
dhcp_msg_type payload =
    if not (is_dhcp_message payload) then 0 else elim (lookup 53 (parse_dhcp_options payload 240)) [
      | none ↦ 0
      | some value ↦ byte_at value 0
    ]

-- The options of `buildDhcpReply`.
pub record DhcpOptions : Type 0 where
  pub mac : Option (List ℕ)
  pub server_ip : Option (List ℕ)
  pub offered_ip : Option (List ℕ)
  pub mask : Option (List ℕ)
  pub router : Option (List ℕ)
  pub dns1 : Option (List ℕ)
  pub dns2 : Option (List ℕ)
  pub lease : Option ℕ

-- `for (let i = 0; i < n; i++) to[at + i] = from[start + i]`
abbrev pub copy_bytes : ℕ → List ℕ → ℕ → ℕ → List ℕ → List ℕ
copy_bytes zero source start at bytes = bytes
copy_bytes (suc n) source start at bytes =
    put 0 (copy_bytes n source start at bytes) (at + n) (byte_at source (start + n))

-- The 240 bytes in front of the options.
unfoldable pub bootp : List ℕ → ℕ → List ℕ → List ℕ → List ℕ
bootp request type offered_ip server_ip =
    let started = put 0 (put 0 (put 0 (put 0 (replicate 240 0) 0 2) 1 1) 2 6) 3 0 in
    let xid = copy_bytes 4 request 4 4 started in
    let yiaddr = if type == 6 then xid else copy_bytes 4 offered_ip 0 16 xid in
    let siaddr = copy_bytes 4 server_ip 0 20 yiaddr in
    let chaddr = copy_bytes 6 request 28 28 siaddr in
    put 0 (put 0 (put 0 (put 0 chaddr 236 0x63) 237 0x82) 238 0x53) 239 0x63

-- What an acknowledgement offers beside the address.
unfoldable pub lease_options : List ℕ → List ℕ → List ℕ → ℕ → List ℕ
lease_options mask router dns_list lease =
    (1 ∷ 4 ∷ mask)
    ++ (3 ∷ 4 ∷ router)
    ++ (6 ∷ length dns_list ∷ dns_list)
    ++ (51 ∷ 4 ∷ u8 (lease / 2 ^ 24) ∷ u8 (lease / 2 ^ 16) ∷ u8 (lease / 2 ^ 8) ∷ u8 lease ∷ [])

unfoldable pub dhcp_body : List ℕ → ℕ → DhcpOptions → List ℕ
dhcp_body request type o =
    let server_ip = or_default o.server_ip (192 ∷ 168 ∷ 7 ∷ 1 ∷ []) in
    let dns_list = or_default o.dns1 (8 ∷ 8 ∷ 8 ∷ 8 ∷ []) ++ or_default o.dns2 [] in
    bootp request type (or_default o.offered_ip (192 ∷ 168 ∷ 7 ∷ 100 ∷ [])) server_ip
    ++ (53 ∷ 1 ∷ type ∷ 54 ∷ 4 ∷ server_ip)
    ++ (if type == 6
        then []
        else lease_options (or_default o.mask (255 ∷ 255 ∷ 255 ∷ 0 ∷ []))
            (or_default o.router server_ip) dns_list (or_default o.lease 3600))
    ++ (255 ∷ [])

unfoldable pub build_dhcp_reply : Datagram → ℕ → DhcpOptions → List ℕ
build_dhcp_reply datagram type o =
    build_udp_reply datagram (dhcp_body datagram.payload type o) (record {
      mac = some (or_default o.mac default_server_mac);
      ip = some (or_default o.server_ip (192 ∷ 168 ∷ 7 ∷ 1 ∷ []));
      destination_ip = some (255 ∷ 255 ∷ 255 ∷ 255 ∷ []);
      destination_mac = none;
      source_port = some 67;
      destination_port = some 68;
      ttl = none;
      bad_udp_checksum = false;
      bad_ip_checksum = false;
    })
