-- ===== src/Frames/Dns.antt =====
-- tools/exe-harness/net-builders.js, lines 160-195: DNS queries for an address, and their answers.
pub mod Echo
use sprinter_rtl8019a.Base.{
  ℕ, zero, suc, ◌+◌, ◌%◌, Bool, true, false, Option, none, some, List, [], ◌∷◌, ◌++◌, leb, ◌==◌,
  if◌then◌else◌, or_default, length, slice, bit_or, u8, high_byte,
}
use sprinter_rtl8019a.Frames.Udp.{Datagram, UdpOptions, byte_at, word_at, damage, build_udp_reply}

-- What `parseDnsQuery` returns.
pub record Query : Type 0 where
  pub id : ℕ
  pub qname : List ℕ

-- The options of `buildDnsResponse`.
pub record DnsOptions : Type 0 where
  pub rcode : Option ℕ
  pub nxdomain : Bool
  pub no_answer : Bool
  pub answers : Option (List (List ℕ))
  pub ip : Option (List ℕ)
  pub bad_xid : Bool
  pub mac : Option (List ℕ)
  pub ttl : Option ℕ
  pub bad_ip_checksum : Bool
  pub bad_udp_checksum : Bool

-- `while (payload[i] !== 0) i += payload[i] + 1`. Past the end `payload[i]` is `undefined`, `i` is then
-- NaN and the loop never ends: `none`. Each step raises `i`, so that the payload's length is fuel enough.
unfoldable pub qname_end : ℕ → List ℕ → ℕ → Option ℕ
qname_end zero payload i = none
qname_end (suc fuel) payload i =
    let rest = qname_end fuel payload (i + (byte_at payload i + 1)) in
    if leb (length payload) i then none else if byte_at payload i == 0 then some i else rest

unfoldable pub query_up_to : List ℕ → Option ℕ → Option Query
query_up_to payload none = none
query_up_to payload (some end) =
    some (record { id = word_at payload 0; qname = slice 12 (end + 1) payload })

unfoldable pub parse_dns_query : List ℕ → Option Query
parse_dns_query payload = query_up_to payload (qname_end (length payload) payload 12)

-- `options.answers || (options.ip ? [options.ip] : ...)`
pub answers_of : DnsOptions → ℕ → List (List ℕ)
answers_of o rcode = elim (o.answers) [
  | some ips ↦ ips
  | none ↦ elim (o.ip) [
    | some ip ↦ ip ∷ []
    | none ↦
        if rcode == 0 then (if o.no_answer then [] else (93 ∷ 184 ∷ 216 ∷ 34 ∷ []) ∷ []) else []
  ]
]

pub answer_records : List (List ℕ) → List ℕ
answer_records [] = []
answer_records (ip ∷ ips) =
    (0xc0 ∷ 0x0c ∷ 0 ∷ 1 ∷ 0 ∷ 1 ∷ 0 ∷ 0 ∷ 0 ∷ 60 ∷ 0 ∷ 4 ∷ []) ++ ip ++ answer_records ips

pub dns_body : Query → DnsOptions → List ℕ
dns_body query o =
    let rcode = or_default o.rcode (if o.nxdomain then 3 else 0) in
    let answers = answers_of o rcode in
    let ancount = length answers in
    damage o.bad_xid 0 (
      (high_byte query.id
        ∷ u8 query.id
        ∷ 0x81
        ∷ bit_or 0x80 (rcode % 16)
        ∷ 0
        ∷ 1
        ∷ high_byte ancount
        ∷ u8 ancount
        ∷ 0
        ∷ 0
        ∷ 0
        ∷ 0
        ∷ [])
      ++ query.qname
      ++ ((0 ∷ 1 ∷ 0 ∷ 1 ∷ []) ++ answer_records answers))

-- The options that `buildDnsResponse` and `buildNtpResponse` pass on.
abbrev pub served_from : ℕ → Option (List ℕ) → Option ℕ → Bool → Bool → UdpOptions
served_from port mac ttl bad_ip bad_udp = record {
  mac = mac;
  ip = none;
  destination_ip = none;
  destination_mac = none;
  source_port = some port;
  destination_port = none;
  ttl = ttl;
  bad_udp_checksum = bad_udp;
  bad_ip_checksum = bad_ip;
}

-- `none` if the query has no end.
unfoldable pub build_dns_response : Datagram → DnsOptions → Option (List ℕ)
build_dns_response datagram o = elim (parse_dns_query datagram.payload) [
  | none ↦ none
  | some query ↦ some (
      build_udp_reply datagram (dns_body query o)
        (served_from 53 o.mac o.ttl o.bad_ip_checksum o.bad_udp_checksum))
]
