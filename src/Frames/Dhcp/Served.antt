-- ===== src/Frames/Dhcp/Served.antt =====
-- What a client finds in a reply.
use sprinter_rtl8019a.Base.{
  ℕ, zero, suc, ◌+◌, ◌/◌, ◌^◌, ◌≡◌, ◌≤◌, refl, true, false, none, some, List, [], ◌∷◌, ◌++◌, arith,
  ◌==◌, if◌then◌else◌, or_default, length, slice, replicate, u8, Bool-cases, inl, inr, ◌⊎◌,
}
use sprinter_rtl8019a.Frames.Checksum.{default_server_mac}
use sprinter_rtl8019a.Frames.Udp.{Datagram, udp_datagram, byte_at}
use sprinter_rtl8019a.Frames.Udp.Layout.{four}
use sprinter_rtl8019a.Frames.Udp.RoundTrip.{udp_datagram-build_udp_reply}
use sprinter_rtl8019a.Frames.Dhcp.{
  Opts, DhcpOptions, lookup, dhcp_step, dhcp_rounds, parse_dhcp_options, is_dhcp_message,
  dhcp_msg_type, bootp, lease_options, dhcp_body, build_dhcp_reply,
}

-- `parseDhcpOptions` ends: any two numbers of rounds that cover the bytes from `i` on give the same
-- options.
pub dhcp_rounds-enough :
    (f g : ℕ) (payload : List ℕ) (i : ℕ) (opts : Opts)
    → length payload ≤ i + f
    → length payload ≤ i + g
    → dhcp_rounds f payload i opts ≡ dhcp_rounds g payload i opts
unfolding dhcp_rounds dhcp_step
dhcp_rounds-enough zero zero payload i opts hf hg = refl
dhcp_rounds-enough zero (suc g) payload i opts hf hg = ground arith
dhcp_rounds-enough (suc f) zero payload i opts hf hg = ground arith
dhcp_rounds-enough (suc f) (suc g) payload i opts hf hg =
    let len = byte_at payload (i + 1) in
    ground (
      arith,
      dhcp_rounds-enough f g payload (i + 1) opts,
      dhcp_rounds-enough f g payload (i + 2 + len)
          ((byte_at payload i, slice (i + 2) (i + 2 + len) payload) ∷ opts),
    )

-- The transaction identifier of a request; a byte past its end counts as 0.
abbrev xid_of : List ℕ → List ℕ
xid_of request = byte_at request 4 ∷ byte_at request 5 ∷ byte_at request 6 ∷ byte_at request 7 ∷ []

-- What `body` tells the client: the message type, its transaction, the server, and, unless it is a
-- refusal (type 6), the address with its mask, router, name servers and lease.
pub record IsServed (body request : List ℕ) (type : ℕ) (at offered subnet gateway dns_list : List ℕ)
    (seconds : ℕ) : Type 0 where
  pub message_type : dhcp_msg_type body ≡ type
  pub xid : slice 4 8 body ≡ xid_of request
  pub server : lookup 54 (parse_dhcp_options body 240) ≡ some at
  pub address : slice 16 20 body ≡ (if type == 6 then replicate 4 0 else offered)
  pub mask : lookup 1 (parse_dhcp_options body 240) ≡ (if type == 6 then none else some subnet)
  pub router : lookup 3 (parse_dhcp_options body 240) ≡ (if type == 6 then none else some gateway)
  pub dns : lookup 6 (parse_dhcp_options body 240) ≡ (if type == 6 then none else some dns_list)
  pub lease : lookup 51 (parse_dhcp_options body 240) ≡ (
      if type == 6
      then none
      else some
          (u8 (seconds / 2 ^ 24) ∷ u8 (seconds / 2 ^ 16) ∷ u8 (seconds / 2 ^ 8) ∷ u8 seconds ∷ []))

-- The reply with every address spelt out.
module _ (request : List ℕ)
    (type p0 p1 p2 p3 o0 o1 o2 o3 m0 m1 m2 m3 r0 r1 r2 r3 d0 d1 d2 d3 lease : ℕ) where
  spelt_body : List ℕ → List ℕ
  spelt_body dns2 =
      let server = p0 ∷ p1 ∷ p2 ∷ p3 ∷ [] in
      bootp request type (o0 ∷ o1 ∷ o2 ∷ o3 ∷ []) server
      ++ (53 ∷ 1 ∷ type ∷ 54 ∷ 4 ∷ server)
      ++ (if type == 6
          then []
          else lease_options (m0 ∷ m1 ∷ m2 ∷ m3 ∷ []) (r0 ∷ r1 ∷ r2 ∷ r3 ∷ [])
              ((d0 ∷ d1 ∷ d2 ∷ d3 ∷ []) ++ dns2) lease)
      ++ (255 ∷ [])

  Spelt : List ℕ → Type 0
  Spelt dns2 =
      IsServed (spelt_body dns2) request type (p0 ∷ p1 ∷ p2 ∷ p3 ∷ []) (o0 ∷ o1 ∷ o2 ∷ o3 ∷ [])
        (m0 ∷ m1 ∷ m2 ∷ m3 ∷ []) (r0 ∷ r1 ∷ r2 ∷ r3 ∷ []) ((d0 ∷ d1 ∷ d2 ∷ d3 ∷ []) ++ dns2) lease

  refusal : (dns2 : List ℕ) → (type == 6) ≡ true → Spelt dns2
  unfolding Spelt spelt_body dhcp_msg_type bootp lease_options is_dhcp_message parse_dhcp_options
      dhcp_rounds dhcp_step
  refusal dns2 e = record {
    message_type = rw e refl;
    xid = rw e refl;
    server = rw e refl;
    address = rw e refl;
    mask = rw e refl;
    router = rw e refl;
    dns = rw e refl;
    lease = rw e refl;
  }

  one_dns : (type == 6) ≡ false → Spelt []
  unfolding Spelt spelt_body dhcp_msg_type bootp lease_options is_dhcp_message parse_dhcp_options
      dhcp_rounds dhcp_step
  one_dns e = record {
    message_type = rw e refl;
    xid = rw e refl;
    server = rw e refl;
    address = rw e refl;
    mask = rw e refl;
    router = rw e refl;
    dns = rw e refl;
    lease = rw e refl;
  }

  two_dns : (a b c d : ℕ) → (type == 6) ≡ false → Spelt (a ∷ b ∷ c ∷ d ∷ [])
  unfolding Spelt spelt_body dhcp_msg_type bootp lease_options is_dhcp_message parse_dhcp_options
      dhcp_rounds dhcp_step
  two_dns a b c d e = record {
    message_type = rw e refl;
    xid = rw e refl;
    server = rw e refl;
    address = rw e refl;
    mask = rw e refl;
    router = rw e refl;
    dns = rw e refl;
    lease = rw e refl;
  }

-- The name servers: one, or two.
abbrev IsDnsPair : List ℕ → Type 0
IsDnsPair dns2 = (dns2 ≡ []) ⊎ (length dns2 ≡ 4)

some_dns :
    (request : List ℕ) (type p0 p1 p2 p3 o0 o1 o2 o3 m0 m1 m2 m3 r0 r1 r2 r3 d0 d1 d2 d3 lease : ℕ)
    (dns2 : List ℕ)
    → IsDnsPair dns2
    → Spelt request type p0 p1 p2 p3 o0 o1 o2 o3 m0 m1 m2 m3 r0 r1 r2 r3 d0 d1 d2 d3 lease dns2
some_dns request type p0 p1 p2 p3 o0 o1 o2 o3 m0 m1 m2 m3 r0 r1 r2 r3 d0 d1 d2 d3 lease dns2 pair =
    elim (Bool-cases (type == 6)) [
      | inl e ↦
          refusal request type p0 p1 p2 p3 o0 o1 o2 o3 m0 m1 m2 m3 r0 r1 r2 r3 d0 d1 d2 d3 lease
            dns2 e
      | inr e ↦ elim pair [
        | inl h ↦ rw h (
            one_dns request type p0 p1 p2 p3 o0 o1 o2 o3 m0 m1 m2 m3 r0 r1 r2 r3 d0 d1 d2 d3 lease
              e)
        | inr h ↦
            let (a, b, c, d, eq) = four dns2 h in
            rw eq (
              two_dns request type p0 p1 p2 p3 o0 o1 o2 o3 m0 m1 m2 m3 r0 r1 r2 r3 d0 d1 d2 d3 lease
                a b c d e)
      ]
    ]

-- The addresses that the server is set up with have four bytes.
pub record IsConfigured (o : DhcpOptions) : Type 0 where
  pub mac : length (or_default o.mac default_server_mac) ≡ 6
  pub server_ip : length (or_default o.server_ip (192 ∷ 168 ∷ 7 ∷ 1 ∷ [])) ≡ 4
  pub offered_ip : length (or_default o.offered_ip (192 ∷ 168 ∷ 7 ∷ 100 ∷ [])) ≡ 4
  pub mask : length (or_default o.mask (255 ∷ 255 ∷ 255 ∷ 0 ∷ [])) ≡ 4
  pub router : length (or_default o.router (or_default o.server_ip (192 ∷ 168 ∷ 7 ∷ 1 ∷ []))) ≡ 4
  pub dns1 : length (or_default o.dns1 (8 ∷ 8 ∷ 8 ∷ 8 ∷ [])) ≡ 4
  pub dns2 : IsDnsPair (or_default o.dns2 [])

body-IsServed :
    (request : List ℕ) (type : ℕ) (server offered mask router dns1 dns2 : List ℕ) (lease : ℕ)
    → length server ≡ 4
    → length offered ≡ 4
    → length mask ≡ 4
    → length router ≡ 4
    → length dns1 ≡ 4
    → IsDnsPair dns2
    → IsServed
        (bootp request type offered server
          ++ (53 ∷ 1 ∷ type ∷ 54 ∷ 4 ∷ server)
          ++ (if type == 6 then [] else lease_options mask router (dns1 ++ dns2) lease)
          ++ (255 ∷ []))
        request
        type
        server
        offered
        mask
        router
        (dns1 ++ dns2)
        lease
unfolding Spelt spelt_body
body-IsServed request type server offered mask router dns1 dns2 lease hp ho hm hr hd pair =
    let (p0, p1, p2, p3, ep) = four server hp in
    let (o0, o1, o2, o3, eo) = four offered ho in
    let (m0, m1, m2, m3, em) = four mask hm in
    let (r0, r1, r2, r3, er) = four router hr in
    let (d0, d1, d2, d3, ed) = four dns1 hd in
    rw (ep, eo, em, er, ed)
      (some_dns request type p0 p1 p2 p3 o0 o1 o2 o3 m0 m1 m2 m3 r0 r1 r2 r3 d0 d1 d2 d3 lease dns2
        pair)

-- The reply of a server whose addresses are whole is a broadcast datagram from port 67 to port 68
-- whose options the parser reads back: the message type that was asked for, the server, and, unless
-- it is a refusal (type 6), mask, router, name servers and lease, which a refusal has not; the
-- transaction is the request's, and the client's address the offered one, or zeros in a refusal.
pub build_dhcp_reply-IsServed :
    (d : Datagram) (type : ℕ) (o : DhcpOptions)
    → IsConfigured o
    → length d.source_mac ≡ 6
    → let server = or_default o.server_ip (192 ∷ 168 ∷ 7 ∷ 1 ∷ []) in
      (r : Datagram) × (udp_datagram (build_dhcp_reply d type o) ≡ some r)
      × (r.source_port ≡ 67)
      × (r.dest_port ≡ 68)
      × (r.dest_ip ≡ 255 ∷ 255 ∷ 255 ∷ 255 ∷ [])
      × (r.dest_mac ≡ d.source_mac)
      × IsServed r.payload d.payload type server
          (or_default o.offered_ip (192 ∷ 168 ∷ 7 ∷ 100 ∷ []))
          (or_default o.mask (255 ∷ 255 ∷ 255 ∷ 0 ∷ []))
          (or_default o.router server)
          (or_default o.dns1 (8 ∷ 8 ∷ 8 ∷ 8 ∷ []) ++ or_default o.dns2 [])
          (or_default o.lease 3600)
unfolding build_dhcp_reply dhcp_body
build_dhcp_reply-IsServed d type o c h = (
  _,
  udp_datagram-build_udp_reply d (dhcp_body d.payload type o) _
      (record { source_mac = c.mac; dest_mac = h; source_ip = c.server_ip; dest_ip = refl }),
  refl,
  refl,
  refl,
  refl,
  body-IsServed d.payload type _ _ _ _ _ _ _ c.server_ip c.offered_ip c.mask c.router c.dns1 c.dns2,
)
