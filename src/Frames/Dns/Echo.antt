-- ===== src/Frames/Dns/Echo.antt =====
-- An answer carries the question of the query that it answers.
use mathlib.Core.Path.{subst}
use sprinter_rtl8019a.Base.{
  get_or-append, ℕ, zero, suc, ◌+◌, ◌-◌, ◌≡◌, ◌≤◌, ◌<◌, refl, ap, ap₂, sym, ◌∙◌, false, Option,
  none, some, List, [], ◌∷◌, ◌++◌, arith, if◌then◌else◌, length, get_or, take, drop, slice,
  take-append, length-append, length-take, length-drop, u8, high_byte, word_of, word_of_lem,
  IsBytes, or_default,
}
use sprinter_rtl8019a.Frames.Udp.{Datagram, udp_datagram, word_at}
use sprinter_rtl8019a.Frames.Udp.RoundTrip.{reply_of, IsAddressed, udp_datagram-build_udp_reply}
use sprinter_rtl8019a.Frames.Dns.{
  Query, DnsOptions, qname_end, query_up_to, parse_dns_query, dns_body, build_dns_response,
  served_from, answer_records, answers_of,
}

qname_end-bounds :
    (fuel : ℕ) (xs : List ℕ) (i e : ℕ) → qname_end fuel xs i ≡ some e → (i ≤ e) × (e < length xs)
unfolding qname_end
qname_end-bounds zero xs i e h = cc
qname_end-bounds (suc fuel) xs i e h =
    ground (arith, qname_end-bounds fuel xs (i + (get_or xs i 0 + 1)) e)

-- The end depends only on the bytes up to it.
qname_end-agree :
    (fuel more : ℕ) (xs ys : List ℕ) (i e : ℕ)
    → qname_end fuel xs i ≡ some e
    → e < length ys
    → e < i + more
    → ((j : ℕ) → i ≤ j → j ≤ e → get_or ys j 0 ≡ get_or xs j 0)
    → qname_end more ys i ≡ some e
unfolding qname_end
qname_end-agree zero more xs ys i e h inside enough same = cc
qname_end-agree (suc fuel) zero xs ys i e h inside enough same =
    let b = qname_end-bounds (suc fuel) xs i e h in absurd (omega (arith, b))
qname_end-agree (suc fuel) (suc more) xs ys i e h inside enough same =
    let b = qname_end-bounds (suc fuel) xs i e h in
    let here = same i (omega arith) b.0 in
    rw here (
      ground (
        arith,
        b,
        qname_end-agree fuel more xs ys (i + (get_or xs i 0 + 1)) e,
        λ (j : ℕ) (l : i + (get_or xs i 0 + 1) ≤ j). same j (omega arith),
      ))

get_or-drop : (n : ℕ) (xs : List ℕ) (k j : ℕ) → n + k ≡ j → get_or (drop n xs) k 0 ≡ get_or xs j 0
get_or-drop zero xs k j e = ap (λ i. get_or xs i 0) (omega arith)
get_or-drop (suc n) [] k j e = refl
get_or-drop (suc n) (x ∷ xs) k zero e = absurd (omega arith)
get_or-drop (suc n) (x ∷ xs) k (suc j) e = get_or-drop n xs k j (omega arith)

get_or-take : (n : ℕ) (xs : List ℕ) (k : ℕ) → k < n → get_or (take n xs) k 0 ≡ get_or xs k 0
get_or-take zero xs k h = absurd (omega arith)
get_or-take (suc n) [] k h = refl
get_or-take (suc n) (x ∷ xs) zero h = refl
get_or-take (suc n) (x ∷ xs) (suc k) h = get_or-take n xs k (omega arith)

-- A message with the question of `xs` behind another header has its end in the same place.
module _ (xs ys rest : List ℕ) (e : ℕ) (found : qname_end (length xs) xs 12 ≡ some e)
    (question : drop 12 ys ≡ slice 12 (e + 1) xs ++ rest)
    (long : length ys ≡ 12 + length (drop 12 ys)) where
  bounds : (12 ≤ e) × (e < length xs)
  bounds = qname_end-bounds (length xs) xs 12 e found

  length-question : length (slice 12 (e + 1) xs) ≡ e + 1 - 12
  length-question = omega (arith, length-take (e + 1 - 12) (drop 12 xs), length-drop 12 xs, bounds)

  same_end : qname_end (length ys) ys 12 ≡ some e
  same_end =
      qname_end-agree (length xs) (length ys) xs ys 12 e found inside (omega (arith, inside))
        (λ j low high.
          sym (get_or-drop 12 ys (j - 12) j (omega arith))
          ∙ ap (λ l. get_or l (j - 12) 0) question
          ∙ get_or-append (slice 12 (e + 1) xs) rest (j - 12) 0 (omega (arith, length-question))
          ∙ get_or-take (e + 1 - 12) (drop 12 xs) (j - 12) (omega arith)
          ∙ get_or-drop 12 xs (j - 12) j (omega arith))
    where
      inside : e < length ys
      inside = omega (
        arith,
        long,
        ap (λ l. length l) question,
        length-append (slice 12 (e + 1) xs) rest,
        length-question,
        bounds,
      )

  same_question : slice 12 (e + 1) ys ≡ slice 12 (e + 1) xs
  same_question =
      ap (λ l. take (e + 1 - 12) l) question
      ∙ take-append (e + 1 - 12) (slice 12 (e + 1) xs) rest length-question

word_of-bytes : (id : ℕ) → id < 65536 → word_of (high_byte id) (u8 id) ≡ id
word_of-bytes id h = omega (arith, word_of_lem (high_byte id) (u8 id) (omega arith))

abbrev question_of : List ℕ → ℕ → Query
question_of xs e = record { id = word_at xs 0; qname = slice 12 (e + 1) xs }

echoed :
    (xs : List ℕ) (e : ℕ) (o : DnsOptions)
    → qname_end (length xs) xs 12 ≡ some e
    → word_at xs 0 < 65536
    → o.bad_xid ≡ false
    → parse_dns_query (dns_body (question_of xs e) o) ≡ some (question_of xs e)
unfolding parse_dns_query dns_body query_up_to
echoed xs e o found small good =
    let ys = dns_body (question_of xs e) o in
    let rcode = or_default o.rcode (if o.nxdomain then 3 else 0) in
    let rest : List ℕ = (0 ∷ 1 ∷ 0 ∷ 1 ∷ []) ++ answer_records (answers_of o rcode) in
    let shape : drop 12 ys ≡ slice 12 (e + 1) xs ++ rest = simp good refl in
    let long : length ys ≡ 12 + length (drop 12 ys) = simp good (omega arith) in
    let id : word_at ys 0 ≡ word_at xs 0 = simp good (word_of-bytes (word_at xs 0) small) in
    ap (query_up_to ys) (same_end xs ys rest e found shape long)
    ∙ ap₂ (λ i n. some (record { id = i; qname = n })) id
        (same_question xs ys rest e found shape long)

get_or-IsBytes : (xs : List ℕ) (i : ℕ) → IsBytes xs → get_or xs i 0 < 256
get_or-IsBytes [] i h = omega arith
get_or-IsBytes (x ∷ xs) zero h = h.0
get_or-IsBytes (x ∷ xs) (suc i) h = get_or-IsBytes xs i h.1

-- The query in an answer, whatever the answer's records.
parse-dns_body :
    (xs : List ℕ) (q : Query) (o : DnsOptions)
    → parse_dns_query xs ≡ some q
    → IsBytes xs
    → o.bad_xid ≡ false
    → parse_dns_query (dns_body q o) ≡ some q
unfolding parse_dns_query query_up_to
parse-dns_body xs q o h bytes good = ended (qname_end (length xs) xs 12) refl h
  where
    ended :
        (end : Option ℕ)
        → qname_end (length xs) xs 12 ≡ end
        → query_up_to xs end ≡ some q
        → parse_dns_query (dns_body q o) ≡ some q
    ended none found h = cc
    ended (some e) found h =
        let same : question_of xs e ≡ q = cc in
        subst (λ r. parse_dns_query (dns_body r o) ≡ some r) same
          (echoed xs e o found
            (omega (
              arith,
              get_or-IsBytes xs 0 bytes,
              get_or-IsBytes xs 1 bytes,
              word_of_lem (get_or xs 0 0) (get_or xs 1 0) (get_or-IsBytes xs 1 bytes),
            ))
            good)

-- The answer to a query of bytes that has an end, with whole addresses and a good XID, is a datagram
-- from port 53 to the asking port, and carries the very query: its identifier and its name.
pub build_dns_response-echo :
    (d : Datagram) (q : Query) (o : DnsOptions)
    → IsBytes d.payload
    → parse_dns_query d.payload ≡ some q
    → IsAddressed (
        reply_of d (dns_body q o) (served_from 53 o.mac o.ttl o.bad_ip_checksum o.bad_udp_checksum))
    → o.bad_xid ≡ false
    → (frame : List ℕ) × (r : Datagram) × (build_dns_response d o ≡ some frame)
      × (udp_datagram frame ≡ some r)
      × (parse_dns_query r.payload ≡ some q)
      × (r.source_port ≡ 53)
      × (r.dest_port ≡ d.source_port)
unfolding build_dns_response
build_dns_response-echo d q o bytes asked a good = (
  _,
  _,
  rw (asked, build_dns_response) refl,
  udp_datagram-build_udp_reply d (dns_body q o)
      (served_from 53 o.mac o.ttl o.bad_ip_checksum o.bad_udp_checksum) a,
  parse-dns_body d.payload q o asked bytes good,
  refl,
  refl,
)
