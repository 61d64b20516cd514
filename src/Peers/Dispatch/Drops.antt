-- ===== src/Peers/Dispatch/Drops.antt =====
-- The `drop` counter of a responder of tools/exe-harness/net-builders.js, lines 930-937.
use sprinter_rtl8019a.Base.{
  ℕ, suc, ◌+◌, ◌-◌, ◌≡◌, refl, ap, sym, ◌∙◌, Bool, true, false, Option, none, some, List, [], ◌∷◌,
  ◌++◌, map, arith, All, length, drop, drop_of_le, leb, Bool-cases, inl, inr, Result, ok, err,
  if◌then◌else◌, or_default,
}
use mathlib.Core.Path.{subst}
use sprinter_rtl8019a.Nic.Types.{Fault}
use sprinter_rtl8019a.Nic.Clock.{schedule, push_pending}
use sprinter_rtl8019a.Nic.Clock.Sent.{IsSent, nothing-IsSent, append-IsSent}
use sprinter_rtl8019a.Frames.Arp.{ArpOptions, is_arp_request, build_arp_reply}
use sprinter_rtl8019a.Peers.Session.{post}
use sprinter_rtl8019a.Peers.Responders.{
  Counter, PeerCard, counted, is_dropped, with_peers, answer, Claim,
}
use sprinter_rtl8019a.Peers.Dispatch.{try_arp, claim, respond}

-- The card transmits one frame after the other.
unfoldable pub respond_all : List (List ℕ) → PeerCard → Result Fault PeerCard
respond_all [] c = ok c
respond_all (frame ∷ frames) c = elim (respond frame c) [
  | err f ↦ err f
  | ok c' ↦ respond_all frames c'
]

-- The card after a request that the ARP responder has claimed.
abbrev after_arp : List ℕ → PeerCard → Counter → ArpOptions → PeerCard
after_arp frame c k o =
    answer (counted k) (build_arp_reply frame o)
      (with_peers c (record c.peers { arp = some (counted k, o) }))

try_arp-claimed :
    (frame : List ℕ) (c : PeerCard) (k : Counter) (o : ArpOptions)
    → c.peers.arp ≡ some (k, o)
    → is_arp_request frame ≡ true
    → try_arp frame c ≡ some (ok (after_arp frame c k o))
unfolding try_arp
try_arp-claimed frame c k o a e =
    ap
      (λ (p : Option (Counter × ArpOptions)). elim p as (λ _. Claim) [
        | none ↦ none
        | some (k', o') ↦ if is_arp_request frame then some (ok (after_arp frame c k' o')) else none
      ])
      a
    ∙ ap (λ (b : Bool). if b then some (ok (after_arp frame c k o)) else none) e

respond-arp :
    (frame : List ℕ) (c : PeerCard) (r : Result Fault PeerCard)
    → try_arp frame c ≡ some r
    → respond frame c ≡ r
unfolding respond claim
respond-arp frame c r e = simp e

after_arp-arp :
    (frame : List ℕ) (c : PeerCard) (k : Counter) (o : ArpOptions)
    → (after_arp frame c k o).peers.arp ≡ some (counted k, o)
unfolding answer post schedule push_pending
after_arp-arp frame c k o = elim (Bool-cases (is_dropped (counted k))) [
  | inl e ↦ rw e refl
  | inr e ↦ rw e refl
]

-- What the responder sends in answer to one request.
abbrev answered : Counter → List ℕ → List (List ℕ)
answered k reply = if leb (suc k.count) k.drop then [] else reply ∷ []

after_arp-IsSent :
    (frame : List ℕ) (c : PeerCard) (k : Counter) (o : ArpOptions)
    → k.drops ≡ false
    → IsSent
        (or_default k.after_ms 1)
        (answered k (build_arp_reply frame o))
        c
        (after_arp frame c k o)
unfolding answer post schedule push_pending
after_arp-IsSent frame c k o d = elim (Bool-cases (leb (suc k.count) k.drop)) [
  | inl e ↦
      (let sent = nothing-IsSent (or_default k.after_ms 1) c in
        simp (e, d)
          (record { clock = sent.clock; generated = sent.generated; pending = sent.pending }))
  | inr e ↦ simp (e, d) (record { clock = refl; generated = refl; pending = refl })
]

answered-drop :
    (k : Counter) (reply : List ℕ → List ℕ) (frame : List ℕ) (frames : List (List ℕ))
    → answered k (reply frame) ++ map reply (drop (k.drop - suc k.count) frames)
      ≡ map reply (drop (k.drop - k.count) (frame ∷ frames))
answered-drop k reply frame frames = elim (Bool-cases (leb (suc k.count) k.drop)) [
  | inl e ↦
      (let more : k.drop - k.count ≡ suc (k.drop - suc k.count) = ground arith in simp (e, more))
  | inr e ↦
      (let now : k.drop - k.count ≡ 0 = ground arith in
        let later : k.drop - suc k.count ≡ 0 = ground arith in simp (e, now, later))
]

respond_all-step :
    (frame : List ℕ) (frames : List (List ℕ)) (c d : PeerCard)
    → respond frame c ≡ ok d
    → respond_all (frame ∷ frames) c ≡ respond_all frames d
unfolding respond_all
respond_all-step frame frames c d e =
    ap
      (λ (r : Result Fault PeerCard). elim r as (λ _. Result Fault PeerCard) [
        | err f ↦ err f
        | ok c' ↦ respond_all frames c'
      ])
      e

-- The ARP responder lets as many requests go by as `drop` still says, counted from the first one on,
-- and answers every later one, in order: exactly these replies are noted and scheduled, each for the
-- time that `afterMs` says. Its counter counts all requests, and none is a fault.
pub respond_all-arp :
    (frames : List (List ℕ)) (c : PeerCard) (k : Counter) (o : ArpOptions)
    → c.peers.arp ≡ some (k, o)
    → k.drops ≡ false
    → All (λ frame. is_arp_request frame ≡ true) frames
    → (c' : PeerCard) × (respond_all frames c ≡ ok c')
      × IsSent
          (or_default k.after_ms 1)
          (map (λ frame. build_arp_reply frame o) (drop (k.drop - k.count) frames))
          c
          c'
      × (c'.peers.arp ≡ some (record k { count = k.count + length frames }, o))
unfolding respond_all
respond_all-arp [] c k o a d h = (
  c,
  refl,
  subst (λ bs. IsSent (or_default k.after_ms 1) (map (λ frame. build_arp_reply frame o) bs) c c)
      (sym (drop_of_le (k.drop - k.count) [] (omega arith)))
      (nothing-IsSent (or_default k.after_ms 1) c),
  a ∙ ap (λ n. some (record k { count = n }, o)) (omega arith),
)
respond_all-arp (frame ∷ frames) c k o a d h =
    let reply : List ℕ → List ℕ = λ f. build_arp_reply f o in
    let next = after_arp frame c k o in
    let first = respond-arp frame c _ (try_arp-claimed frame c k o a (h.0)) in
    let (c', same, sent, left) =
      respond_all-arp frames next (counted k) o (after_arp-arp frame c k o) d (h.1) in
    (
      c',
      respond_all-step frame frames c _ first ∙ same,
      subst (λ fs. IsSent (or_default k.after_ms 1) fs c c') (answered-drop k reply frame frames)
          (append-IsSent (or_default k.after_ms 1) (answered k (reply frame))
            (map reply (drop (k.drop - suc k.count) frames)) c next c'
            (after_arp-IsSent frame c k o d) sent),
      left ∙ ap (λ n. some (record k { count = n }, o)) (omega arith),
    )
