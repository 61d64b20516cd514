-- ===== src/Nic/Clock/Sort.antt =====
-- The order in which due events are delivered: by time, and as scheduled among equal times.
use sprinter_rtl8019a.Base.{
  ℕ, ◌≤◌, ◌≡◌, refl, ◌∙◌, List, [], ◌∷◌, arith, leb, ◌==◌, if◌then◌else◌, All, Bool-cases, inl, inr,
}
use sprinter_rtl8019a.Nic.Types.{Pending}
use sprinter_rtl8019a.Nic.Clock.{insert_due, sort_due}

module _ {T : Type 0} where
  -- No event stands in front of an earlier one.
  abbrev pub IsOrdered : List (Pending T) → Type 0
  IsOrdered [] = Unit {0}
  IsOrdered (p ∷ ps) = All (λ q. p.at_ms ≤ q.at_ms) ps × IsOrdered ps

  -- The events for one moment, in order.
  abbrev pub at_time : ℕ → List (Pending T) → List (Pending T)
  at_time t [] = []
  at_time t (p ∷ ps) = if p.at_ms == t then p ∷ at_time t ps else at_time t ps

  All-le :
      (m n : ℕ) (ps : List (Pending T))
      → m ≤ n
      → All (λ q. n ≤ q.at_ms) ps
      → All (λ q. m ≤ q.at_ms) ps
  All-le m n [] h a = tt
  All-le m n (p ∷ ps) h a = (omega arith, All-le m n ps h a.1)

  insert_due-All :
      (m : ℕ) (p : Pending T) (ps : List (Pending T))
      → m ≤ p.at_ms
      → All (λ q. m ≤ q.at_ms) ps
      → All (λ q. m ≤ q.at_ms) (insert_due p ps)
  unfolding insert_due
  insert_due-All m p [] h a = (h, tt)
  insert_due-All m p (q ∷ ps) h a = elim (Bool-cases (leb p.at_ms q.at_ms)) [
    | inl e ↦ rw e (h, a)
    | inr e ↦ rw e (a.0, insert_due-All m p ps h a.1)
  ]

  insert_due-IsOrdered :
      (p : Pending T) (ps : List (Pending T)) → IsOrdered ps → IsOrdered (insert_due p ps)
  unfolding insert_due
  insert_due-IsOrdered p [] o = (tt, tt)
  insert_due-IsOrdered p (q ∷ ps) o = elim (Bool-cases (leb p.at_ms q.at_ms)) [
    | inl e ↦ rw e ((ground arith, All-le p.at_ms q.at_ms ps (ground arith) o.0), o)
    | inr e ↦ rw e (insert_due-All q.at_ms p ps (ground arith) o.0, insert_due-IsOrdered p ps o.1)
  ]

  at_time-insert_due :
      (t : ℕ) (p : Pending T) (ps : List (Pending T))
      → at_time t (insert_due p ps) ≡ at_time t (p ∷ ps)
  unfolding insert_due
  at_time-insert_due t p [] = refl
  at_time-insert_due t p (q ∷ ps) = ground (arith, at_time-insert_due t p ps)

  pub sort_due-IsOrdered : (ps : List (Pending T)) → IsOrdered (sort_due ps)
  unfolding sort_due
  sort_due-IsOrdered [] = tt
  sort_due-IsOrdered (p ∷ ps) = insert_due-IsOrdered p (sort_due ps) (sort_due-IsOrdered ps)

  pub at_time-sort_due : (t : ℕ) (ps : List (Pending T)) → at_time t (sort_due ps) ≡ at_time t ps
  unfolding sort_due
  at_time-sort_due t [] = refl
  at_time-sort_due t (p ∷ ps) =
      at_time-insert_due t p (sort_due ps) ∙ ground (arith, at_time-sort_due t ps)
