-- ===== src/Nic/Clock/Sent.antt =====
-- Frames that a peer sends through `schedule` (tools/exe-harness/rtl8019-model.js, line 201): each is
-- noted in `generated` and waits in `pending` for its time.
use mathlib.Core.List.{append_assoc, append-nil}
use sprinter_rtl8019a.Base.{ℕ, ◌+◌, ◌≡◌, refl, ap, ap₂, sym, ◌∙◌, List, [], ◌∷◌, ◌++◌}
use sprinter_rtl8019a.Nic.Types.{Card, Pending, deliver}

module _ {T : Type 0} where
  abbrev pub deliveries : ℕ → List (List ℕ) → List (Pending T)
  deliveries time [] = []
  deliveries time (frame ∷ frames) =
      record { at_ms = time; action = deliver frame } ∷ deliveries time frames

  deliveries-append :
      (time : ℕ) (fs gs : List (List ℕ))
      → deliveries time (fs ++ gs) ≡ deliveries time fs ++ deliveries time gs
  deliveries-append time [] gs = refl
  deliveries-append time (f ∷ fs) gs =
      ap (λ ps. record { at_ms = time; action = deliver f } ∷ ps) (deliveries-append time fs gs)

module _ {P T : Type 0} where
  -- From the one card to the other, exactly these frames have been sent, each due after the delay, and
  -- the clock stands still.
  pub record IsSent (delay : ℕ) (frames : List (List ℕ)) (c c' : Card P T) : Type 0 where
    pub clock : c'.current_ms ≡ c.current_ms
    pub generated : c'.generated ≡ c.generated ++ frames
    pub pending : c'.pending ≡ c.pending ++ deliveries (c.current_ms + delay) frames

  pub nothing-IsSent : (delay : ℕ) (c : Card P T) → IsSent delay [] c c
  nothing-IsSent delay c = record {
    clock = refl;
    generated = sym (append-nil c.generated);
    pending = sym (append-nil c.pending);
  }

  pub append-IsSent :
      (delay : ℕ) (fs gs : List (List ℕ)) (a b c : Card P T)
      → IsSent delay fs a b
      → IsSent delay gs b c
      → IsSent delay (fs ++ gs) a c
  append-IsSent delay fs gs a b c first later = record {
    clock = later.clock ∙ first.clock;
    generated =
        later.generated ∙ ap (λ l. l ++ gs) first.generated ∙ append_assoc a.generated fs gs;
    pending =
        later.pending
        ∙ ap₂ (λ l t. l ++ deliveries (t + delay) gs) first.pending first.clock
        ∙ append_assoc a.pending _ _
        ∙ ap (λ l. a.pending ++ l) (sym (deliveries-append (a.current_ms + delay) fs gs));
  }
