-- ===== src/Peers/Posted.antt =====
-- What the senders of tools/exe-harness/net-builders.js do to the card: they only add to what it
-- has generated and to what is scheduled.
pub mod Senders
pub mod Servers
pub mod FtpServer
pub mod Answers
pub mod Whole
use sprinter_rtl8019a.Base.{
  ℕ, zero, suc, ◌+◌, ◌≤◌, ◌≡◌, refl, ◌∙◌, ap, sym, Bool, true, false, Option, none, some, List, [],
  ◌∷◌, ◌++◌, arith, All, if◌then◌else◌,
}
use mathlib.Core.List.{append_assoc, append-nil}
use sprinter_rtl8019a.Nic.Types.{Card, Pending, deliver, timer}
use sprinter_rtl8019a.Nic.Clock.{push_pending, schedule, schedule_callback}
use sprinter_rtl8019a.Peers.Session.{TcpSession, StreamOptions, Rto, post}

All-append {ℓ} :
    {A : Type ℓ} (Q : A → Type 0) (xs ys : List A) → All Q xs → All Q ys → All Q (xs ++ ys)
All-append Q [] ys hx hy = hy
All-append Q (x ∷ xs) ys hx hy = (hx.0, All-append Q xs ys (hx.1) hy)

module _ {P T : Type 0} where
  -- `c'` is `c` with more frames generated and more entries scheduled, none of them in the past.
  pub record IsPosted (c c' : Card P T) : Type 0 where
    pub entries : List (Pending T)
    pub frames : List (List ℕ)
    pub added : c' ≡ record c { pending = c.pending ++ entries; generated = c.generated ++ frames }
    pub later : All (λ (p : Pending T). c.current_ms ≤ p.at_ms) entries

  pub refl-IsPosted : (c : Card P T) → IsPosted c c
  refl-IsPosted c = record { entries = []; frames = []; added = simp append-nil; later = tt }

  pub trans-IsPosted : (c d e : Card P T) → IsPosted c d → IsPosted d e → IsPosted c e
  trans-IsPosted c d e p q = record {
    entries = p.entries ++ q.entries;
    frames = p.frames ++ q.frames;
    added =
        q.added
        ∙ ap
            (λ (x : Card P T). record x {
              pending = x.pending ++ q.entries;
              generated = x.generated ++ q.frames;
            })
            p.added
        ∙ simp append_assoc;
    later =
        All-append _ p.entries q.entries p.later
          (rw (sym (ap (λ (x : Card P T). x.current_ms) p.added)) q.later);
  }

  pub post-IsPosted : (delay : ℕ) (frame : List ℕ) (c : Card P T) → IsPosted c (post delay frame c)
  unfolding post schedule push_pending
  post-IsPosted delay frame c = record {
    entries = _;
    frames = frame ∷ [];
    added = refl;
    later = (omega arith, tt);
  }

  pub schedule_callback-IsPosted :
      (c : Card P T) (delay : ℕ) (t : T) → IsPosted c (schedule_callback c delay t)
  unfolding schedule_callback push_pending
  schedule_callback-IsPosted c delay t = record {
    entries = record { at_ms = c.current_ms + delay; action = timer t } ∷ [];
    frames = [];
    added = simp append-nil;
    later = (omega arith, tt);
  }
