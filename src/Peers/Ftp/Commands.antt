-- ===== src/Peers/Ftp/Commands.antt =====
-- The command lines of `respondFtp` (tools/exe-harness/net-builders.js, lines 739-769), and how the
-- text that they arrive in may be cut.
use sprinter_rtl8019a.Base.{
  ℕ, zero, suc, ◌+◌, ◌≡◌, refl, ap, sym, ◌∙◌, ◌||◌, none, some, List, [], ◌∷◌, ◌++◌, map, arith,
  length, length-append, equal, codes, upper, Bool-cases, inl, inr,
}
use mathlib.Core.List.{append_assoc, append-nil}
use mathlib.Core.Path.{subst}
use sprinter_rtl8019a.Nic.Types.{Card}
use sprinter_rtl8019a.Peers.Session.{TcpSession, Rto}
use sprinter_rtl8019a.Peers.Ftp.{FtpPeer, split_line, first_word, ftp_start_data}
use sprinter_rtl8019a.Peers.Ftp.Respond.{open_transfer, run_command, run_commands}
use sprinter_rtl8019a.Peers.Ftp.Lines.{
  Split, split-known, lines, lines-none, lines-some, lines-enough, then_lines, lines-append,
  length-lines,
}

abbrev Served : Type 0 → Type 0 → Type 0
Served P T = Card P T × FtpPeer × TcpSession

-- What is served has these lines after those of `f`, and what is left behind them.
abbrev HasLines : {P T : Type 0} → FtpPeer → List (List ℕ) × List ℕ → Served P T → Type 0
HasLines f p r = ((r.1).commands ≡ f.commands ++ p.0) × ((r.2).request ≡ p.1)

module _ {P T : Type 0} (start_timer : Rto → T) where
  ftp_start_data-commands :
      (f : FtpPeer) (c : Card P T) → ((ftp_start_data start_timer f c).1).commands ≡ f.commands
  unfolding ftp_start_data
  ftp_start_data-commands f c = ground arith

  open_transfer-commands :
      (f : FtpPeer) (text : List ℕ) (s : TcpSession) (c : Card P T)
      → let r = open_transfer start_timer f text s c in ((r.1).commands ≡ f.commands)
  unfolding open_transfer
  open_transfer-commands f text s c = ftp_start_data-commands _ _

  run_command-commands :
      (f : FtpPeer) (line : List ℕ) (s : TcpSession) (c : Card P T)
      → let r = run_command start_timer f line s c in ((r.1).commands ≡ f.commands ++ (line ∷ []))
  unfolding run_command
  run_command-commands f line s c =
      let verb = map upper (first_word line) in
      elim (Bool-cases (equal verb (codes "RETR"))) [
        | inl e ↦ rw e (open_transfer-commands _ _ s c)
        | inr e ↦ rw e (elim (Bool-cases (equal verb (codes "LIST") || equal verb (codes "NLST"))) [
          | inl d ↦ rw d (open_transfer-commands _ _ s c)
          | inr d ↦ rw d refl
        ])
      ]

  run_commands-none :
      (fuel : ℕ) (f : FtpPeer) (text : List ℕ) (s : TcpSession) (c : Card P T)
      → split_line text ≡ none
      → run_commands start_timer (suc fuel) f text s c ≡ (c, f, record s { request = text })
  unfolding run_commands
  run_commands-none fuel f text s c e =
      ap
        (λ (o : Split). elim o as (λ _. Served P T) [
          | none ↦ (c, f, record s { request = text })
          | some (line, left) ↦
              (let (c', f', s') = run_command start_timer f line s c in
                run_commands start_timer fuel f' left s' c')
        ])
        e

  run_commands-some :
      (fuel : ℕ) (f : FtpPeer) (text line left : List ℕ) (s : TcpSession) (c : Card P T)
      → split_line text ≡ some (line, left)
      → run_commands start_timer (suc fuel) f text s c ≡ (
          let (c', f', s') = run_command start_timer f line s c in
          run_commands start_timer fuel f' left s' c')
  unfolding run_commands
  run_commands-some fuel f text line left s c e =
      ap
        (λ (o : Split). elim o as (λ _. Served P T) [
          | none ↦ (c, f, record s { request = text })
          | some (l, t) ↦
              (let (c', f', s') = run_command start_timer f l s c in
                run_commands start_timer fuel f' t s' c')
        ])
        e

  run_commands-HasLines :
      (fuel : ℕ) (f : FtpPeer) (text : List ℕ) (s : TcpSession) (c : Card P T)
      → HasLines f (lines fuel text) (run_commands start_timer fuel f text s c)
  unfolding lines run_commands
  run_commands-HasLines zero f text s c = (sym (append-nil f.commands), refl)
  run_commands-HasLines (suc fuel) f text s c = elim (split-known (split_line text)) [
    | inl e ↦
        subst (HasLines f (lines (suc fuel) text)) (sym (run_commands-none fuel f text s c e))
          (rw (lines-none (suc fuel) text e) (sym (append-nil f.commands), refl))
    | inr (line, left, e) ↦
        (let r = run_command start_timer f line s c in
          let ih = run_commands-HasLines fuel (r.1) left (r.2) (r.0) in
          subst (HasLines f (lines (suc fuel) text))
            (sym (run_commands-some fuel f text line left s c e))
            (rw (lines-some fuel text line left e) (
              ih.0
                  ∙ ap (λ k. k ++ (lines fuel left).0) (run_command-commands f line s c)
                  ∙ append_assoc f.commands (line ∷ []) ((lines fuel left).0),
              ih.1,
            )))
  ]

  -- It makes no difference whether the text of the commands comes in one piece, or in two with what
  -- the first one leaves kept in front of the second: the recorded commands are the same, and so is
  -- what is left of the text in the end.
  pub run_commands-append :
      (f : FtpPeer) (a b : List ℕ) (s : TcpSession) (c : Card P T)
      → let whole = run_commands start_timer (length (a ++ b)) f (a ++ b) s c in
        let first = run_commands start_timer (length a) f a s c in
        let text = (first.2).request ++ b in
        let second = run_commands start_timer (length text) (first.1) text (first.2) (first.0) in
        ((second.1).commands ≡ (whole.1).commands) × ((second.2).request ≡ (whole.2).request)
  run_commands-append f a b s c =
      let first = run_commands start_timer (length a) f a s c in
      let text = (first.2).request ++ b in
      let (fc, fr) = run_commands-HasLines (length a) f a s c in
      let (wc, wr) = run_commands-HasLines (length (a ++ b)) f (a ++ b) s c in
      let (sc, sr) = run_commands-HasLines (length text) (first.1) text (first.2) (first.0) in
      let k = length a + length b in
      let one = lines (length a) a in
      let parts : lines (length (a ++ b)) (a ++ b) ≡ then_lines k b one =
        lines-append (length a) _ k a b (omega arith) (omega (arith, length-append a b))
          (omega arith) in
      let rest : lines (length text) text ≡ lines k (one.1 ++ b) =
        lines-enough (length text) k text (omega arith) (
          omega
            (arith, length-append ((first.2).request) b, length-lines (length a) a, ap length fr))
        ∙ ap (λ t. lines k (t ++ b)) fr in
      (
        sc
            ∙ ap (λ h. h ++ (lines (length text) text).0) fc
            ∙ ap (λ (p : List (List ℕ) × List ℕ). (f.commands ++ one.0) ++ p.0) rest
            ∙ append_assoc f.commands (one.0) ((lines k (one.1 ++ b)).0)
            ∙ sym (ap (λ (p : List (List ℕ) × List ℕ). f.commands ++ p.0) parts)
            ∙ sym wc,
        sr
            ∙ ap (λ (p : List (List ℕ) × List ℕ). p.1) rest
            ∙ sym (ap (λ (p : List (List ℕ) × List ℕ). p.1) parts)
            ∙ sym wr,
      )
