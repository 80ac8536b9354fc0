-- ===== src/Tunnel/Snowy/Records.antt =====
-- tunnel/src/common.rs: chunks of plaintext, and the records that they are sealed into.
use mathlib.Core.List.{append_assoc}
use noisy_shuttle.Base.{ℕ, ◌≤◌, ◌<◌, ◌≡◌, refl, sym, ap, ◌∙◌, List, [], ◌∷◌, ◌++◌, some, length}
use noisy_shuttle.Tunnel.Snowy.{Noise, tls_record, maximum_plaintext_length}

abbrev pub concat : List (List ℕ) → List ℕ
concat [] = []
concat (p ∷ ps) = p ++ concat ps

pub concat-append : (ps qs : List (List ℕ)) → concat (ps ++ qs) ≡ concat ps ++ concat qs
concat-append [] qs = refl
concat-append (p ∷ ps) qs =
    ap (λ l. p ++ l) (concat-append ps qs) ∙ sym (append_assoc p (concat ps) (concat qs))

module _ (n : Noise) where
  open n use {State, write_message}

  -- From one state to another, chunks are sealed one by one into these bytes. No chunk is empty,
  -- and each fits a record.
  pub data Sealed : State → List (List ℕ) → List ℕ → State → Type 0 where
    nothing : {w : State} → Sealed w [] [] w
    seal :
        {w w' w'' : State} {ps : List (List ℕ)} {bytes all : List ℕ} (plain c : List ℕ)
        → 0 < length plain
        → length plain ≤ maximum_plaintext_length
        → write_message plain w ≡ some (c, w')
        → Sealed w' ps bytes w''
        → all ≡ tls_record c ++ bytes
        → Sealed w (plain ∷ ps) all w''

  pub Sealed-append :
      {w w' w'' : State} {ps qs : List (List ℕ)} {a b : List ℕ}
      → Sealed w ps a w'
      → Sealed w' qs b w''
      → Sealed w (ps ++ qs) (a ++ b) w''
  Sealed-append nothing t = t
  Sealed-append {b = b} (seal {bytes = bytes} plain c h k e s i) t =
      seal plain c h k e (Sealed-append s t)
        (ap (λ l. l ++ b) i ∙ append_assoc (tls_record c) bytes b)
