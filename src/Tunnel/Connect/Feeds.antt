-- ===== src/Tunnel/Connect/Feeds.antt =====
-- tunnel/src/client.rs: what `tls12_handshake` reads, writes and hands to the connection.
use native.Mathlib.Nat.{mul-le-mul_right}
use mathlib.Core.List.{append_assoc, append-nil}
use noisy_shuttle.Base.{
  ℕ, zero, suc, ◌+◌, ◌*◌, ◌≤◌, ◌<◌, ◌≡◌, refl, sym, ap, ◌∙◌, true, List, [], ◌∷◌, ◌++◌, some, arith,
  length, subst, take, drop, take-append-drop, length-drop, Option, none, ◌⊎◌, inl, inr,
}
use noisy_shuttle.Results.{ok, err}
use noisy_shuttle.Io.{Duplex, DuplexLaws}
use noisy_shuttle.Tunnel.Handshake.{payload_len}
use noisy_shuttle.Tunnel.Connect.Whole.{
  Records, one_more, one_record, Records-append, TooLong, TooLong-behind,
}
use noisy_shuttle.Tunnel.Connect.{
  TlsClient, Handshaken, finished, broken, spent, Fed, fed, choked, hungry, on_fed, feed,
}

-- rustls: what a connection has taken and given so far, and a measure of what it still wants to
-- write. It takes some of the bytes that it is shown, or refuses them, and gives some of those that
-- it wants to write.
pub record ClientLaws {O : Type 0} (t : TlsClient O) : Type 0 where
  pub taken : t.Connection → List ℕ
  pub given : t.Connection → List ℕ
  pub pending : t.Connection → ℕ
  pub backlog : ℕ
  pub read_tls_takes :
      (bytes : List ℕ) (n : ℕ) (c c' : t.Connection)
      → t.read_tls bytes c ≡ some (n, c')
      → (taken c' ≡ taken c ++ take n bytes) × (given c' ≡ given c)
  pub write_tls_gives :
      (c : t.Connection)
      → t.wants_write c ≡ true
      → (bytes : List ℕ) × (c' : t.Connection) × (t.write_tls c ≡ some (bytes, c'))
        × (taken c' ≡ taken c)
        × (given c' ≡ given c ++ bytes)
        × (pending c' < pending c)
  pub process_keeps :
      (c c' : t.Connection)
      → t.process_new_packets c ≡ some c'
      → (taken c' ≡ taken c) × (given c' ≡ given c) × (pending c' ≤ backlog)

-- A round that reads makes the measure of the rounds smaller, whatever is then to be written.
pub rounds_fall :
    (left left' backlog p p' : ℕ)
    → left' < left
    → p' ≤ backlog
    → left' * suc backlog + p' < left * suc backlog + p
rounds_fall left left' backlog p p' less small =
    let grows : suc left' * suc backlog ≤ left * suc backlog =
      mul-le-mul_right (suc backlog) less in
    grind arith

module _ (d : Duplex) (laws : DuplexLaws d) {O : Type 0} (t : TlsClient O) (cl : ClientLaws t) where
  open d use {Stream, read_exact, write_all}
  open laws use {incoming, outgoing, write_outgoing, write_incoming}
  open t use {Connection, wants_read, wants_write, write_tls, read_tls, process_new_packets}
  open cl use {taken, given, pending, backlog}

  -- `read_tls` errs, or takes nothing.
  abbrev pub Refused : Option (ℕ × Connection) → Type 0
  Refused none = Unit {0}
  Refused (some (zero, c)) = Unit {0}
  Refused (some (suc n, c)) = ⊥

  -- Having taken the first of these bytes, a connection refuses the others.
  abbrev pub Refuses : List ℕ → Connection → Type 0
  Refuses bytes c =
      (first : List ℕ) × (b : ℕ) × (left : List ℕ) × (c₁ : Connection) × (bytes
        ≡ first ++ (b ∷ left))
      × (taken c₁ ≡ taken c ++ first)
      × Refused (read_tls (b ∷ left) c₁)

  -- All the bytes are taken, in order; or some are refused.
  abbrev pub Feeds : List ℕ → Connection → Fed Connection → Type 0
  Feeds bytes c (fed c') = (taken c' ≡ taken c ++ bytes) × (given c' ≡ given c)
  Feeds bytes c choked = Refuses bytes c
  Feeds bytes c hungry = ⊥

  Feeds-behind :
      (first bytes : List ℕ) (c c₁ : Connection) (f : Fed Connection)
      → taken c₁ ≡ taken c ++ first
      → given c₁ ≡ given c
      → Feeds bytes c₁ f
      → Feeds (first ++ bytes) c f
  Feeds-behind first bytes c c₁ (fed c') took gave (took', gave') =
      (took' ∙ ap (λ l. l ++ bytes) took ∙ append_assoc (taken c) first bytes, gave' ∙ gave)
  Feeds-behind first bytes c c₁ choked took gave (shown, b, left, c₂, same, took', refused) = (
    first ++ shown,
    b,
    left,
    c₂,
    ap (λ l. first ++ l) same ∙ sym (append_assoc first shown (b ∷ left)),
    took' ∙ ap (λ l. l ++ shown) took ∙ append_assoc (taken c) first shown,
    refused,
  )
  Feeds-behind first bytes c c₁ hungry took gave f = f

  on_fed-Feeds :
      (next : List ℕ → Connection → Fed Connection) (b : ℕ) (bytes : List ℕ) (c : Connection)
      (o : Option (ℕ × Connection))
      → read_tls (b ∷ bytes) c ≡ o
      → ((n : ℕ) (c₁ : Connection) → Feeds (drop n bytes) c₁ (next (drop n bytes) c₁))
      → Feeds (b ∷ bytes) c (on_fed d t next (b ∷ bytes) o)
  unfolding on_fed
  on_fed-Feeds next b bytes c none e later =
      ([], b, bytes, c, refl, sym (append-nil (taken c)), subst Refused (sym e) tt)
  on_fed-Feeds next b bytes c (some (zero, c₁)) e later =
      ([], b, bytes, c, refl, sym (append-nil (taken c)), subst Refused (sym e) tt)
  on_fed-Feeds next b bytes c (some (suc n, c₁)) e later =
      let (took, gave) = cl.read_tls_takes (b ∷ bytes) (suc n) c c₁ e in
      let f = next (drop n bytes) c₁ in
      subst (λ l. Feeds l c f) (ap (λ l. b ∷ l) (take-append-drop n bytes))
        (Feeds-behind (b ∷ take n bytes) (drop n bytes) c c₁ f took gave (later n c₁))

  pub feed-Feeds :
      (fuel : ℕ) (bytes : List ℕ) (c : Connection)
      → length bytes ≤ fuel
      → Feeds bytes c (feed d t fuel bytes c)
  unfolding feed
  feed-Feeds fuel [] c h = (sym (append-nil (taken c)), refl)
  feed-Feeds zero (b ∷ bytes) c h = absurd (omega (arith, h))
  feed-Feeds (suc fuel) (b ∷ bytes) c h =
      on_fed-Feeds (feed d t fuel) b bytes c (read_tls (b ∷ bytes) c) refl
        (λ n c₁. feed-Feeds fuel (drop n bytes) c₁ (omega (arith, h, length-drop n bytes)))

  -- Behind whole records, which it has taken, a connection refuses bytes of a record.
  abbrev pub RefusesRecord : Connection → List ℕ → Type 0
  RefusesRecord c bytes =
      (before : List ℕ) × (header : List ℕ) × (body : List ℕ) × (behind : List ℕ)
      × (c₁ : Connection) × Records before
      × (bytes ≡ before ++ (header ++ (body ++ behind)))
      × (length header ≡ 5)
      × (length body ≡ payload_len header)
      × (taken c₁ ≡ taken c ++ before)
      × Refuses (header ++ body) c₁

  RefusesRecord-behind :
      (first bytes : List ℕ) (c c₁ : Connection)
      → Records first
      → taken c₁ ≡ taken c ++ first
      → RefusesRecord c₁ bytes
      → RefusesRecord c (first ++ bytes)
  RefusesRecord-behind first bytes c c₁ whole took
        (before, header, body, behind, c₂, records, same, l, l', took', refuses) =
      (
        first ++ before,
        header,
        body,
        behind,
        c₂,
        Records-append whole records,
        ap (λ x. first ++ x) same ∙ sym (append_assoc first before (header ++ (body ++ behind))),
        l,
        l',
        took' ∙ ap (λ x. x ++ before) took ∙ append_assoc (taken c) first before,
        refuses,
      )

  -- What is said of how the handshake ends.
  abbrev pub Hears : Connection → Stream → Handshaken Connection Stream → Type 0
  Hears c s (finished (ok u) c' s') =
      (heard : List ℕ) × (sent : List ℕ) × Records heard
      × (incoming s ≡ heard ++ incoming s')
      × (outgoing s' ≡ outgoing s ++ sent)
      × (taken c' ≡ taken c ++ heard)
      × (given c' ≡ given c ++ sent)
  Hears c s (finished (err e) c' s') = Unit {0}
  Hears c s broken = TooLong (incoming s) ⊎ RefusesRecord c (incoming s)
  Hears c s spent = ⊥

  -- A record was heard before.
  pub Hears-record :
      (c c₁ : Connection) (s s₁ : Stream) (header body : List ℕ) (h : Handshaken Connection Stream)
      → length header ≡ 5
      → length body ≡ payload_len header
      → incoming s ≡ header ++ (body ++ incoming s₁)
      → outgoing s₁ ≡ outgoing s
      → taken c₁ ≡ taken c ++ (header ++ body)
      → given c₁ ≡ given c
      → Hears c₁ s₁ h
      → Hears c s h
  Hears-record c c₁ s s₁ header body (finished (ok u) c' s') l l' i o took gave
        (heard, sent, records, j, k, took', gave') =
      (
        header ++ (body ++ heard),
        sent,
        one_more header body l l' records,
        i
            ∙ ap (λ x. header ++ (body ++ x)) j
            ∙ ap (λ x. header ++ x) (sym (append_assoc body heard (incoming s')))
            ∙ sym (append_assoc header (body ++ heard) (incoming s')),
        k ∙ ap (λ x. x ++ sent) o,
        took'
            ∙ ap (λ x. x ++ heard) took
            ∙ append_assoc (taken c) (header ++ body) heard
            ∙ ap (λ x. taken c ++ x) (append_assoc header body heard),
        gave' ∙ ap (λ x. x ++ sent) gave,
      )
  Hears-record c c₁ s s₁ header body (finished (err e) c' s') l l' i o took gave h = tt
  Hears-record c c₁ s s₁ header body broken l l' i o took gave (inl h) = inl (
      subst TooLong (append_assoc header body (incoming s₁) ∙ sym i)
        (TooLong-behind (header ++ body) (incoming s₁) (one_record header body l l') h))
  Hears-record c c₁ s s₁ header body broken l l' i o took gave (inr h) = inr (
      subst (RefusesRecord c) (append_assoc header body (incoming s₁) ∙ sym i) (
        RefusesRecord-behind (header ++ body) (incoming s₁) c c₁ (one_record header body l l') took
          h))
  Hears-record c c₁ s s₁ header body spent l l' i o took gave h = h

  -- Bytes were sent before.
  pub Hears-sent :
      (c c₁ : Connection) (s s₁ : Stream) (bytes : List ℕ) (h : Handshaken Connection Stream)
      → incoming s₁ ≡ incoming s
      → outgoing s₁ ≡ outgoing s ++ bytes
      → taken c₁ ≡ taken c
      → given c₁ ≡ given c ++ bytes
      → Hears c₁ s₁ h
      → Hears c s h
  Hears-sent c c₁ s s₁ bytes (finished (ok u) c' s') i o took gave
        (heard, sent, records, j, k, took', gave') =
      (
        heard,
        bytes ++ sent,
        records,
        sym i ∙ j,
        k ∙ ap (λ x. x ++ sent) o ∙ append_assoc (outgoing s) bytes sent,
        took' ∙ ap (λ x. x ++ heard) took,
        gave' ∙ ap (λ x. x ++ sent) gave ∙ append_assoc (given c) bytes sent,
      )
  Hears-sent c c₁ s s₁ bytes (finished (err e) c' s') i o took gave h = tt
  Hears-sent c c₁ s s₁ bytes broken i o took gave (inl h) = inl (subst TooLong i h)
  Hears-sent c c₁ s s₁ bytes broken i o took gave
        (inr (before, header, body, behind, c₂, records, same, l, l', took', refuses)) =
      inr (
        before,
        header,
        body,
        behind,
        c₂,
        records,
        sym i ∙ same,
        l,
        l',
        took' ∙ ap (λ x. x ++ before) took,
        refuses,
      )
  Hears-sent c c₁ s s₁ bytes spent i o took gave h = h
