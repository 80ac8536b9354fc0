-- ===== src/Trojan/Encode.antt =====
-- shuttle/src/trojan.rs: a request encoded into a buffer.
use noisy_shuttle.Base.{
  ℕ, ◌+◌, ◌-◌, ◌≤◌, ◌≡◌, refl, ap, sym, ◌∙◌, List, [], ◌∷◌, ◌++◌, Option, some, arith, length, take,
  drop, take-append, drop-append, length-append, length-take, length-drop, take-append-drop, le→leb,
}
use mathlib.Core.List.{append_assoc}
use noisy_shuttle.Io.{Duplex, DuplexLaws}
use noisy_shuttle.Trojan.{
  cr, lf, to_u8, AddressCodec, AddressLaws, TrojanLikeRequest, write_at, encode_request, then_write,
}

-- A write over bytes of the same number.
write_at_over :
    (before old bytes after : List ℕ) (at : ℕ)
    → at ≡ length before
    → length old ≡ length bytes
    → write_at at bytes (before ++ (old ++ after)) ≡ some (before ++ (bytes ++ after))
unfolding write_at
write_at_over before old bytes after at place same =
    let whole = before ++ (old ++ after) in
    let fits : at + length bytes ≤ length whole =
      omega (arith, length-append before (old ++ after), length-append old after) in
    let head : take at whole ≡ before =
      ap (λ n. take n whole) place ∙ take-append before (old ++ after) in
    let ends : at + length bytes ≡ length (before ++ old) =
      omega (arith, length-append before old) in
    let tail : drop (at + length bytes) whole ≡ after =
      ap (λ n. drop n whole) ends
      ∙ ap (drop (length (before ++ old))) (sym (append_assoc before old after))
      ∙ drop-append (before ++ old) after in
    rw (le→leb (at + length bytes) (length whole) fits, head, tail) refl

first_two : (l : List ℕ) → 2 ≤ length l → (y z : ℕ) × (rest : List ℕ) × (l ≡ y ∷ z ∷ rest)
first_two [] h = absurd (omega arith)
first_two (y ∷ []) h = absurd (omega arith)
first_two (y ∷ z ∷ rest) h = (y, z, rest, refl)

-- A buffer of at least `n + 3` bytes, cut where the parts of a request go.
parts :
    (n : ℕ) (buf : List ℕ)
    → n + 3 ≤ length buf
    → (x y z : ℕ) × (old rest : List ℕ) × (length old ≡ n) × (buf ≡ x ∷ (old ++ (y ∷ z ∷ rest)))
parts n [] h = absurd (omega arith)
parts n (x ∷ b) h =
    let (y, z, rest, e) = first_two (drop n b) (omega (arith, length-drop n b)) in
    (
      x,
      y,
      z,
      take n b,
      rest,
      omega (arith, length-take n b),
      ap (◌∷◌ x) (sym (take-append-drop n b) ∙ ap (λ l. take n b ++ l) e),
    )

module _ (d : Duplex) (laws : DuplexLaws d) (codec : AddressCodec d)
    (addresses : AddressLaws d laws codec) where
  open codec use {Address, serialized_len, serialized}
  open addresses use {IsWritable, length_serialized}

  -- In a buffer with room for it, the encoding of a request is its command, its address, CR and LF,
  -- and what stood behind that place stays.
  pub encode_request-eq-some :
      (r : TrojanLikeRequest Address) (buf : List ℕ)
      → IsWritable r.dest_addr
      → 1 + serialized_len r.dest_addr + 2 ≤ length buf
      → encode_request d codec r buf
        ≡ some (
            to_u8 r.cmd
            ∷ (serialized r.dest_addr ++ (cr ∷ lf ∷ drop (1 + serialized_len r.dest_addr + 2) buf)))
  unfolding encode_request
  encode_request-eq-some r buf w room =
      let a = serialized r.dest_addr in
      let n = serialized_len r.dest_addr in
      let c = to_u8 r.cmd in
      let measured : length a ≡ n = length_serialized r.dest_addr w in
      let (x, y, z, old, rest, size, cut) = parts n buf (omega (arith, room)) in
      let s1 = write_at_over [] (x ∷ []) (c ∷ []) (old ++ (y ∷ z ∷ rest)) 0 refl refl in
      let s2 = write_at_over (c ∷ []) old a (y ∷ z ∷ rest) 1 refl (size ∙ sym measured) in
      let s3 =
        write_at_over (c ∷ a) (y ∷ []) (cr ∷ []) (z ∷ rest) (1 + n + 2 - 2)
          (omega (arith, measured)) refl in
      let s4 =
        write_at_over (c ∷ (a ++ (cr ∷ []))) (z ∷ []) (lf ∷ []) rest (1 + n + 2 - 1)
          (omega (arith, measured, length-append a (cr ∷ []))) refl in
      let f4 : List ℕ → Option (List ℕ) = λ b3. write_at (1 + n + 2 - 1) (lf ∷ []) b3 in
      let f3 : List ℕ → Option (List ℕ) =
        λ b2. then_write (write_at (1 + n + 2 - 2) (cr ∷ []) b2) f4 in
      let f2 : List ℕ → Option (List ℕ) = λ b1. then_write (write_at 1 a b1) f3 in
      let front : List ℕ = x ∷ (old ++ (y ∷ z ∷ [])) in
      let split : buf ≡ front ++ rest =
        cut ∙ ap (◌∷◌ x) (sym (append_assoc old (y ∷ z ∷ []) rest)) in
      let spans : 1 + n + 2 ≡ length front = omega (arith, size, length-append old (y ∷ z ∷ [])) in
      let behind : drop (1 + n + 2) buf ≡ rest =
        ap (drop (1 + n + 2)) split
        ∙ ap (λ k. drop k (front ++ rest)) spans
        ∙ drop-append front rest in
      ap (λ l. then_write (write_at 0 (c ∷ []) l) f2) cut
      ∙ ap (λ m. then_write m f2) s1
      ∙ ap (λ m. then_write m f3) s2
      ∙ ap (λ m. then_write m f4) s3
      ∙ ap (λ l. f4 (c ∷ l)) (sym (append_assoc a (cr ∷ []) (z ∷ rest)))
      ∙ s4
      ∙ ap (λ l. some (c ∷ l)) (append_assoc a (cr ∷ []) (lf ∷ rest))
      ∙ ap (λ l. some (c ∷ (a ++ (cr ∷ lf ∷ l)))) (sym behind)
