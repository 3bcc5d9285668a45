-- ===== src/Awg/Netstack/Reads.antt =====
-- What a call of `Read` does with the packets in hand.
use awgsocks.Base.{
  ℕ, ◌+◌, ◌≡◌, ◌⊎◌, refl, sym, ap, ◌∙◌, true, List, [], ◌∷◌, ◌++◌, Option, none, some, arith, map,
  append_assoc, if-case, inl, inr, subst,
}
use awgsocks.Awg.Netstack.{
  Packet, Slot, ReadError, too_big, Event, BatchTun, deliver, within, read_error, receive_into,
  return_read, go_on, put_packet, find_empty,
}
use awgsocks.Awg.Netstack.Contents.{
  found, refused, given_by, handed_on, held, filled_in, contents, HasRoom, deliver-cases,
  map-append,
}

module _ {ℓ} {E : Type ℓ} where
  -- The packets in hand are handed on or stay.
  abbrev pub Hands : List Packet → BatchTun E × List (Event E) → Type 0
  Hands packets (t, seen) =
      (given_by seen ≡ []) × (packets ≡ handed_on seen ++ contents t) × HasRoom t.call

  return_read-Hands :
      (offset : ℕ) (filled : List Slot) (failure : Option (ReadError E)) (t : BatchTun E)
      → Hands
          (map (found offset) filled ++ (refused failure ++ (t.queue ++ held t.reader)))
          (return_read offset filled failure t)
  return_read-Hands offset filled failure t = (
    refl,
    sym (
        append_assoc (map (found offset) filled) (refused failure ++ []) (t.queue ++ held t.reader)
        ∙ ap (λ l. map (found offset) filled ++ l)
            (append_assoc (refused failure) [] (t.queue ++ held t.reader))),
    tt,
  )

  go_on-Hands :
      (offset : ℕ) (filled rest : List Slot) (t : BatchTun E)
      → within offset rest ≡ true
      → Hands (map (found offset) filled ++ (t.queue ++ held t.reader)) (go_on offset filled rest t)
  unfolding go_on
  go_on-Hands offset filled [] t h = return_read-Hands offset filled none t
  go_on-Hands offset filled (s ∷ rest) t h = (refl, refl, h)

  abbrev after_one : ℕ → List Slot → Packet → BatchTun E → List Packet
  after_one offset filled p t =
      map (found offset) filled ++ ((p ∷ []) ++ (t.queue ++ held t.reader))

  put_packet-Hands :
      (offset : ℕ) (filled rest : List Slot) (p : Packet) (t : BatchTun E) (o : Option Slot)
      → within offset rest ≡ true
      → (o ≡ none) ⊎ ((s : Slot) × (o ≡ some s) × (found offset s ≡ p))
      → Hands (after_one offset filled p t) (put_packet offset filled rest p t o)
  unfolding put_packet
  put_packet-Hands offset filled rest p t o h (inl e) =
      subst (λ x. Hands (after_one offset filled p t) (put_packet offset filled rest p t x)) (sym e)
        (return_read-Hands offset filled (some (too_big p)) t)
  put_packet-Hands offset filled rest p t o h (inr (s, e, f)) =
      subst (λ x. Hands (after_one offset filled p t) (put_packet offset filled rest p t x)) (sym e)
        (subst (λ l. Hands l (go_on offset (filled ++ (s ∷ [])) rest t))
          (ap (λ l. l ++ (t.queue ++ held t.reader)) (map-append (found offset) filled (s ∷ []))
            ∙ append_assoc (map (found offset) filled) (found offset s ∷ [])
                (t.queue ++ held t.reader)
            ∙ ap (λ q. map (found offset) filled ++ ((q ∷ []) ++ (t.queue ++ held t.reader))) f)
          (go_on-Hands offset (filled ++ (s ∷ [])) rest t h))

  refused-read_error : (o : Option E) → refused (some (read_error o)) ≡ []
  refused-read_error none = refl
  refused-read_error (some e) = refl

  find_empty-Hands :
      (offset : ℕ) (filled : List Slot) (t : BatchTun E)
      → HasRoom t.call
      → filled_in t.call ≡ map (found offset) filled
      → Hands (map (found offset) filled ++ (t.queue ++ held t.reader)) (find_empty offset filled t)
  unfolding find_empty
  find_empty-Hands offset [] t h e =
      if-case (Hands (t.queue ++ held t.reader)) t.queue_closed _ _
        (λ x.
          subst
            (λ l.
              Hands (l ++ (t.queue ++ held t.reader))
                (return_read offset [] (some (read_error t.read_err)) t))
            (refused-read_error t.read_err)
            (return_read-Hands offset [] (some (read_error t.read_err)) t))
        (λ x. (refl, sym (ap (λ l. l ++ (t.queue ++ held t.reader)) e), h))
  find_empty-Hands offset (s ∷ filled) t h e = return_read-Hands offset (s ∷ filled) none t

  pub receive_into-Hands :
      (offset : ℕ) (filled room : List Slot) (q : List Packet) (t : BatchTun E)
      → t.queue ≡ q
      → HasRoom t.call
      → filled_in t.call ≡ map (found offset) filled
      → within offset room ≡ true
      → Hands
          (map (found offset) filled ++ (t.queue ++ held t.reader))
          (receive_into offset filled room q t)
  unfolding receive_into
  receive_into-Hands offset filled [] q t e h k w =
      (refl, sym (ap (λ l. l ++ (t.queue ++ held t.reader)) k), h)
  receive_into-Hands offset filled (s ∷ rest) [] t e h k w = find_empty-Hands offset filled t h k
  receive_into-Hands offset filled (s ∷ rest) (p ∷ q) t e h k w =
      subst
        (λ l.
          Hands (map (found offset) filled ++ (l ++ held t.reader))
            (receive_into offset filled (s ∷ rest) (p ∷ q) t))
        (sym e)
        (put_packet-Hands offset filled rest p (record t { queue = q; free = t.free + 1 })
          (deliver offset s p) (ground arith) (deliver-cases offset s p (ground arith)))
