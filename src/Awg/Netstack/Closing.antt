-- ===== src/Awg/Netstack/Closing.antt =====
-- What ends the reader.
use awgsocks.Base.{
  ℕ, ◌+◌, ◌<◌, ◌≤◌, ◌≡◌, ◌⊎◌, refl, ap, ◌∙◌, inl, inr, true, List, [], ◌∷◌, Option, none, some,
  arith, All, if-case, if◌then◌else◌, ltb, ◌==◌, take, length,
}
use awgsocks.Awg.Netstack.{
  Packet, Answer, Reader, taking, reading, offering, over, Slot, Call, BatchTun, Move, takes,
  sees_done, answers, queues, begins, receives, closes, move, run, take_free, see_done, answer_read,
  queue_packet, begin_read, begin_call, receive, receive_into, put_packet, go_on, find_empty,
  deliver, within, new_batch_tun,
}
use awgsocks.Awg.Netstack.Buffers.{is_over}

module _ {ℓ} {E : Type ℓ} where
  -- How many moves the reader has left, once every answer is an error.
  abbrev pub turns_left : Reader E → ℕ
  turns_left taking = 3
  turns_left reading = 2
  turns_left (offering p none) = 4
  turns_left (offering p (some e)) = 1
  turns_left (over left) = 0

  -- The moves of a schedule that take the reader on.
  abbrev pub turns : List (Move E) → BatchTun E → ℕ
  turns [] t = 0
  turns (m ∷ ms) t =
      (if turns_left t.reader == turns_left (move m t).0.reader then 0 else 1)
      + turns ms (move m t).0

  -- The wrapped device answers with an error.
  abbrev pub Fails : Move E → Type ℓ
  Fails takes = Unit
  Fails sees_done = Unit
  Fails (answers a) = (e : E) × (a.failure ≡ some e)
  Fails queues = Unit
  Fails (begins offset slots) = Unit
  Fails receives = Unit
  Fails closes = Unit

  -- A move that leaves the reader in its place, or takes it on.
  abbrev Goes : Reader E → BatchTun E → BatchTun E → Type ℓ
  Goes r t t' = ((t'.reader ≡ r) ⊎ (turns_left t'.reader < turns_left r)) × (t'.done ≡ t.done)

  take_free-Goes : (t : BatchTun E) (r : Reader E) → t.reader ≡ r → Goes r t (take_free t r)
  unfolding take_free
  take_free-Goes t taking e =
      if-case (Goes taking t) (ltb 0 t.free) _ _ (λ x. (inr (omega arith), refl))
        (λ x. (inl e, refl))
  take_free-Goes t reading e = (inl e, refl)
  take_free-Goes t (offering p f) e = (inl e, refl)
  take_free-Goes t (over left) e = (inl e, refl)

  see_done-Goes : (t : BatchTun E) (r : Reader E) → t.reader ≡ r → Goes r t (see_done t r)
  unfolding see_done
  see_done-Goes t taking e =
      if-case (Goes taking t) t.done _ _ (λ x. (inr (omega arith), refl)) (λ x. (inl e, refl))
  see_done-Goes t reading e = (inl e, refl)
  see_done-Goes t (offering p none) e =
      if-case (Goes (offering p none) t) t.done _ _ (λ x. (inr (omega arith), refl))
        (λ x. (inl e, refl))
  see_done-Goes t (offering p (some f)) e =
      if-case (Goes (offering p (some f)) t) t.done _ _ (λ x. (inr (omega arith), refl))
        (λ x. (inl e, refl))
  see_done-Goes t (over left) e = (inl e, refl)

  queue_packet-Goes : (t : BatchTun E) (r : Reader E) → t.reader ≡ r → Goes r t (queue_packet t r)
  unfolding queue_packet
  queue_packet-Goes t taking e = (inl e, refl)
  queue_packet-Goes t reading e = (inl e, refl)
  queue_packet-Goes t (offering p none) e =
      if-case (Goes (offering p none) t) (ltb (length t.queue) t.depth) _ _
        (λ x. (inr (omega arith), refl)) (λ x. (inl e, refl))
  queue_packet-Goes t (offering p (some f)) e =
      if-case (Goes (offering p (some f)) t) (ltb (length t.queue) t.depth) _ _
        (λ x. (inr (omega arith), refl)) (λ x. (inl e, refl))
  queue_packet-Goes t (over left) e = (inl e, refl)

  answered-Goes :
      (a : Answer E) (t : BatchTun E) (o : Option E) (e : E)
      → a.failure ≡ o
      → o ≡ some e
      → Goes reading t (answer_read a t reading).0
  unfolding answer_read
  answered-Goes a t none e same fails = cc fails
  answered-Goes a t (some f) e same fails = (inr (ground (arith, same)), ground (arith, same))

  answer_read-Goes :
      (a : Answer E) (e : E) (t : BatchTun E) (r : Reader E)
      → a.failure ≡ some e
      → t.reader ≡ r
      → Goes r t (answer_read a t r).0
  unfolding answer_read
  answer_read-Goes a e t taking fails at = (inl at, refl)
  answer_read-Goes a e t reading fails at = answered-Goes a t (some e) e fails refl
  answer_read-Goes a e t (offering p f) fails at = (inl at, refl)
  answer_read-Goes a e t (over left) fails at = (inl at, refl)

  -- The calls of `Read` leave the reader alone.
  abbrev Leaves : BatchTun E → BatchTun E → Type ℓ
  Leaves t t' = (t'.reader ≡ t.reader) × (t'.done ≡ t.done)

  begin_call-Leaves :
      (offset : ℕ) (room : List Slot) (t : BatchTun E) → Leaves t (begin_call offset room t).0
  unfolding begin_call
  begin_call-Leaves offset [] t = (refl, refl)
  begin_call-Leaves offset (s ∷ rest) t = (refl, refl)

  begin_read-Leaves :
      (offset : ℕ) (slots : List Slot) (t : BatchTun E) (o : Option Call)
      → Leaves t (begin_read offset slots t o).0
  unfolding begin_read
  begin_read-Leaves offset slots t (some c) = (refl, refl)
  begin_read-Leaves offset slots t none =
      if-case (λ (p : BatchTun E × _). Leaves t p.0) (within offset slots) _ _
        (λ w. begin_call-Leaves offset (take t.batch slots) t) (λ w. (refl, refl))

  put_packet-Leaves :
      (offset : ℕ) (filled rest : List Slot) (p : Packet) (t : BatchTun E) (o : Option Slot)
      → Leaves t (put_packet offset filled rest p t o).0
  unfolding put_packet go_on
  put_packet-Leaves offset filled rest p t none = (refl, refl)
  put_packet-Leaves offset filled [] p t (some s) = (refl, refl)
  put_packet-Leaves offset filled (r ∷ rest) p t (some s) = (refl, refl)

  find_empty-Leaves :
      (offset : ℕ) (filled : List Slot) (t : BatchTun E) → Leaves t (find_empty offset filled t).0
  unfolding find_empty
  find_empty-Leaves offset [] t =
      if-case (λ (p : BatchTun E × _). Leaves t p.0) t.queue_closed _ _ (λ x. (refl, refl))
        (λ x. (refl, refl))
  find_empty-Leaves offset (s ∷ filled) t = (refl, refl)

  receive_into-Leaves :
      (offset : ℕ) (filled room : List Slot) (q : List Packet) (t : BatchTun E)
      → Leaves t (receive_into offset filled room q t).0
  unfolding receive_into
  receive_into-Leaves offset filled [] q t = (refl, refl)
  receive_into-Leaves offset filled (s ∷ rest) [] t = find_empty-Leaves offset filled t
  receive_into-Leaves offset filled (s ∷ rest) (p ∷ q) t =
      put_packet-Leaves offset filled rest p (record t { queue = q; free = t.free + 1 })
        (deliver offset s p)

  receive-Leaves : (t : BatchTun E) (o : Option Call) → Leaves t (receive t o).0
  unfolding receive
  receive-Leaves t none = (refl, refl)
  receive-Leaves t (some c) = receive_into-Leaves c.offset c.filled c.room t.queue t

  counted :
      (t t' : BatchTun E)
      → t.done ≡ true
      → Goes t.reader t t'
      → ((if turns_left t.reader == turns_left t'.reader then 0 else 1) + turns_left t'.reader
          ≤ turns_left t.reader)
        × (t'.done ≡ true)
  counted t t' d (inl same, still) = (ground (arith, ap turns_left same), still ∙ d)
  counted t t' d (inr less, still) = (ground (arith, less), still ∙ d)

  -- A move behind `Close`.
  move-Goes :
      (m : Move E) (t : BatchTun E)
      → Fails m
      → t.done ≡ true
      → ((if turns_left t.reader == turns_left (move m t).0.reader then 0 else 1)
            + turns_left (move m t).0.reader
          ≤ turns_left t.reader)
        × ((move m t).0.done ≡ true)
  unfolding move
  move-Goes takes t h d = counted t (take_free t t.reader) d (take_free-Goes t t.reader refl)
  move-Goes sees_done t h d = counted t (see_done t t.reader) d (see_done-Goes t t.reader refl)
  move-Goes (answers a) t (e, h) d =
      counted t (answer_read a t t.reader).0 d (answer_read-Goes a e t t.reader h refl)
  move-Goes queues t h d = counted t (queue_packet t t.reader) d (queue_packet-Goes t t.reader refl)
  move-Goes (begins offset slots) t h d =
      let (same, still) = begin_read-Leaves offset slots t t.call in
      counted t (begin_read offset slots t t.call).0 d (inl same, still)
  move-Goes receives t h d =
      let (same, still) = receive-Leaves t t.call in
      counted t (receive t t.call).0 d (inl same, still)
  move-Goes closes t h d = ((counted t t d (inl refl, refl)).0, refl)

  run-turns :
      (ms : List (Move E)) (t : BatchTun E)
      → All Fails ms
      → t.done ≡ true
      → (turns ms t + turns_left (run ms t).0.reader ≤ turns_left t.reader)
        × ((run ms t).0.done ≡ true)
  unfolding run
  run-turns [] t h d = (omega arith, d)
  run-turns (m ∷ ms) t h d =
      let (one, still) = move-Goes m t h.0 d in
      let (rest, last) = run-turns ms (move m t).0 h.1 still in (omega (arith, one, rest), last)

  can_end :
      (t : BatchTun E) (r : Reader E)
      → t.reader ≡ r
      → t.done ≡ true
      → (t.reader ≡ reading) ⊎ (is_over (see_done t r).reader ≡ true)
  unfolding see_done
  can_end t taking e d = inr (rw d refl)
  can_end t reading e d = inl e
  can_end t (offering p f) e d = inr (rw d refl)
  can_end t (over left) e d = inr (rw e refl)

  at_most_four : (r : Reader E) → turns_left r ≤ 4
  at_most_four taking = omega arith
  at_most_four reading = omega arith
  at_most_four (offering p none) = omega arith
  at_most_four (offering p (some e)) = omega arith
  at_most_four (over left) = omega arith

  -- Behind `Close`, while the wrapped device answers with errors only: in any schedule, whichever way each
  -- `select` goes, the reader makes at most four more moves, fewer by those that it has left; and at its end
  -- the reader waits for the wrapped device, or is over, or would be if its `select` saw `done`.
  pub closes-is_over :
      (batch depth : ℕ) (before after : List (Move E))
      → All Fails after
      → let t = (move closes (run before (new_batch_tun E batch depth)).0).0 in
        let u = (run after t).0 in
        (turns after t + turns_left u.reader ≤ 4)
        × ((u.reader ≡ reading) ⊎ (is_over (move sees_done u).0.reader ≡ true))
  unfolding move
  closes-is_over batch depth before after h =
      let t = (move closes (run before (new_batch_tun E batch depth)).0).0 in
      let (few, still) = run-turns after t h refl in
      let u = (run after t).0 in
      (omega (arith, few, at_most_four t.reader), can_end u u.reader refl still)
