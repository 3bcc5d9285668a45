-- ===== src/Awg/Netstack/Order.antt =====
-- The order of the packets through the queue.
use awgsocks.Base.{
  false, ◌≤◌, arith, ℕ, ◌≡◌, refl, sym, ap, ◌∙◌, true, List, [], ◌∷◌, ◌++◌, Option, none, some,
  length, take, ltb, append_assoc, append-nil, if-case, subst,
}
use awgsocks.Awg.Netstack.{
  Answer, Reader, taking, reading, offering, over, Slot, Call, Event, BatchTun, Move, takes,
  sees_done, answers, queues, begins, receives, closes, move, run, within, take_free, see_done,
  answer_read, queue_packet, begin_read, begin_call, receive, has_packet, receive_into, end_round,
  new_batch_tun,
}
use awgsocks.Awg.Netstack.Contents.{
  given_by, handed_on, held, filled_in, contents, HasRoom, within-take, given_by-append,
  handed_on-append, chain, on_its_way, dropped, contents_lem, answered_lem,
}
use awgsocks.Awg.Netstack.Reads.{Hands, receive_into-Hands}

module _ {ℓ} {E : Type ℓ} where
  -- One move: what was on its way and what it brings in, is what it hands on and what stays.
  abbrev Conserves : BatchTun E → BatchTun E × List (Event E) → Type 0
  Conserves t (t', seen) =
      (contents t ++ given_by seen ≡ handed_on seen ++ contents t') × HasRoom t'.call

  at_reader :
      (t : BatchTun E) (r : Reader E)
      → t.reader ≡ r
      → contents t ++ [] ≡ filled_in t.call ++ (t.queue ++ held r)
  at_reader t r e = append-nil _ ∙ ap (λ x. filled_in t.call ++ (t.queue ++ held x)) e

  same : (t : BatchTun E) → HasRoom t.call → Conserves t (t, [])
  same t h = (append-nil _, h)

  take_free-Conserves :
      (t : BatchTun E) (r : Reader E)
      → t.reader ≡ r
      → HasRoom t.call
      → Conserves t (take_free t r, [])
  unfolding take_free
  take_free-Conserves t taking e h =
      if-case (λ (t' : BatchTun E). Conserves t (t', [])) (ltb 0 t.free) _ _
        (λ x. (at_reader t taking e, h)) (λ x. same t h)
  take_free-Conserves t reading e h = same t h
  take_free-Conserves t (offering p x) e h = same t h
  take_free-Conserves t (over left) e h = same t h

  see_done-Conserves :
      (t : BatchTun E) (r : Reader E)
      → t.reader ≡ r
      → HasRoom t.call
      → Conserves t (see_done t r, [])
  unfolding see_done
  see_done-Conserves t taking e h =
      if-case (λ (t' : BatchTun E). Conserves t (t', [])) t.done _ _
        (λ x. (at_reader t taking e, h)) (λ x. same t h)
  see_done-Conserves t reading e h = same t h
  see_done-Conserves t (offering p f) e h =
      if-case (λ (t' : BatchTun E). Conserves t (t', [])) t.done _ _
        (λ x. (at_reader t (offering p f) e, h)) (λ x. same t h)
  see_done-Conserves t (over left) e h = same t h

  contents-end_round :
      (o : Option E) (t : BatchTun E)
      → contents (end_round o t) ≡ filled_in t.call ++ (t.queue ++ [])
  contents-end_round none t = refl
  contents-end_round (some e) t = refl

  call-end_round : (o : Option E) (t : BatchTun E) → (end_round o t).call ≡ t.call
  call-end_round none t = refl
  call-end_round (some e) t = refl

  answer_read-Conserves :
      (a : Answer E) (t : BatchTun E) (r : Reader E)
      → t.reader ≡ r
      → HasRoom t.call
      → Conserves t (answer_read a t r)
  unfolding answer_read
  answer_read-Conserves a t taking e h = same t h
  answer_read-Conserves a t reading e h =
      if-case (Conserves t) (has_packet a) _ _
        (λ x. (
          answered_lem a true (contents t) _ x (
              ap (λ l. l ++ (a.packet ∷ [])) (ap (λ x. filled_in t.call ++ (t.queue ++ held x)) e)
              ∙ append_assoc (filled_in t.call) (t.queue ++ []) (a.packet ∷ [])
              ∙ ap (λ l. filled_in t.call ++ l) (append_assoc t.queue [] _)),
          h,
        ))
        (λ x. (
          answered_lem a false (contents t) _ x
              (at_reader t reading e ∙ sym (contents-end_round a.failure _)),
          subst HasRoom (sym (call-end_round a.failure _)) h,
        ))
  answer_read-Conserves a t (offering p x) e h = same t h
  answer_read-Conserves a t (over left) e h = same t h

  queue_packet-Conserves :
      (t : BatchTun E) (r : Reader E)
      → t.reader ≡ r
      → HasRoom t.call
      → Conserves t (queue_packet t r, [])
  unfolding queue_packet
  queue_packet-Conserves t taking e h = same t h
  queue_packet-Conserves t reading e h = same t h
  queue_packet-Conserves t (offering p f) e h =
      if-case (λ (t' : BatchTun E). Conserves t (t', [])) (ltb (length t.queue) t.depth) _ _
        (λ x. (
          at_reader t (offering p f) e
              ∙ ap (λ l. filled_in t.call ++ l) (sym (append-nil _))
              ∙ sym (contents-end_round f _),
          subst HasRoom (sym (call-end_round f _)) h,
        ))
        (λ x. same t h)
  queue_packet-Conserves t (over left) e h = same t h

  Hands-Conserves :
      (t : BatchTun E) (after : BatchTun E × List (Event E))
      → Hands (contents t) after
      → Conserves t after
  Hands-Conserves t (t', seen) (quiet, all, room) =
      (ap (λ l. contents t ++ l) quiet ∙ append-nil (contents t) ∙ all, room)

  receive-Conserves :
      (t : BatchTun E) (o : Option Call) → t.call ≡ o → HasRoom o → Conserves t (receive t o)
  unfolding receive
  receive-Conserves t none e h = same t (subst HasRoom (sym e) h)
  receive-Conserves t (some c) e h =
      Hands-Conserves t (receive_into c.offset c.filled c.room t.queue t) (
        subst
          (λ o.
            Hands (filled_in o ++ (t.queue ++ held t.reader))
              (receive_into c.offset c.filled c.room t.queue t))
          (sym e)
          (receive_into-Hands c.offset c.filled c.room t.queue t refl (subst HasRoom (sym e) h)
            (ap filled_in e) h))

  begin_call-Conserves :
      (offset : ℕ) (room : List Slot) (t : BatchTun E)
      → t.call ≡ none
      → within offset room ≡ true
      → Conserves t (begin_call offset room t)
  unfolding begin_call
  begin_call-Conserves offset [] t e h =
      (append-nil (contents t) ∙ ap (λ o. filled_in o ++ (t.queue ++ held t.reader)) e, tt)
  begin_call-Conserves offset (s ∷ rest) t e h =
      (append-nil (contents t) ∙ ap (λ o. filled_in o ++ (t.queue ++ held t.reader)) e, h)

  begin_read-Conserves :
      (offset : ℕ) (slots : List Slot) (t : BatchTun E) (o : Option Call)
      → t.call ≡ o
      → HasRoom o
      → Conserves t (begin_read offset slots t o)
  unfolding begin_read
  begin_read-Conserves offset slots t (some c) e h = same t (subst HasRoom (sym e) h)
  begin_read-Conserves offset slots t none e h =
      if-case (Conserves t) (within offset slots) _ _
        (λ w.
          begin_call-Conserves offset (take t.batch slots) t e (within-take offset t.batch slots w))
        (λ w. same t (subst HasRoom (sym e) h))

  move-Conserves : (m : Move E) (t : BatchTun E) → HasRoom t.call → Conserves t (move m t)
  unfolding move
  move-Conserves takes t h = take_free-Conserves t t.reader refl h
  move-Conserves sees_done t h = see_done-Conserves t t.reader refl h
  move-Conserves (answers a) t h = answer_read-Conserves a t t.reader refl h
  move-Conserves queues t h = queue_packet-Conserves t t.reader refl h
  move-Conserves (begins offset slots) t h = begin_read-Conserves offset slots t t.call refl h
  move-Conserves receives t h = receive-Conserves t t.call refl h
  move-Conserves closes t h = same t h

  length-dropped : (r : Reader E) → length (dropped r) ≤ 1
  length-dropped taking = omega arith
  length-dropped reading = omega arith
  length-dropped (offering p e) = omega arith
  length-dropped (over none) = omega arith
  length-dropped (over (some p)) = omega arith

  run-Conserves : (ms : List (Move E)) (t : BatchTun E) → HasRoom t.call → Conserves t (run ms t)
  unfolding run
  run-Conserves [] t h = same t h
  run-Conserves (m ∷ ms) t h =
      let (e, k) = move-Conserves m t h in
      let (f, l) = run-Conserves ms (move m t).0 k in
      (
        ap (λ l. contents t ++ l) (given_by-append (move m t).1 _)
            ∙ chain (contents t) (contents (move m t).0) (contents (run ms (move m t).0).0)
                (given_by (move m t).1) (given_by (run ms (move m t).0).1) (handed_on (move m t).1)
                (handed_on (run ms (move m t).0).1) e f
            ∙ ap (λ l. l ++ contents (run (m ∷ ms) t).0) (sym (handed_on-append (move m t).1 _)),
        l,
      )

  -- Whatever the order of the moves of a new queue, the packets that were not empty and that the network
  -- stack has handed over are those that calls of `Read` have returned at their offsets or reported as too
  -- big for a buffer, followed by those on their way, and by at most one that the reader has dropped, as it
  -- saw the end while it waited to queue it; all in the order in which they came.
  pub new_batch_tun-run :
      (batch depth : ℕ) (ms : List (Move E))
      → let (t, seen) = run ms (new_batch_tun E batch depth) in
        (given_by seen ≡ handed_on seen ++ (on_its_way t ++ dropped t.reader))
        × (length (dropped t.reader) ≤ 1)
  unfolding new_batch_tun
  new_batch_tun-run batch depth ms =
      let t = (run ms (new_batch_tun E batch depth)).0 in
      (
        (run-Conserves ms (new_batch_tun E batch depth) tt).0
            ∙ ap (λ l. handed_on (run ms (new_batch_tun E batch depth)).1 ++ l) (contents_lem t),
        length-dropped t.reader,
      )
