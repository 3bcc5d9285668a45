-- ===== src/Awg/Netstack/Buffers.antt =====
-- The fixed set of buffers, and the size of a batch.
use awgsocks.Base.{
  map, ℕ, zero, suc, ◌+◌, ◌≡◌, ◌≤◌, ◌<◌, refl, ap, Bool, true, false, List, [], ◌∷◌, Option, none,
  some, length, take, arith, if-case, subst, All, All-append, length-append,
}
use awgsocks.Awg.Netstack.{
  brings, has_packet, Packet, Answer, Reader, taking, reading, offering, over, Slot, Call, Event,
  given, returned, BatchTun, Move, takes, sees_done, answers, queues, begins, receives, closes,
  move, run, deliver, within, take_free, see_done, answer_read, queue_packet, begin_read,
  begin_call, receive, receive_into, go_on, put_packet, find_empty, new_batch_tun,
}

abbrev pub FitsCall : ℕ → Option Call → Type 0
FitsCall batch none = Unit
FitsCall batch (some c) = length c.filled + length c.room ≤ batch

take_most : (n : ℕ) (slots : List Slot) → length (take n slots) ≤ n
take_most zero slots = omega arith
take_most (suc n) [] = omega arith
take_most (suc n) (s ∷ slots) = omega (arith, take_most n slots)

take_fits :
    (n : ℕ) (slots : List Slot)
    → 0 < n
    → 0 < length slots
    → (0 < length (take n slots)) × (length (take n slots) ≤ n)
take_fits zero slots h k = absurd (omega arith)
take_fits (suc n) [] h k = absurd (omega arith)
take_fits (suc n) (s ∷ slots) h k = (omega arith, take_most (suc n) (s ∷ slots))

module _ {ℓ} {E : Type ℓ} where
  -- The buffer that the reader holds, or took with it.
  abbrev pub in_hand : Reader E → ℕ
  in_hand taking = 0
  in_hand reading = 1
  in_hand (offering p e) = 1
  in_hand (over none) = 0
  in_hand (over (some p)) = 1

  abbrev pub is_over : Reader E → Bool
  is_over taking = false
  is_over reading = false
  is_over (offering p e) = false
  is_over (over left) = true

  -- A call of `Read` returns with an error, or with one to `batch` packets; never with more.
  abbrev pub InBatch : ℕ → Event E → Type 0
  InBatch batch (given p) = Unit
  InBatch batch (returned offset filled none) = (0 < length filled) × (length filled ≤ batch)
  InBatch batch (returned offset filled (some e)) = length filled ≤ batch

  -- The call brings at least one buffer.
  abbrev pub HasSlots : Move E → Type 0
  HasSlots takes = Unit
  HasSlots sees_done = Unit
  HasSlots (answers a) = Unit
  HasSlots queues = Unit
  HasSlots (begins offset slots) = 0 < length slots
  HasSlots receives = Unit
  HasSlots closes = Unit

  pub record IsKept (batch depth : ℕ) (t : BatchTun E) : Type 0 where
    pub same_batch : t.batch ≡ batch
    pub same_depth : t.depth ≡ depth
    pub positive : 0 < batch
    pub conserved : t.free + (length t.queue + in_hand t.reader) ≡ depth
    pub fits : FitsCall batch t.call
    pub ends : is_over t.reader ≡ true → t.queue_closed ≡ true

  -- One move keeps the invariant, and what is seen of it is as promised.
  abbrev pub Keeps : ℕ → ℕ → BatchTun E × List (Event E) → Type 0
  Keeps batch depth (t, seen) = IsKept batch depth t × All (InBatch batch) seen

  take_free-IsKept :
      {batch depth : ℕ} (t : BatchTun E) (r : Reader E)
      → t.reader ≡ r
      → IsKept batch depth t
      → IsKept batch depth (take_free t r)
  unfolding take_free
  take_free-IsKept t r e h = grind arith

  see_done-IsKept :
      {batch depth : ℕ} (t : BatchTun E) (r : Reader E)
      → t.reader ≡ r
      → IsKept batch depth t
      → IsKept batch depth (see_done t r)
  unfolding see_done
  see_done-IsKept t r e h = grind arith

  InBatch-given :
      (batch : ℕ) (a : Answer E) → All (InBatch batch) (map given (brings a.count a.packet))
  InBatch-given batch a = of_brings a.count a.packet
    where
      of_brings : (n : ℕ) (p : Packet) → All (InBatch batch) (map {B = Event E} given (brings n p))
      of_brings zero p = tt
      of_brings (suc n) [] = tt
      of_brings (suc n) (c ∷ p) = (tt, tt)

  answer_read-Keeps :
      {batch depth : ℕ} (a : Answer E) (t : BatchTun E) (r : Reader E)
      → t.reader ≡ r
      → IsKept batch depth t
      → Keeps batch depth (answer_read a t r)
  unfolding answer_read
  answer_read-Keeps a t taking e h = grind arith
  answer_read-Keeps {batch} a t reading e h =
      let quiet = InBatch-given batch a in
      if-case (Keeps batch _) (has_packet a) _ _ (λ x. (grind arith, quiet))
        (λ x. (grind arith, quiet))
  answer_read-Keeps a t (offering p x) e h = grind arith
  answer_read-Keeps a t (over left) e h = grind arith

  queue_packet-IsKept :
      {batch depth : ℕ} (t : BatchTun E) (r : Reader E)
      → t.reader ≡ r
      → IsKept batch depth t
      → IsKept batch depth (queue_packet t r)
  unfolding queue_packet
  queue_packet-IsKept t taking e h = h
  queue_packet-IsKept t reading e h = h
  queue_packet-IsKept t (offering p x) e h = grind (arith, length-append {0})
  queue_packet-IsKept t (over left) e h = h

  put_packet-Keeps :
      {batch depth : ℕ} (offset : ℕ) (filled rest : List Slot) (p : Packet) (t : BatchTun E)
      (o : Option Slot)
      → length filled + length rest < batch
      → IsKept batch depth t
      → Keeps batch depth (put_packet offset filled rest p t o)
  unfolding put_packet go_on
  put_packet-Keeps offset filled rest p t none k h = grind arith
  put_packet-Keeps offset filled [] p t (some s) k h = grind (arith, length-append filled (s ∷ []))
  put_packet-Keeps offset filled (r ∷ rest) p t (some s) k h =
      grind (arith, length-append filled (s ∷ []))

  find_empty-Keeps :
      {batch depth : ℕ} (offset : ℕ) (filled : List Slot) (t : BatchTun E)
      → length filled ≤ batch
      → IsKept batch depth t
      → Keeps batch depth (find_empty offset filled t)
  unfolding find_empty
  find_empty-Keeps offset [] t k h = grind arith
  find_empty-Keeps offset (s ∷ filled) t k h = grind arith

  receive_into-Keeps :
      {batch depth : ℕ} (offset : ℕ) (filled room : List Slot) (q : List Packet) (t : BatchTun E)
      → t.queue ≡ q
      → length filled + length room ≤ batch
      → IsKept batch depth t
      → Keeps batch depth (receive_into offset filled room q t)
  unfolding receive_into
  receive_into-Keeps offset filled [] q t e k h = (h, tt)
  receive_into-Keeps offset filled (s ∷ rest) [] t e k h =
      find_empty-Keeps offset filled t (omega arith) h
  receive_into-Keeps offset filled (s ∷ rest) (p ∷ q) t e k h =
      put_packet-Keeps offset filled rest p (record t { queue = q; free = t.free + 1 })
        (deliver offset s p) (omega arith) (grind (arith, ap length e))

  receive-Keeps :
      {batch depth : ℕ} (t : BatchTun E) (o : Option Call)
      → t.call ≡ o
      → IsKept batch depth t
      → Keeps batch depth (receive t o)
  unfolding receive
  receive-Keeps t none e h = (h, tt)
  receive-Keeps {batch} t (some c) e h =
      receive_into-Keeps c.offset c.filled c.room t.queue t refl (subst (FitsCall batch) e h.fits) h

  begin_call-Keeps :
      {batch depth : ℕ} (offset : ℕ) (room : List Slot) (t : BatchTun E)
      → 0 < length room
      → length room ≤ batch
      → IsKept batch depth t
      → Keeps batch depth (begin_call offset room t)
  unfolding begin_call
  begin_call-Keeps offset [] t k l h = absurd (omega arith)
  begin_call-Keeps offset (s ∷ rest) t k l h = grind arith

  begin_read-Keeps :
      {batch depth : ℕ} (offset : ℕ) (slots : List Slot) (t : BatchTun E) (o : Option Call)
      → t.call ≡ o
      → 0 < length slots
      → IsKept batch depth t
      → Keeps batch depth (begin_read offset slots t o)
  unfolding begin_read
  begin_read-Keeps offset slots t (some c) e k h = (h, tt)
  begin_read-Keeps {batch} {depth} offset slots t none e k h =
      let (least, most) = take_fits t.batch slots (omega (arith, h.positive, h.same_batch)) k in
      if-case (Keeps batch depth) (within offset slots) _ _
        (λ w.
          begin_call-Keeps offset (take t.batch slots) t least (omega (arith, most, h.same_batch))
            h)
        (λ w. (h, tt))

  move-Keeps :
      {batch depth : ℕ} (m : Move E) (t : BatchTun E)
      → HasSlots m
      → IsKept batch depth t
      → Keeps batch depth (move m t)
  unfolding move
  move-Keeps takes t s h = (take_free-IsKept t t.reader refl h, tt)
  move-Keeps sees_done t s h = (see_done-IsKept t t.reader refl h, tt)
  move-Keeps (answers a) t s h = answer_read-Keeps a t t.reader refl h
  move-Keeps queues t s h = (queue_packet-IsKept t t.reader refl h, tt)
  move-Keeps (begins offset slots) t s h = begin_read-Keeps offset slots t t.call refl s h
  move-Keeps receives t s h = receive-Keeps t t.call refl h
  move-Keeps closes t s h = (grind arith, tt)

  pub run-Keeps :
      {batch depth : ℕ} (ms : List (Move E)) (t : BatchTun E)
      → All HasSlots ms
      → IsKept batch depth t
      → Keeps batch depth (run ms t)
  unfolding run
  run-Keeps [] t s h = (h, tt)
  run-Keeps {batch} (m ∷ ms) t s h =
      let (k, good) = move-Keeps m t s.0 h in
      let (l, better) = run-Keeps ms (move m t).0 s.1 k in
      (l, All-append (InBatch batch) (move m t).1 _ good better)

  pub new-IsKept :
      (batch depth : ℕ) → let new = new_batch_tun E batch depth in IsKept new.batch new.depth new
  unfolding new_batch_tun
  new-IsKept batch depth = record {
    same_batch = refl;
    same_depth = refl;
    positive = ground arith;
    conserved = ground arith;
    fits = tt;
    ends = ground arith;
  }

  -- A new queue, whatever the order of its moves, each call of `Read` bringing a buffer: every buffer is
  -- free, queued or with the reader, so that there is always room in the queue for the packet that the
  -- reader offers; and each call returns one to `BatchSize` packets, or an error and at most that many.
  pub new_batch_tun-Keeps :
      (batch depth : ℕ) (ms : List (Move E))
      → All HasSlots ms
      → let new = new_batch_tun E batch depth in
        let (t, seen) = run ms new in
        (t.free + (length t.queue + in_hand t.reader) ≡ new.depth)
        × ((p : Packet) (e : Option E) → t.reader ≡ offering p e → length t.queue < t.depth)
        × All (InBatch new.batch) seen
  unfolding new_batch_tun
  new_batch_tun-Keeps batch depth ms s =
      let new = new_batch_tun E batch depth in
      let (k, good) = run-Keeps ms new s (new-IsKept batch depth) in
      (
        k.conserved,
        (λ p e offers. omega (arith, k.conserved, k.same_depth, ap in_hand offers)),
        good,
      )
