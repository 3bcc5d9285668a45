-- ===== src/Awg/Netstack.antt =====
-- internal/awg/netstack.go: `batchTun`, the queue of packets between the network stack and the device.
-- Its reader, the calls of `Read` and `Close` interleave: one move for each stretch of code between two
-- points where a goroutine can wait. A move that cannot be made now changes nothing.
pub mod Contents
pub mod Reads
pub mod Order
pub mod Buffers
pub mod Closing
use awgsocks.Base.{
  ℕ, zero, suc, ◌+◌, ◌-◌, Bool, true, false, ◌&&◌, List, [], ◌∷◌, ◌++◌, Option, none, some, Bytes,
  length, take, drop, ltb, leb, codes, if◌then◌else◌, equal, map,
}
use awgsocks.Strings.{Text}

abbrev pub Packet : Type 0
Packet = Bytes

-- What one call of the wrapped device's `Read` answers: `count`, the first `sizes[0]` bytes of the
-- buffer, and the error.
pub record Answer {ℓ} (E : Type ℓ) : Type ℓ where
  pub count : ℕ
  pub packet : Packet
  pub failure : Option E

-- Where `readLoop` is: before its first `select`, in the wrapped device's `Read`, before its second
-- `select` with a filled buffer and the error that came with it, or over. A reader that is over may
-- have left a packet in the buffer that it held.
pub data Reader {ℓ} (E : Type ℓ) : Type ℓ where
  taking : Reader E
  reading : Reader E
  offering : Packet → Option E → Reader E
  over : Option Packet → Reader E

-- One of the device's buffers, with its entry of `sizes`.
pub record Slot : Type 0 where
  pub buf : Bytes
  pub size : ℕ

-- A call of `Read` under way: the offset, the buffers filled so far and those still free within its
-- limit.
pub record Call : Type 0 where
  pub offset : ℕ
  pub filled : List Slot
  pub room : List Slot

-- The errors of `Read`.
pub data ReadError {ℓ} (E : Type ℓ) : Type ℓ where
  too_big : Packet → ReadError E
  inner : E → ReadError E
  closed : ReadError E

-- What is seen from outside: a packet that the wrapped device handed over, and the return of a `Read`,
-- with the buffers that it filled.
pub data Event {ℓ} (E : Type ℓ) : Type ℓ where
  given : Packet → Event E
  returned : ℕ → List Slot → Option (ReadError E) → Event E

-- `batchTun`. The buffers are all alike, so those on `free` are only counted. `queue_closed` says that
-- the reader has closed the queue.
pub record BatchTun {ℓ} (E : Type ℓ) : Type ℓ where
  pub batch : ℕ
  pub depth : ℕ
  pub free : ℕ
  pub queue : List Packet
  pub queue_closed : Bool
  pub reader : Reader E
  pub read_err : Option E
  pub done : Bool
  pub call : Option Call

abbrev pub at_least : ℕ → ℕ → ℕ
at_least least n = if ltb n least then least else n

-- `newBatchTun`.
unfoldable pub new_batch_tun {ℓ} : (E : Type ℓ) → ℕ → ℕ → BatchTun E
new_batch_tun E batch depth =
    let batch' = at_least 1 batch in
    let depth' = at_least batch' depth in
    record {
      batch = batch';
      depth = depth';
      free = depth';
      queue = [];
      queue_closed = false;
      reader = taking;
      read_err = none;
      done = false;
      call = none;
    }

abbrev pub netstack_batch_size : ℕ
netstack_batch_size = 128

-- `wrapNetstackTUN`: nothing where the device is passed on untouched.
unfoldable pub wrap_netstack_tun {ℓ} : (E : Type ℓ) → Text → Option (BatchTun E)
wrap_netstack_tun E mode =
    if equal mode (codes "buffered")
    then some (new_batch_tun E 1 256)
    else if equal mode (codes "batched")
    then some (new_batch_tun E netstack_batch_size netstack_batch_size)
    else if equal mode (codes "batched-buffered")
    then some (new_batch_tun E netstack_batch_size 512)
    else none

-- `deliver`: the buffer with the packet copied to its offset, if there is room for it.
unfoldable pub deliver : ℕ → Slot → Packet → Option Slot
deliver offset s p =
    if ltb (length (drop offset s.buf)) (length p)
    then none
    else some (record {
      buf = take offset s.buf ++ (p ++ drop (length p) (drop offset s.buf));
      size = length p;
    })

-- The offset lies within each buffer; in Go a call that breaks this panics.
abbrev pub within : ℕ → List Slot → Bool
within offset [] = true
within offset (s ∷ ss) = within offset ss && leb offset (length s.buf)

pub data Move {ℓ} (E : Type ℓ) : Type ℓ where
  takes : Move E
  sees_done : Move E
  answers : Answer E → Move E
  queues : Move E
  begins : ℕ → List Slot → Move E
  receives : Move E
  closes : Move E

-- The packet that an answer brings, whatever is made of it: the buffer's first `sizes[0]` bytes, if there
-- is one and it is not empty.
abbrev pub brings : ℕ → Packet → List Packet
brings zero p = []
brings (suc n) [] = []
brings (suc n) (c ∷ p) = (c ∷ p) ∷ []

module _ {ℓ} {E : Type ℓ} where
  -- `return` of `readLoop`, with what it defers.
  abbrev pub stop_reader : Option Packet → BatchTun E → BatchTun E
  stop_reader left t = record t { reader = over left; queue_closed = true }

  -- The end of a round of `readLoop`.
  abbrev pub end_round : Option E → BatchTun E → BatchTun E
  end_round none t = record t { reader = taking }
  end_round (some e) t = record (stop_reader none t) { read_err = some e }

  -- The first `select` takes a buffer.
  unfoldable pub take_free : BatchTun E → Reader E → BatchTun E
  take_free t taking = if ltb 0 t.free then record t { free = t.free - 1; reader = reading } else t
  take_free t reading = t
  take_free t (offering p e) = t
  take_free t (over left) = t

  -- Either `select` sees `done`.
  unfoldable pub see_done : BatchTun E → Reader E → BatchTun E
  see_done t taking = if t.done then stop_reader none t else t
  see_done t reading = t
  see_done t (offering p e) = if t.done then stop_reader (some p) t else t
  see_done t (over left) = t

  abbrev pub has_packet : Answer E → Bool
  has_packet a = ltb 0 a.count && ltb 0 (length a.packet)

  -- The wrapped device's `Read` comes back.
  unfoldable pub answer_read : Answer E → BatchTun E → Reader E → BatchTun E × List (Event E)
  answer_read a t taking = (t, [])
  answer_read a t reading =
      if has_packet a
      then (record t { reader = offering a.packet a.failure }, map given (brings a.count a.packet))
      else (
        end_round a.failure (record t { free = t.free + 1 }),
        map given (brings a.count a.packet),
      )
  answer_read a t (offering p e) = (t, [])
  answer_read a t (over left) = (t, [])

  -- The second `select` queues the packet.
  unfoldable pub queue_packet : BatchTun E → Reader E → BatchTun E
  queue_packet t taking = t
  queue_packet t reading = t
  queue_packet t (offering p e) =
      if ltb (length t.queue) t.depth
      then end_round e (record t { queue = t.queue ++ (p ∷ []) })
      else t
  queue_packet t (over left) = t

  -- `readError`.
  abbrev pub read_error : Option E → ReadError E
  read_error none = closed
  read_error (some e) = inner e

  -- `Read` returns.
  abbrev pub return_read :
      ℕ → List Slot → Option (ReadError E) → BatchTun E → BatchTun E × List (Event E)
  return_read offset filled failure t =
      (record t { call = none }, returned offset filled failure ∷ [])

  unfoldable pub begin_call : ℕ → List Slot → BatchTun E → BatchTun E × List (Event E)
  begin_call offset [] t = return_read offset [] none t
  begin_call offset (s ∷ rest) t =
      (record t { call = some (record { offset = offset; filled = []; room = s ∷ rest }) }, [])

  -- `Read` up to its first wait. The slots are the two arguments' entries, as far as both reach.
  unfoldable pub begin_read : ℕ → List Slot → BatchTun E → Option Call → BatchTun E × List (Event E)
  begin_read offset slots t (some c) = (t, [])
  begin_read offset slots t none =
      if within offset slots then begin_call offset (take t.batch slots) t else (t, [])

  -- `Read` behind a packet that was delivered: `n < limit`, or not.
  unfoldable pub go_on : ℕ → List Slot → List Slot → BatchTun E → BatchTun E × List (Event E)
  go_on offset filled [] t = return_read offset filled none t
  go_on offset filled (s ∷ rest) t =
      (record t { call = some (record { offset = offset; filled = filled; room = s ∷ rest }) }, [])

  unfoldable pub put_packet :
      ℕ → List Slot → List Slot → Packet → BatchTun E → Option Slot → BatchTun E × List (Event E)
  put_packet offset filled rest p t none = return_read offset filled (some (too_big p)) t
  put_packet offset filled rest p t (some s) = go_on offset (filled ++ (s ∷ [])) rest t

  -- The queue is empty: `Read` waits for its first packet, or returns what it has.
  unfoldable pub find_empty : ℕ → List Slot → BatchTun E → BatchTun E × List (Event E)
  find_empty offset [] t =
      if t.queue_closed then return_read offset [] (some (read_error t.read_err)) t else (t, [])
  find_empty offset (s ∷ filled) t = return_read offset (s ∷ filled) none t

  -- The next receive of `Read`, with what follows it, into the next of the free buffers.
  unfoldable pub receive_into :
      ℕ → List Slot → List Slot → List Packet → BatchTun E → BatchTun E × List (Event E)
  receive_into offset filled [] q t = (t, [])
  receive_into offset filled (s ∷ rest) [] t = find_empty offset filled t
  receive_into offset filled (s ∷ rest) (p ∷ q) t =
      put_packet offset filled rest p (record t { queue = q; free = t.free + 1 })
        (deliver offset s p)

  unfoldable pub receive : BatchTun E → Option Call → BatchTun E × List (Event E)
  receive t none = (t, [])
  receive t (some c) = receive_into c.offset c.filled c.room t.queue t

  unfoldable pub move : Move E → BatchTun E → BatchTun E × List (Event E)
  move takes t = (take_free t t.reader, [])
  move sees_done t = (see_done t t.reader, [])
  move (answers a) t = answer_read a t t.reader
  move queues t = (queue_packet t t.reader, [])
  move (begins offset slots) t = begin_read offset slots t t.call
  move receives t = receive t t.call
  -- `Close`: `close(t.done)`.
  move closes t = (record t { done = true }, [])

  -- Any sequence of moves, and what is seen of it.
  unfoldable pub run : List (Move E) → BatchTun E → BatchTun E × List (Event E)
  run [] t = (t, [])
  run (m ∷ ms) t =
      let (next, seen) = move m t in let (last, later) = run ms next in (last, seen ++ later)
