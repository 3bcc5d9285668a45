-- ===== src/Tests/Queues.antt =====
-- The queue of packets between the network stack and the device.
use awgsocks.Base.{
  ◌⊎◌, ◌≤◌, ℕ, ◌≡◌, ◌<◌, ◌+◌, refl, List, [], ◌∷◌, ◌++◌, Option, none, some, arith, true, All,
  length,
}
use awgsocks.Awg.Netstack.{
  Packet, Answer, BatchTun, closes, reading, sees_done, Slot, offering, Move, takes, answers,
  queues, begins, receives, new_batch_tun, run, move, take_free, answer_read, queue_packet,
  begin_read, begin_call, receive, receive_into, put_packet, go_on, deliver,
}
use awgsocks.Awg.Netstack.Contents.{given_by, handed_on, on_its_way, dropped}
use awgsocks.Awg.Netstack.Order.{new_batch_tun-run}
use awgsocks.Awg.Netstack.Buffers.{InBatch, in_hand, is_over, new_batch_tun-Keeps}
use awgsocks.Awg.Netstack.Closing.{turns, turns_left, closes-is_over}

abbrev answered : Packet → Option ℕ → Move ℕ
answered p failure = answers (record { count = 1; packet = p; failure = failure })

abbrev small : Slot
small = record { buf = 0 ∷ 0 ∷ 0 ∷ []; size = 0 }

-- Two packets are read ahead; the device's call has room for both, but the second is too big.
abbrev two_packets : List (Move ℕ)
two_packets =
    takes
    ∷ answered (7 ∷ 8 ∷ []) none
    ∷ queues
    ∷ takes
    ∷ answered (1 ∷ 2 ∷ 3 ∷ []) none
    ∷ queues
    ∷ begins 1 (small ∷ small ∷ [])
    ∷ receives
    ∷ receives
    ∷ []

both_handed_on :
    handed_on (run two_packets (new_batch_tun ℕ 2 2)).1 ≡ (7 ∷ 8 ∷ []) ∷ (1 ∷ 2 ∷ 3 ∷ []) ∷ []
unfolding run new_batch_tun move take_free answer_read queue_packet begin_read begin_call receive
    receive_into put_packet go_on deliver
both_handed_on = refl

new_batch_tun-run_example :
    let (t, seen) = run two_packets (new_batch_tun ℕ 2 2) in
    (given_by seen ≡ handed_on seen ++ (on_its_way t ++ dropped t.reader))
    × (length (dropped t.reader) ≤ 1)
new_batch_tun-run_example = new_batch_tun-run 2 2 two_packets

new_batch_tun-Keeps_example :
    let new = new_batch_tun ℕ 2 2 in
    let (t, seen) = run two_packets new in
    (t.free + (length t.queue + in_hand t.reader) ≡ new.depth)
    × ((p : Packet) (e : Option ℕ) → t.reader ≡ offering p e → length t.queue < t.depth)
    × All (InBatch new.batch) seen
new_batch_tun-Keeps_example =
    new_batch_tun-Keeps 2 2 two_packets
      (tt, (tt, (tt, (tt, (tt, (tt, (omega arith, (tt, (tt, tt)))))))))

abbrev closed_answer : Answer ℕ
closed_answer = record { count = 0; packet = []; failure = some 1 }

-- The reader is in the wrapped device's `Read` at the `Close`.
abbrev ending : List (Move ℕ)
ending = answers closed_answer ∷ queues ∷ sees_done ∷ []

abbrev closing : BatchTun ℕ
closing = (move closes (run (takes ∷ []) (new_batch_tun ℕ 2 2)).0).0

closes-is_over_example :
    (turns ending closing + turns_left (run ending closing).0.reader ≤ 4)
    × (((run ending closing).0.reader ≡ reading)
        ⊎ (is_over (move sees_done (run ending closing).0).0.reader ≡ true))
closes-is_over_example = closes-is_over 2 2 (takes ∷ []) ending ((1, refl), (tt, (tt, tt)))
