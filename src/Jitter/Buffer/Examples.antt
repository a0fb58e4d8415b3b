-- ===== src/Jitter/Buffer/Examples.antt =====
-- Runs of the jitter buffer, and its theorems at them.
use gemacast.Prelude.{
  ℕ, ◌≡◌, refl, List, [], ◌∷◌, none, some, true, false, arith, get_or, set, replicate,
}
use gemacast.Audio.{RawPacket}
use gemacast.Jitter.Buffer.{
  JitterBuffer, new, insert, pop_next, lowest_available_seq, fast_forward, accepted, stale,
  stream_restarted, insert_anchored, anchor, store, make_room, slot,
}
use gemacast.Jitter.Buffer.Invariant.{held, IsValid}
use gemacast.Jitter.Buffer.Spec
use gemacast.Jitter.Buffer.Run.{
  Op, inserts, pops, forwards, Reply, promise, inserted, popped, done, replies, promised,
  silence_before, replies-new, after, step, after-new-IsValid,
}
use gemacast.Jitter.Buffer.Cache.{lowest_available_seq_stale}

abbrev packet : ℕ → RawPacket
packet seq = record {
  seq_num = seq;
  payload_data = [];
  payload_len = 0;
  arrival_time = 0;
  is_uncompressed = false;
  is_silence = true;
}

-- Out of order, late, a gap, and a restart of the stream.
abbrev script : List Op
script =
    inserts (packet 600)
    ∷ inserts (packet 602)
    ∷ inserts (packet 601)
    ∷ pops
    ∷ inserts (packet 599)
    ∷ pops
    ∷ forwards 603
    ∷ pops
    ∷ inserts (packet 1)
    ∷ pops
    ∷ []

abbrev answers : List Reply
answers =
    inserted accepted
    ∷ inserted accepted
    ∷ inserted accepted
    ∷ popped (some (packet 600))
    ∷ inserted stale
    ∷ popped (some (packet 601))
    ∷ done
    ∷ popped none
    ∷ inserted stream_restarted
    ∷ popped (some (packet 1))
    ∷ []

promised-script : promised silence_before script ≡ answers
unfolding promised promise Spec.insert Spec.pop Spec.advance Spec.skip
promised-script = refl

replies-new_example : replies new script ≡ promised silence_before script
unfolding promise Spec.insert Spec.pop Spec.advance Spec.skip
replies-new_example = replies-new script 1000 (omega arith) (omega arith)

-- A gap at 4: packets 5 and 9 wait behind it, and the pop of 3 has emptied the cache.
abbrev before : List Op
before = inserts (packet 3) ∷ inserts (packet 5) ∷ inserts (packet 9) ∷ pops ∷ []

gap : JitterBuffer
unfolding after step insert insert_anchored anchor store make_room pop_next new slot get_or set
    replicate
gap = after new before

gap-IsValid : IsValid gap
unfolding gap promise Spec.insert Spec.pop
gap-IsValid = after-new-IsValid before 1000 (omega arith) (omega arith)

gap_holds_5 : held gap 5 ≡ some (packet 5)
unfolding gap held
gap_holds_5 = refl

lowest_available_seq_stale_example :
    let r = lowest_available_seq (insert gap (packet 12)).0 in
    (r.1 ≡ some 12) × (held r.0 5 ≡ held gap 5) × (held (fast_forward r.0 12) 5 ≡ none)
unfolding gap
lowest_available_seq_stale_example =
    lowest_available_seq_stale gap (packet 12) 5 gap-IsValid refl refl (λ e. cc gap_holds_5)
      (omega arith) (omega arith)

scan_of_gap : (lowest_available_seq gap).1 ≡ some 5
unfolding gap lowest_available_seq
scan_of_gap = refl

after-new-IsValid_example : IsValid (after new before)
unfolding promise Spec.insert Spec.pop
after-new-IsValid_example = after-new-IsValid before 1000 (omega arith) (omega arith)
