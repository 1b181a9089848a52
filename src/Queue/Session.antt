-- ===== src/Queue/Session.antt =====
-- Whole sequences of calls on a FIFO queue, from its initialisation on.
use mathlib.Core.List.{map, map-append}
use vdeplug_wirefilter.Base.{
  ℕ, ◌+◌, ◌-◌, ◌≤◌, ◌<◌, ◌≡◌, ◌⊎◌, inl, inr, Option, none, some, refl, arith, List, [], ◌∷◌, ◌++◌,
  ap, ◌∙◌, length, Run, ok, ◌>>=◌, Returns-value, u32_mod, sum_to-zero,
}
use vdeplug_wirefilter.Packet.{Packet}
use vdeplug_wirefilter.Queue.{
  QueueNode, Queue, fresh_queue, fifo, all_granted, queue_chunk, stamp, enqueue, dequeue,
}
use vdeplug_wirefilter.Queue.Dequeue.{dequeue-empty}
use vdeplug_wirefilter.Queue.Enqueue.{CanTake, stamped_node}
use vdeplug_wirefilter.Queue.Fifo.{
  Represents, size-represented, enqueue-Represents, dequeue-Represents,
}
use vdeplug_wirefilter.Queue.Inv.{fresh_queue-IsValid}

pub data Call : Type 0 where
  put : Packet → ℕ → Call
  get : Call

-- The packets that the calls of `dequeue` return, with all memory granted.
unfoldable pub run : Queue → List Call → Run (List (Option Packet))
run q [] = ok []
run q (put packet t ∷ calls) = enqueue all_granted q packet t >>= λ q'. run q' calls
run q (get ∷ calls) = do (out, q') ← dequeue q; outs ← run q' calls; ok (out ∷ outs)

-- The same calls on a list: in at the end, out at the front.
abbrev pub list_run : List (Option Packet) → List Call → List (Option Packet)
list_run waiting [] = []
list_run waiting (put packet t ∷ calls) = list_run (waiting ++ some packet ∷ []) calls
list_run [] (get ∷ calls) = none ∷ list_run [] calls
list_run (x ∷ waiting) (get ∷ calls) = x ∷ list_run waiting calls

-- With `n` packets waiting at first, each call of `enqueue` finds at most 98 of them.
abbrev pub Fits : ℕ → List Call → Type 0
Fits n [] = Unit
Fits n (put packet t ∷ calls) = (n ≤ 98) × Fits (n + 1) calls
Fits n (get ∷ calls) = Fits (n - 1) calls

abbrev pub packets : List QueueNode → List (Option Packet)
packets = map (λ n. n.packet)

stamp_counter : (q : Queue) (t : ℕ) → (stamp q t).0.counter ≤ q.counter + 1
unfolding stamp
stamp_counter q t = ground arith

packets-concat :
    (xs : List QueueNode) (n : QueueNode) → packets (xs ++ n ∷ []) ≡ packets xs ++ n.packet ∷ []
packets-concat xs n = map-append (λ m. m.packet) xs (n ∷ [])

run-list_run :
    (calls : List Call) (q : Queue) (xs : List QueueNode) (n : ℕ)
    → q.size ≡ n
    → Represents q xs
    → (q.max_size ≡ 0) ⊎ (q.max_size ≡ queue_chunk)
    → q.counter + length calls < u32_mod
    → Fits n calls
    → run q calls ≡ ok (list_run (packets xs) calls)
unfolding run
run-list_run [] q xs n s r m few fits = refl
run-list_run (put packet t ∷ calls) q xs n s r m few fits =
    let can : CanTake q = omega (arith, fits.0) in
    let (q', e, (r', d)) = Returns-value (enqueue-Represents q xs packet t r can (omega arith)) in
    rw e (
      run-list_run calls q' (xs ++ stamped_node q packet t ∷ []) (n + 1) (omega (arith, d.size)) r'
        (inr (ground (arith, d.max_size))) (omega (arith, d.counter, stamp_counter q t)) fits.1
      ∙ ap (λ ys. ok (list_run ys calls)) (packets-concat xs (stamped_node q packet t)))
run-list_run (get ∷ calls) q [] n s r m few fits =
    let none_left = size-represented q [] r in
    rw (dequeue-empty q none_left)
      (rw (run-list_run calls q [] (n - 1) (omega arith) r m (omega arith) fits) refl)
run-list_run (get ∷ calls) q (x ∷ xs) n s r m few fits =
    let ((out, q'), e, (first, _, r', d)) = Returns-value (dequeue-Represents q x xs r) in
    rw (e, first)
      (rw
        (run-list_run calls q' xs (n - 1) (omega (arith, d.size)) r' (ground (arith, d.max_size))
          (omega (arith, d.counter)) fits)
        refl)

-- From its initialisation on, with at most 98 packets waiting at each call of `enqueue`, a queue in
-- FIFO mode answers every sequence of calls as a list does: no call fails, and packets leave in the
-- order in which they came, whatever their forward times.
pub run-fifo :
    (calls : List Call) (memory : ℕ → QueueNode) (timerfd : ℕ)
    → Fits 0 calls
    → length calls < u32_mod
    → run (fresh_queue memory fifo timerfd) calls ≡ ok (list_run [] calls)
run-fifo calls memory timerfd fits few =
    run-list_run calls (fresh_queue memory fifo timerfd) [] 0 refl
      (record {
        valid = fresh_queue-IsValid memory fifo timerfd;
        mode = refl;
        same = λ w. sum_to-zero w memory;
        ordered = tt;
        stamped = tt;
      })
      (inl refl) (omega arith) fits
