-- ===== src/Logging/Closed.antt =====
-- Close: what it waits for ends, and what is in the log then.
use mathlib.Core.Quot
use mathlib.Core.List.{append-nil, append_assoc}
use blind_llm_eyes.Base.{
  ◌+◌, length, ap, [], some, ◌*◌, suc, List, ℕ, Option, String, arith, true, ◌≡◌, Bool-cases, zero,
  ◌<◌, refl, sym, ◌∙◌, inl, inr, none, ◌∷◌, ◌++◌,
}
use blind_llm_eyes.Logging.{
  AsyncWriter, new_async_writer, write_start, write_select, write_direct, write_loop, close_start,
  close_channel, Step, starts, selects, writes, loops, closes, shuts, Reach, opened, later, AnyTime,
  WhenQuiet,
}
use blind_llm_eyes.Logging.Kept.{Reach-Conserves, Reach-IsOrderly, Log, held, count}

-- No send has found the channel closed, and none will.
record IsQuiet (w : AsyncWriter) : Type 0 where
  closing : w.ch_closed ≡ true → w.closed ≡ true
  none_left : w.ch_closed ≡ true → w.offering ≡ []
  none_lost : w.lost ≡ []

not-nil-append : (p : String) (xs ys : List String) → xs ++ p ∷ ys ≡ [] → ⊥
not-nil-append p [] ys e = cc
not-nil-append p (x ∷ xs) ys e = cc

write_select-IsQuiet :
    (p : String) (xs ys : List String) (w : AsyncWriter)
    → w.offering ≡ xs ++ p ∷ ys
    → IsQuiet w
    → IsQuiet (write_select p (xs ++ ys) w)
unfolding write_select
write_select-IsQuiet p xs ys w e q = elim (Bool-cases w.ch_closed) [
  | inl c ↦ absurd (not-nil-append p xs ys (sym e ∙ q.none_left c))
  | inr c ↦ ground arith
]

Step-IsQuiet : {v w : AsyncWriter} → Step WhenQuiet v w → IsQuiet v → IsQuiet w
unfolding write_start write_direct write_loop close_start close_channel
Step-IsQuiet (starts p) q = ground arith
Step-IsQuiet {v} (selects p xs ys e) q = write_select-IsQuiet p xs ys v e q
Step-IsQuiet (writes p xs ys e) q = ground arith
Step-IsQuiet loops q = ground arith
Step-IsQuiet closes q = ground arith
Step-IsQuiet (shuts e f m) q = ground arith

Reach-IsQuiet : {n : ℕ} {w : AsyncWriter} → Reach WhenQuiet n w → IsQuiet w
unfolding new_async_writer
Reach-IsQuiet opened = ground arith
Reach-IsQuiet (later r s) = Step-IsQuiet s (Reach-IsQuiet r)

-- If the channel is closed when no Write is between its test and its select, then once writeLoop has
-- ended and no call of Write is left, the output holds the entries of all calls, each as often as it
-- was given, but for the order.
pub closed_log :
    {n : ℕ} {w : AsyncWriter}
    → Reach WhenQuiet n w
    → w.done ≡ true
    → w.direct ≡ []
    → (w.lost ≡ []) × (◌≡◌ {A = Log} (Quot.mk w.calls) (Quot.mk w.out))
closed_log {w} r d e =
    let o = Reach-IsOrderly r in
    let q = Reach-IsQuiet r in
    (
      q.none_lost,
      Quot.sound (λ a. omega (
        arith,
        Reach-Conserves r a,
        ap (count a) q.none_lost,
        ap (held a) (o.put_down d),
        ap (count a) (o.drained d),
        ap (count a) (q.none_left (o.ended d)),
        ap (count a) e,
      )),
    )

-- n steps of writeLoop
abbrev pub loop_for : ℕ → AsyncWriter → AsyncWriter
loop_for zero w = w
loop_for (suc n) w = loop_for n (write_loop w)

abbrev one_if : Option String → ℕ
one_if none = 0
one_if (some p) = 1

abbrev pub entry : Option String → List String
entry none = []
entry (some p) = p ∷ []

-- The steps that writeLoop has left.
abbrev pub steps_left : AsyncWriter → ℕ
steps_left w = 2 * length w.ch + one_if w.hand + 1

loop_stays :
    (n : ℕ) (w : AsyncWriter)
    → w.hand ≡ none
    → w.ch ≡ []
    → w.ch_closed ≡ true
    → w.done ≡ true
    → ((loop_for n w).done ≡ true) × ((loop_for n w).out ≡ w.out)
unfolding write_loop
loop_stays zero w e f c d = (d, refl)
loop_stays (suc n) w e f c d =
    let (done, out) =
      loop_stays n (write_loop w) (rw (e, f, c) refl) (rw (e, f, c) refl) (rw (e, f, c) refl)
        (rw (e, f, c) refl) in
    (done, out ∙ rw (e, f, c) refl)

loop_steps :
    (n : ℕ) (h : Option String) (q : List String) (w : AsyncWriter)
    → w.hand ≡ h
    → w.ch ≡ q
    → w.ch_closed ≡ true
    → 2 * length q + one_if h < n
    → ((loop_for n w).done ≡ true) × ((loop_for n w).out ≡ w.out ++ (entry h ++ q))
unfolding write_loop
loop_steps zero h q w e f c l = absurd (omega arith)
loop_steps (suc n) none [] w e f c l =
    let (done, out) =
      loop_stays n (write_loop w) (rw (e, f, c) refl) (rw (e, f, c) refl) (rw (e, f, c) refl)
        (rw (e, f, c) refl) in
    (done, out ∙ rw (e, f, c) (sym (append-nil w.out)))
loop_steps (suc n) (some p) q w e f c l =
    let (done, out) =
      loop_steps n none q (write_loop w) (rw e refl) (rw e f) (rw e c) (omega arith) in
    (done, out ∙ rw e (append_assoc w.out (p ∷ []) q))
loop_steps (suc n) none (p ∷ ps) w e f c l =
    let (done, out) =
      loop_steps n (some p) ps (write_loop w) (rw (e, f) refl) (rw (e, f) refl) (rw (e, f) c)
        (omega arith) in
    (done, out ∙ rw (e, f) refl)

-- Behind the channel's close writeLoop ends, so Close returns: it takes two steps for each entry that
-- is queued, and writes them in the order of the queue.
pub close_ends :
    (w : AsyncWriter)
    → w.ch_closed ≡ true
    → ((loop_for (steps_left w) w).done ≡ true)
      × ((loop_for (steps_left w) w).out ≡ w.out ++ (entry w.hand ++ w.ch))
close_ends w c = loop_steps (steps_left w) w.hand w.ch w refl refl c (omega arith)

-- Whatever the size of the buffer, some run loses an entry: a Write that has passed its test before
-- Close sends on the closed channel, and panics.
pub send_may_panic :
    (n : ℕ) (p : String) → (w : AsyncWriter) × Reach AnyTime n w × (w.lost ≡ p ∷ [])
unfolding new_async_writer write_start write_select close_start close_channel
send_may_panic n p = (
  _,
  later (later (later (later opened (starts p)) closes) (shuts refl refl tt))
      (selects p [] [] refl),
  refl,
)
