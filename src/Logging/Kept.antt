-- ===== src/Logging/Kept.antt =====
-- No entry of the log is lost or doubled, in whatever order the goroutines run.
use mathlib.Core.Quot.{Quot}
use blind_llm_eyes.Base.{
  refl, inr, inl, Bool-cases, true, ℕ, ◌+◌, ◌≡◌, ap, String, str_eq, if◌then◌else◌, Option, none,
  some, List, [], ◌∷◌, ◌++◌, arith,
}
use blind_llm_eyes.Logging.{
  loops, closes, opened, shuts, writes, selects, starts, later, Step, Reach, close_channel,
  new_async_writer, close_start, write_loop, AsyncWriter, write_start, write_select, write_direct,
}

abbrev pub count : String → List String → ℕ
count a [] = 0
count a (x ∷ xs) = (if str_eq x a then 1 else 0) + count a xs

count-append : (a : String) (xs ys : List String) → count a (xs ++ ys) ≡ count a xs + count a ys
count-append a [] ys = omega arith
count-append a (x ∷ xs) ys = omega (arith, count-append a xs ys)

-- Two lists hold the same entries, as often.
abbrev pub SameEntries : List String → List String → Type 0
SameEntries xs ys = (a : String) → count a xs ≡ count a ys

-- A log without its order.
abbrev pub Log : Type 0
Log = Quot SameEntries

abbrev pub held : String → Option String → ℕ
held a none = 0
held a (some p) = count a (p ∷ [])

-- Every call of Write is written, lost in a panic, or on its way.
abbrev pub Conserves : AsyncWriter → Type 0
Conserves w =
    (a : String)
    → count a w.calls
      ≡ count a w.out
        + count a w.lost
        + held a w.hand
        + count a w.ch
        + count a w.offering
        + count a w.direct

count_middle :
    (a p : String) (xs ys zs : List String)
    → zs ≡ xs ++ p ∷ ys
    → count a zs ≡ count a (p ∷ []) + count a (xs ++ ys)
count_middle a p xs ys zs e =
    omega (arith, ap (count a) e, count-append a xs (p ∷ ys), count-append a xs ys)

write_start-Conserves : (p : String) (w : AsyncWriter) → Conserves w → Conserves (write_start p w)
unfolding write_start
write_start-Conserves p w c a = ground (arith, c a)

write_select-Conserves :
    (p : String) (xs ys : List String) (w : AsyncWriter)
    → w.offering ≡ xs ++ p ∷ ys
    → Conserves w
    → Conserves (write_select p (xs ++ ys) w)
unfolding write_select
write_select-Conserves p xs ys w e c a =
    ground (arith, c a, count_middle a p xs ys w.offering e, count-append a w.ch (p ∷ []))

write_direct-Conserves :
    (p : String) (xs ys : List String) (w : AsyncWriter)
    → w.direct ≡ xs ++ p ∷ ys
    → Conserves w
    → Conserves (write_direct p (xs ++ ys) w)
unfolding write_direct
write_direct-Conserves p xs ys w e c a =
    ground (arith, c a, count_middle a p xs ys w.direct e, count-append a w.out (p ∷ []))

loop_with-Conserves :
    (h : Option String) (q : List String) (w : AsyncWriter)
    → w.hand ≡ h
    → w.ch ≡ q
    → Conserves w
    → Conserves (write_loop w)
unfolding write_loop
loop_with-Conserves (some p) q w e f c a =
    rw e (omega (arith, c a, ap (held a) e, count-append a w.out (p ∷ [])))
loop_with-Conserves none [] w e f c a = elim (Bool-cases w.ch_closed) [
  | inl g ↦ rw (e, f, g) (omega (arith, c a, ap (held a) e, ap (count a) f))
  | inr g ↦ rw (e, f, g) (omega (arith, c a, ap (held a) e, ap (count a) f))
]
loop_with-Conserves none (p ∷ ps) w e f c a =
    rw (e, f) (omega (arith, c a, ap (held a) e, ap (count a) f))

Step-Conserves :
    {May : AsyncWriter → Type 0} {v w : AsyncWriter} → Step May v w → Conserves v → Conserves w
unfolding close_start close_channel
Step-Conserves {v} (starts p) c = write_start-Conserves p v c
Step-Conserves {v} (selects p xs ys e) c = write_select-Conserves p xs ys v e c
Step-Conserves {v} (writes p xs ys e) c = write_direct-Conserves p xs ys v e c
Step-Conserves {v} loops c = loop_with-Conserves v.hand v.ch v refl refl c
Step-Conserves closes c = c
Step-Conserves (shuts e f m) c = c

pub Reach-Conserves :
    {May : AsyncWriter → Type 0} {n : ℕ} {w : AsyncWriter} → Reach May n w → Conserves w
unfolding new_async_writer
Reach-Conserves opened = λ a. refl
Reach-Conserves (later r s) = Step-Conserves s (Reach-Conserves r)

-- What holds of the channel.
pub record IsOrderly (w : AsyncWriter) : Type 0 where
  pub closing : w.ch_closed ≡ true → w.closed ≡ true
  pub ended : w.done ≡ true → w.ch_closed ≡ true
  pub drained : w.done ≡ true → w.ch ≡ []
  pub put_down : w.done ≡ true → w.hand ≡ none

loop_with-IsOrderly :
    (h : Option String) (q : List String) (w : AsyncWriter)
    → w.hand ≡ h
    → w.ch ≡ q
    → IsOrderly w
    → IsOrderly (write_loop w)
unfolding write_loop
loop_with-IsOrderly (some p) q w e f o = rw e (ground arith)
loop_with-IsOrderly none [] w e f o = rw (e, f) (ground arith)
loop_with-IsOrderly none (p ∷ ps) w e f o = rw (e, f) (ground arith)

Step-IsOrderly :
    {May : AsyncWriter → Type 0} {v w : AsyncWriter} → Step May v w → IsOrderly v → IsOrderly w
unfolding write_start write_select write_direct write_loop close_start close_channel
Step-IsOrderly (starts p) o = ground arith
Step-IsOrderly (selects p xs ys e) o = ground arith
Step-IsOrderly (writes p xs ys e) o = ground arith
Step-IsOrderly {v} loops o = loop_with-IsOrderly v.hand v.ch v refl refl o
Step-IsOrderly closes o = ground arith
Step-IsOrderly (shuts e f m) o = ground arith

pub Reach-IsOrderly :
    {May : AsyncWriter → Type 0} {n : ℕ} {w : AsyncWriter} → Reach May n w → IsOrderly w
unfolding new_async_writer
Reach-IsOrderly opened = ground arith
Reach-IsOrderly (later r s) = Step-IsOrderly s (Reach-IsOrderly r)
