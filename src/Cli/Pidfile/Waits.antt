-- ===== src/Cli/Pidfile/Waits.antt =====
-- That stop ends, and what its exit code tells.
use blind_llm_eyes.Base.{
  Bool-cases, ltb, if◌then◌else◌, ℕ, zero, suc, ◌+◌, ◌*◌, ◌≤◌, ◌<◌, ◌≡◌, ◌⊎◌, inl, inr, Bool, true,
  false, Option, some, arith,
}
use blind_llm_eyes.Cli.Pidfile.{
  Remote, PidfileData, pidfile, post_shutdown, wait_for_pidfile_gone, do_stop,
}

-- What a loop that ends has seen: the file gone at a time before the deadline, or no time left.
abbrev pub Waited : (gone : ℕ → Bool) → ℕ → ℕ → Option Bool → Type 0
Waited gone deadline now r =
    ((r ≡ some true) × (t : ℕ) × (now ≤ t) × (t < deadline) × (gone t ≡ true)) ⊎ (r ≡ some false)

one_round :
    (gone : ℕ → Bool) (deadline now later : ℕ) (rest : Option Bool)
    → now ≤ later
    → Waited gone deadline later rest
    → Waited gone deadline now
        (if ltb now deadline then (if gone now then some true else rest) else some false)
one_round gone deadline now later rest h w = elim (Bool-cases (ltb now deadline)) [
  | inr e ↦ inr (ground arith)
  | inl e ↦ elim (Bool-cases (gone now)) [
    | inl g ↦ inl (ground arith, now, omega arith, ground arith, g)
    | inr g ↦ elim w [
      | inl (r, t, a, b, c) ↦ inl (ground (arith, r), t, omega arith, b, c)
      | inr r ↦ inr (ground (arith, r))
    ]
  ]
]

pub wait_ends :
    (gone : ℕ → Bool) (late : ℕ → ℕ) (fuel deadline now : ℕ)
    → deadline ≤ now + 200 * fuel
    → Waited gone deadline now (wait_for_pidfile_gone gone late (suc fuel) deadline now)
unfolding wait_for_pidfile_gone
wait_ends gone late zero deadline now h = inr (ground arith)
wait_ends gone late (suc fuel) deadline now h =
    one_round gone deadline now (now + 200 + late now) _ (omega arith)
      (wait_ends gone late fuel deadline (now + 200 + late now) (omega arith))

-- stop ends, however long the rounds of its loop take: its exit code is 0 or 1, and 0 only if the server
-- has accepted the shutdown and the pidfile was gone within ten seconds.
pub do_stop_ends :
    (remote : Remote) (gone : ℕ → Bool) (late : ℕ → ℕ) (now : ℕ) (d : PidfileData)
    → ((do_stop remote gone late now (pidfile d) ≡ some 0)
        × (post_shutdown remote d ≡ true)
        × (t : ℕ) × (now ≤ t)
        × (t < now + 10000)
        × (gone t ≡ true))
      ⊎ (do_stop remote gone late now (pidfile d) ≡ some 1)
unfolding do_stop
do_stop_ends remote gone late now d = elim (Bool-cases (post_shutdown remote d)) [
  | inr e ↦ inr (ground (arith, e))
  | inl e ↦ elim (wait_ends gone late 50 (now + 10000) now (omega arith)) [
    | inl (r, t, a, b, c) ↦ inl (ground (arith, e, r), e, t, a, b, c)
    | inr r ↦ inr (ground (arith, e, r))
  ]
]
