-- ===== src/Cli/Pidfile/Written.antt =====
-- cli/pidfile.go: what a reader of the pidfile can meet while WritePidfile runs, or behind its end.
use blind_llm_eyes.Base.{branches, true, false, List, [], ◌∷◌, ◌≡◌, refl, ◌⊎◌, inl, inr, All, Bool}
use blind_llm_eyes.Cli.Pidfile.{
  PidfileRead, pidfile, PidfileData, PidFiles, PidFaults, write_pidfile,
}

-- The pidfile is the old one or the whole new one.
abbrev pub IsWhole : PidfileData → PidFiles → PidFiles → Type 0
IsWhole d f g = (g.target ≡ f.target) ⊎ (g.target ≡ pidfile d)

-- The state in front is the one in which it ends.
abbrev EndsWith : PidfileRead → List PidFiles → Type 0
EndsWith r [] = ⊥
EndsWith r (g ∷ gs) = g.target ≡ r

-- Whichever steps fail, and wherever the process is stopped: the pidfile is the old one or the whole new
-- one. It is the new one in the end if no step fails, and else the old one.
pub write_pidfile-IsWhole :
    (faults : PidFaults) (d : PidfileData) (f : PidFiles)
    → All (IsWhole d f) (write_pidfile faults d f).1
      × (((write_pidfile faults d f).0 ≡ true) × EndsWith (pidfile d) (write_pidfile faults d f).1
          ⊎ ((write_pidfile faults d f).0 ≡ false) × EndsWith f.target (write_pidfile faults d f).1)
unfolding write_pidfile
write_pidfile-IsWhole faults d f =
    let P = λ (w : Bool × List PidFiles).
      All (IsWhole d f) w.1
      × (((w.0 ≡ true) × EndsWith (pidfile d) w.1) ⊎ ((w.0 ≡ false) × EndsWith f.target w.1)) in
    branches P faults.create_dir_fails _ _ ((inl refl, tt), inr (refl, refl))
      (branches P faults.write_fails _ _ ((inl refl, (inl refl, tt)), inr (refl, refl))
        (branches P faults.rename_fails _ _
          ((inl refl, (inl refl, (inl refl, tt))), inr (refl, refl))
          ((inr refl, (inl refl, (inl refl, (inl refl, tt)))), inl (refl, refl))))
