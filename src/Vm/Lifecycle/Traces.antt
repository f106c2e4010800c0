-- ===== src/Vm/Lifecycle/Traces.antt =====
-- Sequences of calls of src/vm/mod.rs and src/vm/api.rs on one virtual machine.
use fctools.Base.{◌≡◌, refl, List, [], ◌∷◌}
use fctools.Host.{Host}
use fctools.Vm.Machine.{Json}
use fctools.Vm.Motion.{VmWorld}
use fctools.Vm.Lifecycle.{
  Life, prepared, ended, Kind, starting, Edge, boots, pauses, resumes, ends_running, ends_paused,
  Course, here, along, life, IsSoundVm,
}
use fctools.Vm.Lifecycle.Runs.{VmOperation, kind_of, after, after-Refines}

no_way_back : (kind : Kind) (b c : Life) → Edge kind b c → b ≡ ended → ⊥
no_way_back kind b c boots h = cc
no_way_back kind b c pauses h = cc
no_way_back kind b c resumes h = cc
no_way_back kind b c (ends_running _) h = cc
no_way_back kind b c (ends_paused _) h = cc

Course-ended : (kind : Kind) (a b : Life) → Course kind a b → a ≡ ended → b ≡ ended
Course-ended kind a b (here _) h = h
Course-ended kind a b (along _ c _ p e) h =
    absurd (no_way_back kind c b e (Course-ended kind a c p h))

only_boots : (kind : Kind) (b c : Life) → Edge kind b c → b ≡ prepared → kind ≡ starting
only_boots kind b c boots h = refl
only_boots kind b c pauses h = absurd cc
only_boots kind b c resumes h = absurd cc
only_boots kind b c (ends_running _) h = absurd cc
only_boots kind b c (ends_paused _) h = absurd cc

Course-prepared :
    (kind : Kind) (a b : Life)
    → (kind ≡ starting → ⊥)
    → Course kind a b
    → a ≡ prepared
    → b ≡ prepared
Course-prepared kind a b other (here _) h = h
Course-prepared kind a b other (along _ c _ p e) h =
    absurd (other (only_boots kind c b e (Course-prepared kind a c other p h)))

module _ (H : Host) (J : Json) where
  -- The state after any calls, whatever they answer.
  unfoldable pub after_all : List (VmOperation H J) → VmWorld H → VmWorld H
  after_all [] s = s
  after_all (operation ∷ operations) s = after_all operations (after H J operation s)

  pub after_all-IsSoundVm :
      (operations : List (VmOperation H J)) (s : VmWorld H)
      → IsSoundVm H 0 s.0
      → IsSoundVm H 0 (after_all operations s).0
  unfolding after_all
  after_all-IsSoundVm [] s sound = sound
  after_all-IsSoundVm (operation ∷ operations) s sound =
      after_all-IsSoundVm operations (after H J operation s) (after-Refines H J operation s sound).0

  -- A sound machine that has ended stays ended, whatever is called on it, in any order and however often.
  pub after_all-ended :
      (operations : List (VmOperation H J)) (s : VmWorld H)
      → IsSoundVm H 0 s.0
      → life H s.0 ≡ ended
      → life H (after_all operations s).0 ≡ ended
  unfolding after_all
  after_all-ended [] s sound e = e
  after_all-ended (operation ∷ operations) s sound e =
      let (sound', course) = after-Refines H J operation s sound in
      after_all-ended operations (after H J operation s) sound' (
        Course-ended (kind_of H J operation) (life H s.0) (life H (after H J operation s).0) course
          e)

  -- None of the calls is a `start`.
  abbrev pub StartsNothing : List (VmOperation H J) → Type 0
  StartsNothing [] = Unit
  StartsNothing (operation ∷ operations) =
      (kind_of H J operation ≡ starting → ⊥) × StartsNothing operations

  -- A sound machine that was prepared only leaves that state by a call of `start`: any other calls, in
  -- any order, leave it prepared.
  pub after_all-prepared :
      (operations : List (VmOperation H J)) (s : VmWorld H)
      → StartsNothing operations
      → IsSoundVm H 0 s.0
      → life H s.0 ≡ prepared
      → life H (after_all operations s).0 ≡ prepared
  unfolding after_all
  after_all-prepared [] s other sound e = e
  after_all-prepared (operation ∷ operations) s (now, later) sound e =
      let (sound', course) = after-Refines H J operation s sound in
      after_all-prepared operations (after H J operation s) later sound' (
        Course-prepared (kind_of H J operation) (life H s.0) (life H (after H J operation s).0) now
          course e)
