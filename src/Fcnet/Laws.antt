-- ===== src/Fcnet/Laws.antt =====
-- What `exec` of src/ext/fcnet.rs runs, and what it makes of the answers.
use mathlib.Core.Path.{subst}
use fctools.Base.{
  ◌≡◌, refl, sym, ap, Bool, true, false, not, ◌∷◌, ◌++◌, Outcome, ok, err, panic, Done, inl, inr,
  map_err,
}
use fctools.Base.Action.{Action, ◌>>=◌, resume, fail_if, bind-eq, bind-err}
use fctools.Text.{Text, txt}
use fctools.FilePath.{FilePath}
use fctools.Host.{Host, Child, Output}
use fctools.Host.Calls.{call, answer_cases, call-inl, call-inr}
use fctools.ShellSpawner.{ShellSpawner}
use fctools.Fcnet.{
  Addresses, FcnetError, shell_spawn_failed, process_fork_failed, fcnet_returned_error,
  FcnetConfiguration, arguments, exec, add, check, delete,
}
use fctools.Fcnet.Words.{spaced, words, HasNoEmptyValue, arguments-words}

pub data Operation : Type 0 where
  adds checks deletes : Operation

abbrev pub flag : Operation → Text
flag adds = txt "--add"
flag checks = txt "--check"
flag deletes = txt "--del"

module _ (I : Addresses) where
  module _ (H : Host) where
    -- What the spawner and the program have answered, for each result of a run of `line`.
    abbrev pub Ran :
        ShellSpawner H → Text → Bool → H.World → Outcome (FcnetError H) Done × H.World → Type 0
    Ran spawner line pipes_to_null w (ok a, w') =
        (child : Child H.Handle H.Pipe) × (w1 : H.World) × (output : Output H.ExitStatus)
        × (spawner.spawn line pipes_to_null w ≡ (ok child, w1))
        × (H.wait_with_output child w1 ≡ (inr output, w'))
        × (H.success output.status ≡ true)
    Ran spawner line pipes_to_null w (err (shell_spawn_failed e), w') =
        spawner.spawn line pipes_to_null w ≡ (err e, w')
    Ran spawner line pipes_to_null w (err (process_fork_failed e), w') =
        (child : Child H.Handle H.Pipe) × (w1 : H.World) × (spawner.spawn line pipes_to_null w
          ≡ (ok child, w1))
        × (H.wait_with_output child w1 ≡ (inl e, w'))
    Ran spawner line pipes_to_null w (err (fcnet_returned_error output), w') =
        (child : Child H.Handle H.Pipe) × (w1 : H.World) × (spawner.spawn line pipes_to_null w
          ≡ (ok child, w1))
        × (H.wait_with_output child w1 ≡ (inr output, w'))
        × (H.success output.status ≡ false)
    Ran spawner line pipes_to_null w (panic, w') = spawner.spawn line pipes_to_null w ≡ (panic, w')

    output-Ran :
        (spawner : ShellSpawner H) (line : Text) (b : Bool) (w w1 w2 : H.World)
        (child : Child H.Handle H.Pipe) (output : Output H.ExitStatus) (success : Bool)
        → spawner.spawn line b w ≡ (ok child, w1)
        → H.wait_with_output child w1 ≡ (inr output, w2)
        → H.success output.status ≡ success
        → Ran spawner line b w (fail_if (not success) (fcnet_returned_error output) w2)
    output-Ran spawner line b w w1 w2 child output true h g e = (child, w1, output, h, g, e)
    output-Ran spawner line b w w1 w2 child output false h g e = (child, w1, h, g, e)

    abbrev rest : Child H.Handle H.Pipe → Action H.World (FcnetError H) Done
    rest child = call process_fork_failed (H.wait_with_output child) >>= λ output.
        fail_if (not (H.success output.status)) (fcnet_returned_error output)

    child-Ran :
        (spawner : ShellSpawner H) (line : Text) (b : Bool) (w w1 : H.World)
        (child : Child H.Handle H.Pipe)
        → spawner.spawn line b w ≡ (ok child, w1)
        → Ran spawner line b w (rest child w1)
    child-Ran spawner line b w w1 child h =
        let waited = call {F = FcnetError H} process_fork_failed (H.wait_with_output child) in
        elim (answer_cases (H.wait_with_output child w1)) [
          | inl (e, w2, g) ↦
              subst (Ran spawner line b w)
                (sym (
                  bind-err waited _ w1
                    (call-inl process_fork_failed (H.wait_with_output child) w1 g)))
                (child, w1, h, g)
          | inr (output, w2, g) ↦
              subst (Ran spawner line b w)
                (sym (
                  bind-eq waited _ w1
                    (call-inr process_fork_failed (H.wait_with_output child) w1 g)))
                (output-Ran spawner line b w w1 w2 child output _ h g refl)
        ]

    line-Ran :
        (spawner : ShellSpawner H) (line : Text) (b : Bool) (w : H.World)
        (r : Outcome H.IoError (Child H.Handle H.Pipe) × H.World)
        → spawner.spawn line b w ≡ r
        → Ran spawner line b w (resume (map_err shell_spawn_failed r.0, r.1) rest)
    line-Ran spawner line b w (ok child, w1) h = child-Ran spawner line b w w1 child h
    line-Ran spawner line b w (err e, w1) h = h
    line-Ran spawner line b w (panic, w1) h = h

    abbrev pub run :
        Operation
        → FcnetConfiguration I
        → FilePath
        → ShellSpawner H
        → Action H.World (FcnetError H) Done
    run adds c = add I H c
    run checks c = check I H c
    run deletes c = delete I H c

    exec-Ran :
        (operation : Text) (c : FcnetConfiguration I)
        → HasNoEmptyValue I c
        → (fcnet_path : FilePath) (spawner : ShellSpawner H) (w : H.World)
        → Ran spawner
            (fcnet_path ++ spaced (operation ∷ words I c))
            c.pipes_to_null
            w
            (exec I H c operation fcnet_path spawner w)
    unfolding exec
    exec-Ran operation c h fcnet_path spawner w =
        let line = fcnet_path ++ (txt " " ++ arguments I operation c) in
        subst
          (λ line. Ran spawner line c.pipes_to_null w (exec I H c operation fcnet_path spawner w))
          (ap (λ a. fcnet_path ++ (txt " " ++ a)) (arguments-words I operation c h))
          (line-Ran spawner line c.pipes_to_null w (spawner.spawn line c.pipes_to_null w) refl)

    -- For a configuration without empty values, an operation hands the spawner one command line: the path
    -- of fcnet, the flag of the operation, the general options that are set, the subcommand and its own
    -- options that are set, in this order, each name with two dashes in front of its value, separated by
    -- single spaces. It succeeds exactly when the program exits with success, and the error says otherwise
    -- whether the spawner, the wait or the program failed, with the program's output.
    pub run-Ran :
        (operation : Operation) (c : FcnetConfiguration I)
        → HasNoEmptyValue I c
        → (fcnet_path : FilePath) (spawner : ShellSpawner H) (w : H.World)
        → Ran spawner
            (fcnet_path ++ spaced (flag operation ∷ words I c))
            c.pipes_to_null
            w
            (run operation c fcnet_path spawner w)
    unfolding add check delete
    run-Ran adds = exec-Ran (flag adds)
    run-Ran checks = exec-Ran (flag checks)
    run-Ran deletes = exec-Ran (flag deletes)
