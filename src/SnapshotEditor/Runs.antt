-- ===== src/SnapshotEditor/Runs.antt =====
-- One run of the editor of src/ext/snapshot_editor.rs, and what was answered for each result.
use mathlib.Core.Path.{subst}
use fctools.Base.{◌≡◌, refl, sym, Bool, true, false, not, List, Outcome, ok, err, panic, inl, inr}
use fctools.Base.Action.{◌>>=◌, ◌>>◌, resume, pure, fail_if, bind-eq, bind-err}
use fctools.Text.{Text}
use fctools.Host.{Host, Output, Command, null, piped}
use fctools.Host.Calls.{call, call-inl, call-inr, answer_cases}
use fctools.SnapshotEditor.{
  SnapshotEditor, SnapshotEditorError, process_fork_failed, process_wait_failed,
  exited_with_non_zero_status, non_utf8_path, fork,
}

-- The editor's program with these arguments, of whose streams only the output is read.
abbrev pub command_of : SnapshotEditor → List Text → Command
command_of editor args = record {
  program = editor.path;
  args = args;
  stdin = null;
  stdout = piped;
  stderr = null;
}

module _ (H : Host) where
  -- One run of the editor with these arguments: what was answered, for each result.
  abbrev pub Ran :
      SnapshotEditor
      → List Text
      → H.World
      → Outcome (SnapshotEditorError H) (Output H.ExitStatus)
      → H.World
      → Type 0
  Ran editor args w (ok output) w' =
      (child : _) × (w1 : H.World) × (H.spawn (command_of editor args) w ≡ (inr child, w1))
      × (H.wait_with_output child w1 ≡ (inr output, w'))
      × (H.success output.status ≡ true)
  Ran editor args w (err (process_fork_failed e)) w' =
      H.spawn (command_of editor args) w ≡ (inl e, w')
  Ran editor args w (err (process_wait_failed e)) w' =
      (child : _) × (w1 : H.World) × (H.spawn (command_of editor args) w ≡ (inr child, w1))
      × (H.wait_with_output child w1 ≡ (inl e, w'))
  Ran editor args w (err (exited_with_non_zero_status status)) w' =
      (child : _) × (w1 : H.World) × (output : Output H.ExitStatus) × (H.spawn
          (command_of editor args) w
        ≡ (inr child, w1))
      × (H.wait_with_output child w1 ≡ (inr output, w'))
      × (output.status ≡ status)
      × (H.success status ≡ false)
  Ran editor args w (err non_utf8_path) w' = ⊥
  Ran editor args w panic w' = ⊥

  abbrev RanTo :
      SnapshotEditor
      → List Text
      → H.World
      → Outcome (SnapshotEditorError H) (Output H.ExitStatus) × H.World
      → Type 0
  RanTo editor args w r = Ran editor args w r.0 r.1

  output-Ran :
      (editor : SnapshotEditor) (args : List Text) (w w1 w2 : H.World)
      (output : Output H.ExitStatus) (success : Bool) {child : _}
      → H.spawn (command_of editor args) w ≡ (inr child, w1)
      → H.wait_with_output child w1 ≡ (inr output, w2)
      → H.success output.status ≡ success
      → RanTo editor args w
          ((fail_if (not success) (exited_with_non_zero_status output.status) >> pure output) w2)
  output-Ran editor args w w1 w2 output true h g e = (_, w1, h, g, e)
  output-Ran editor args w w1 w2 output false h g e = (_, w1, output, h, g, refl, e)

  fork-Ran :
      (editor : SnapshotEditor) (args : List Text) (w : H.World)
      → RanTo editor args w (fork H editor args w)
  unfolding fork
  fork-Ran editor args w =
      let spawned =
        call {F = SnapshotEditorError H} process_fork_failed (H.spawn (command_of editor args)) in
      elim (answer_cases (H.spawn (command_of editor args) w)) [
        | inl (e, w1, h) ↦
            subst (RanTo editor args w)
              (sym (
                bind-err spawned _ w
                  (call-inl process_fork_failed (H.spawn (command_of editor args)) w h)))
              h
        | inr (child, w1, h) ↦
            let waited =
              call {F = SnapshotEditorError H} process_wait_failed (H.wait_with_output child) in
            subst (RanTo editor args w)
              (sym (
                bind-eq spawned _ w
                  (call-inr process_fork_failed (H.spawn (command_of editor args)) w h)))
              (elim (answer_cases (H.wait_with_output child w1)) [
                | inl (e, w2, g) ↦
                    subst (RanTo editor args w)
                      (sym (
                        bind-err waited _ w1
                          (call-inl process_wait_failed (H.wait_with_output child) w1 g)))
                      (child, w1, h, g)
                | inr (output, w2, g) ↦
                    subst (RanTo editor args w)
                      (sym (
                        bind-eq waited _ w1
                          (call-inr process_wait_failed (H.wait_with_output child) w1 g)))
                      (output-Ran editor args w w1 w2 output _ h g refl)
              ])
      ]

  abbrev pub mapped :
      {A B : Type 0}
      → (A → B)
      → Outcome (SnapshotEditorError H) A
      → Outcome (SnapshotEditorError H) B
  mapped f (ok a) = ok (f a)
  mapped f (err e) = err e
  mapped f panic = panic

  resume-mapped :
      {A B : Type 0} (r : Outcome (SnapshotEditorError H) A × H.World) (f : A → B)
      → resume r (λ a. pure (f a)) ≡ (mapped f r.0, r.1)
  resume-mapped (ok a, w) f = refl
  resume-mapped (err e, w) f = refl
  resume-mapped (panic, w) f = refl

  -- The editor was run once with these arguments, and the result is made of its output.
  abbrev pub Answers :
      {A : Type 0}
      → SnapshotEditor
      → List Text
      → (Output H.ExitStatus → A)
      → H.World
      → Outcome (SnapshotEditorError H) A × H.World
      → Type 0
  Answers editor args read w r =
      (o : Outcome (SnapshotEditorError H) (Output H.ExitStatus)) × Ran editor args w o r.1
      × (r.0 ≡ mapped read o)

  pub fork-Answers :
      {A : Type 0} (editor : SnapshotEditor) (args : List Text) (read : Output H.ExitStatus → A)
      (w : H.World)
      → Answers editor args read w ((fork H editor args >>= λ output. pure (read output)) w)
  fork-Answers editor args read w =
      subst (Answers editor args read w) (sym (resume-mapped (fork H editor args w) read))
        ((fork H editor args w).0, fork-Ran editor args w, refl)
