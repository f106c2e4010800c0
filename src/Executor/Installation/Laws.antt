-- ===== src/Executor/Installation/Laws.antt =====
-- What `VmmInstallation::verify` of src/executor/installation.rs finds out.
use mathlib.Core.Path.{subst}
use fctools.Base.{
  ◌≡◌, refl, sym, Bool, true, false, not, List, [], ◌∷◌, Outcome, ok, err, panic, Done, ◌⊎◌, inl,
  inr,
}
use fctools.Base.Action.{Action, ◌>>=◌, ◌>>◌, resume, pure, fail_if, bind-eq, bind-err}
use fctools.Text.{Text, txt, starts_with, contains}
use fctools.FilePath.{FilePath}
use fctools.Host.{Host, Output}
use fctools.Host.Calls.{call, call-inl, call-inr, answer_cases}
use fctools.Executor.{VmmInstallation}
use fctools.Executor.Installation.{
  VmmInstallationError, filesystem_error, binary_missing, binary_not_executable,
  binary_is_of_incorrect_type, binary_does_not_match_expected_version, verify_imp, verify,
}

module _ (H : Host) (expected_version : Text) where
  abbrev Printed : Output H.ExitStatus → Text
  Printed output = H.from_utf8_lossy output.stdout

  -- The binary is there, and answers `--version` with its name and the expected version.
  abbrev pub Passes : FilePath × Text → H.World → H.World → Type 0
  Passes (path, name) w w' =
      (w1 : H.World) × (output : Output H.ExitStatus) × (H.try_exists path w ≡ (inr true, w1))
      × (H.output path (txt "--version" ∷ []) w1 ≡ (inr output, w'))
      × (starts_with (Printed output) name ≡ true)
      × (contains (Printed output) expected_version ≡ true)

  -- What the answers were for each error.
  abbrev pub Fails : FilePath × Text → VmmInstallationError H → H.World → H.World → Type 0
  Fails (path, name) (filesystem_error e) w w' = H.try_exists path w ≡ (inl e, w')
  Fails (path, name) binary_missing w w' = H.try_exists path w ≡ (inr false, w')
  Fails (path, name) binary_not_executable w w' =
      (w1 : H.World) × (e : H.IoError) × (H.try_exists path w ≡ (inr true, w1))
      × (H.output path (txt "--version" ∷ []) w1 ≡ (inl e, w'))
  Fails (path, name) binary_is_of_incorrect_type w w' =
      (w1 : H.World) × (output : Output H.ExitStatus) × (H.try_exists path w ≡ (inr true, w1))
      × (H.output path (txt "--version" ∷ []) w1 ≡ (inr output, w'))
      × (starts_with (Printed output) name ≡ false)
  Fails (path, name) binary_does_not_match_expected_version w w' =
      (w1 : H.World) × (output : Output H.ExitStatus) × (H.try_exists path w ≡ (inr true, w1))
      × (H.output path (txt "--version" ∷ []) w1 ≡ (inr output, w'))
      × (starts_with (Printed output) name ≡ true)
      × (contains (Printed output) expected_version ≡ false)

  -- The binaries pass in turn, up to the first one that fails.
  abbrev pub Verdict :
      List (FilePath × Text) → H.World → Outcome (VmmInstallationError H) Done → H.World → Type 0
  Verdict [] w r w' = (r ≡ ok tt) × (w' ≡ w)
  Verdict (binary ∷ binaries) w r w' =
      ((w1 : H.World) × Passes binary w w1 × Verdict binaries w1 r w')
      ⊎ ((e : VmmInstallationError H) × (r ≡ err e) × Fails binary e w w')

  -- One binary, by the answers.
  abbrev Judged :
      FilePath × Text → H.World → Outcome (VmmInstallationError H) Done × H.World → Type 0
  Judged binary w (ok a, w') = Passes binary w w'
  Judged binary w (err e, w') = Fails binary e w w'
  Judged binary w (panic, w') = ⊥

  output-Judged :
      (path : FilePath) (name : Text) (w w1 w2 : H.World) (output : Output H.ExitStatus)
      (right found : Bool)
      → H.try_exists path w ≡ (inr true, w1)
      → H.output path (txt "--version" ∷ []) w1 ≡ (inr output, w2)
      → starts_with (Printed output) name ≡ right
      → contains (Printed output) expected_version ≡ found
      → Judged
          (path, name)
          w
          ((fail_if (not right) binary_is_of_incorrect_type
              >> fail_if (not found) binary_does_not_match_expected_version)
            w2)
  output-Judged path name w w1 w2 output true true h g r f = (w1, output, h, g, r, f)
  output-Judged path name w w1 w2 output true false h g r f = (w1, output, h, g, r, f)
  output-Judged path name w w1 w2 output false found h g r f = (w1, output, h, g, r)

  verify_imp-Judged :
      (path : FilePath) (name : Text) (w : H.World)
      → Judged (path, name) w (verify_imp H path expected_version name w)
  unfolding verify_imp
  verify_imp-Judged path name w =
      let first = call {F = VmmInstallationError H} filesystem_error (H.try_exists path) in
      let second =
        call {F = VmmInstallationError H} (λ e. binary_not_executable)
          (H.output path (txt "--version" ∷ [])) in
      elim (answer_cases (H.try_exists path w)) [
        | inl (e, w1, h) ↦
            subst (Judged (path, name) w)
              (sym (bind-err first _ w (call-inl filesystem_error (H.try_exists path) w h))) h
        | inr (false, w1, h) ↦
            subst (Judged (path, name) w)
              (sym (bind-eq first _ w (call-inr filesystem_error (H.try_exists path) w h))) h
        | inr (true, w1, h) ↦
            subst (Judged (path, name) w)
              (sym (bind-eq first _ w (call-inr filesystem_error (H.try_exists path) w h)))
              (elim (answer_cases (H.output path (txt "--version" ∷ []) w1)) [
                | inl (e, w2, g) ↦
                    subst (Judged (path, name) w)
                      (sym (
                        bind-err second _ w1
                          (call-inl _ (H.output path (txt "--version" ∷ [])) w1 g)))
                      (w1, e, h, g)
                | inr (output, w2, g) ↦
                    subst (Judged (path, name) w)
                      (sym (
                        bind-eq second _ w1
                          (call-inr _ (H.output path (txt "--version" ∷ [])) w1 g)))
                      (output-Judged path name w w1 w2 output _ _ h g refl refl)
              ])
      ]

  -- The binaries of an installation, with the names they answer by.
  abbrev pub binaries : VmmInstallation → List (FilePath × Text)
  binaries installation =
      (installation.firecracker_path, txt "Firecracker")
      ∷ (installation.jailer_path, txt "Jailer")
      ∷ (installation.snapshot_editor_path, txt "snapshot-editor")
      ∷ []

  then-Verdict :
      (binary : FilePath × Text) (rest : List (FilePath × Text)) (w : H.World)
      (r : Outcome (VmmInstallationError H) Done × H.World)
      (f : Done → Action H.World (VmmInstallationError H) Done)
      → Judged binary w r
      → ((w1 : H.World) → Verdict rest w1 (f tt w1).0 (f tt w1).1)
      → Verdict (binary ∷ rest) w (resume r f).0 (resume r f).1
  then-Verdict binary rest w (ok tt, w1) f h k = inl (w1, h, k w1)
  then-Verdict binary rest w (err e, w1) f h k = inr (e, refl, h)
  then-Verdict binary rest w (panic, w1) f h k = absurd h

  -- Verifying an installation tries firecracker, the jailer and the snapshot editor in this order. It
  -- succeeds exactly when each is there and answers `--version` with its own name in front and the
  -- expected version in what it prints, and otherwise gives the error of the first that does not, without
  -- running the others.
  pub verify-Verdict :
      (installation : VmmInstallation) (w : H.World)
      → Verdict
          (binaries installation)
          w
          (verify H installation expected_version w).0
          (verify H installation expected_version w).1
  unfolding verify
  verify-Verdict installation w =
      let name : FilePath → Text → Action H.World (VmmInstallationError H) Done =
        λ path name. verify_imp H path expected_version name in
      let firecracker = name installation.firecracker_path (txt "Firecracker") in
      let jailer = name installation.jailer_path (txt "Jailer") in
      let editor = name installation.snapshot_editor_path (txt "snapshot-editor") in
      let last : List (FilePath × Text) =
        (installation.snapshot_editor_path, txt "snapshot-editor") ∷ [] in
      let finish : Done → Action H.World (VmmInstallationError H) Done = λ a. editor >> pure tt in
      then-Verdict (installation.firecracker_path, txt "Firecracker")
        ((installation.jailer_path, txt "Jailer") ∷ last) w (firecracker w) (λ a. jailer >>= finish)
        (verify_imp-Judged installation.firecracker_path (txt "Firecracker") w)
        (λ w1.
          then-Verdict (installation.jailer_path, txt "Jailer") last w1 (jailer w1) finish
            (verify_imp-Judged installation.jailer_path (txt "Jailer") w1)
            (λ w2.
              then-Verdict (installation.snapshot_editor_path, txt "snapshot-editor") [] w2
                (editor w2) (λ a. pure tt)
                (verify_imp-Judged installation.snapshot_editor_path (txt "snapshot-editor") w2)
                (λ w3. (refl, refl))))
