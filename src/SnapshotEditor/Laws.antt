-- ===== src/SnapshotEditor/Laws.antt =====
-- What src/ext/snapshot_editor.rs runs, and what it makes of the answers.
use mathlib.Core.Path.{subst}
use fctools.Base.{
  ◌≡◌, refl, sym, ap, ◌∙◌, Option, none, some, List, [], ◌∷◌, Outcome, ok, err, Done, ◌⊎◌, inl, inr,
  ok_or,
}
use fctools.Base.Action.{◌>>=◌, pure, bind-eq, bind-err}
use fctools.Text.{Text, txt}
use fctools.FilePath.{FilePath}
use fctools.Host.{Host}
use fctools.SnapshotEditor.{
  SnapshotEditor, SnapshotEditorError, non_utf8_path, EditorAction, fork, utf8, rebase_memory,
  get_snapshot_version, get_snapshot_vcpu_states, get_snapshot_vm_state,
}
use fctools.SnapshotEditor.Runs.{Answers, fork-Answers}

-- What is asked of a snapshot.
pub data Info : Type 0 where
  version vcpu_states vm_state : Info

abbrev pub word : Info → Text
word version = txt "version"
word vcpu_states = txt "vcpu-states"
word vm_state = txt "vm-state"

abbrev pub info_arguments : Info → Text → List Text
info_arguments info path = txt "info-vmstate" ∷ word info ∷ txt "--vmstate-path" ∷ path ∷ []

module _ (H : Host) (to_str : FilePath → Option Text) where
  unfoldable pub get_info : Info → SnapshotEditor → FilePath → EditorAction H Text
  get_info version = get_snapshot_version H to_str
  get_info vcpu_states = get_snapshot_vcpu_states H to_str
  get_info vm_state = get_snapshot_vm_state H to_str

  utf8_cases :
      (path : FilePath) (w : H.World) (o : Option Text)
      → to_str path ≡ o
      → ((to_str path ≡ none) × (utf8 H to_str path w ≡ (err non_utf8_path, w)))
        ⊎ ((t : Text) × (to_str path ≡ some t) × (utf8 H to_str path w ≡ (ok t, w)))
  utf8_cases path w none h = inl (h, ap (λ o. (ok_or o non_utf8_path, w)) h)
  utf8_cases path w (some t) h = inr (t, h, ap (λ o. (ok_or o non_utf8_path, w)) h)

  abbrev pub Informs :
      Info
      → SnapshotEditor
      → FilePath
      → H.World
      → Outcome (SnapshotEditorError H) Text × H.World
      → Type 0
  Informs info editor snapshot_path w r =
      ((to_str snapshot_path ≡ none) × (r ≡ (err non_utf8_path, w)))
      ⊎ ((path : Text) × (to_str snapshot_path ≡ some path)
          × Answers H editor (info_arguments info path) (λ output. H.from_utf8_lossy output.stdout)
              w r)

  informed :
      (info : Info) (editor : SnapshotEditor) (snapshot_path : FilePath) (w : H.World)
      → Informs info editor snapshot_path w (
          (utf8 H to_str snapshot_path >>= λ path.
          fork H editor (info_arguments info path) >>= λ output.
          pure (H.from_utf8_lossy output.stdout))
            w)
  informed info editor snapshot_path w =
      elim (utf8_cases snapshot_path w (to_str snapshot_path) refl) [
        | inl (absent, h) ↦ inl (absent, bind-err (utf8 H to_str snapshot_path) _ w h)
        | inr (path, found, h) ↦ inr (
          path,
          found,
          subst (Answers H editor (info_arguments info path) _ w)
              (sym (bind-eq (utf8 H to_str snapshot_path) _ w h))
              (fork-Answers H editor (info_arguments info path)
                (λ output. H.from_utf8_lossy output.stdout) w),
        )
      ]

  -- Each question about a snapshot runs the editor exactly once with the subcommand of its own, unless the
  -- path is not UTF-8, when nothing is run. The answer is what the editor printed when it exited with
  -- success, and otherwise the error says whether the fork, the wait or the program failed.
  pub get_info-Informs :
      (info : Info) (editor : SnapshotEditor) (snapshot_path : FilePath) (w : H.World)
      → Informs info editor snapshot_path w (get_info info editor snapshot_path w)
  unfolding get_info get_snapshot_version get_snapshot_vcpu_states get_snapshot_vm_state
  get_info-Informs version = informed version
  get_info-Informs vcpu_states = informed vcpu_states
  get_info-Informs vm_state = informed vm_state

  abbrev pub rebase_arguments : Text → Text → List Text
  rebase_arguments base diff =
      txt "edit-memory" ∷ txt "rebase" ∷ txt "--memory-path" ∷ base ∷ txt "--diff-path" ∷ diff ∷ []

  abbrev pub Rebases :
      SnapshotEditor
      → FilePath
      → FilePath
      → H.World
      → Outcome (SnapshotEditorError H) Done × H.World
      → Type 0
  Rebases editor base_path diff_path w r =
      (((to_str base_path ≡ none) ⊎ (to_str diff_path ≡ none)) × (r ≡ (err non_utf8_path, w)))
      ⊎ ((base : Text) × (diff : Text) × (to_str base_path ≡ some base)
          × (to_str diff_path ≡ some diff)
          × Answers H editor (rebase_arguments base diff) (λ output. tt) w r)

  -- A rebase runs the editor exactly once, on the memory and the difference in this order, and succeeds
  -- exactly when the program exits with success. When one of the two paths is not UTF-8 nothing is run.
  pub rebase_memory-Rebases :
      (editor : SnapshotEditor) (base_path diff_path : FilePath) (w : H.World)
      → Rebases editor base_path diff_path w (rebase_memory H to_str editor base_path diff_path w)
  unfolding rebase_memory
  rebase_memory-Rebases editor base_path diff_path w =
      let first = utf8 H to_str base_path in
      let second = utf8 H to_str diff_path in
      elim (utf8_cases base_path w (to_str base_path) refl) [
        | inl (absent, h) ↦ inl (inl absent, bind-err first _ w h)
        | inr (base, found, h) ↦ elim (utf8_cases diff_path w (to_str diff_path) refl) [
          | inl (absent, g) ↦ inl (inr absent, bind-eq first _ w h ∙ bind-err second _ w g)
          | inr (diff, there, g) ↦ inr (
            base,
            diff,
            found,
            there,
            subst (Answers H editor (rebase_arguments base diff) (λ output. tt) w)
                (sym (bind-eq first _ w h ∙ bind-eq second _ w g))
                (fork-Answers H editor (rebase_arguments base diff) (λ output. tt) w),
          )
        ]
      ]
