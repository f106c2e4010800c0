-- ===== src/Executor/Jailed/Laws.antt =====
-- What `prepare` of src/executor/jailed.rs returns.
use fctools.Base.{
  ◌≡◌, sym, ap, ◌∙◌, some, List, [], ◌∷◌, All, ok, arith, Bool-cases, inl, inr, length,
}
use fctools.Base.Action.{bind-ok}
use fctools.FilePath.{FilePath, components, path_eq, file_name}
use fctools.FilePath.Table.{PathTable, lookup, insert, lookup-insert, path_eq_iff, path_eq_refl}
use fctools.Host.{Host}
use fctools.ShellSpawner.{ShellSpawner}
use fctools.Executor.{VmmInstallation}
use fctools.Executor.Jailed.{
  JailedVmmExecutor, admit_resource, move_resources, prepare, prepare_chroot, create_jail,
  prepare_socket_dir, create_inside, get_jail_path, join_all,
}
use fctools.Executor.Jailed.Renamers.{JailRenamer, flat}

-- The trait's documentation: the same path is always renamed to the same path.
abbrev pub RespectsPaths : JailRenamer → Type 0
RespectsPaths rename = (p q : FilePath) → components p ≡ components q → rename p ≡ rename q

pub flat-RespectsPaths : RespectsPaths flat
unfolding flat file_name
flat-RespectsPaths p q h = rw h

-- The table gives the path its new name.
abbrev pub Renames : JailRenamer → PathTable → FilePath → Type 0
Renames rename m p = (q : FilePath) × (rename p ≡ ok q) × (lookup p m ≡ some q)

Renames-insert :
    (rename : JailRenamer)
    → RespectsPaths rename
    → (k v p : FilePath) (m : PathTable) → rename k ≡ ok v
    → Renames rename m p
    → Renames rename (insert k v m) p
Renames-insert rename respects k v p m named (q, renamed, found) = elim (Bool-cases (path_eq k p)) [
  | inl e ↦ (v, sym (respects k p ((path_eq_iff k p).0 e)) ∙ named, rw (lookup-insert, e))
  | inr e ↦ (q, renamed, rw (lookup-insert, e) found)
]

module _ (H : Host) (e : JailedVmmExecutor) (respects : RespectsPaths e.jail_renamer) where
  abbrev Named : PathTable → FilePath → Type 0
  Named = Renames e.jail_renamer

  admit_resource-renamed :
      (jail : FilePath) (shell_spawner : ShellSpawner H) (p v : FilePath) (w : H.World)
      → (admit_resource H e jail shell_spawner p w).0 ≡ ok v
      → e.jail_renamer p ≡ ok v
  unfolding admit_resource
  admit_resource-renamed jail shell_spawner p v w h = ground arith

  -- What the table names already, it still names after the loop.
  move_resources-keeps :
      (jail : FilePath) (shell_spawner : ShellSpawner H) (ps : List FilePath) (m : PathTable)
      (w : H.World) {out : PathTable} (q : FilePath)
      → (move_resources H e jail shell_spawner ps m w).0 ≡ ok out
      → Named m q
      → Named out q
  unfolding move_resources
  move_resources-keeps jail shell_spawner [] m w {out} q h named =
      let same : m ≡ out = ground arith in rw (sym same) named
  move_resources-keeps jail shell_spawner (p ∷ ps) m w q h named =
      let (v, w', admitted, rest) = bind-ok (admit_resource H e jail shell_spawner p) _ w h in
      let renamed = admit_resource-renamed jail shell_spawner p v w (ap (λ r. r.0) admitted) in
      move_resources-keeps jail shell_spawner ps (insert p v m) w' q rest
        (Renames-insert e.jail_renamer respects p v q m renamed named)

  move_resources-names :
      (jail : FilePath) (shell_spawner : ShellSpawner H) (ps : List FilePath) (m : PathTable)
      (w : H.World) {out : PathTable}
      → (move_resources H e jail shell_spawner ps m w).0 ≡ ok out
      → All (Named out) ps
  unfolding move_resources
  move_resources-names jail shell_spawner [] m w h = tt
  move_resources-names jail shell_spawner (p ∷ ps) m w h =
      let (v, w', admitted, rest) = bind-ok (admit_resource H e jail shell_spawner p) _ w h in
      let renamed = admit_resource-renamed jail shell_spawner p v w (ap (λ r. r.0) admitted) in
      (
        move_resources-keeps jail shell_spawner ps (insert p v m) w' p rest
            (v, renamed, rw (lookup-insert, path_eq_refl)),
        move_resources-names jail shell_spawner ps (insert p v m) w' rest,
      )

  -- The steps of `prepare` around the loop, in which the table does not change.
  prepare_loop :
      (installation : VmmInstallation) (shell_spawner : ShellSpawner H)
      (outer_paths : List FilePath) (w : H.World) {out : PathTable}
      → (prepare H e installation shell_spawner outer_paths w).0 ≡ ok out
      → (w' : H.World) × ((move_resources H e
            (get_jail_path e installation)
            shell_spawner
            outer_paths
            []
            w').0
          ≡ ok out)
  unfolding prepare
  prepare_loop installation shell_spawner outer_paths w h =
      let (a, w₁, _, h₁) = bind-ok (prepare_chroot H e shell_spawner) _ w h in
      let jail = get_jail_path e installation in
      let (b, w₂, _, h₂) = bind-ok (create_jail H e jail) _ w₁ h₁ in
      let (c, w₃, _, h₃) =
        bind-ok (prepare_socket_dir H e jail e.vmm_arguments.api_socket) _ w₂ h₂ in
      let (d, w₄, _, h₄) = bind-ok (create_inside H e jail e.vmm_arguments.log_path) _ w₃ h₃ in
      let (f, w₅, _, h₅) = bind-ok (create_inside H e jail e.vmm_arguments.metrics_path) _ w₄ h₄ in
      let (m, w₆, moved, h₆) =
        bind-ok (move_resources H e jail shell_spawner outer_paths []) _ w₅ h₅ in
      let (g, w₇, _, h₇) = bind-ok (join_all H (length outer_paths)) _ w₆ h₆ in
      let same : m ≡ _ = ground arith in (w₅, ap (λ r. r.0) moved ∙ ap ok same)

  -- When `prepare` succeeds, the table that it returns gives every resource the path that the renamer
  -- gives it, for a renamer that gives equal paths the same answer.
  pub prepare-Renames :
      (installation : VmmInstallation) (shell_spawner : ShellSpawner H)
      (outer_paths : List FilePath) (w : H.World) {out : PathTable}
      → (prepare H e installation shell_spawner outer_paths w).0 ≡ ok out
      → All (Renames e.jail_renamer out) outer_paths
  prepare-Renames installation shell_spawner outer_paths w h =
      let (w', looped) = prepare_loop installation shell_spawner outer_paths w h in
      move_resources-names (get_jail_path e installation) shell_spawner outer_paths [] w' looped
