-- ===== src/Executor/Unrestricted/Laws.antt =====
-- `prepare` and `invoke` of src/executor/unrestricted.rs.
use fctools.Base.{◌≡◌, refl, some, List, [], ◌∷◌, All, ok, arith, Bool-cases, inl, inr}
use fctools.FilePath.{FilePath, components, path_eq}
use fctools.FilePath.Table.{PathTable, lookup, insert, lookup-insert, path_eq_iff, path_eq_refl}
use fctools.Host.{Host}
use fctools.ShellSpawner.{ShellSpawner}
use fctools.Executor.Unrestricted.{UnrestrictedVmmExecutor, identity_table, prepare}

-- The table gives every path of the list a path that is equal to it.
abbrev pub MapsToSelf : PathTable → FilePath → Type 0
MapsToSelf m p = (q : FilePath) × (lookup p m ≡ some q) × (components q ≡ components p)

identity_table_keeps :
    (ps : List FilePath) (m : PathTable) (p : FilePath)
    → MapsToSelf m p
    → MapsToSelf (identity_table ps m) p
unfolding identity_table
identity_table_keeps [] m p h = h
identity_table_keeps (r ∷ ps) m p (q, found, same) =
    identity_table_keeps ps (insert r r m) p (elim (Bool-cases (path_eq r p)) [
      | inl e ↦ (r, rw (lookup-insert, e), (path_eq_iff r p).0 e)
      | inr e ↦ (q, rw (lookup-insert, e) found, same)
    ])

identity_table-MapsToSelf :
    (ps : List FilePath) (m : PathTable) → All (MapsToSelf (identity_table ps m)) ps
unfolding identity_table
identity_table-MapsToSelf [] m = tt
identity_table-MapsToSelf (p ∷ ps) m = (
  identity_table_keeps ps (insert p p m) p (p, rw (lookup-insert, path_eq_refl p), refl),
  identity_table-MapsToSelf ps (insert p p m),
)

module _ (H : Host) (e : UnrestrictedVmmExecutor) (shell_spawner : ShellSpawner H) where
  -- When `prepare` succeeds, every resource is mapped to itself.
  pub prepare-MapsToSelf :
      (outer_paths : List FilePath) (w : H.World) {m : PathTable}
      → (prepare H e shell_spawner outer_paths w).0 ≡ ok m
      → All (MapsToSelf m) outer_paths
  unfolding prepare
  prepare-MapsToSelf outer_paths w {m} h =
      let same : m ≡ identity_table outer_paths [] = ground arith in
      rw same (identity_table-MapsToSelf outer_paths [])
