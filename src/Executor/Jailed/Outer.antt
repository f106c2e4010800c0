-- ===== src/Executor/Jailed/Outer.antt =====
-- The outer paths of src/executor/jailed.rs: `inner_to_outer_path` and `get_socket_path`.
use fctools.Base.{◌≡◌, ◌≢◌, refl, [], ◌∷◌, ◌++◌, arith}
use fctools.FilePath.{FilePath, components, join_path, is_absolute}
use fctools.FilePath.Joining.{components-jail_join, below}
use fctools.Text.{txt}
use fctools.Executor.{VmmInstallation}
use fctools.Executor.Jailed.{JailedVmmExecutor, get_jail_path, inner_to_outer_path}

join_path_ne : (p q : FilePath) → q ≢ [] → join_path p q ≢ []
unfolding join_path is_absolute
join_path_ne p [] h e = h refl
join_path_ne [] (c ∷ q) h e = ground arith
join_path_ne (d ∷ p) (c ∷ q) h e = ground arith

module _ (e : JailedVmmExecutor) (installation : VmmInstallation) where
  get_jail_path_ne : get_jail_path e installation ≢ []
  unfolding get_jail_path
  get_jail_path_ne = join_path_ne _ (txt "root") (λ h. cc)

  -- The outer path of an inner path is the jail followed by the components of the inner path, whether
  -- the inner path is absolute or relative.
  pub components-inner_to_outer_path :
      (inner : FilePath)
      → components (inner_to_outer_path e installation inner)
        ≡ components (get_jail_path e installation) ++ below (components inner)
  unfolding inner_to_outer_path
  components-inner_to_outer_path inner =
      components-jail_join (get_jail_path e installation) inner get_jail_path_ne
