-- ===== src/Executor/Jailed/Renamers.antt =====
-- The jail renamers of src/executor/jailed.rs.
use fctools.Base.{Option, none, some, List, [], ◌∷◌, ◌++◌, Outcome, ok, err}
use fctools.Text.{Text, txt}
use fctools.FilePath.{FilePath, file_name}
use fctools.FilePath.Table.{PathTable, lookup, insert}
use fctools.Executor.{JailRenamerError, path_has_no_filename, path_is_unmapped}

-- The trait `JailRenamer` has one method.
abbrev pub JailRenamer : Type 0
JailRenamer = FilePath → Outcome JailRenamerError FilePath

abbrev flat_name : Option Text → Outcome JailRenamerError FilePath
flat_name none = err path_has_no_filename
flat_name (some name) = ok (txt "/" ++ name)

-- `FlatJailRenamer`
unfoldable pub flat : JailRenamer
flat outside_path = flat_name (file_name outside_path)

abbrev mapped : FilePath → Option FilePath → Outcome JailRenamerError FilePath
mapped outside_path none = err (path_is_unmapped outside_path)
mapped outside_path (some jail_path) = ok jail_path

-- `MappingJailRenamer`, by its table.
unfoldable pub mapping : PathTable → JailRenamer
mapping mappings outside_path = mapped outside_path (lookup outside_path mappings)

-- `MappingJailRenamer::map`
unfoldable pub map : FilePath → FilePath → PathTable → PathTable
map outside_path jail_path mappings = insert outside_path jail_path mappings

-- `MappingJailRenamer::map_all`
unfoldable pub map_all : List (FilePath × FilePath) → PathTable → PathTable
unfolding map
map_all [] mappings = mappings
map_all ((outside_path, jail_path) ∷ rest) mappings =
    map_all rest (map outside_path jail_path mappings)
