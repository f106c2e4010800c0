-- ===== src/FilePath.antt =====
-- What the source uses of `std::path`: a path is its text (UTF-8, so `to_string_lossy` and `to_str`
-- give the text itself), compared by its components as `PathBuf` is.
pub mod Joining
pub mod Table
use mathlib.Core.List.{reverse, flat_map}
use mathlib.Core.Option
use fctools.Base.{
  ℕ, ◌≡◌, refl, Bool, true, false, ◌&&◌, not, Option, none, some, List, [], ◌∷◌, ◌++◌, ◌==◌,
  if◌then◌else◌,
}
use fctools.Text.{
  Text, txt, slash, text_eq, starts_with, trim_start_matches, is_empty, trim_start_matches,
}
use fctools.Text.Words.{split, join}

abbrev pub FilePath : Type 0
FilePath = Text

-- `std::path::Component`
pub data Component : Type 0 where
  root_dir cur_dir parent_dir : Component
  normal : Text → Component

abbrev dot : Text
dot = txt "."

-- A segment between slashes: an empty one and `.` give no component.
unfoldable pub classify : Text → List Component
classify segment =
    if is_empty segment
    then []
    else if text_eq segment dot
    then []
    else if text_eq segment (txt "..")
    then parent_dir ∷ []
    else normal segment ∷ []

-- The first segment: an empty one before a slash is the root, and `.` stays there.
unfoldable pub lead : Text → List Text → List Component
lead [] [] = []
lead [] (next ∷ rest) = root_dir ∷ []
lead (c ∷ segment) rest = if text_eq (c ∷ segment) dot then cur_dir ∷ [] else classify (c ∷ segment)

unfoldable pub classify_all : List Text → List Component
classify_all [] = []
classify_all (segment ∷ rest) = classify segment ++ classify_all rest

unfoldable pub components_of : List Text → List Component
components_of [] = []
components_of (first ∷ rest) = lead first rest ++ classify_all rest

-- `Path::components`
unfoldable pub components : FilePath → List Component
unfolding classify lead classify_all components_of
components p = components_of (split slash p)

abbrev pub last_component : List Component → Option Component
last_component [] = none
last_component (c ∷ []) = some c
last_component (c ∷ d ∷ cs) = last_component (d ∷ cs)

abbrev name_of : Option Component → Option Text
name_of (some (normal name)) = some name
name_of _ = none

-- `Path::file_name`
unfoldable pub file_name : FilePath → Option Text
file_name p = name_of (last_component (components p))

unfoldable pub is_absolute : FilePath → Bool
is_absolute p = starts_with p (txt "/")

-- The segments of a reversed list from its last component on.
unfoldable pub drop_junk : List Text → List Text
drop_junk [] = []
drop_junk (segment ∷ rest) =
    if is_empty segment
    then drop_junk rest
    else if text_eq segment dot
    then drop_junk rest
    else segment ∷ rest

abbrev without_last : List Text → Option (List Text)
without_last [] = none
without_last (segment ∷ rest) = some (reverse (drop_junk rest))

-- The segments before the last component.
unfoldable pub parent_segments : List Text → Option (List Text)
unfolding drop_junk
parent_segments segments = without_last (drop_junk (reverse segments))

abbrev parent_of : List Text → Option FilePath
parent_of [] = none
parent_of ([] ∷ []) = none
parent_of ([] ∷ next ∷ rest) =
    Option.map (λ kept. slash ∷ join slash kept) (parent_segments (next ∷ rest))
parent_of ((c ∷ first) ∷ rest) =
    if text_eq (c ∷ first) dot
    then (elim (parent_segments rest) [
      | none ↦ some []
      | some kept ↦ some (join slash (dot ∷ kept))
    ])
    else Option.map (join slash) (parent_segments ((c ∷ first) ∷ rest))

-- `Path::parent`: none for the root and for the empty path.
unfoldable pub parent : FilePath → Option FilePath
unfolding parent_segments
parent p = parent_of (split slash p)

abbrev pub ends_with_slash : FilePath → Bool
ends_with_slash [] = false
ends_with_slash (c ∷ []) = c == slash
ends_with_slash (c ∷ d ∷ p) = ends_with_slash (d ∷ p)

-- `Path::join`: an absolute path replaces the first one.
unfoldable pub join_path : FilePath → FilePath → FilePath
unfolding is_absolute
join_path p q =
    if is_absolute q
    then q
    else if is_empty p
    then q
    else if ends_with_slash p
    then p ++ q
    else p ++ (slash ∷ q)

-- `JailJoin::jail_join` of src/executor/jailed.rs.
unfoldable pub jail_join : FilePath → FilePath → FilePath
jail_join p other_path = join_path p (trim_start_matches slash other_path)

component_eq : Component → Component → Bool
component_eq root_dir root_dir = true
component_eq cur_dir cur_dir = true
component_eq parent_dir parent_dir = true
component_eq (normal s) (normal t) = text_eq s t
component_eq _ _ = false

components_eq : List Component → List Component → Bool
components_eq [] [] = true
components_eq (c ∷ cs) (d ∷ ds) = component_eq c d && components_eq cs ds
components_eq _ _ = false

-- `PathBuf::eq`
unfoldable pub path_eq : FilePath → FilePath → Bool
unfolding component_eq components_eq
path_eq p q = components_eq (components p) (components q)
