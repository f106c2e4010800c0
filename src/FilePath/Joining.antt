-- ===== src/FilePath/Joining.antt =====
-- The components of joined paths: what `Path::join` and the `jail_join` of src/executor/jailed.rs
-- make of them.
use mathlib.Core.Path.{ap₂}
use fctools.Base.{
  Bool-cases, inl, inr, ==_iff, ℕ, ◌≡◌, refl, sym, ap, ◌∙◌, ◌≢◌, true, false, List, [], ◌∷◌, ◌++◌,
  append_assoc, append-nil, append_snoc, arith, ◌==◌,
}
use fctools.Text.{Text, slash, starts_with, trim_start_matches}
use fctools.Text.Words.{join, join-split, split, split_parts, split-append_sep}
use fctools.FilePath.{
  FilePath, Component, root_dir, cur_dir, classify, lead, classify_all, components_of, components,
  is_absolute, ends_with_slash, join_path, jail_join,
}

pub classify_all-append :
    (s t : List Text) → classify_all (s ++ t) ≡ classify_all s ++ classify_all t
unfolding classify_all
classify_all-append [] t = refl
classify_all-append (segment ∷ rest) t =
    rw (classify_all-append rest t) (sym (append_assoc (classify segment) _ _))

-- Without its first slashes a text has the same components below the root.
pub classify_all-trim :
    (q : Text)
    → classify_all (split slash (trim_start_matches slash q)) ≡ classify_all (split slash q)
unfolding trim_start_matches split classify_all classify
classify_all-trim [] = refl
classify_all-trim (c ∷ q) = elim (Bool-cases (c == slash)) [
  | inl same ↦ rw same (classify_all-trim q)
  | inr other ↦ rw (other, other) refl
]

-- The components after the root or the leading `.`.
abbrev pub below : List Component → List Component
below (root_dir ∷ cs) = cs
below (cur_dir ∷ cs) = cs
below cs = cs

lead-append :
    (first : Text) (rest more : List Text)
    → (first ∷ rest) ≢ ([] ∷ [])
    → lead first (rest ++ more) ≡ lead first rest
unfolding lead
lead-append [] [] more h = absurd (h refl)
lead-append [] (next ∷ rest) more h = refl
lead-append (c ∷ first) rest more h = refl

split_ne : (p : Text) → p ≢ [] → split slash p ≢ ([] ∷ [])
split_ne p h e = h (sym (join-split slash p) ∙ ap (join slash) e ∙ unfold join in refl)

-- A path is put below a path that is not empty by one more slash.
pub components-append_slash :
    (p q : Text)
    → p ≢ []
    → components (p ++ (slash ∷ q)) ≡ components p ++ classify_all (split slash q)
unfolding components
components-append_slash p q h =
    let (first, rest, e) = split_parts slash p in
    let ne : (first ∷ rest) ≢ ([] ∷ []) = rw e at (split_ne p h) in
    rw (split-append_sep slash p q, e)
      (ap₂ (λ l m. l ++ m) (lead-append first rest (split slash q) ne)
          (classify_all-append rest (split slash q))
        ∙ sym (append_assoc (lead first rest) _ _))

components_root : (q : Text) → components (slash ∷ q) ≡ root_dir ∷ classify_all (split slash q)
unfolding components split
components_root q = let (part, parts, e) = split_parts slash q in rw e

below-components_of :
    (first : Text) (rest : List Text)
    → below (components_of (first ∷ rest)) ≡ classify_all (first ∷ rest)
unfolding components
below-components_of [] [] = refl
below-components_of [] (next ∷ rest) = refl
below-components_of (c ∷ first) rest = ground arith

below-components : (q : Text) → below (components q) ≡ classify_all (split slash q)
unfolding components
below-components q =
    let (first, rest, e) = split_parts slash q in rw e (below-components_of first rest)

components-append_closed :
    (p q r : Text)
    → p ≡ r ++ (slash ∷ [])
    → components (p ++ q) ≡ components p ++ classify_all (split slash q)
unfolding classify_all split classify
components-append_closed p q [] e = rw (e, components_root q, components_root []) refl
components-append_closed p q (d ∷ r) e =
    rw (e, append_snoc (d ∷ r) slash q)
      (components-append_slash (d ∷ r) q (λ h. cc)
        ∙ ap (λ l. l ++ classify_all (split slash q))
            (sym (components-append_slash (d ∷ r) [] (λ h. cc) ∙ append-nil _)))

trimmed_relative : (q : Text) → is_absolute (trim_start_matches slash q) ≡ false
unfolding is_absolute trim_start_matches starts_with
trimmed_relative [] = refl
trimmed_relative (c ∷ q) = ground (arith, trimmed_relative q)

ends_with_slash_split :
    (c : ℕ) (p : Text) → ends_with_slash (c ∷ p) ≡ true → (r : Text) × ((c ∷ p) ≡ r ++ (slash ∷ []))
ends_with_slash_split c [] h = ([], ap (λ n. n ∷ []) ((==_iff c slash).0 h))
ends_with_slash_split c (d ∷ p) h =
    let (r, e) = ends_with_slash_split d p h in (c ∷ r, ap (λ l. c ∷ l) e)

-- Joining a relative path keeps the components of the first one and appends those of the second,
-- without a leading `.`.
pub components-join_path :
    (p q : FilePath)
    → p ≢ []
    → is_absolute q ≡ false
    → components (join_path p q) ≡ components p ++ classify_all (split slash q)
unfolding join_path
components-join_path [] q h rel = absurd (h refl)
components-join_path (c ∷ p) q h rel = elim (Bool-cases (ends_with_slash (c ∷ p))) [
  | inr open_end ↦ rw (rel, open_end) (components-append_slash (c ∷ p) q h)
  | inl closed ↦
      let (r, e) = ends_with_slash_split c p closed in
      rw (rel, closed) (components-append_closed (c ∷ p) q r e)
]

-- `jail_join` of src/executor/jailed.rs: the inner path is put below the jail, whatever its own root.
pub components-jail_join :
    (jail inner : FilePath)
    → jail ≢ []
    → components (jail_join jail inner) ≡ components jail ++ below (components inner)
unfolding jail_join
components-jail_join jail inner h =
    components-join_path jail (trim_start_matches slash inner) h (trimmed_relative inner)
    ∙ ap (λ l. components jail ++ l) (classify_all-trim inner ∙ sym (below-components inner))
