-- ===== src/Text/Words.antt =====
-- Splitting a text at a character and joining the parts again.
use fctools.Base.{
  ℕ, ◌≡◌, refl, ap, ◌∙◌, ◌≢◌, List, [], ◌∷◌, ◌++◌, All, arith, ◌==◌, ==_refl, ==_iff, if◌then◌else◌,
  Bool-cases, inl, inr,
}

-- Puts a character before the first part.
abbrev pub push_first : ℕ → List (List ℕ) → List (List ℕ)
push_first c [] = (c ∷ []) ∷ []
push_first c (part ∷ parts) = (c ∷ part) ∷ parts

-- `s.split(c)`
unfoldable pub split : ℕ → List ℕ → List (List ℕ)
split sep [] = [] ∷ []
split sep (c ∷ s) = if c == sep then [] ∷ split sep s else push_first c (split sep s)

-- `parts.join(sep)`, for a separator of one character.
unfoldable pub join : ℕ → List (List ℕ) → List ℕ
join sep [] = []
join sep (part ∷ []) = part
join sep (part ∷ next ∷ parts) = part ++ (sep ∷ join sep (next ∷ parts))

-- The character does not occur.
abbrev pub Free : ℕ → List ℕ → Type 0
Free sep = All (λ c. c ≢ sep)

push_first-Free :
    (sep c : ℕ) (parts : List (List ℕ))
    → All (Free sep) parts
    → c ≢ sep
    → All (Free sep) (push_first c parts)
push_first-Free sep c [] h ne = ((ne, tt), tt)
push_first-Free sep c (part ∷ parts) h ne = ((ne, h.0), h.1)

pub split-Free : (sep : ℕ) (s : List ℕ) → All (Free sep) (split sep s)
unfolding split
split-Free sep [] = (tt, tt)
split-Free sep (c ∷ s) = elim (Bool-cases (c == sep)) [
  | inl same ↦ rw same (tt, split-Free sep s)
  | inr other ↦ rw other (push_first-Free sep c (split sep s) (split-Free sep s) (ground arith))
]

-- A part without the separator stands whole before it.
pub split-append :
    (sep : ℕ) (part s : List ℕ) → Free sep part → split sep (part ++ (sep ∷ s)) ≡ part ∷ split sep s
unfolding split
split-append sep [] s h = rw (==_refl sep)
split-append sep (c ∷ part) s (ne, h) = ground (arith, split-append sep part s h)

pub split_whole : (sep : ℕ) (part : List ℕ) → Free sep part → split sep part ≡ part ∷ []
unfolding split
split_whole sep [] h = refl
split_whole sep (c ∷ part) (ne, h) = ground (arith, split_whole sep part h)

-- Joining parts that lack the separator and splitting gives the parts back.
pub split-join :
    (sep : ℕ) (part : List ℕ) (parts : List (List ℕ))
    → Free sep part
    → All (Free sep) parts
    → split sep (join sep (part ∷ parts)) ≡ part ∷ parts
unfolding join
split-join sep part [] h hs = split_whole sep part h
split-join sep part (next ∷ parts) h hs =
    split-append sep part _ h ∙ ap (λ l. part ∷ l) (split-join sep next parts hs.0 hs.1)

pub join-push_first :
    (sep c : ℕ) (part : List ℕ) (parts : List (List ℕ))
    → join sep (push_first c (part ∷ parts)) ≡ c ∷ join sep (part ∷ parts)
unfolding join
join-push_first sep c part [] = refl
join-push_first sep c part (next ∷ parts) = refl

-- `split` never returns an empty list.
pub split_parts :
    (sep : ℕ) (s : List ℕ)
    → (part : List ℕ) × (parts : List (List ℕ)) × (split sep s ≡ part ∷ parts)
unfolding split
split_parts sep [] = ([], [], refl)
split_parts sep (c ∷ s) =
    let (part, parts, e) = split_parts sep s in
    elim (Bool-cases (c == sep)) [
      | inl same ↦ ([], split sep s, rw same)
      | inr other ↦ (c ∷ part, parts, rw (other, e))
    ]

join_empty_first :
    (sep : ℕ) (part : List ℕ) (parts : List (List ℕ))
    → join sep ([] ∷ part ∷ parts) ≡ sep ∷ join sep (part ∷ parts)
unfolding join
join_empty_first sep part parts = refl

-- Splitting and joining gives the text back.
pub join-split : (sep : ℕ) (s : List ℕ) → join sep (split sep s) ≡ s
unfolding split
join-split sep [] = unfold join in refl
join-split sep (c ∷ s) =
    let (part, parts, e) = split_parts sep s in
    let back : join sep (part ∷ parts) ≡ s = rw e at (join-split sep s) in
    elim (Bool-cases (c == sep)) [
      | inl same ↦
          let equal = (==_iff c sep).0 same in
          rw (same, e) (join_empty_first sep part parts ∙ cc (back, equal))
      | inr other ↦ rw (other, e) (join-push_first sep c part parts ∙ ap (λ l. c ∷ l) back)
    ]

-- Splitting a text at one of its separators splits both sides.
pub split-append_sep :
    (sep : ℕ) (s t : List ℕ) → split sep (s ++ (sep ∷ t)) ≡ split sep s ++ split sep t
unfolding split
split-append_sep sep [] t = rw (==_refl sep)
split-append_sep sep (c ∷ s) t =
    let (part, parts, e) = split_parts sep s in
    elim (Bool-cases (c == sep)) [
      | inl same ↦ rw (same, split-append_sep sep s t)
      | inr other ↦ rw (other, split-append_sep sep s t, e)
    ]
