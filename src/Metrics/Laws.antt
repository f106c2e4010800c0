-- ===== src/Metrics/Laws.antt =====
-- What the task of src/ext/metrics.rs has sent, against what it has read.
use mathlib.Core.Path.{subst}
use fctools.Base.{
  ◌≡◌, refl, sym, ap, ◌∙◌, ℕ, zero, suc, Option, none, some, List, [], ◌∷◌, ◌++◌, append_assoc,
  append-nil, Outcome, ok, err, panic, map_err, Done, ◌⊎◌, inl, inr,
}
use fctools.Base.Action.{Action, resume}
use fctools.Text.{Text}
use fctools.FilePath.{FilePath}
use fctools.Host.{Host}
use fctools.Host.Calls.{call, answer}
use fctools.Metrics.Entry.{Metrics}
use fctools.Metrics.{Gathering, MetricsTaskError, io, serde, forward, turn, turns, metrics_task}

module _ (H : Host) (G : Gathering H) where
  -- The entries are those of the lines, in order.
  abbrev pub Parses : List Text → List Metrics → Type 0
  Parses [] [] = Unit
  Parses (line ∷ lines) (entry ∷ entries) = (G.from_str line ≡ inr entry) × Parses lines entries
  Parses _ _ = ⊥

  module _ (seen : H.World → List Text) (log : H.World → List Metrics) where
    abbrev Same : H.World → H.World → Type 0
    Same w w' = (seen w' ≡ seen w) × (log w' ≡ log w)

    -- What a reader and a channel do that work: a line is read, or an entry is taken over.
    abbrev pub HasRead : H.World → (H.IoError ⊎ Option Text) × H.World → Type 0
    HasRead w (inl e, w') = Same w w'
    HasRead w (inr none, w') = Same w w'
    HasRead w (inr (some line), w') = (seen w' ≡ seen w ++ (line ∷ [])) × (log w' ≡ log w)

    abbrev pub HasSent : H.World → Metrics → (Metrics ⊎ Done) × H.World → Type 0
    HasSent w entry (inl back, w') = (back ≡ entry) × Same w w'
    HasSent w entry (inr sent, w') = (seen w' ≡ seen w) × (log w' ≡ log w ++ (entry ∷ []))

    abbrev pub HasOpened : H.World → (H.IoError ⊎ G.Lines) × H.World → Type 0
    HasOpened w (r, w') = Same w w'

    -- The lines read and the entries sent since the lists `s` and `g`: the same ones, but for the last line
    -- when it does not parse or its entry is not taken.
    abbrev pub Gathered :
        List Text → List Metrics → Outcome (MetricsTaskError H G) Done × H.World → Type 0
    Gathered s g (ok a, w) =
        (lines : List Text) × (entries : List Metrics) × Parses lines entries
        × (seen w ≡ s ++ lines)
        × (log w ≡ g ++ entries)
    Gathered s g (err (io e), w) =
        (lines : List Text) × (entries : List Metrics) × Parses lines entries
        × (seen w ≡ s ++ lines)
        × (log w ≡ g ++ entries)
    Gathered s g (err (serde e), w) =
        (lines : List Text) × (entries : List Metrics) × (line : Text) × Parses lines entries
        × (G.from_str line ≡ inl e)
        × (seen w ≡ s ++ (lines ++ (line ∷ [])))
        × (log w ≡ g ++ entries)
    Gathered s g (err (MetricsTaskError.send entry), w) =
        (lines : List Text) × (entries : List Metrics) × (line : Text) × Parses lines entries
        × (G.from_str line ≡ inr entry)
        × (seen w ≡ s ++ (lines ++ (line ∷ [])))
        × (log w ≡ g ++ entries)
    Gathered s g (panic, w) = ⊥

    prepend :
        (s : List Text) (g : List Metrics) (line : Text) (entry : Metrics)
        (r : Outcome (MetricsTaskError H G) Done × H.World)
        → G.from_str line ≡ inr entry
        → Gathered (s ++ (line ∷ [])) (g ++ (entry ∷ [])) r
        → Gathered s g r
    prepend s g line entry (ok a, w) e (lines, entries, parses, x, y) = (
      line ∷ lines,
      entry ∷ entries,
      (e, parses),
      x ∙ append_assoc s (line ∷ []) lines,
      y ∙ append_assoc g (entry ∷ []) entries,
    )
    prepend s g line entry (err (io z), w) e (lines, entries, parses, x, y) = (
      line ∷ lines,
      entry ∷ entries,
      (e, parses),
      x ∙ append_assoc s (line ∷ []) lines,
      y ∙ append_assoc g (entry ∷ []) entries,
    )
    prepend s g line entry (err (serde z), w) e (lines, entries, last, parses, f, x, y) = (
      line ∷ lines,
      entry ∷ entries,
      last,
      (e, parses),
      f,
      x ∙ append_assoc s (line ∷ []) (lines ++ (last ∷ [])),
      y ∙ append_assoc g (entry ∷ []) entries,
    )
    prepend s g line entry (err (MetricsTaskError.send z), w) e
          (lines, entries, last, parses, f, x, y) =
        (
          line ∷ lines,
          entry ∷ entries,
          last,
          (e, parses),
          f,
          x ∙ append_assoc s (line ∷ []) (lines ++ (last ∷ [])),
          y ∙ append_assoc g (entry ∷ []) entries,
        )
    prepend s g line entry (panic, w) e h = h

    same_since :
        (w w' : H.World) (r : Outcome (MetricsTaskError H G) Done × H.World)
        → Same w w'
        → Gathered (seen w') (log w') r
        → Gathered (seen w) (log w) r
    same_since w w' r (e, f) h =
        subst (λ g. Gathered (seen w) g r) f (subst (λ s. Gathered s (log w') r) e h)

    module _ (reads : (lines : G.Lines) (w : H.World) → HasRead w (G.next_line lines w))
        (sends : (entry : Metrics) (w : H.World) → HasSent w entry (G.send entry w))
        (opens : (path : FilePath) (w : H.World) → HasOpened w (G.open_lines path w)) where
      abbrev Task : Type 0
      Task = Done → Action H.World (MetricsTaskError H G) Done

      sent :
          (w w1 : H.World) (line : Text) (entry : Metrics) (r : (Metrics ⊎ Done) × H.World)
          (f : Task)
          → (seen w1 ≡ seen w ++ (line ∷ [])) × (log w1 ≡ log w)
          → G.from_str line ≡ inr entry
          → HasSent w1 entry r
          → ((w' : H.World) → Gathered (seen w') (log w') (f tt w'))
          → Gathered (seen w) (log w) (resume (call MetricsTaskError.send (λ x. r) w1) f)
      sent w w1 line entry (inl back, w2) f (x, y) e (same, (x', y')) k =
          ([], [], line, tt, e ∙ ap inr (sym same), x' ∙ x, y' ∙ y ∙ sym (append-nil (log w)))
      sent w w1 line entry (inr a, w2) f (x, y) e (x', y') k =
          prepend (seen w) (log w) line entry (f tt w2) e (
            subst (λ g. Gathered (seen w ++ (line ∷ [])) g (f tt w2))
              (y' ∙ ap (λ g. g ++ (entry ∷ [])) y)
              (subst (λ s. Gathered s (log w2) (f tt w2)) (x' ∙ x) (k w2)))

      parsed :
          (w w1 : H.World) (line : Text) (r : G.SerdeError ⊎ Metrics) (f : Task)
          → (seen w1 ≡ seen w ++ (line ∷ [])) × (log w1 ≡ log w)
          → G.from_str line ≡ r
          → ((w' : H.World) → Gathered (seen w') (log w') (f tt w'))
          → Gathered (seen w) (log w) (
              resume
                (resume
                  (map_err serde (answer r), w1)
                  (λ entry. call MetricsTaskError.send (G.send entry)))
                f)
      parsed w w1 line (inl e) f (x, y) h k = ([], [], line, tt, h, x, y ∙ sym (append-nil (log w)))
      parsed w w1 line (inr entry) f read h k =
          sent w w1 line entry (G.send entry w1) f read h (sends entry w1) k

      next :
          (w : H.World) (r : (H.IoError ⊎ Option Text) × H.World) (f : Task)
          → HasRead w r
          → ((w' : H.World) → Gathered (seen w') (log w') (f tt w'))
          → Gathered (seen w) (log w) (resume (resume (call io (λ x. r) w) (forward H G)) f)
      next w (inl e, w1) f (x, y) k =
          ([], [], tt, x ∙ sym (append-nil (seen w)), y ∙ sym (append-nil (log w)))
      next w (inr none, w1) f read k = same_since w w1 (f tt w1) read (k w1)
      next w (inr (some line), w1) f read k = parsed w w1 line (G.from_str line) f read refl k

      turns-Gathered :
          (n : ℕ) (lines : G.Lines) (w : H.World) → Gathered (seen w) (log w) (turns H G n lines w)
      unfolding turns turn
      turns-Gathered zero lines w =
          ([], [], tt, sym (append-nil (seen w)), sym (append-nil (log w)))
      turns-Gathered (suc n) lines w =
          next w (G.next_line lines w) (λ a. turns H G n lines) (reads lines w)
            (λ w'. turns-Gathered n lines w')

      opened :
          (n : ℕ) (w : H.World) (r : (H.IoError ⊎ G.Lines) × H.World)
          → HasOpened w r
          → Gathered (seen w) (log w) (resume (call io (λ x. r) w) (turns H G n))
      opened n w (inl e, w1) (x, y) =
          ([], [], tt, x ∙ sym (append-nil (seen w)), y ∙ sym (append-nil (log w)))
      opened n w (inr lines, w1) same =
          same_since w w1 (turns H G n lines w1) same (turns-Gathered n lines w1)

      -- With a reader that hands out the lines and a channel that takes over what is sent, the task has
      -- after any number of turns sent exactly the entries of the lines that it has read, in their order,
      -- none twice and none left out. Only when it has ended with a parse error or a closed channel is the
      -- last line not sent, and then it is the one that does not parse or whose entry came back.
      pub metrics_task-Gathered :
          (path : FilePath) (n : ℕ) (w : H.World)
          → Gathered (seen w) (log w) (metrics_task H G path n w)
      unfolding metrics_task
      metrics_task-Gathered path n w = opened n w (G.open_lines path w) (opens path w)
