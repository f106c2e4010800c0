-- ===== src/Metrics/Tests.antt =====
-- The theorem on the task of src/ext/metrics.rs, with a reader of prepared lines, a parser that knows one
-- line, and a channel that takes everything.
use fctools.Base.{
  refl, Bool, true, false, Option, none, some, List, [], ◌∷◌, ◌++◌, ◌⊎◌, inl, inr, Done,
}
use fctools.Text.{Text, txt, text_eq}
use fctools.Host.{Host}
use fctools.Metrics.{Gathering, metrics_task}
use fctools.Metrics.Entry.{Metrics}
use fctools.Metrics.Laws.{HasRead, Gathered, metrics_task-Gathered}
use fctools.Metrics.Zero.{zero_entry}
use fctools.Simulation.{simulation, Machine, idle}

abbrev S : Host
S = simulation

abbrev taken : List Text → Machine → (Text ⊎ Option Text) × Machine
taken [] m = (inr none, m)
taken (line ∷ rest) m = (inr (some line), record m { unread = rest; seen = m.seen ++ (line ∷ []) })

abbrev entry_if : Bool → Done ⊎ Metrics
entry_if true = inr zero_entry
entry_if false = inl tt

abbrev gathering : Gathering S
gathering = record {
  Lines = Done;
  SerdeError = Done;
  open_lines = λ path m. (inr tt, m);
  next_line = λ lines m. taken m.unread m;
  from_str = λ line. entry_if (text_eq line (txt "{}"));
  send = λ entry m. (inr tt, record m { sent = m.sent ++ (entry ∷ []) });
}

taken-HasRead :
    (lines : List Text) (m : Machine)
    → HasRead S gathering (λ m. m.seen) (λ m. m.sent) m (taken lines m)
taken-HasRead [] m = (refl, refl)
taken-HasRead (line ∷ rest) m = (refl, refl)

-- Two good lines and a broken one.
abbrev written : Machine
written = record idle { unread = txt "{}" ∷ txt "{}" ∷ txt "broken" ∷ [] }

metrics_task-Gathered_example :
    Gathered S gathering
      (λ m. m.seen)
      (λ m. m.sent)
      []
      []
      (metrics_task S gathering (txt "/metrics") 4 written)
metrics_task-Gathered_example =
    metrics_task-Gathered S gathering (λ m. m.seen) (λ m. m.sent)
      (λ lines m. taken-HasRead m.unread m) (λ entry m. (refl, refl)) (λ path m. (refl, refl))
      (txt "/metrics") 4 written
