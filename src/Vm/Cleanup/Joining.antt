-- ===== src/Vm/Cleanup/Joining.antt =====
-- The loop of `Vm::cleanup` of src/vm/mod.rs that joins its tasks ends when none is left.
use fctools.Base.{◌≡◌, sym, ap, ◌∙◌, ℕ, zero, suc, Option, none, some, List, [], ◌∷◌, Done, ◌⊎◌}
use fctools.FilePath.{FilePath}
use fctools.Host.{Host}
use fctools.Host.Calls.{Call}
use fctools.Vm.Machine.{AccessiblePaths}
use fctools.Vm.Cleanup.{
  JoinSet, spawn_remove, spawn_optional, spawn_each, spawn_vsock, spawn_popped, join_ignored,
  spawn_removals,
}

module _ (H : Host) (pending : H.World → ℕ) where
  abbrev pub Joined : Type 0
  Joined = Option (H.JoinError ⊎ (H.IoError ⊎ Done)) × H.World

  -- What `join_next` answers with so many tasks pending.
  abbrev pub Joins : ℕ → Joined → Type 0
  Joins zero r = r.0 ≡ none
  Joins (suc n) (none, w) = ⊥
  Joins (suc n) (some result, w) = pending w ≡ n

  module _
      (spawns : (task : Call H.World H.IoError Done) (w : H.World)
        → pending (H.spawn_blocking task w) ≡ suc (pending w))
      (joins : (w : H.World) → Joins (pending w) (H.join_next w)) where
    abbrev IsCounted : JoinSet H → Type 0
    IsCounted join_set = join_set.0 ≡ pending join_set.1

    remove-IsCounted :
        (path : FilePath) (js : JoinSet H) → IsCounted js → IsCounted (spawn_remove H path js)
    remove-IsCounted path (n, w) h = ap suc h ∙ sym (spawns (H.remove_file path) w)

    optional-IsCounted :
        (path : Option FilePath) (js : JoinSet H)
        → IsCounted js
        → IsCounted (spawn_optional H path js)
    optional-IsCounted none js h = h
    optional-IsCounted (some path) js h = remove-IsCounted path js h

    each-IsCounted :
        (paths : List FilePath) (js : JoinSet H) → IsCounted js → IsCounted (spawn_each H paths js)
    unfolding spawn_each
    each-IsCounted [] js h = h
    each-IsCounted (path ∷ paths) js h =
        each-IsCounted paths (spawn_remove H path js) (remove-IsCounted path js h)

    popped-IsCounted :
        (paths : List FilePath) (js : JoinSet H)
        → IsCounted js
        → IsCounted (spawn_popped H paths js)
    unfolding spawn_popped
    popped-IsCounted [] js h = h
    popped-IsCounted (path ∷ paths) js h =
        remove-IsCounted path (spawn_popped H paths js) (popped-IsCounted paths js h)

    vsock-IsCounted :
        (path : Option FilePath) (paths : List FilePath) (js : JoinSet H)
        → IsCounted js
        → IsCounted (spawn_vsock H path paths js)
    vsock-IsCounted none paths js h = h
    vsock-IsCounted (some path) paths js h =
        each-IsCounted paths (spawn_remove H path js) (remove-IsCounted path js h)

    removals-IsCounted :
        (paths : AccessiblePaths) (traces : List FilePath) (js : JoinSet H)
        → IsCounted js
        → IsCounted (spawn_removals H paths traces js)
    unfolding spawn_removals
    removals-IsCounted paths traces js h =
        let logged = spawn_optional H paths.log_path js in
        let measured = spawn_optional H paths.metrics_path logged in
        let tunneled =
          spawn_vsock H paths.vsock_multiplexer_path paths.vsock_listener_paths measured in
        popped-IsCounted traces tunneled (
          vsock-IsCounted paths.vsock_multiplexer_path paths.vsock_listener_paths measured
            (optional-IsCounted paths.metrics_path logged (optional-IsCounted paths.log_path js h)))

    round_joined :
        (n : ℕ) (r : Joined)
        → Joins (suc n) r
        → ((w : H.World) → n ≡ pending w → pending (join_ignored H (n, w)) ≡ 0)
        → pending (elim r.0 [ none ↦ r.1 | some result ↦ join_ignored H (n, r.1) ]) ≡ 0
    round_joined n (none, w) h k = absurd h
    round_joined n (some result, w) h k = k w (sym h)

    all_joined : (n : ℕ) (w : H.World) → n ≡ pending w → pending (join_ignored H (n, w)) ≡ 0
    unfolding join_ignored
    all_joined zero w e = sym e
    all_joined (suc n) w e =
        round_joined n (H.join_next w) (rw (sym e) at (joins w)) (λ w'. all_joined n w')

    none_next : (w : H.World) → pending w ≡ 0 → (H.join_next w).0 ≡ none
    none_next w e = rw e at (joins w)

    -- With a set of tasks from which each join takes one, the loop over the joined tasks is long enough:
    -- after the removals were spawned into an empty set, it stops when no task is left to be joined, so that
    -- every file that is to be removed has been dealt with when the cleanup returns.
    pub join_ignored-none :
        (paths : AccessiblePaths) (traces : List FilePath) (w : H.World)
        → pending w ≡ 0
        → (H.join_next (join_ignored H (spawn_removals H paths traces (0, w)))).0 ≡ none
    join_ignored-none paths traces w e =
        let (n, w') = spawn_removals H paths traces (0, w) in
        none_next (join_ignored H (n, w'))
          (all_joined n w' (removals-IsCounted paths traces (0, w) (sym e)))
