-- ===== src/ShellSpawner/Laws.antt =====
-- The spawners of src/shell_spawner.rs.
use fctools.Base.{
  ◌≡◌, refl, sym, ap, ◌∙◌, ◌↔◌, Bool, true, false, Option, none, some, ◌∷◌, ◌++◌, Done, ok, inr,
}
use fctools.Base.Action.{Action, bind_inv, bind-eq, pure, raise}
use fctools.Text.{Text, txt, space}
use fctools.Text.Words.{split}
use fctools.Host.{Host, Child, Command, Stdio, null, piped}
use fctools.Host.Calls.{call, call-inr, call-ok_inv}
use fctools.ShellSpawner.{
  SudoShellSpawner, spawn_sudo, sudo, write_password, stdin_ref, sudo_command, get_stdio, newline,
}

abbrev pub stdio_of : Bool → Stdio
stdio_of true = null
stdio_of false = piped

-- `sudo -S -s` and the words of the command; the input stays open for the password.
abbrev pub sudo_line : SudoShellSpawner → Text → Bool → Command
sudo_line s shell_command pipes_to_null = record {
  program = s.sudo_path;
  args = txt "-S" ∷ txt "-s" ∷ split space shell_command;
  stdin = piped;
  stdout = stdio_of pipes_to_null;
  stderr = stdio_of pipes_to_null;
}

get_stdio_lem : (pipes_to_null : Bool) → get_stdio pipes_to_null ≡ stdio_of pipes_to_null
unfolding get_stdio
get_stdio_lem true = refl
get_stdio_lem false = refl

sudo_command_lem :
    (s : SudoShellSpawner) (shell_command : Text) (pipes_to_null : Bool)
    → sudo_command s shell_command pipes_to_null ≡ sudo_line s shell_command pipes_to_null
unfolding sudo_command
sudo_command_lem s shell_command pipes_to_null = rw get_stdio_lem refl

module _ (H : Host) where
  pipe_inv :
      (o : Option H.Pipe) (e : H.IoError) (w : H.World) {pipe : H.Pipe} {w' : H.World}
      → (elim o as (λ x. Action H.World H.IoError H.Pipe) [
        | some pipe ↦ pure pipe
        | none ↦ raise e
      ])
          w
        ≡ (ok pipe, w')
      → (o ≡ some pipe) × (w ≡ w')
  pipe_inv none e w h = absurd cc
  pipe_inv (some pipe) e w h = (cc, cc)

  stdin_inv :
      (child : Child H.Handle H.Pipe) (w : H.World) {pipe : H.Pipe} {w' : H.World}
      → stdin_ref H child w ≡ (ok pipe, w')
      → (child.stdin ≡ some pipe) × (w ≡ w')
  unfolding stdin_ref
  stdin_inv child w h = pipe_inv child.stdin (H.other_error (txt "Stdin not received")) w h

  written_inv :
      (given : Option Text) (pipe : H.Pipe) (w : H.World) {done : Done} {w' : H.World}
      → write_password H given pipe w ≡ (ok done, w')
      → (password : Text) × (given ≡ some password)
        × (H.write_pipe pipe (password ++ txt "\n") w ≡ (inr done, w'))
  unfolding write_password newline
  written_inv none pipe w h = absurd cc
  written_inv (some password) pipe w h =
      (password, refl, call-ok_inv (λ e. e) (H.write_pipe pipe (password ++ txt "\n")) w h)

  stdin_back :
      (child : Child H.Handle H.Pipe) (w : H.World) {pipe : H.Pipe}
      → child.stdin ≡ some pipe
      → stdin_ref H child w ≡ (ok pipe, w)
  unfolding stdin_ref
  stdin_back child w has =
      ap
        (λ o.
          (elim o as (λ x. Action H.World H.IoError H.Pipe) [
            | some pipe ↦ pure pipe
            | none ↦ raise (H.other_error (txt "Stdin not received"))
          ])
            w)
        has

  write_back :
      (given : Option Text) (password : Text) (pipe : H.Pipe) (w : H.World) {w' : H.World}
      → given ≡ some password
      → H.write_pipe pipe (password ++ txt "\n") w ≡ (inr tt, w')
      → write_password H given pipe w ≡ (ok tt, w')
  unfolding write_password newline
  write_back given password pipe w e h =
      ap (λ g. write_password H g pipe w) e
      ∙ call-inr (λ e. e) (H.write_pipe pipe (password ++ txt "\n")) w h

  -- The child of the `sudo` command, whose input was given the password.
  abbrev pub Spawned :
      SudoShellSpawner → Text → Bool → H.World → Child H.Handle H.Pipe → H.World → Type 0
  Spawned s shell_command pipes_to_null w child w' =
      (password : Text) × (pipe : H.Pipe) × (w₁ : H.World) × (s.password ≡ some password)
      × (H.spawn (sudo_line s shell_command pipes_to_null) w ≡ (inr child, w₁))
      × (child.stdin ≡ some pipe)
      × (H.write_pipe pipe (password ++ txt "\n") w₁ ≡ (inr tt, w'))

  spawn_sudo-Spawned :
      (s : SudoShellSpawner) (shell_command : Text) (pipes_to_null : Bool) (w : H.World)
      {child : Child H.Handle H.Pipe} {w' : H.World}
      → spawn_sudo H s shell_command pipes_to_null w ≡ (ok child, w')
      → Spawned s shell_command pipes_to_null w child w'
  unfolding spawn_sudo
  spawn_sudo-Spawned s shell_command pipes_to_null w {child} {w'} h =
      let (c, w₁, x₁, y₁) =
        bind_inv (call (λ e. e) (H.spawn (sudo_command s shell_command pipes_to_null))) _ w h in
      let (pipe, w₂, x₂, y₂) = bind_inv (stdin_ref H c) _ w₁ y₁ in
      let (done, w₃, x₃, y₃) = bind_inv (write_password H s.password pipe) _ w₂ y₂ in
      let (has, stays) = stdin_inv c w₁ x₂ in
      let (password, given, written) = written_inv s.password pipe w₂ x₃ in
      let ran = call-ok_inv (λ e. e) (H.spawn (sudo_command s shell_command pipes_to_null)) w x₁ in
      let line = sudo_command_lem s shell_command pipes_to_null in
      let same : c ≡ child = cc in
      let ends : w₃ ≡ w' = cc in
      (
        password,
        pipe,
        w₁,
        given,
        ap (λ c. H.spawn c w) (sym line) ∙ ran ∙ ap (λ x. (inr x, w₁)) same,
        ap (λ x. x.stdin) (sym same) ∙ has,
        ap (H.write_pipe pipe (password ++ txt "\n")) stays ∙ written ∙ ap (λ x. (inr tt, x)) ends,
      )

  Spawned-spawn_sudo :
      (s : SudoShellSpawner) (shell_command : Text) (pipes_to_null : Bool) (w : H.World)
      (child : Child H.Handle H.Pipe) (w' : H.World)
      → Spawned s shell_command pipes_to_null w child w'
      → spawn_sudo H s shell_command pipes_to_null w ≡ (ok child, w')
  unfolding spawn_sudo
  Spawned-spawn_sudo s shell_command pipes_to_null w child w'
        (password, pipe, w₁, given, ran, has, written) =
      let command = sudo_command s shell_command pipes_to_null in
      let line = sudo_command_lem s shell_command pipes_to_null in
      bind-eq (call (λ e. e) (H.spawn command)) _ w
        (call-inr (λ e. e) (H.spawn command) w (ap (λ c. H.spawn c w) line ∙ ran))
      ∙ bind-eq (stdin_ref H child) _ w₁ (stdin_back child w₁ has)
      ∙ bind-eq (write_password H s.password pipe) _ w₁
          (write_back s.password password pipe w₁ given written)

  -- The sudo spawner returns a child exactly when there is a password, the host spawns the child for
  -- `sudo -S -s` with the words of the command, the child has an input, and the write of the password
  -- with a newline to it succeeds, which is the last call. So there is no child without a password.
  pub sudo_iff :
      (s : SudoShellSpawner) (shell_command : Text) (pipes_to_null : Bool) (w : H.World)
      (child : Child H.Handle H.Pipe) (w' : H.World)
      → ((sudo H s).spawn shell_command pipes_to_null w ≡ (ok child, w'))
        ↔ Spawned s shell_command pipes_to_null w child w'
  unfolding sudo
  sudo_iff s shell_command pipes_to_null w child w' = (
    spawn_sudo-Spawned s shell_command pipes_to_null w,
    Spawned-spawn_sudo s shell_command pipes_to_null w child w',
  )
