-- ===== src/ShellSpawner.antt =====
-- src/shell_spawner.rs: how a command is handed to a shell, with or without more privileges.
pub mod Laws
use fctools.Base.{Bool, true, false, Option, none, some, List, [], ◌∷◌, ◌++◌, Done}
use fctools.Base.Action.{Action, pure, raise, ◌>>=◌, ◌>>◌}
use fctools.Text.{Text, txt, space}
use fctools.Text.Words.{split}
use fctools.FilePath.{FilePath}
use fctools.Host.{Host, Child, Command, Stdio, null, piped}
use fctools.Host.Calls.{call}

-- The trait `ShellSpawner`.
pub record ShellSpawner (H : Host) : Type 0 where
  pub increases_privileges : Bool
  pub spawn : Text → Bool → Action H.World H.IoError (Child H.Handle H.Pipe)

pub record SameUserShellSpawner : Type 0 where
  pub shell_path : FilePath

pub record SuShellSpawner : Type 0 where
  pub su_path : FilePath
  pub password : Text

pub record SudoShellSpawner : Type 0 where
  pub sudo_path : FilePath
  pub password : Option Text

-- `SameUserShellSpawner::default`
unfoldable pub default_same_user : SameUserShellSpawner
default_same_user = record { shell_path = txt "/usr/bin/sh" }

-- `SuShellSpawner::new`
unfoldable pub new_su : Text → SuShellSpawner
new_su password = record { su_path = txt "/usr/bin/su"; password = password }

unfoldable pub get_stdio : Bool → Stdio
get_stdio true = null
get_stdio false = piped

newline : Text
newline = txt "\n"

unfoldable pub same_user_command : SameUserShellSpawner → Text → Bool → Command
unfolding get_stdio
same_user_command s shell_command pipes_to_null = record {
  program = s.shell_path;
  args = txt "-c" ∷ shell_command ∷ [];
  stdin = get_stdio pipes_to_null;
  stdout = get_stdio pipes_to_null;
  stderr = get_stdio pipes_to_null;
}

unfoldable pub su_command : SuShellSpawner → Bool → Command
unfolding get_stdio
su_command s pipes_to_null = record {
  program = s.su_path;
  args = [];
  stdin = piped;
  stdout = get_stdio pipes_to_null;
  stderr = get_stdio pipes_to_null;
}

unfoldable pub sudo_command : SudoShellSpawner → Text → Bool → Command
unfolding get_stdio
sudo_command s shell_command pipes_to_null = record {
  program = s.sudo_path;
  args = txt "-S" ∷ txt "-s" ∷ split space shell_command;
  stdin = piped;
  stdout = get_stdio pipes_to_null;
  stderr = get_stdio pipes_to_null;
}

module _ (H : Host) where
  abbrev IoAction : Type 0 → Type 0
  IoAction A = Action H.World H.IoError A

  abbrev SpawnedChild : Type 0
  SpawnedChild = Child H.Handle H.Pipe

  -- `child.stdin.as_mut().ok_or_else(...)?`
  stdin_ref : SpawnedChild → IoAction H.Pipe
  stdin_ref child = elim child.stdin [
    | some pipe ↦ pure pipe
    | none ↦ raise (H.other_error (txt "Stdin not received"))
  ]

  unfoldable pub same_user : SameUserShellSpawner → ShellSpawner H
  same_user s = record {
    increases_privileges = false;
    spawn = λ shell_command pipes_to_null.
        call (λ e. e) (H.spawn (same_user_command s shell_command pipes_to_null));
  }

  spawn_su : SuShellSpawner → Text → Bool → IoAction SpawnedChild
  unfolding stdin_ref newline
  spawn_su s shell_command pipes_to_null = do
    child ← call (λ e. e) (H.spawn (su_command s pipes_to_null))
    pipe ← stdin_ref child
    call (λ e. e) (H.write_pipe pipe (s.password ++ newline))
    call (λ e. e) (H.write_pipe pipe (shell_command ++ txt " ; exit" ++ newline))
    pure child

  unfoldable pub su : SuShellSpawner → ShellSpawner H
  unfolding spawn_su
  su s = record { increases_privileges = true; spawn = spawn_su s }

  -- The password written to the pipe, or the error that there is none.
  write_password : Option Text → H.Pipe → IoAction Done
  unfolding newline
  write_password (some password) pipe = call (λ e. e) (H.write_pipe pipe (password ++ newline))
  write_password none pipe =
      raise (
        H.other_error
          (txt "Sudo requested a password but it wasn't provided in the shell instance"))

  spawn_sudo : SudoShellSpawner → Text → Bool → IoAction SpawnedChild
  unfolding stdin_ref write_password
  spawn_sudo s shell_command pipes_to_null = do
    child ← call (λ e. e) (H.spawn (sudo_command s shell_command pipes_to_null))
    pipe ← stdin_ref child
    write_password s.password pipe
    pure child

  unfoldable pub sudo : SudoShellSpawner → ShellSpawner H
  unfolding spawn_sudo
  sudo s = record { increases_privileges = true; spawn = spawn_sudo s }
