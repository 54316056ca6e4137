-- ===== src/Core/Shell.antt =====
-- Commands of the host, in crates/mandrake-core/src/shell.rs.
use mandrake.Common.{◌==◌, Bool, true, false, ◌||◌, List, [], ◌∷◌, ◌++◌, if◌then◌else◌, any}
use mandrake.Common.Text.{Text, codes, same_text}

pub record Command : Type 0 where
  pub program : Text
  pub args : List Text
  pub privileged : Bool

-- `Command::new(program).args(args)`, and the same with `privileged()`
abbrev pub plain_command : Text → List Text → Command
plain_command program args = record { program = program; args = args; privileged = false }

abbrev pub privileged_command : Text → List Text → Command
privileged_command program args = record { program = program; args = args; privileged = true }

-- An argument as it would be typed.
abbrev pub quoted : Text → Text
quoted a = if same_text a [] || any (λ c. c == b' ') a then codes "'" ++ a ++ codes "'" else a

abbrev pub typed : List Text → Text
typed [] = []
typed (a ∷ args) = codes " " ++ quoted a ++ typed args

unfoldable pub plain : Command → Text
plain cmd = cmd.program ++ typed cmd.args

unfoldable pub display : Command → Text
unfolding plain
display cmd = (if cmd.privileged then codes "pfexec " else []) ++ plain cmd
