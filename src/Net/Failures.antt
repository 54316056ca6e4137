-- ===== src/Net/Failures.antt =====
-- What a failure of the network driver is to the API: `NetError::kind` of crates/mandrake-net/src/types.rs,
-- and `driver_error` of crates/mandraked/src/drivers.rs.
use mandrake.Common.{Bool, List, [], ◌∷◌, ◌++◌, if◌then◌else◌, any}
use mandrake.Common.Text.{Text, codes}
use mandrake.Core.Problem.{Problem, new, typed, with_detail, conflict, forbidden, unprocessable}
use mandrake.Zones.Size.{lower}
use mandrake.Net.{NetError, command, parse, absent, unsupported}
use mandrake.Net.Netstat.{contains_text}

pub data FailureKind : Type 0 where
  not_found exists conflicting forbidding invalid otherwise : FailureKind

abbrev mentions : List Text → Text → Bool
mentions parts text = any (λ part. contains_text part text) parts

unfoldable pub kind_of_message : Text → FailureKind
kind_of_message text =
    if mentions
      (codes "not found" ∷ codes "does not exist" ∷ codes "not in table" ∷ codes "no such" ∷ [])
      text
    then not_found
    else if mentions (codes "exists" ∷ []) text
    then exists
    else if mentions (codes "busy" ∷ codes "in use" ∷ codes "dependent" ∷ []) text
    then conflicting
    else if mentions
        (codes "permission denied"
          ∷ codes "insufficient privileges"
          ∷ codes "not authorized"
          ∷ codes "must be root"
          ∷ [])
        text
    then forbidding
    else if mentions
        (codes "invalid"
          ∷ codes "usage:"
          ∷ codes "unreachable"
          ∷ codes "bad "
          ∷ codes "must be"
          ∷ codes "unknown"
          ∷ [])
        text
    then invalid
    else otherwise

abbrev pub kind_of : NetError → FailureKind
kind_of (command stderr) = kind_of_message (lower stderr)
kind_of (parse what detail) = otherwise
kind_of (absent name) = not_found
kind_of (unsupported why) = invalid

-- The message of the tool, or `Display` of the error.
abbrev detail_of : NetError → Text
detail_of (command stderr) = stderr
detail_of (parse what detail) = codes "cannot parse `" ++ what ++ codes "` output: " ++ detail
detail_of (absent name) = name ++ codes " does not exist"
detail_of (unsupported why) = why

abbrev pub driver_error : FailureKind → Text → Problem
driver_error not_found detail = with_detail (new 404 (codes "Not Found")) detail
driver_error exists detail = conflict detail
driver_error conflicting detail = with_detail (typed 409 (codes "busy") (codes "Conflict")) detail
driver_error forbidding detail = forbidden detail
driver_error invalid detail = unprocessable detail
driver_error otherwise detail =
    with_detail (typed 500 (codes "command-failed") (codes "Internal Server Error")) detail

unfoldable pub problem_of : NetError → Problem
problem_of e = driver_error (kind_of e) (detail_of e)
