-- ===== src/Core/Problem.antt =====
-- crates/mandrake-core/src/problem.rs and crates/mandraked/src/error.rs: errors as the API reports
-- them. The field
-- `occurrence` is the source's `instance`.
use mandrake.Common.{ℕ, Option, none, some, ◌++◌}
use mandrake.Common.Text.{Text, codes}

pub record Problem : Type 0 where
  pub type : Text
  pub title : Text
  pub status : ℕ
  pub detail : Option Text
  pub occurrence : Option Text
  pub request_id : Option Text

unfoldable pub problem_base : Text
problem_base = codes "https://mandrake.nightshade.systems/problems/"

unfoldable pub about_blank : Text
about_blank = codes "about:blank"

abbrev pub new : ℕ → Text → Problem
new status title = record {
  type = about_blank;
  title = title;
  status = status;
  detail = none;
  occurrence = none;
  request_id = none;
}

abbrev pub typed : ℕ → Text → Text → Problem
typed status slug title = record (new status title) { type = problem_base ++ slug }

abbrev pub with_detail : Problem → Text → Problem
with_detail p detail = record p { detail = some detail }

abbrev pub unauthorized : Problem
unauthorized = new 401 (codes "Unauthorized")

abbrev pub forbidden : Text → Problem
forbidden detail = with_detail (new 403 (codes "Forbidden")) detail

abbrev pub not_found : Text → Problem
not_found what = with_detail (new 404 (codes "Not Found")) (what ++ codes " not found")

abbrev pub conflict : Text → Problem
conflict detail = with_detail (new 409 (codes "Conflict")) detail

abbrev pub unprocessable : Text → Problem
unprocessable detail = with_detail (new 422 (codes "Unprocessable Entity")) detail

abbrev pub internal : Problem
internal = new 500 (codes "Internal Server Error")
