-- ===== src/Zfs/Scrubs.antt =====
-- `scrub` and `finish_scrub` of fake.rs.
use mandrake.Common.{Bool, true, false, not, ◌++◌, Option, none, some, if◌then◌else◌, is_some_and}
use mandrake.Common.Map.{lookup, insert}
use mandrake.Common.Text.{Text, codes, text_dec}
use mandrake.Core.Time.{Timestamp}
use mandrake.Zfs.{
  ScanFunction, in_progress, finished, canceled, ScanState, ScanStatus, PoolInfo, State, ok, Answer,
  tool_error, no_such_pool, one,
}

abbrev is_running : ScanState → Bool
is_running in_progress = true
is_running kind = false

abbrev pub running : PoolInfo → Bool
running pool = is_some_and pool.scan (λ sc. is_running sc.state)

abbrev pub started : Timestamp → ScanStatus
started now = record {
  function = ScanFunction.scrub;
  state = in_progress;
  progress = some 0;
  started_at = some now;
  finished_at = none;
  errors = some 0;
  rate_bytes_per_second = none;
  summary = codes "scrub in progress (fake)";
}

abbrev pub ended : Timestamp → ScanState → ScanStatus → ScanStatus
ended now state sc = record sc { state = state; finished_at = some now }

abbrev map_scan : (ScanStatus → ScanStatus) → Option ScanStatus → Option ScanStatus
map_scan f none = none
map_scan f (some sc) = some (f sc)

abbrev put : Text → PoolInfo → Option ScanStatus → State → State
put name pool scan s = record s {
  pools = insert text_dec name (record pool { scan = scan }) s.pools;
}

unfoldable pub scrub : Timestamp → Text → Bool → State → Answer
scrub now name stop s = elim (lookup text_dec name s.pools) [
  | none ↦ (no_such_pool name, s)
  | some pool ↦
      if stop
      then if not (running pool)
        then (
          tool_error
              (codes "cannot cancel scrubbing " ++ name ++ codes ": there is no active scrub"),
          s,
        )
        else (ok tt, put name pool (map_scan (ended now canceled) pool.scan) s)
      else if running pool
      then (
        tool_error (
            codes "cannot scrub "
            ++ name
            ++ codes ": currently scrubbing; use 'zpool scrub -s' to cancel current scrub"),
        s,
      )
      else (ok tt, put name pool (some (started now)) s)
]

-- The progress is then 1.0.
unfoldable pub finish_scrub : Timestamp → Text → State → State
finish_scrub now name s = elim (lookup text_dec name s.pools) [
  | none ↦ s
  | some pool ↦
      put name pool
        (map_scan (λ sc. record (ended now finished sc) { progress = some one }) pool.scan) s
]
