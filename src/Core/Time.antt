-- ===== src/Core/Time.antt =====
-- crates/mandrake-core/src/timestamp.rs: a point in time as the whole nanoseconds since the Unix
-- epoch. The daemon handles no time before it.
use mandrake.Common.{ℕ, zero, suc, ◌+◌, ◌-◌, ◌*◌, ◌/◌, leb, if◌then◌else◌}
use mandrake.Common.Int.{ℤ, pos, negsuc}

abbrev pub Timestamp : Type 0
Timestamp = ℕ

abbrev pub second : ℕ
second = 1000000000

-- A negative number of seconds moves back.
abbrev pub plus_seconds : Timestamp → ℤ → Timestamp
plus_seconds t (pos n) = t + n * second
plus_seconds t (negsuc n) = t - suc n * second

abbrev neg : ℕ → ℤ
neg n = elim n [ zero ↦ pos 0 | suc m ↦ negsuc m ]

-- `whole_seconds` rounds towards zero.
abbrev pub seconds_since : Timestamp → Timestamp → ℤ
seconds_since t earlier =
    if leb earlier t then pos ((t - earlier) / second) else neg ((earlier - t) / second)
