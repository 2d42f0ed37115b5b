-- ===== src/Common/Number.antt =====
-- JavaScript numbers as the domain reads them, and dates.
use Prim.Native.Nat.{ℕ, ◌+◌}
use mathlib.Core.Bool.{Bool, true, false}
use interview_agent.Common.Texts.{Text, text_eq}
use interview_agent.Common.Tests.{ltb, leb, ◌==◌, if◌then◌else◌}

-- `negsuc n` is -(n + 1).
pub data ℤ : Type 0 where
  pos : ℕ → ℤ
  negsuc : ℕ → ℤ

-- `not_whole` is a number that is not an integer, by its text: a fraction, an infinity, NaN. Two such
-- numbers are the same under `Object.is` when `String` gives the same text for them.
pub data Num : Type 0 where
  int : ℤ → Num
  not_whole : Text → Num

-- `Number.isInteger(x)`
abbrev pub is_integer : Num → Bool
is_integer (int _) = true
is_integer (not_whole _) = false

-- `x < n` and `x > n`. The code asks them of integers only: at `not_whole` it has already thrown.
abbrev pub below : Num → ℕ → Bool
below (int (pos k)) n = ltb k n
below (int (negsuc k)) n = true
below (not_whole _) n = false

abbrev pub above : Num → ℕ → Bool
above (int (pos k)) n = ltb n k
above (int (negsuc k)) n = false
above (not_whole _) n = false

-- The value of an integer that has been found not to be negative.
abbrev pub value : Num → ℕ
value (int (pos k)) = k
value (int (negsuc k)) = 0
value (not_whole _) = 0

abbrev pub whole : ℕ → Num
whole k = int (pos k)

-- `Object.is` on numbers.
abbrev pub num_eq : Num → Num → Bool
num_eq (int (pos a)) (int (pos b)) = a == b
num_eq (int (negsuc a)) (int (negsuc b)) = a == b
num_eq (not_whole a) (not_whole b) = text_eq a b
num_eq _ _ = false

-- A date is its time value, counted in milliseconds from the earliest instant that a `Date` can
-- hold; `invalid` has the time value NaN.
pub data Date : Type 0 where
  at : ℕ → Date
  invalid : Date

-- The last instant: a `Date` spans 8.64e15 ms on either side of 1970.
abbrev pub max_time : ℕ
max_time = 17280000000000000

-- `Number.isFinite(date.getTime())`
abbrev pub is_valid : Date → Bool
is_valid (at t) = true
is_valid invalid = false

-- `a.getTime() < b.getTime()`, `a.getTime() <= b.getTime()` and `a.getTime() === b.getTime()`:
-- with NaN all are false.
abbrev pub before : Date → Date → Bool
before (at a) (at b) = ltb a b
before (at a) invalid = false
before invalid _ = false

abbrev pub not_after : Date → Date → Bool
not_after (at a) (at b) = leb a b
not_after (at a) invalid = false
not_after invalid _ = false

abbrev pub same_time : Date → Date → Bool
same_time (at a) (at b) = a == b
same_time (at a) invalid = false
same_time invalid _ = false

-- `a.getTime() - b.getTime() > limit`
abbrev pub exceeds : Date → Date → ℕ → Bool
exceeds (at a) (at b) limit = ltb (b + limit) a
exceeds (at a) invalid limit = false
exceeds invalid _ limit = false

-- `new Date(date.getTime() + n)`, which is invalid past the last instant.
abbrev pub later_by : Date → ℕ → Date
later_by (at a) n = if leb (a + n) max_time then at (a + n) else invalid
later_by invalid n = invalid

-- `new Date(date.getTime())`
abbrev pub clone_date : Date → Date
clone_date (at a) = at a
clone_date invalid = invalid
