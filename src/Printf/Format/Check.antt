-- ===== src/Printf/Format/Check.antt =====
-- A format checked against its arguments, character by character and without printing, as an
-- independent description of the formats that __vprintf and parse_conversion read.
use kaush_os.Base.{ℕ, Bool, ◌||◌, Option, none, some, [], ◌∷◌, ◌==◌, if◌then◌else◌}
use kaush_os.Strings.{Text}
use kaush_os.Printf.Parse.{
  int, long_long, string, Args, is_digit, ArgType, char_type, short_type, int_type, size_type,
  long_long_type,
}

-- Where a character of a format stands: outside of a conversion, behind its `%`, behind a flag,
-- behind all flags, in or behind the width, behind the point, in or behind the precision, behind an
-- `h` or an `l`, or behind the type. No character leads to `flags_end`; a format can start there.
pub data Phase : Type 0 where
  outside percent flags flags_end width width_end point precision precision_end half long : Phase
  letter : ArgType → Phase

-- An argument that a character takes.
pub data Need : Type 0 where
  an_int a_long_long a_string : Need

pub data Verdict : Type 0 where
  accepted mistyped cut_off : Verdict

abbrev pub is_flag : ℕ → Bool
is_flag k = k == b'-' || k == b'+' || k == b' ' || k == b'#' || k == b'0' || k == 39

abbrev pub is_integer_letter : ℕ → Bool
is_integer_letter k = k == b'd' || k == b'i' || k == b'o' || k == b'u' || k == b'x' || k == b'X'

abbrev pub integer_need : ArgType → Need
integer_need long_long_type = a_long_long
integer_need t = an_int

abbrev pub letter_need : ArgType → ℕ → Option Need
letter_need t k =
    if is_integer_letter k
    then some (integer_need t)
    else if k == b'c' || k == b'p'
    then some an_int
    else if k == b's'
    then some a_string
    else none

abbrev pub in_letter : ArgType → ℕ → Phase × Option Need
in_letter t k = (outside, letter_need t k)

abbrev pub in_type : ℕ → Phase × Option Need
in_type k =
    if k == b'h'
    then (half, none)
    else if k == b'l'
    then (long, none)
    else if k == b'j'
    then (letter long_long_type, none)
    else if k == b't'
    then (letter int_type, none)
    else if k == b'z'
    then (letter size_type, none)
    else in_letter int_type k

abbrev pub in_precision : ℕ → Phase × Option Need
in_precision k = if is_digit k then (precision, none) else in_type k

abbrev pub behind_point : ℕ → Phase × Option Need
behind_point k = if k == b'*' then (precision_end, some an_int) else in_precision k

abbrev pub behind_width : ℕ → Phase × Option Need
behind_width k = if k == b'.' then (point, none) else in_type k

abbrev pub in_width : ℕ → Phase × Option Need
in_width k = if is_digit k then (width, none) else behind_width k

abbrev pub behind_flags : ℕ → Phase × Option Need
behind_flags k = if k == b'*' then (width_end, some an_int) else in_width k

abbrev pub in_flags : ℕ → Phase × Option Need
in_flags k = if is_flag k then (flags, none) else behind_flags k

-- The phase behind a character, and what the character takes.
unfoldable pub step : Phase → ℕ → Phase × Option Need
step outside k = if k == b'%' then (percent, none) else (outside, none)
step percent k = if k == b'%' then (outside, none) else in_flags k
step flags k = in_flags k
step flags_end k = behind_flags k
step width k = in_width k
step width_end k = behind_width k
step point k = behind_point k
step precision k = in_precision k
step precision_end k = in_type k
step half k = if k == b'h' then (letter char_type, none) else in_letter short_type k
step long k = if k == b'l' then (letter long_long_type, none) else in_letter int_type k
step (letter t) k = in_letter t k

-- The arguments behind those that are taken.
abbrev pub supply : Option Need → Args → Option Args
supply none args = some args
supply (some an_int) (int n ∷ args) = some args
supply (some a_long_long) (long_long n ∷ args) = some args
supply (some a_string) (string s ∷ args) = some args
supply (some need) args = none

abbrev pub at_end : Phase → Verdict
at_end outside = accepted
at_end phase = cut_off

-- A character that has led to a phase and takes an argument, with the check from there on.
abbrev pub proceed : (Phase → Args → Verdict) → Phase × Option Need → Args → Verdict
proceed rest (phase, need) args = elim (supply need args) [
  | none ↦ mistyped
  | some args1 ↦ rest phase args1
]

-- The verdict on a format from a phase on. Arguments that are left over do no harm.
unfoldable pub check : Phase → Text → Args → Verdict
check phase [] args = at_end phase
check phase (k ∷ format) args = proceed (λ next args1. check next format args1) (step phase k) args
