-- ===== src/Printf/Examples.antt =====
-- The number 1234 in a field of eight characters, and a format that prints it and a string.
use kaush_os.Base.{
  ◌-◌, ◌%◌, ◌^◌, ◌≤◌, ◌≡◌, refl, true, ◌&&◌, some, none, [], ◌∷◌, length, arith, if◌then◌else◌,
}
use kaush_os.Strings.{Text, strtol, strlen}
use kaush_os.Printf.{
  Conversion, base_d, base_o, format_integer, integer_buffer, sizeof_buf, put_digits, put_zeros,
  sign_char, output_dup,
}
use kaush_os.Printf.Digits.{integer_buffer-fits}
use kaush_os.Printf.RoundTrip.{strtol-format_integer}
use kaush_os.Printf.Parse.{
  Result, Args, int, string, no_flags, parse_conversion, parse_flags, set_flag, parse_count,
  parse_number, parse_precision, parse_type,
}
use kaush_os.Printf.Format.{vprintf, vprintf_from, convert, convert_kind}
use kaush_os.Printf.Format.Check.{accepted, check, step}
use kaush_os.Printf.Format.Verdict.{verdict, vprintf-check}

abbrev field : Conversion
field = record { flags = record no_flags { zero_pad = true }; width = 8; precision = none }

strtol-format_integer_example :
    (strtol (format_integer 1234 true true base_d field) 10).0
    ≡ (if true && true then (2 ^ 32 - 1234) % 2 ^ 32 else 1234)
strtol-format_integer_example = strtol-format_integer 1234 true true field (omega arith) refl refl

-- "-0001234".
padded :
    format_integer 1234 true true base_d field
    ≡ b'-' ∷ b'0' ∷ b'0' ∷ b'0' ∷ b'1' ∷ b'2' ∷ b'3' ∷ b'4' ∷ []
unfolding format_integer integer_buffer put_digits put_zeros sign_char output_dup
padded = refl

-- A precision of 1000 and all flags.
abbrev wide : Conversion
wide = record {
  flags = record {
    minus = true;
    plus = true;
    space = true;
    pound = true;
    zero_pad = true;
    group = true;
  };
  width = 2000;
  precision = some 1000;
}

integer_buffer-fits_example : length (integer_buffer (2 ^ 64 - 1) base_o wide) ≤ sizeof_buf
integer_buffer-fits_example =
    integer_buffer-fits (2 ^ 64 - 1) base_o wide (omega arith) (omega arith)

-- "%d %s" and its arguments.
abbrev format : Text
format = b'%' ∷ b'd' ∷ b' ' ∷ b'%' ∷ b's' ∷ []

abbrev args : Args
args = int 42 ∷ string (some (b'o' ∷ b'k' ∷ [])) ∷ []

vprintf-check_example : verdict (vprintf format args) ≡ some accepted
unfolding check step
vprintf-check_example = vprintf-check format args

-- A `%` at the end of the format: the loop goes on behind its NUL.
open_conversion : vprintf (b'%' ∷ []) [] ≡ Result.behind_end
unfolding vprintf vprintf_from convert convert_kind parse_conversion parse_flags set_flag
    parse_count parse_number parse_precision parse_type strlen
open_conversion = refl
