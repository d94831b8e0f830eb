-- ===== src/Printf/Format.antt =====
-- __vprintf: the conversions of a format and the loop over it.
pub mod Progress
pub mod Check
pub mod Leads
pub mod Verdict
use kaush_os.Base.{
  ℕ, zero, suc, ◌+◌, ◌-◌, ◌*◌, ◌/◌, ◌%◌, ◌^◌, Bool, true, false, not, ◌&&◌, ◌||◌, Option, none,
  some, List, [], ◌∷◌, ◌++◌, length, ◌==◌, ◌!=◌, ltb, leb, if◌then◌else◌,
}
use kaush_os.Strings.{Text, head, tail, strlen, strnlen}
use kaush_os.Printf.{
  Flags, Conversion, IntegerBase, base_d, base_o, base_x, base_upper_x, format_integer,
  format_string,
}
use kaush_os.Printf.Parse.{
  int, long_long, string, Arg, Result, done, behind_end, out_of_fuel, ◌>>=◌, Args, arg_int,
  arg_long_long, arg_string, is_digit, set_flag, parse_flags, no_flags, settle_flags, parse_number,
  parse_count, is_negative, set_width, set_precision, parse_precision, ArgType, char_type,
  short_type, int_type, size_type, long_long_type, parse_type, parse_conversion,
}

-- The pattern of an argument on the bits of its type.
abbrev pub type_bits : ArgType → ℕ
type_bits char_type = 2 ^ 8
type_bits short_type = 2 ^ 16
type_bits int_type = 2 ^ 32
type_bits size_type = 2 ^ 32
type_bits long_long_type = 2 ^ 64

abbrev pub arg_value : ArgType → Args → Result (ℕ × Args)
arg_value long_long_type args = arg_long_long args
arg_value t args = do (n, args1) ← arg_int args; done (n % type_bits t, args1)

-- %d and %i; `negative` and the absolute value of a pattern.
abbrev pub format_signed : ArgType → Conversion → Args → Result (Text × Args)
format_signed t c args = do
  (n, args1) ← arg_value t args
  let negative = leb (type_bits t / 2) n
  done (format_integer (if negative then type_bits t - n else n) true negative base_d c, args1)

-- %o, %u, %x and %X.
abbrev pub format_unsigned : IntegerBase → ArgType → Conversion → Args → Result (Text × Args)
format_unsigned b t c args = do
  (n, args1) ← arg_value t args
  done (format_integer n false false b c, args1)

-- The characters of a string up to a precision.
abbrev pub take : ℕ → Text → Text
take zero s = []
take (suc n) [] = []
take (suc n) (c ∷ s) = c ∷ take n s

abbrev pub limit : Option ℕ → Text → Text
limit none s = s
limit (some n) s = take n s

-- "(null)".
abbrev pub null_text : Text
null_text = b'(' ∷ b'n' ∷ b'u' ∷ b'l' ∷ b'l' ∷ b')' ∷ []

abbrev pub or_null_text : Option Text → Text
or_null_text none = null_text
or_null_text (some s) = s

-- "<<no %", which the two messages begin with.
abbrev pub no_text : Text
no_text = b'<' ∷ b'<' ∷ b'n' ∷ b'o' ∷ b' ' ∷ b'%' ∷ []

-- " in kernel>>" and " conversion>>".
abbrev pub in_kernel_text : Text
in_kernel_text =
    b' ' ∷ b'i' ∷ b'n' ∷ b' ' ∷ b'k' ∷ b'e' ∷ b'r' ∷ b'n' ∷ b'e' ∷ b'l' ∷ b'>' ∷ b'>' ∷ []

abbrev pub conversion_text : Text
conversion_text =
    b' ' ∷ b'c' ∷ b'o' ∷ b'n' ∷ b'v' ∷ b'e' ∷ b'r' ∷ b's' ∷ b'i' ∷ b'o' ∷ b'n' ∷ b'>' ∷ b'>' ∷ []

abbrev pub is_unsupported : ℕ → Bool
is_unsupported k = k == b'f' || k == b'e' || k == b'E' || k == b'g' || k == b'G' || k == b'n'

-- The cases of the switch of __vprintf on the conversion character.
pub data Kind : Type 0 where
  signed character text pointer unsupported unknown : Kind
  unsigned : IntegerBase → Kind

abbrev pub kind_of : ℕ → Kind
kind_of k =
    if k == b'd' || k == b'i'
    then signed
    else if k == b'o'
    then unsigned base_o
    else if k == b'u'
    then unsigned base_d
    else if k == b'x'
    then unsigned base_x
    else if k == b'X'
    then unsigned base_upper_x
    else if k == b'c'
    then character
    else if k == b's'
    then text
    else if k == b'p'
    then pointer
    else if is_unsupported k
    then unsupported
    else unknown

unfoldable pub convert_kind : Kind → ℕ → ArgType → Conversion → Args → Result (Text × Args)
convert_kind signed k t c args = format_signed t c args
convert_kind (unsigned b) k t c args = format_unsigned b t c args
convert_kind character k t c args = do
  (n, args1) ← arg_int args
  done (format_string ((n % 2 ^ 8) ∷ []) c, args1)
convert_kind text k t c args = do
  (s, args1) ← arg_string args
  done (format_string (limit c.precision (or_null_text s)) c, args1)
convert_kind pointer k t c args = do
  (n, args1) ← arg_int args
  let c1 = record c { flags = record no_flags { pound = true } }
  done (format_integer n false false base_x c1, args1)
convert_kind unsupported k t c args = done (no_text ++ (k ∷ in_kernel_text), args)
convert_kind unknown k t c args = done (no_text ++ (k ∷ conversion_text), args)

-- The step of the loop behind a conversion. Where the format has ended inside of it, that is a step
-- behind the NUL.
abbrev pub skip_letter : Text → Text → Args → Result (Text × Text × Args)
skip_letter out [] args = behind_end
skip_letter out (k ∷ format) args = done (out, format, args)

-- A conversion whose `%` is read, and what is left of the format.
unfoldable pub convert : Text → Args → Result (Text × Text × Args)
convert format args = elim (head format == b'%') [
  | true ↦ done (b'%' ∷ [], tail format, args)
  | false ↦ do
    (c, t, format1, args1) ← parse_conversion format args
    let k = head format1
    (out, args2) ← convert_kind (kind_of k) k t c args1
    skip_letter out format1 args2
]

-- The loop of __vprintf.
unfoldable pub vprintf_from : ℕ → Text → Args → Result Text
vprintf_from zero format args = out_of_fuel
vprintf_from (suc fuel) [] args = done []
vprintf_from (suc fuel) (ch ∷ format) args = elim (ch == b'%') [
  | false ↦ do out ← vprintf_from fuel format args; done (ch ∷ out)
  | true ↦ do
    (out, format1, args1) ← convert format args
    rest ← vprintf_from fuel format1 args1
    done (out ++ rest)
]

-- __vprintf, with a round for each character of the format and one more.
unfoldable pub vprintf : Text → Args → Result Text
vprintf format args = vprintf_from (suc (strlen format)) format args
