-- ===== src/Printf/Parse.antt =====
-- The arguments of __vprintf, and parse_conversion: what stands between a % and its letter.
use kaush_os.Base.{
  ℕ, ◌+◌, ◌-◌, ◌*◌, ◌%◌, ◌^◌, Bool, true, false, not, ◌&&◌, Option, none, some, List, [], ◌∷◌, ◌==◌,
  leb, if◌then◌else◌,
}
use kaush_os.Strings.{Text, head, tail}
use kaush_os.Printf.{Flags, Conversion}

-- What va_arg takes: an int or a pointer of 32 bits, a long long of 64 bits, or a string, where
-- `none` is NULL.
pub data Arg : Type 0 where
  int : ℕ → Arg
  long_long : ℕ → Arg
  string : Option Text → Arg

-- `undefined` is what C leaves undefined: an argument that is missing or of another type, or the
-- overflow of an int that counts the output.
-- `behind_end` is a loop over the format that has gone behind its NUL, `out_of_fuel` one with more
-- rounds than it was given.
pub data Result {ℓ} (A : Type ℓ) : Type ℓ where
  done : A → Result A
  undefined : Result A
  behind_end : Result A
  out_of_fuel : Result A

infixl 5 ◌>>=◌
abbrev pub ◌>>=◌ {κ ℓ} : {R : Type κ} {A : Type ℓ} → Result A → (A → Result R) → Result R
done x >>= rest = rest x
undefined >>= rest = undefined
behind_end >>= rest = behind_end
out_of_fuel >>= rest = out_of_fuel

abbrev pub Args : Type 0
Args = List Arg

abbrev pub arg_int : Args → Result (ℕ × Args)
arg_int (int n ∷ args) = done (n % 2 ^ 32, args)
arg_int args = undefined

abbrev pub arg_long_long : Args → Result (ℕ × Args)
arg_long_long (long_long n ∷ args) = done (n % 2 ^ 64, args)
arg_long_long args = undefined

abbrev pub arg_string : Args → Result (Option Text × Args)
arg_string (string s ∷ args) = done (s, args)
arg_string args = undefined

abbrev pub is_digit : ℕ → Bool
is_digit c = leb b'0' c && leb c b'9'

-- One flag character.
unfoldable pub set_flag : ℕ → Flags → Option Flags
set_flag c f =
    if c == b'-'
    then some (record f { minus = true })
    else if c == b'+'
    then some (record f { plus = true })
    else if c == b' '
    then some (record f { space = true })
    else if c == b'#'
    then some (record f { pound = true })
    else if c == b'0'
    then some (record f { zero_pad = true })
    else if c == 39
    then some (record f { group = true })
    else none

-- The loop over the flag characters.
unfoldable pub parse_flags : Text → Flags → Flags × Text
parse_flags [] f = (f, [])
parse_flags (c ∷ format) f = elim (set_flag c f) [
  | none ↦ (f, c ∷ format)
  | some f1 ↦ parse_flags format f1
]

abbrev pub no_flags : Flags
no_flags = record {
  minus = false;
  plus = false;
  space = false;
  pound = false;
  zero_pad = false;
  group = false;
}

-- Flags that another one overrides.
abbrev pub settle_flags : Flags → Flags
settle_flags f = record f { zero_pad = f.zero_pad && not f.minus; space = f.space && not f.plus }

-- The loops over the digits of a width or a precision, which are ints.
unfoldable pub parse_number : Text → ℕ → ℕ × Text
parse_number [] n = (n, [])
parse_number (c ∷ format) n =
    if is_digit c
    then parse_number format ((n * 10 + c + 2 ^ 32 - b'0') % 2 ^ 32)
    else (n, c ∷ format)

-- A number, or `*` for an argument.
unfoldable pub parse_count : Text → Args → Result (ℕ × Text × Args)
parse_count format args = elim (head format == b'*') [
  | true ↦ do (n, args1) ← arg_int args; done (n, tail format, args1)
  | false ↦ let (n, format1) = parse_number format 0 in done (n, format1, args)
]

abbrev pub is_negative : ℕ → Bool
is_negative n = leb (2 ^ 31) n

-- A negative width is its absolute value with the flag MINUS, after the flags are settled.
abbrev pub set_width : ℕ → Flags → Conversion
set_width n f =
    if is_negative n
    then record { flags = record f { minus = true }; width = 2 ^ 32 - n; precision = none }
    else record { flags = f; width = n; precision = none }

abbrev pub set_precision : ℕ → Conversion → Conversion
set_precision n c =
    if is_negative n
    then c
    else record c { precision = some n; flags = record c.flags { zero_pad = false } }

-- What stands behind the width.
unfoldable pub parse_precision : Text → Args → Conversion → Result (Conversion × Text × Args)
parse_precision format args c = elim (head format == b'.') [
  | true ↦ do
    (n, format1, args1) ← parse_count (tail format) args
    done (set_precision n c, format1, args1)
  | false ↦ done (c, format, args)
]

-- The type of an argument; CHARTYPE, SHORTTYPE, those of 32 bits, and those of 64 bits.
pub data ArgType : Type 0 where
  char_type short_type int_type size_type long_long_type : ArgType

unfoldable pub parse_type : Text → ArgType × Text
parse_type format =
    if head format == b'h'
    then (if head (tail format) == b'h'
        then (char_type, tail (tail format))
        else (short_type, tail format))
    else if head format == b'j'
    then (long_long_type, tail format)
    else if head format == b'l'
    then (if head (tail format) == b'l'
        then (long_long_type, tail (tail format))
        else (int_type, tail format))
    else if head format == b't'
    then (int_type, tail format)
    else if head format == b'z'
    then (size_type, tail format)
    else (int_type, format)

-- parse_conversion.
unfoldable pub parse_conversion : Text → Args → Result (Conversion × ArgType × Text × Args)
parse_conversion format args =
    let (f, format1) = parse_flags format no_flags in
    do
      (width, format2, args1) ← parse_count format1 args
      (c, format3, args2) ← parse_precision format2 args1 (set_width width (settle_flags f))
      let (t, format4) = parse_type format3
      done (c, t, format4, args2)
