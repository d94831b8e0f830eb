-- ===== src/Printf.antt =====
-- KaushOS/lib/stdio.c: formatted output. The calls of `output` are the list of the characters that
-- it is called with, in their order; vsnprintf then gives them to its helper one by one.
pub mod Digits
pub mod Parse
pub mod Format
pub mod Buffer
mod Examples
pub mod RoundTrip
use kaush_os.Base.{
  ℕ, zero, suc, ◌+◌, ◌-◌, ◌*◌, ◌/◌, ◌%◌, ◌^◌, Bool, true, false, not, ◌&&◌, ◌||◌, Option, none,
  some, List, [], ◌∷◌, ◌++◌, length, ◌==◌, ◌!=◌, ltb, leb, if◌then◌else◌,
}
use kaush_os.Strings.{Text, Bytes, head, tail, store, strnlen}

-- struct printf_conversion without its type; a precision of -1 is `none`.
pub record Flags : Type 0 where
  pub minus : Bool
  pub plus : Bool
  pub space : Bool
  pub pound : Bool
  pub zero_pad : Bool
  pub group : Bool

pub record Conversion : Type 0 where
  pub flags : Flags
  pub width : ℕ
  pub precision : Option ℕ

-- struct integer_base: `letter` is what digit 10 is written as, and `x` is 0 for none.
pub record IntegerBase : Type 0 where
  pub base : ℕ
  pub letter : ℕ
  pub x : ℕ
  pub group_size : ℕ

abbrev pub base_d : IntegerBase
base_d = record { base = 10; letter = b'a'; x = 0; group_size = 3 }

abbrev pub base_o : IntegerBase
base_o = record { base = 8; letter = b'a'; x = 0; group_size = 3 }

abbrev pub base_x : IntegerBase
base_x = record { base = 16; letter = b'a'; x = b'x'; group_size = 4 }

abbrev pub base_upper_x : IntegerBase
base_upper_x = record { base = 16; letter = b'A'; x = b'X'; group_size = 4 }

-- b->digits[d].
abbrev pub digit_char : IntegerBase → ℕ → ℕ
digit_char b d = if ltb d 10 then b'0' + d else b.letter + (d - 10)

-- The sign character of format_integer, or 0.
unfoldable pub sign_char : Bool → Bool → Flags → ℕ
sign_char is_signed negative f =
    if is_signed
    then (if f.plus
        then (if negative then b'-' else b'+')
        else if f.space
        then (if negative then b'-' else b' ')
        else if negative
        then b'-'
        else 0)
    else 0

-- The comma before a group of digits.
abbrev pub with_comma : Bool → IntegerBase → ℕ → Text → Text
with_comma group b digit_cnt buf =
    if group && (ltb 0 digit_cnt && digit_cnt % b.group_size == 0) then b',' ∷ buf else buf

-- The loop of format_integer that fills its buffer; the last character stands first. As many
-- rounds as the value are more than enough.
unfoldable pub put_digits : ℕ → ℕ → Bool → IntegerBase → ℕ → Text → Text
put_digits zero value group b digit_cnt buf = buf
put_digits (suc fuel) value group b digit_cnt buf = elim (value == 0) [
  | true ↦ buf
  | false ↦
      put_digits fuel (value / b.base) group b (suc digit_cnt)
        (digit_char b (value % b.base) ∷ with_comma group b digit_cnt buf)
]

-- sizeof buf.
abbrev pub sizeof_buf : ℕ
sizeof_buf = 64

-- The loop that appends zeros; `rounds` counts the places that are left in the buffer.
unfoldable pub put_zeros : ℕ → ℕ → Text → Text
put_zeros zero precision buf = buf
put_zeros (suc rounds) precision buf =
    let more = put_zeros rounds precision (b'0' ∷ buf) in
    if ltb (length buf) precision && ltb (length buf) (sizeof_buf - 1) then more else buf

-- `#` with base 8.
abbrev pub put_octal_zero : Flags → IntegerBase → Text → Text
put_octal_zero f b buf = if f.pound && (b.base == 8 && head buf != b'0') then b'0' ∷ buf else buf

-- The precision that format_integer goes by.
abbrev pub rendered_precision : Option ℕ → ℕ
rendered_precision none = 1
rendered_precision (some n) = n

-- The buffer of format_integer once it is filled.
unfoldable pub integer_buffer : ℕ → IntegerBase → Conversion → Text
integer_buffer value b c =
    let digits = put_digits value value c.flags.group b 0 [] in
    put_octal_zero c.flags b (put_zeros (sizeof_buf - 1) (rendered_precision c.precision) digits)

-- output_dup.
unfoldable pub output_dup : ℕ → ℕ → Text
output_dup ch zero = []
output_dup ch (suc cnt) = ch ∷ output_dup ch cnt

abbrev pub pad_if : Bool → ℕ → ℕ → Text
pad_if test ch cnt = if test then output_dup ch cnt else []

-- format_integer.
unfoldable pub format_integer : ℕ → Bool → Bool → IntegerBase → Conversion → Text
format_integer value is_signed negative b c =
    let f = c.flags in
    let sign = sign_char is_signed negative f in
    let x = if f.pound && value != 0 then b.x else 0 in
    let buf = integer_buffer value b c in
    let pad_cnt = c.width - length buf - (if x != 0 then 2 else 0) - (if sign != 0 then 1 else 0) in
    pad_if (not (f.minus || f.zero_pad)) b' ' pad_cnt
    ++ ((if sign != 0 then sign ∷ [] else [])
        ++ ((if x != 0 then b'0' ∷ x ∷ [] else [])
            ++ (pad_if f.zero_pad b'0' pad_cnt ++ (buf ++ pad_if f.minus b' ' pad_cnt))))

-- format_string, for the text of the first `length` characters.
unfoldable pub format_string : Text → Conversion → Text
format_string string c =
    let pad_cnt = c.width - length string in
    pad_if (not c.flags.minus) b' ' pad_cnt ++ (string ++ pad_if c.flags.minus b' ' pad_cnt)
