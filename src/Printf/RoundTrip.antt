-- ===== src/Printf/RoundTrip.antt =====
-- strtol behind format_integer.
use mathlib.Core.List.{append-nil}
use kaush_os.Base.{
  ℕ, zero, suc, ◌-◌, ◌%◌, ◌^◌, ◌<◌, ◌≡◌, refl, ap, ◌∙◌, Bool, true, false, not, ◌&&◌, ◌||◌, [], ◌∷◌,
  ◌++◌, ◌!=◌, if◌then◌else◌, arith,
}
use kaush_os.Strings.{Text, take_digits, strtol, skip_blanks, take_sign, take_base}
use kaush_os.Printf.{
  Flags, Conversion, base_d, put_digits, put_zeros, put_octal_zero, integer_buffer,
  rendered_precision, format_integer, output_dup, pad_if, sign_char,
}
use kaush_os.Printf.Digits.{
  Digits, put_digits-Digits, put_zeros-Digits, take_digits-put_digits, take_digits-put_zeros,
  take_digits-cons,
}

-- What strtol reads behind a sign.
abbrev signed : Bool → ℕ → ℕ
signed neg val = if neg then (2 ^ 32 - val) % 2 ^ 32 else val

skip_blanks-spaces : (n : ℕ) (s : Text) → skip_blanks (output_dup b' ' n ++ s) ≡ skip_blanks s
unfolding skip_blanks output_dup
skip_blanks-spaces zero s = refl
skip_blanks-spaces (suc n) s = skip_blanks-spaces n s

skip_blanks-Digits : (s : Text) → Digits s → skip_blanks s ≡ s
unfolding skip_blanks
skip_blanks-Digits [] d = refl
skip_blanks-Digits (c ∷ s) d = ground (arith, d)

take_sign-Digits : (s : Text) → Digits s → take_sign s ≡ (false, s)
unfolding take_sign
take_sign-Digits [] d = refl
take_sign-Digits (c ∷ s) d = ground (arith, d)

strtol-Digits : (s : Text) → Digits s → (strtol s 10).0 ≡ (take_digits s 10 0).0
unfolding strtol take_base
strtol-Digits s d = rw (skip_blanks-Digits s d, take_sign-Digits s d, strtol) refl

strtol_sign :
    (neg : Bool) (s : Text)
    → Digits s
    → (strtol ((if neg then b'-' else b'+') ∷ s) 10).0 ≡ signed neg (take_digits s 10 0).0
unfolding strtol skip_blanks take_sign take_base
strtol_sign true s d = refl
strtol_sign false s d = refl

strtol_spaces : (n : ℕ) (s : Text) → strtol (output_dup b' ' n ++ s) 10 ≡ strtol s 10
unfolding strtol
strtol_spaces n s = rw (skip_blanks-spaces n s, strtol) refl

abbrev sign_text : ℕ → Text
sign_text sign = if sign != 0 then sign ∷ [] else []

minus_sign :
    (plus space : Bool) → ◌≡◌ {A = ℕ} (if plus then b'-' else if space then b'-' else b'-') b'-'
minus_sign true space = refl
minus_sign false true = refl
minus_sign false false = refl

strtol_unsigned :
    (plus space : Bool) (s : Text)
    → Digits s
    → (strtol (sign_text (if plus then b'+' else if space then b' ' else 0) ++ s) 10).0
      ≡ (take_digits s 10 0).0
unfolding output_dup
strtol_unsigned true space s d = strtol_sign false s d
strtol_unsigned false true s d = ap (λ (r : ℕ × Text). r.0) (strtol_spaces 1 s) ∙ strtol-Digits s d
strtol_unsigned false false s d = strtol-Digits s d

-- The sign that format_integer writes, and what strtol makes of it.
strtol-sign_text :
    (is_signed negative : Bool) (f : Flags) (s : Text)
    → Digits s
    → (strtol (sign_text (sign_char is_signed negative f) ++ s) 10).0
      ≡ signed (is_signed && negative) (take_digits s 10 0).0
unfolding sign_char
strtol-sign_text false negative f s d = strtol-Digits s d
strtol-sign_text true true f s d = rw (minus_sign f.plus f.space) (strtol_sign true s d)
strtol-sign_text true false f s d = strtol_unsigned f.plus f.space s d

-- The parts that format_integer writes, for a base without a prefix.
abbrev assembled : Bool → Bool → ℕ → ℕ → ℕ → Text → Text
assembled minus zero_pad sign x pad_cnt buf =
    pad_if (not (minus || zero_pad)) b' ' pad_cnt
    ++ ((if sign != 0 then sign ∷ [] else [])
        ++ ((if x != 0 then b'0' ∷ x ∷ [] else [])
            ++ (pad_if zero_pad b'0' pad_cnt ++ (buf ++ pad_if minus b' ' pad_cnt))))

output_dup-Digits : (n : ℕ) (s : Text) → Digits s → Digits (output_dup b'0' n ++ s)
unfolding output_dup
output_dup-Digits zero s d = d
output_dup-Digits (suc n) s d = (omega arith, omega arith, output_dup-Digits n s d)

take_digits-output_dup :
    (n : ℕ) (s : Text) → take_digits (output_dup b'0' n ++ s) 10 0 ≡ take_digits s 10 0
unfolding output_dup
take_digits-output_dup zero s = refl
take_digits-output_dup (suc n) s =
    take_digits-cons 0 0 (output_dup b'0' n ++ s) (omega arith) (omega arith)
    ∙ take_digits-output_dup n s

strtol-assembled :
    (is_signed negative : Bool) (f : Flags) (minus zero_pad : Bool) (x n : ℕ) (buf : Text)
    → minus ≡ false
    → x ≡ 0
    → Digits buf
    → (strtol (assembled minus zero_pad (sign_char is_signed negative f) x n buf) 10).0
      ≡ signed (is_signed && negative) (take_digits buf 10 0).0
strtol-assembled is_signed negative f true zero_pad x n buf right no_x d = cc
strtol-assembled is_signed negative f false true x n buf right no_x d =
    rw (no_x, append-nil)
      (strtol-sign_text is_signed negative f (output_dup b'0' n ++ buf) (output_dup-Digits n buf d)
        ∙ ap (λ (r : ℕ × Text). signed (is_signed && negative) (r.0))
            (take_digits-output_dup n buf))
strtol-assembled is_signed negative f false false x n buf right no_x d =
    rw (no_x, append-nil, strtol_spaces) (strtol-sign_text is_signed negative f buf d)

integer_buffer_plain :
    (value : ℕ) (c : Conversion)
    → c.flags.group ≡ false
    → integer_buffer value base_d c
      ≡ put_zeros 63 (rendered_precision c.precision) (put_digits value value false base_d 0 [])
unfolding integer_buffer
integer_buffer_plain value c g = rw g (no_octal c.flags _)
  where
    no_octal : (f : Flags) (buf : Text) → put_octal_zero f base_d buf ≡ buf
    no_octal f buf = ground arith

integer_buffer-Digits :
    (value : ℕ) (c : Conversion) → c.flags.group ≡ false → Digits (integer_buffer value base_d c)
integer_buffer-Digits value c g =
    let p = rendered_precision c.precision in
    let e = integer_buffer_plain value c g in
    rw e (
      put_zeros-Digits 63 p (put_digits value value false base_d 0 [])
        (put_digits-Digits value value 0 [] tt))

take_digits-integer_buffer :
    (value : ℕ) (c : Conversion)
    → c.flags.group ≡ false
    → value < 2 ^ 32
    → (take_digits (integer_buffer value base_d c) 10 0).0 ≡ value
unfolding take_digits
take_digits-integer_buffer value c g small =
    let p = rendered_precision c.precision in
    let e = integer_buffer_plain value c g in
    let digits = put_digits value value false base_d 0 [] in
    let read =
      take_digits-put_zeros 63 p digits
      ∙ take_digits-put_digits value value 0 [] (omega arith) small in
    rw e (ap (λ (r : ℕ × Text). r.0) read ∙ at_end value)
  where
    at_end : (value : ℕ) → (take_digits [] 10 value).0 ≡ value
    at_end value = refl

-- What format_integer writes in base 10, right-justified and without the grouping of digits, strtol
-- reads back, for every width, precision and other flags: the value, or its negation as a long
-- where the conversion is signed and the value is said to be negative.
pub strtol-format_integer :
    (value : ℕ) (is_signed negative : Bool) (c : Conversion)
    → value < 2 ^ 32
    → c.flags.minus ≡ false
    → c.flags.group ≡ false
    → (strtol (format_integer value is_signed negative base_d c) 10).0
      ≡ (if is_signed && negative then (2 ^ 32 - value) % 2 ^ 32 else value)
unfolding format_integer
strtol-format_integer value is_signed negative c small right g =
    strtol-assembled is_signed negative c.flags c.flags.minus c.flags.zero_pad _ _
      (integer_buffer value base_d c) right (ground arith) (integer_buffer-Digits value c g)
    ∙ ap (signed (is_signed && negative)) (take_digits-integer_buffer value c g small)
