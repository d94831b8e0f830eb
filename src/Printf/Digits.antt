-- ===== src/Printf/Digits.antt =====
-- The buffer of format_integer: what it holds and that it is large enough.
use native.Mathlib.Nat.{pow-succ'}
use kaush_os.Base.{
  ℕ, zero, suc, ◌+◌, ◌-◌, ◌*◌, ◌/◌, ◌%◌, ◌^◌, ◌≤◌, ◌<◌, ◌≡◌, refl, ap, ◌∙◌, Bool, false, some, [],
  ◌∷◌, length, ◌==◌, leb, Bool-cases, inl, inr, arith,
}
use kaush_os.Strings.{Text, digit_of, take_digits}
use kaush_os.Printf.{
  Flags, Conversion, IntegerBase, base_d, put_digits, put_zeros, put_octal_zero, integer_buffer,
  rendered_precision, with_comma, digit_char, sizeof_buf,
}

quotient_small : (v base t : ℕ) → 8 ≤ base → v < 8 * t → v / base < t
quotient_small v base t h lt = grind arith

power_below : (k v : ℕ) → 0 < v → v < 8 ^ k → v < 8 * 8 ^ (k - 1)
power_below zero v h lt = absurd (omega (arith, h, lt))
power_below (suc k) v h lt =
    let e : 8 ^ suc k ≡ 8 * 8 ^ k = pow-succ' 8 k in
    let down : suc k - 1 ≡ k = omega arith in rw down (rw e at lt)

comma-short :
    (group : Bool) (b : IntegerBase) (cnt : ℕ) (buf : Text)
    → length (with_comma group b cnt buf) ≤ length buf + 1
comma-short group b cnt buf = ground arith

put_digits_more-short :
    (k fuel v : ℕ) (group : Bool) (b : IntegerBase) (cnt : ℕ) (buf : Text)
    → 8 ≤ b.base
    → v < 8 ^ k
    → 0 < v
    → ((t : Text)
        → 8 ≤ b.base
        → v / b.base < 8 ^ (k - 1)
        → length (put_digits fuel (v / b.base) group b (suc cnt) t) ≤ length t + 2 * (k - 1))
    → length (
        put_digits fuel
          (v / b.base)
          group
          b
          (suc cnt)
          (digit_char b (v % b.base) ∷ with_comma group b cnt buf))
      ≤ length buf + 2 * k
put_digits_more-short zero fuel v group b cnt buf h lt pos ih = absurd (omega (arith, lt, pos))
put_digits_more-short (suc k) fuel v group b cnt buf h lt pos ih =
    let small = quotient_small v b.base (8 ^ (suc k - 1)) h (power_below (suc k) v pos lt) in
    omega (
      arith,
      ih (digit_char b (v % b.base) ∷ with_comma group b cnt buf) h small,
      comma-short group b cnt buf,
    )

put_digits-short :
    (k fuel v : ℕ) (group : Bool) (b : IntegerBase) (cnt : ℕ) (buf : Text)
    → 8 ≤ b.base
    → v < 8 ^ k
    → length (put_digits fuel v group b cnt buf) ≤ length buf + 2 * k
unfolding put_digits
put_digits-short k zero v group b cnt buf h lt = omega arith
put_digits-short k (suc fuel) v group b cnt buf h lt = elim (Bool-cases (v == 0)) [
  | inl done ↦ rw (done, put_digits) (omega arith)
  | inr more ↦
      rw (more, put_digits)
        (put_digits_more-short k fuel v group b cnt buf h lt (ground (arith, more))
          (put_digits-short (k - 1) fuel (v / b.base) group b (suc cnt)))
]

put_zeros-short :
    (rounds precision : ℕ) (buf : Text)
    → length buf ≤ 63
    → length (put_zeros rounds precision buf) ≤ 63
unfolding put_zeros
put_zeros-short zero precision buf h = h
put_zeros-short (suc rounds) precision buf h =
    ground (arith, put_zeros-short rounds precision (b'0' ∷ buf))

octal-short :
    (f : Flags) (b : IntegerBase) (buf : Text)
    → length buf ≤ 63
    → length (put_octal_zero f b buf) ≤ 64
octal-short f b buf h = ground arith

-- The characters that format_integer puts into its buffer fit into it, for every value of 64 bits,
-- every base it has, and every precision and flags.
pub integer_buffer-fits :
    (value : ℕ) (b : IntegerBase) (c : Conversion)
    → value < 2 ^ 64
    → 8 ≤ b.base
    → length (integer_buffer value b c) ≤ sizeof_buf
unfolding integer_buffer
integer_buffer-fits value b c lt h =
    let digits = put_digits value value c.flags.group b 0 [] in
    let precision = rendered_precision c.precision in
    let below : value < 8 ^ 22 = omega (arith, lt) in
    let short : length digits ≤ 63 =
      omega (arith, put_digits-short 22 value value c.flags.group b 0 [] h below) in
    let buf = put_zeros 63 precision digits in
    octal-short c.flags b buf (put_zeros-short 63 precision digits short)

-- Texts of decimal digits.
abbrev pub Digits : Text → Type 0
Digits [] = Unit {0}
Digits (c ∷ s) = (48 ≤ c) × (c ≤ 57) × Digits s

pub put_digits-Digits :
    (fuel v : ℕ) (cnt : ℕ) (buf : Text)
    → Digits buf
    → Digits (put_digits fuel v false base_d cnt buf)
unfolding put_digits
put_digits-Digits zero v cnt buf d = d
put_digits-Digits (suc fuel) v cnt buf d =
    let digit : b'0' + v % 10 ≤ 57 = omega arith in
    elim (Bool-cases (v == 0)) [
      | inl done ↦ rw (done, put_digits) d
      | inr more ↦
          let char : digit_char base_d (v % 10) ≡ b'0' + v % 10 = ground arith in
          rw (more, put_digits)
            (rw char (
              put_digits-Digits fuel (v / 10) (suc cnt) ((b'0' + v % 10) ∷ buf)
                (omega arith, digit, d)))
    ]

pub put_zeros-Digits :
    (rounds precision : ℕ) (buf : Text) → Digits buf → Digits (put_zeros rounds precision buf)
unfolding put_zeros
put_zeros-Digits zero precision buf d = d
put_zeros-Digits (suc rounds) precision buf d =
    ground (arith, put_zeros-Digits rounds precision (b'0' ∷ buf), d)

digit_of-digit : (d : ℕ) → d < 10 → digit_of (b'0' + d) ≡ some d
unfolding digit_of
digit_of-digit d lt = ground arith

pub take_digits-cons :
    (d val : ℕ) (s : Text)
    → d < 10
    → val * 10 + d < 2 ^ 32
    → take_digits ((b'0' + d) ∷ s) 10 val ≡ take_digits s 10 (val * 10 + d)
unfolding take_digits
take_digits-cons d val s lt small =
    let big : leb 10 d ≡ false = ground arith in
    let word : (val * 10 + d) % 2 ^ 32 ≡ val * 10 + d = omega arith in
    rw (digit_of-digit d lt, take_digits) (rw (big) (rw word))

-- Reading the digits gives the value back.
pub take_digits-put_digits :
    (fuel v cnt : ℕ) (buf : Text)
    → v ≤ fuel
    → v < 2 ^ 32
    → take_digits (put_digits fuel v false base_d cnt buf) 10 0 ≡ take_digits buf 10 v
unfolding put_digits
take_digits-put_digits zero v cnt buf h lt = ap (take_digits buf 10) (omega (arith, h))
take_digits-put_digits (suc fuel) v cnt buf h lt = elim (Bool-cases (v == 0)) [
  | inl done ↦ rw (done, put_digits) (ap (take_digits buf 10) (ground (arith, done)))
  | inr more ↦
      let char : digit_char base_d (v % 10) ≡ b'0' + v % 10 = ground arith in
      let whole : v / 10 * 10 + v % 10 ≡ v = omega arith in
      rw (more, put_digits)
        (rw char (
          take_digits-put_digits fuel (v / 10) (suc cnt) ((b'0' + v % 10) ∷ buf)
            (ground (arith, h, more)) (omega (arith, lt))
          ∙ take_digits-cons (v % 10) (v / 10) buf (omega arith) (omega (arith, lt))
          ∙ ap (take_digits buf 10) whole))
]

pub take_digits-put_zeros :
    (rounds precision : ℕ) (buf : Text)
    → take_digits (put_zeros rounds precision buf) 10 0 ≡ take_digits buf 10 0
unfolding put_zeros
take_digits-put_zeros zero precision buf = refl
take_digits-put_zeros (suc rounds) precision buf =
    ground (arith, take_digits-put_zeros rounds precision (b'0' ∷ buf), take_digits-cons 0 0 buf)
