-- ===== src/Printf/Format/Progress.antt =====
-- Each conversion of __vprintf ends, and goes on in the format.
use kaush_os.Base.{
  ℕ, ◌+◌, ◌-◌, ◌*◌, ◌%◌, ◌^◌, ◌≤◌, ◌==◌, [], ◌∷◌, Bool-cases, Option-cases, inl, inr, arith,
}
use kaush_os.Strings.{Text, strlen, tail, head}
use kaush_os.Printf.{Flags, Conversion}
use kaush_os.Printf.Parse.{
  Result, done, undefined, behind_end, ◌>>=◌, Args, ArgType, parse_flags, parse_number, parse_count,
  parse_precision, parse_type, parse_conversion, set_flag, arg_int, int, long_long, string,
  no_flags, char_type, short_type, int_type, size_type, long_long_type, arg_long_long, arg_string,
}
use kaush_os.Printf.Format.{
  convert, Kind, signed, unsigned, character, text, pointer, unsupported, unknown, kind_of,
  convert_kind, skip_letter, arg_value,
}

-- A result that did not run out of fuel, and that satisfies `P` where it is one.
pub data Ends {ℓ} {A : Type ℓ} (P : A → Type 0) : Result A → Type ℓ where
  ended : {a : A} → P a → Ends P (done a)
  not_defined : Ends P undefined
  gone_behind : Ends P behind_end

Ends-bind {ℓ κ} :
    {A : Type ℓ} {B : Type κ} {P : A → Type 0} {Q : B → Type 0} {m : Result A} {f : A → Result B}
    → Ends P m
    → ((a : A) → P a → Ends Q (f a))
    → Ends Q (m >>= f)
Ends-bind (ended h) k = k _ h
Ends-bind not_defined k = not_defined
Ends-bind gone_behind k = gone_behind

strlen-tail : (s : Text) → strlen (tail s) ≤ strlen s
unfolding strlen
strlen-tail [] = omega arith
strlen-tail (c ∷ s) = omega arith

parse_flags-le : (s : Text) (f : Flags) → strlen (parse_flags s f).1 ≤ strlen s
unfolding parse_flags strlen
parse_flags-le [] f = omega arith
parse_flags-le (c ∷ s) f = elim (Option-cases (set_flag c f)) [
  | inl e ↦ rw (e, parse_flags) (omega arith)
  | inr (f1, e) ↦ rw (e, parse_flags) (omega (arith, parse_flags-le s f1))
]

parse_number-le : (s : Text) (n : ℕ) → strlen (parse_number s n).1 ≤ strlen s
unfolding parse_number strlen
parse_number-le [] n = omega arith
parse_number-le (c ∷ s) n =
    ground (arith, parse_number-le s ((n * 10 + c + 2 ^ 32 - b'0') % 2 ^ 32))

abbrev pub Any {ℓ} : {A : Type ℓ} → A → Type 0
Any a = Unit {0}

Ends-arg_int : (args : Args) → Ends Any (arg_int args)
Ends-arg_int [] = not_defined
Ends-arg_int (int n ∷ args) = ended tt
Ends-arg_int (long_long n ∷ args) = not_defined
Ends-arg_int (string s ∷ args) = not_defined

Ends-arg_long_long : (args : Args) → Ends Any (arg_long_long args)
Ends-arg_long_long [] = not_defined
Ends-arg_long_long (int n ∷ args) = not_defined
Ends-arg_long_long (long_long n ∷ args) = ended tt
Ends-arg_long_long (string s ∷ args) = not_defined

Ends-arg_string : (args : Args) → Ends Any (arg_string args)
Ends-arg_string [] = not_defined
Ends-arg_string (int n ∷ args) = not_defined
Ends-arg_string (long_long n ∷ args) = not_defined
Ends-arg_string (string s ∷ args) = ended tt

Ends-Any {ℓ κ} :
    {A : Type ℓ} {B : Type κ} {m : Result A} (f : A → B)
    → Ends Any m
    → Ends Any (m >>= λ a. done (f a))
Ends-Any f h = Ends-bind h (λ a any. ended tt)

Ends-arg_value : (t : ArgType) (args : Args) → Ends Any (arg_value t args)
Ends-arg_value long_long_type args = Ends-arg_long_long args
Ends-arg_value char_type args = Ends-Any _ (Ends-arg_int args)
Ends-arg_value short_type args = Ends-Any _ (Ends-arg_int args)
Ends-arg_value int_type args = Ends-Any _ (Ends-arg_int args)
Ends-arg_value size_type args = Ends-Any _ (Ends-arg_int args)

convert_kind-Ends :
    (kind : Kind) (k : ℕ) (t : ArgType) (c : Conversion) (args : Args)
    → Ends Any (convert_kind kind k t c args)
unfolding convert_kind
convert_kind-Ends signed k t c args = Ends-Any _ (Ends-arg_value t args)
convert_kind-Ends (unsigned b) k t c args = Ends-Any _ (Ends-arg_value t args)
convert_kind-Ends character k t c args = Ends-Any _ (Ends-arg_int args)
convert_kind-Ends text k t c args = Ends-Any _ (Ends-arg_string args)
convert_kind-Ends pointer k t c args = Ends-Any _ (Ends-arg_int args)
convert_kind-Ends unsupported k t c args = ended tt
convert_kind-Ends unknown k t c args = ended tt

abbrev pub Shorter {ℓ} : {A : Type ℓ} → Text → A × Text × Args → Type 0
Shorter s r = strlen (r.1) ≤ strlen s

parse_count-Ends : (s : Text) (args : Args) → Ends (Shorter s) (parse_count s args)
unfolding parse_count
parse_count-Ends s args = elim (Bool-cases (head s == b'*')) [
  | inl e ↦ rw (e, parse_count) (Ends-bind (Ends-arg_int args) (λ a h. ended (strlen-tail s)))
  | inr e ↦ rw (e, parse_count) (ended (parse_number-le s 0))
]

parse_precision-Ends :
    (s : Text) (args : Args) (c : Conversion) → Ends (Shorter s) (parse_precision s args c)
unfolding parse_precision
parse_precision-Ends s args c = elim (Bool-cases (head s == b'.')) [
  | inl e ↦
      rw (e, parse_precision)
        (Ends-bind (parse_count-Ends (tail s) args)
          (λ a h. ended (omega (arith, strlen-tail s, h))))
  | inr e ↦ rw (e, parse_precision) (ended (omega arith))
]

parse_type-le : (s : Text) → strlen (parse_type s).1 ≤ strlen s
unfolding parse_type
parse_type-le s = ground (arith, strlen-tail s, strlen-tail (tail s))

abbrev Rest : Text → Conversion × ArgType × Text × Args → Type 0
Rest s r = strlen (r.2) ≤ strlen s

parse_conversion-Ends : (s : Text) (args : Args) → Ends (Rest s) (parse_conversion s args)
unfolding parse_conversion
parse_conversion-Ends s args = Ends-bind (parse_count-Ends (parse_flags s no_flags).1 args) (λ a ha.
    Ends-bind (parse_precision-Ends (a.1) (a.2) _)
      (λ b hb. ended (omega (arith, parse_flags-le s no_flags, ha, hb, parse_type-le (b.1)))))

skip_letter-Ends :
    (s : Text) (out : Text) (args : Args) (n : ℕ)
    → strlen s ≤ n
    → Ends (λ (r : Text × Text × Args). strlen (r.1) ≤ n) (skip_letter out s args)
unfolding strlen
skip_letter-Ends [] out args n h = gone_behind
skip_letter-Ends (k ∷ s) out args n h = ended (omega (arith, h))

pub convert-Ends : (s : Text) (args : Args) → Ends (Shorter s) (convert s args)
unfolding convert
convert-Ends s args = elim (Bool-cases (head s == b'%')) [
  | inl e ↦ rw (e, convert) (ended (strlen-tail s))
  | inr e ↦
      rw (e, convert)
        (Ends-bind (parse_conversion-Ends s args) (λ a ha.
          Ends-bind (convert_kind-Ends (kind_of (head (a.2))) (head (a.2)) (a.1) (a.0) (a.3))
            (λ b hb. skip_letter-Ends (a.2) (b.0) (b.1) (strlen s) ha)))
]
