-- ===== src/Printf/Format/Verdict.antt =====
-- What __vprintf ends in is the verdict on its format and arguments.
use kaush_os.Base.{
  ℕ, zero, suc, ◌<◌, ◌≡◌, refl, sym, ap, subst, true, false, Option, none, some, [], ◌∷◌, ◌==◌,
  Bool-cases, inl, inr, arith, if◌then◌else◌,
}
use kaush_os.Strings.{Text, strlen, tail, head}
use kaush_os.Printf.{Conversion}
use kaush_os.Printf.Parse.{
  Result, done, undefined, behind_end, out_of_fuel, ◌>>=◌, Args, ArgType, arg_int, int, long_long,
  string, char_type, short_type, int_type, size_type, long_long_type, arg_long_long, arg_string,
}
use kaush_os.Printf.Format.{
  convert, vprintf_from, vprintf, Kind, signed, unsigned, character, text, pointer, unsupported,
  unknown, kind_of, convert_kind, skip_letter, arg_value,
}
use kaush_os.Printf.Format.Progress.{convert-Ends}
use kaush_os.Printf.Format.Check.{
  outside, percent, flags, letter, Need, an_int, a_long_long, a_string, Verdict, accepted, mistyped,
  cut_off, letter_need, integer_need, step, proceed, check,
}
use kaush_os.Printf.Format.Leads.{
  Leads, goes_on, at_argument, at_nul, Leads-bind, Leads-bind_ended, check-same, check-on,
  parse_conversion-check,
}

-- What is checked behind an argument of a letter, where `rest` is the verdict from there on.
abbrev behind : (Args → Verdict) → Option Need → Args → Verdict
behind rest need args = proceed (λ next args1. rest args1) (outside, need) args

arg_int-check :
    (rest : Args → Verdict) (args : Args)
    → Leads (λ (r : ℕ × Args). rest (r.1)) (arg_int args) (behind rest (some an_int) args)
arg_int-check rest [] = at_argument
arg_int-check rest (int n ∷ args) = goes_on refl
arg_int-check rest (long_long n ∷ args) = at_argument
arg_int-check rest (string s ∷ args) = at_argument

arg_long_long-check :
    (rest : Args → Verdict) (args : Args)
    → Leads
        (λ (r : ℕ × Args). rest (r.1))
        (arg_long_long args)
        (behind rest (some a_long_long) args)
arg_long_long-check rest [] = at_argument
arg_long_long-check rest (int n ∷ args) = at_argument
arg_long_long-check rest (long_long n ∷ args) = goes_on refl
arg_long_long-check rest (string s ∷ args) = at_argument

arg_string-check :
    (rest : Args → Verdict) (args : Args)
    → Leads
        (λ (r : Option Text × Args). rest (r.1))
        (arg_string args)
        (behind rest (some a_string) args)
arg_string-check rest [] = at_argument
arg_string-check rest (int n ∷ args) = at_argument
arg_string-check rest (long_long n ∷ args) = at_argument
arg_string-check rest (string s ∷ args) = goes_on refl

arg_value-check :
    (rest : Args → Verdict) (t : ArgType) (args : Args)
    → Leads
        (λ (r : ℕ × Args). rest (r.1))
        (arg_value t args)
        (behind rest (some (integer_need t)) args)
arg_value-check rest long_long_type args = arg_long_long-check rest args
arg_value-check rest char_type args = Leads-bind (arg_int-check rest args) (λ a. goes_on refl)
arg_value-check rest short_type args = Leads-bind (arg_int-check rest args) (λ a. goes_on refl)
arg_value-check rest int_type args = Leads-bind (arg_int-check rest args) (λ a. goes_on refl)
arg_value-check rest size_type args = Leads-bind (arg_int-check rest args) (λ a. goes_on refl)

abbrev kind_need : Kind → ArgType → Option Need
kind_need signed t = some (integer_need t)
kind_need (unsigned b) t = some (integer_need t)
kind_need character t = some an_int
kind_need pointer t = some an_int
kind_need text t = some a_string
kind_need k t = none

letter_need-kind_need : (t : ArgType) (k : ℕ) → letter_need t k ≡ kind_need (kind_of k) t
letter_need-kind_need t k = ground arith

convert_kind-check :
    (rest : Args → Verdict) (kind : Kind) (k : ℕ) (t : ArgType) (c : Conversion) (args : Args)
    → Leads
        (λ (r : Text × Args). rest (r.1))
        (convert_kind kind k t c args)
        (behind rest (kind_need kind t) args)
unfolding convert_kind
convert_kind-check rest signed k t c args =
    Leads-bind (arg_value-check rest t args) (λ a. goes_on refl)
convert_kind-check rest (unsigned b) k t c args =
    Leads-bind (arg_value-check rest t args) (λ a. goes_on refl)
convert_kind-check rest character k t c args =
    Leads-bind (arg_int-check rest args) (λ a. goes_on refl)
convert_kind-check rest text k t c args =
    Leads-bind (arg_string-check rest args) (λ a. goes_on refl)
convert_kind-check rest pointer k t c args =
    Leads-bind (arg_int-check rest args) (λ a. goes_on refl)
convert_kind-check rest unsupported k t c args = goes_on refl
convert_kind-check rest unknown k t c args = goes_on refl

-- The conversion of a letter, and the step behind it.
letter-check :
    (s : Text) (t : ArgType) (c : Conversion) (args : Args)
    → Leads
        (λ (r : Text × Text × Args). check outside (r.1) (r.2))
        (convert_kind (kind_of (head s)) (head s) t c args >>= λ r. skip_letter (r.0) s (r.1))
        (check (letter t) s args)
unfolding check step convert_kind
letter-check [] t c args = at_nul
letter-check (k ∷ s) t c args =
    rw (letter_need-kind_need t k)
      (Leads-bind (convert_kind-check (check outside s) (kind_of k) k t c args) (λ a. goes_on refl))

percent-check :
    (s : Text) (args : Args)
    → (head s == b'%') ≡ true
    → check outside (tail s) args ≡ check percent s args
unfolding check step
percent-check [] args e = cc
percent-check (k ∷ s) args e = sym (check-on percent outside k s args (rw e refl))

flags-check :
    (s : Text) (args : Args) → (head s == b'%') ≡ false → check flags s args ≡ check percent s args
unfolding check step
flags-check [] args e = refl
flags-check (k ∷ s) args e = check-same flags percent k s args (rw e refl)

convert-check :
    (s : Text) (args : Args)
    → Leads
        (λ (r : Text × Text × Args). check outside (r.1) (r.2))
        (convert s args)
        (check percent s args)
unfolding convert
convert-check s args = elim (Bool-cases (head s == b'%')) [
  | inl e ↦ rw (e, convert) (goes_on (percent-check s args e))
  | inr e ↦
      rw (e, convert)
        (subst (Leads _ _) (flags-check s args e)
          (Leads-bind (parse_conversion-check s args) (λ a. letter-check (a.2) (a.1) (a.0) (a.3))))
]

end_accepted : (args : Args) → accepted ≡ check outside [] args
unfolding check
end_accepted args = refl

outside-check :
    (k : ℕ) (s : Text) (args : Args)
    → check outside (k ∷ s) args
      ≡ (if k == b'%' then check percent s args else check outside s args)
unfolding step
outside-check k s args = elim (Bool-cases (k == b'%')) [
  | inl e ↦ rw e (check-on outside percent k s args (rw e refl))
  | inr e ↦ rw e (check-on outside outside k s args (rw e refl))
]

vprintf_from-check :
    (fuel : ℕ) (s : Text) (args : Args)
    → strlen s < fuel
    → Leads (λ (out : Text). accepted) (vprintf_from fuel s args) (check outside s args)
unfolding vprintf_from strlen
vprintf_from-check zero s args h = absurd (omega (arith, h))
vprintf_from-check (suc fuel) [] args h = goes_on (end_accepted args)
vprintf_from-check (suc fuel) (c ∷ s) args h = elim (Bool-cases (c == b'%')) [
  | inl e ↦
      rw (outside-check c s args, e, vprintf_from)
        (Leads-bind_ended (convert-check s args) (convert-Ends s args) (λ a shorter.
          Leads-bind (vprintf_from-check fuel (a.1) (a.2) (omega (arith, shorter, h)))
            (λ out. goes_on refl)))
  | inr e ↦
      rw (outside-check c s args, e, vprintf_from)
        (Leads-bind (vprintf_from-check fuel s args (omega (arith, h))) (λ out. goes_on refl))
]

-- What a result says of the format and the arguments.
abbrev pub verdict : Result Text → Option Verdict
verdict (done out) = some accepted
verdict undefined = some mistyped
verdict behind_end = some cut_off
verdict out_of_fuel = none

Leads-verdict :
    {v : Verdict} {m : Result Text} → Leads (λ (out : Text). accepted) m v → verdict m ≡ some v
Leads-verdict (goes_on e) = ap some e
Leads-verdict at_argument = refl
Leads-verdict at_nul = refl

-- For every format and all arguments, the loop of __vprintf gives an output exactly where the check
-- of the format against the arguments, character by character, accepts them; it takes an argument
-- that is missing or of another type exactly where the check says so first; and it goes behind the
-- NUL of the format exactly where the check says that the format breaks off inside of a conversion.
pub vprintf-check :
    (format : Text) (args : Args) → verdict (vprintf format args) ≡ some (check outside format args)
unfolding vprintf
vprintf-check format args =
    Leads-verdict (vprintf_from-check (suc (strlen format)) format args (omega arith))
