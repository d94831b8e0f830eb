-- ===== src/Printf/Format/Leads.antt =====
-- Reading a conversion up to its letter, against the check of the format.
use kaush_os.Base.{
  ℕ, ◌+◌, ◌-◌, ◌*◌, ◌%◌, ◌^◌, ◌≡◌, refl, sym, ap, ◌∙◌, subst, true, false, none, some, [], ◌∷◌,
  ◌==◌, Bool-cases, Option-cases, inl, inr, arith, if◌then◌else◌,
}
use kaush_os.Strings.{Text}
use kaush_os.Printf.{Flags, Conversion}
use kaush_os.Printf.Parse.{
  Result, done, undefined, behind_end, ◌>>=◌, Args, ArgType, parse_flags, parse_number, parse_count,
  parse_precision, parse_type, parse_conversion, set_flag, arg_int, int, long_long, string,
  no_flags, is_digit,
}
use kaush_os.Printf.Format.Progress.{Ends, ended}
use kaush_os.Printf.Format.Check.{
  Phase, flags, flags_end, width, width_end, point, precision, precision_end, letter, an_int,
  Verdict, mistyped, cut_off, is_flag, step, at_end, proceed, check,
}

-- The result has the verdict, where `next` is the verdict on what is left.
pub data Leads {ℓ} {A : Type ℓ} (next : A → Verdict) : Result A → Verdict → Type ℓ where
  goes_on : {a : A} {v : Verdict} → next a ≡ v → Leads next (done a) v
  at_argument : Leads next undefined mistyped
  at_nul : Leads next behind_end cut_off

pub Leads-bind {ℓ κ} :
    {A : Type ℓ} {B : Type κ} {next : A → Verdict} {next1 : B → Verdict} {v : Verdict}
    {m : Result A} {f : A → Result B}
    → Leads next m v
    → ((a : A) → Leads next1 (f a) (next a))
    → Leads next1 (m >>= f) v
Leads-bind {next1 = next1} {f = f} (goes_on {a} e) k = subst (Leads next1 (f a)) e (k a)
Leads-bind at_argument k = at_argument
Leads-bind at_nul k = at_nul

-- The same, where the result is known to satisfy `P` as well.
pub Leads-bind_ended {ℓ κ} :
    {A : Type ℓ} {B : Type κ} {P : A → Type 0} {next : A → Verdict} {next1 : B → Verdict}
    {v : Verdict} {m : Result A} {f : A → Result B}
    → Leads next m v
    → Ends P m
    → ((a : A) → P a → Leads next1 (f a) (next a))
    → Leads next1 (m >>= f) v
Leads-bind_ended {next1 = next1} {f = f} (goes_on {a} e) (ended p) k =
    subst (Leads next1 (f a)) e (k a p)
Leads-bind_ended at_argument h k = at_argument
Leads-bind_ended at_nul h k = at_nul

pub check-same :
    (p q : Phase) (k : ℕ) (s : Text) (args : Args)
    → step p k ≡ step q k
    → check p (k ∷ s) args ≡ check q (k ∷ s) args
unfolding check
check-same p q k s args e = ap (λ r. proceed (λ next args1. check next s args1) r args) e

pub check-on :
    (p q : Phase) (k : ℕ) (s : Text) (args : Args)
    → step p k ≡ (q, none)
    → check p (k ∷ s) args ≡ check q s args
unfolding check
check-on p q k s args e = ap (λ r. proceed (λ next args1. check next s args1) r args) e

set_flag-none : (k : ℕ) (f : Flags) → set_flag k f ≡ none → is_flag k ≡ false
unfolding set_flag
set_flag-none k f e = ground (arith, e)

set_flag-some : (k : ℕ) (f g : Flags) → set_flag k f ≡ some g → is_flag k ≡ true
unfolding set_flag
set_flag-some k f g e = ground (arith, e)

parse_flags-check :
    (s : Text) (f : Flags) (args : Args)
    → check flags s args ≡ check flags_end (parse_flags s f).1 args
unfolding check step parse_flags
parse_flags-check [] f args = refl
parse_flags-check (k ∷ s) f args = elim (Option-cases (set_flag k f)) [
  | inl e ↦
      rw (e, parse_flags) (check-same flags flags_end k s args (rw (set_flag-none k f e) refl))
  | inr (g, e) ↦
      rw (e, parse_flags)
        (check-on flags flags k s args (rw (set_flag-some k f g e) refl)
          ∙ parse_flags-check s g args)
]

-- `p` is the phase in a number, `q` the one behind it.
IsNumber : Phase → Phase → Type 0
IsNumber p q =
    (at_end p ≡ at_end q) × ((k : ℕ) → step p k ≡ (if is_digit k then (p, none) else step q k))

parse_number-check :
    (p q : Phase) (s : Text) (n : ℕ) (args : Args)
    → IsNumber p q
    → check p s args ≡ check q (parse_number s n).1 args
unfolding IsNumber parse_number check
parse_number-check p q [] n args h = h.0
parse_number-check p q (k ∷ s) n args h = elim (Bool-cases (is_digit k)) [
  | inl e ↦ rw e (
      check-on p p k s args (h.1 k ∙ rw e refl)
      ∙ parse_number-check p q s ((n * 10 + k + 2 ^ 32 - b'0') % 2 ^ 32) args h)
  | inr e ↦ rw e (check-same p q k s args (h.1 k ∙ rw e refl))
]

-- `o` is the phase before a `*` or a number.
IsCount : Phase → Phase → Phase → Type 0
IsCount o p q =
    (at_end o ≡ at_end q)
    × ((k : ℕ) → step o k ≡ (if k == b'*' then (q, some an_int) else step p k))

star_lem :
    (o q : Phase) (k : ℕ) (s : Text) (args : Args)
    → step o k ≡ (q, some an_int)
    → Leads
        (λ (r : ℕ × Text × Args). check q (r.1) (r.2))
        (arg_int args >>= λ a. done (a.0, s, a.1))
        (check o (k ∷ s) args)
unfolding check
star_lem o q k s [] e = rw e at_argument
star_lem o q k s (int n ∷ args) e = rw e (goes_on refl)
star_lem o q k s (long_long n ∷ args) e = rw e at_argument
star_lem o q k s (string t ∷ args) e = rw e at_argument

parse_count-check :
    (o p q : Phase) (s : Text) (args : Args)
    → IsCount o p q
    → IsNumber p q
    → Leads (λ (r : ℕ × Text × Args). check q (r.1) (r.2)) (parse_count s args) (check o s args)
unfolding IsCount parse_count parse_number check
parse_count-check o p q [] args h d = goes_on (sym h.0)
parse_count-check o p q (k ∷ s) args h d = elim (Bool-cases (k == b'*')) [
  | inl e ↦ rw (e, parse_count) (star_lem o q k s args (h.1 k ∙ rw e refl))
  | inr e ↦
      rw (e, parse_count)
        (goes_on (
          sym (parse_number-check p q (k ∷ s) 0 args d)
          ∙ sym (check-same o p k s args (h.1 k ∙ rw e refl))))
]

width-IsNumber : IsNumber width width_end
unfolding IsNumber step
width-IsNumber = (refl, λ k. refl)

width-IsCount : IsCount flags_end width width_end
unfolding IsCount step
width-IsCount = (refl, λ k. refl)

precision-IsNumber : IsNumber precision precision_end
unfolding IsNumber step
precision-IsNumber = (refl, λ k. refl)

precision-IsCount : IsCount point precision precision_end
unfolding IsCount step
precision-IsCount = (refl, λ k. refl)

parse_precision-check :
    (s : Text) (args : Args) (c : Conversion)
    → Leads
        (λ (r : Conversion × Text × Args). check precision_end (r.1) (r.2))
        (parse_precision s args c)
        (check width_end s args)
unfolding parse_precision step check
parse_precision-check [] args c = goes_on refl
parse_precision-check (k ∷ s) args c = elim (Bool-cases (k == b'.')) [
  | inl e ↦
      rw (e, parse_precision)
        (Leads-bind
          (parse_count-check point precision precision_end s args precision-IsCount
            precision-IsNumber)
          (λ r. goes_on refl))
  | inr e ↦ rw (e, parse_precision) (goes_on refl)
]

parse_type-check :
    (s : Text) (args : Args)
    → check precision_end s args ≡ check (letter (parse_type s).0) (parse_type s).1 args
unfolding parse_type check step
parse_type-check [] args = refl
parse_type-check (k ∷ []) args = ground arith
parse_type-check (k ∷ j ∷ s) args = ground arith

pub parse_conversion-check :
    (s : Text) (args : Args)
    → Leads
        (λ (r : Conversion × ArgType × Text × Args). check (letter (r.1)) (r.2) (r.3))
        (parse_conversion s args)
        (check flags s args)
unfolding parse_conversion
parse_conversion-check s args = subst (Leads _ _) (sym (parse_flags-check s no_flags args)) (
    Leads-bind
      (parse_count-check flags_end width width_end (parse_flags s no_flags).1 args width-IsCount
        width-IsNumber)
      (λ a.
        Leads-bind (parse_precision-check (a.1) (a.2) _)
          (λ b. goes_on (sym (parse_type-check (b.1) (b.2))))))
