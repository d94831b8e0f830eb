-- ===== src/Ob/Names/Parts.antt =====
-- ObParseDirectoryPath and the parts of a path.
use mathlib.Core.List.{append-nil}
use kaush_os.Base.{
  ℕ, suc, ◌≤◌, ◌<◌, ◌≡◌, refl, sym, ap, ◌∙◌, subst, Bool, true, false, Option, none, some, List, [],
  ◌∷◌, ◌++◌, leb, if◌then◌else◌, Bool-cases, inl, inr, ◌⊎◌, arith,
}
use kaush_os.Base.Outcome.{ok, assert-pass}
use kaush_os.Strings.{Text, strlen}
use kaush_os.Strings.Texts.{IsText}
use kaush_os.Ob.Names.{
  Name, is_path_separator, skip_separators, take_name, parse_name, parse_directory_path,
  max_object_name_size,
}

-- A part that is read so far, if it is one.
abbrev pub emit : Text → List Text → List Text
emit [] ps = ps
emit (c ∷ cur) ps = (c ∷ cur) ∷ ps

-- The parts of a path, behind the characters of a part that stand before it.
unfoldable pub parts_from : Text → Text → List Text
parts_from [] cur = emit cur []
parts_from (c ∷ path) cur =
    let closed = emit cur (parts_from path []) in
    let longer = parts_from path (cur ++ c ∷ []) in if is_path_separator c then closed else longer

-- The parts of a path: what stands between its separators, without the empty ones.
abbrev pub parts : Text → List Text
parts path = parts_from path []

-- Whether a path ends in a separator.
abbrev pub trailing : Text → Bool
trailing [] = false
trailing (c ∷ []) = is_path_separator c
trailing (c ∷ d ∷ path) = trailing (d ∷ path)

-- Names that fit into their buffers, with the NUL, and whose characters are no NUL.
abbrev pub Short : List Text → Type 0
Short [] = Unit {0}
Short (p ∷ ps) = (strlen p < max_object_name_size) × IsText p × Short ps

-- A name as ObParseDirectoryPath makes it.
abbrev pub name_of : Text → Name
name_of p = record { size = strlen p; buffer = p }

-- What stands behind the separators that a path begins with.
abbrev Skipped : Text → Type 0
Skipped path =
    ((skip_separators path ≡ []) × ((path ≡ []) ⊎ (trailing path ≡ true)))
    ⊎ ((c : ℕ) × (s : Text) × (skip_separators path ≡ c ∷ s)
        × (is_path_separator c ≡ false)
        × (trailing path ≡ trailing (c ∷ s))
        × (strlen (c ∷ s) ≤ strlen path))

skip_more :
    (c : ℕ) (path : Text)
    → is_path_separator c ≡ true
    → skip_separators (c ∷ path) ≡ skip_separators path
unfolding skip_separators
skip_more c path e = rw (e, skip_separators) refl

skip_separators-Skipped : (path : Text) → Skipped path
unfolding skip_separators strlen
skip_separators-Skipped [] = inl (refl, inl refl)
skip_separators-Skipped (c ∷ path) = elim (Bool-cases (is_path_separator c)) [
  | inl e ↦ skip-cons c path e (skip_separators-Skipped path)
  | inr e ↦ inr (c, path, rw (e, skip_separators) refl, e, refl, omega arith)
]
  where
    skip-cons :
        (c : ℕ) (path : Text) → is_path_separator c ≡ true → Skipped path → Skipped (c ∷ path)
    skip-cons c path e (inl (none_left, inl empty)) =
        inl (skip_more c path e ∙ none_left, inr (rw empty e))
    skip-cons c [] e (inl (none_left, inr ends)) = cc
    skip-cons c (d ∷ path) e (inl (none_left, inr ends)) =
        inl (skip_more c (d ∷ path) e ∙ none_left, inr ends)
    skip-cons c [] e (inr (d, s, found, name, ends, short)) = cc
    skip-cons c (d ∷ path) e (inr (f, s, found, name, ends, short)) =
        inr (f, s, skip_more c (d ∷ path) e ∙ found, name, ends, omega (arith, short))

parts_from-skip_separators :
    (path : Text) → parts_from (skip_separators path) [] ≡ parts_from path []
unfolding skip_separators parts_from
parts_from-skip_separators [] = refl
parts_from-skip_separators (c ∷ path) = ground (arith, parts_from-skip_separators path)

append-cons : (cur : Text) (c : ℕ) (s : Text) → (cur ++ c ∷ []) ++ s ≡ cur ++ c ∷ s
append-cons [] c s = refl
append-cons (d ∷ cur) c s = ap (λ (t : Text). d ∷ t) (append-cons cur c s)

parts_from-take_name :
    (path : Text) (cur : Text)
    → parts_from path cur ≡ emit (cur ++ (take_name path).0) (parts_from (take_name path).1 [])
unfolding take_name parts_from
parts_from-take_name [] cur = rw append-nil refl
parts_from-take_name (c ∷ path) cur = ground (
  arith,
  parts_from-take_name path (cur ++ c ∷ []),
  append-cons cur c (take_name path).0,
  append-nil cur,
)

trailing-take_name :
    (c : ℕ) (path : Text)
    → is_path_separator c ≡ false
    → trailing (c ∷ path) ≡ trailing (take_name path).1
unfolding take_name
trailing-take_name c [] e = e
trailing-take_name c (d ∷ path) e = ground (arith, trailing-take_name d path)

strlen-take_name : (path : Text) → strlen (take_name path).1 ≤ strlen path
unfolding take_name strlen
strlen-take_name [] = omega arith
strlen-take_name (c ∷ path) = ground (arith, strlen-take_name path)

-- What ObParseDirectoryPath makes of a path.
abbrev pub Parsed : Text → Option (Name × Text) → Type 0
Parsed path none = (parts path ≡ []) × ((path ≡ []) ⊎ (trailing path ≡ true))
Parsed path (some (name, rest)) =
    (p : Text) × (name ≡ name_of p)
    × (parts path ≡ p ∷ parts rest)
    × (trailing path ≡ trailing rest)
    × (strlen rest < strlen path)

parts-cons :
    (c : ℕ) (s : Text)
    → is_path_separator c ≡ false
    → parts (c ∷ s) ≡ (c ∷ (take_name s).0) ∷ parts (take_name s).1
unfolding parts_from
parts-cons c s e = rw (e, parts_from) (parts_from-take_name s (c ∷ []))

parse_name-ok :
    (c : ℕ) (s : Text)
    → strlen (c ∷ (take_name s).0) < 128
    → parse_name (c ∷ s) ≡ ok (some (name_of (c ∷ (take_name s).0), (take_name s).1))
unfolding strlen
parse_name-ok c s small =
    assert-pass {b = leb (suc (strlen (take_name s).0)) 128} _ (ground (arith, small))

Parsed-behind :
    (path : Text)
    → Short (parts path)
    → Skipped path
    → (r : Option (Name × Text)) × (parse_directory_path path ≡ ok r) × Parsed path r
unfolding parse_directory_path strlen
Parsed-behind path short (inl (none_left, ends)) =
    let e : parse_directory_path path ≡ ok none = rw (none_left, parse_directory_path) refl in
    let empty : parts path ≡ [] =
      sym (parts_from-skip_separators path)
      ∙ ap (λ (t : Text). parts_from t []) none_left
      ∙ no_parts in
    (none, e, (empty, ends))
  where
    no_parts : parts_from [] [] ≡ []
    no_parts = unfold parts_from in refl
Parsed-behind path short (inr (c, s, found, name, ends, le)) =
    let whole : parts path ≡ (c ∷ (take_name s).0) ∷ parts (take_name s).1 =
      sym (parts_from-skip_separators path)
      ∙ ap (λ (t : Text). parts_from t []) found
      ∙ parts-cons c s name in
    let small : Short ((c ∷ (take_name s).0) ∷ parts (take_name s).1) = subst Short whole short in
    (
      some (name_of (c ∷ (take_name s).0), (take_name s).1),
      ap parse_name found ∙ parse_name-ok c s small.0,
      (
        c ∷ (take_name s).0,
        refl,
        whole,
        ends ∙ trailing-take_name c s name,
        omega (arith, le, strlen-take_name s),
      ),
    )

-- ObParseDirectoryPath, on a path whose parts fit into a buffer, gives the first part and what
-- stands behind it, or says that there is none.
pub parse_directory_path-Parsed :
    (path : Text)
    → Short (parts path)
    → (r : Option (Name × Text)) × (parse_directory_path path ≡ ok r) × Parsed path r
parse_directory_path-Parsed path short = Parsed-behind path short (skip_separators-Skipped path)
