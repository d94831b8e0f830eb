-- ===== src/Ob/Names/Resolve.antt =====
-- ObpLookupObjectByName against the walk along the parts of a path.
use kaush_os.Base.{
  ℕ, ◌≡◌, refl, ap, ◌∙◌, Bool, true, false, not, ◌&&◌, Option, none, some, List, [], ◌∷◌, ◌==◌,
  if◌then◌else◌, arith, ◌∈◌,
}
use kaush_os.Base.Outcome.{Outcome, ok}
use kaush_os.Strings.{Text, strlen, strncmp}
use kaush_os.Strings.Texts.{IsText}
use kaush_os.Ob.Names.{
  Name, NameSpace, Context, KStatus, success, path_not_found, name_not_found, Lookup, is_directory,
  find_entry, compare_unicode_string,
}
use kaush_os.Ob.Names.Parts.{name_of}

abbrev pub text_eq : Text → Text → Bool
text_eq [] [] = true
text_eq [] (d ∷ q) = false
text_eq (c ∷ p) [] = false
text_eq (c ∷ p) (d ∷ q) = (c == d) && text_eq p q

-- The first object of a list that has a name.
unfoldable pub named : List ℕ → Text → NameSpace → Option ℕ
named [] p s = none
named (o ∷ os) p s = if text_eq p (s.object_name o).buffer then some o else named os p s

-- Where a path leads: to an object, to a directory that lacks the last name, or nowhere.
pub data Resolved : Type 0 where
  found no_name : ℕ → Resolved
  no_path : Resolved

abbrev pub missing : ℕ → List Text → Resolved
missing dir [] = no_name dir
missing dir (p ∷ ps) = no_path

-- The walk along the parts of a path; `closed` says that the path ends in a separator, so that its
-- object has to be a directory.
unfoldable pub resolve : NameSpace → ℕ → List Text → Bool → Resolved
resolve s dir [] closed =
    if closed && not (is_directory (s.object_type dir)) then no_path else found dir
resolve s dir (p ∷ ps) closed = elim (is_directory (s.object_type dir)) [
  | false ↦ no_path
  | true ↦ elim (named (s.children dir) p s) [
    | none ↦ missing dir ps
    | some o ↦ resolve s o ps closed
  ]
]

-- What a walk comes to at a file, at the end, and at a name.
pub resolve_file :
    (s : NameSpace) (dir : ℕ) (ps : List Text) (closed : Bool)
    → is_directory (s.object_type dir) ≡ false
    → (ps ≡ [] → closed ≡ true)
    → resolve s dir ps closed ≡ no_path
unfolding resolve
resolve_file s dir [] closed file h = rw (h refl) (rw file refl)
resolve_file s dir (p ∷ ps) closed file h = rw (file, resolve) refl

pub resolve_end :
    (s : NameSpace) (dir : ℕ) (ps : List Text) (closed : Bool)
    → is_directory (s.object_type dir) ≡ true
    → ps ≡ []
    → resolve s dir ps closed ≡ found dir
unfolding resolve
resolve_end s dir [] true is_dir e = rw is_dir refl
resolve_end s dir [] false is_dir e = refl
resolve_end s dir (p ∷ ps) closed is_dir e = cc

pub resolve-missing :
    (s : NameSpace) (dir : ℕ) (p : Text) (ps : List Text) (closed : Bool)
    → is_directory (s.object_type dir) ≡ true
    → named (s.children dir) p s ≡ none
    → resolve s dir (p ∷ ps) closed ≡ missing dir ps
unfolding resolve
resolve-missing s dir p ps closed is_dir e = rw (is_dir, resolve) (rw (e) refl)

pub resolve_entry :
    (s : NameSpace) (dir : ℕ) (p : Text) (ps : List Text) (closed : Bool) (o : ℕ)
    → is_directory (s.object_type dir) ≡ true
    → named (s.children dir) p s ≡ some o
    → resolve s dir (p ∷ ps) closed ≡ resolve s o ps closed
unfolding resolve
resolve_entry s dir p ps closed o is_dir e = rw (is_dir, resolve) (rw (e) refl)

-- A name space in which every entry of a directory is an object, and has a name that is a text with
-- its length.
pub record WellFormed (s : NameSpace) : Type 0 where
  pub entries : (d o : ℕ) → o ∈ s.children d → s.valid o ≡ true
  pub names : (o : ℕ) → s.object_name o ≡ name_of (s.object_name o).buffer
  pub texts : (o : ℕ) → IsText (s.object_name o).buffer

compare_same :
    (p q : Text)
    → IsText p
    → IsText q
    → strlen p ≡ strlen q
    → (strncmp p q (strlen p) == 0) ≡ text_eq p q
unfolding strncmp strlen
compare_same [] [] tp tq e = refl
compare_same [] (d ∷ q) tp tq e = absurd (omega (arith, e))
compare_same (c ∷ p) [] tp tq e = absurd (omega (arith, e))
compare_same (c ∷ p) (d ∷ q) tp tq e =
    ground (arith, tp, tq, compare_same p q tp.2 tq.2 (omega (arith, e)))

text_eq-strlen : (p q : Text) → (strlen p == strlen q) ≡ false → text_eq p q ≡ false
unfolding strlen
text_eq-strlen [] [] e = cc
text_eq-strlen [] (d ∷ q) e = refl
text_eq-strlen (c ∷ p) [] e = refl
text_eq-strlen (c ∷ p) (d ∷ q) e = ground (arith, e, text_eq-strlen p q)

compare-text_eq :
    (p q : Text)
    → IsText p
    → IsText q
    → (compare_unicode_string (name_of p) (name_of q) == 0) ≡ text_eq p q
unfolding compare_unicode_string
compare-text_eq p q tp tq = ground (arith, compare_same p q tp tq, text_eq-strlen p q)

-- The loop of ObpLookupEntryDirectory finds the first entry with the name.
pub find_entry-named :
    (os : List ℕ) (p : Text) (s : NameSpace)
    → WellFormed s
    → IsText p
    → find_entry os (name_of p) s ≡ named os p s
unfolding find_entry named
find_entry-named [] p s w t = refl
find_entry-named (o ∷ os) p s w t =
    let q = (s.object_name o).buffer in
    let e =
      ap (λ (n : Name). compare_unicode_string (name_of p) n == 0) (w.names o)
      ∙ compare-text_eq p q t (w.texts o) in
    rw (e, find_entry-named os p s w t) refl

pub named-mem : (os : List ℕ) (p : Text) (s : NameSpace) (o : ℕ) → named os p s ≡ some o → o ∈ os
unfolding named
named-mem [] p s o e = cc
named-mem (a ∷ os) p s o e = ground (arith, e, named-mem os p s o)

abbrev pub status_of : Resolved → KStatus
status_of (found o) = success
status_of (no_name d) = name_not_found
status_of no_path = path_not_found

-- What the context says of the result.
abbrev pub Agrees : Resolved → Context → Type 0
Agrees (found o) c = c.object ≡ o
Agrees (no_name d) c = (c.found_in ≡ d) × (c.object ≡ 0)
Agrees no_path c = c.object ≡ 0

-- The result of a lookup is that of the walk.
abbrev pub Resolves : Outcome Lookup → Resolved → NameSpace → Type 0
Resolves l r s = (c : Context) × (l ≡ ok (status_of r, c, s)) × Agrees r c
