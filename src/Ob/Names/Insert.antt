-- ===== src/Ob/Names/Insert.antt =====
-- What the walk along a path finds once an object is inserted at its end.
use kaush_os.Base.{
  ℕ, ◌≡◌, refl, sym, ◌∙◌, subst, true, false, none, some, List, [], ◌∷◌, ◌++◌, ◌==◌, if◌then◌else◌,
  Bool-cases, Option-cases, inl, inr, arith, ◌∉◌,
}
use kaush_os.Strings.{Text}
use kaush_os.Ob.Names.{Name, NameSpace, is_directory}
use kaush_os.Ob.Names.Parts.{name_of}
use kaush_os.Ob.Names.Resolve.{
  resolve_file, resolve-missing, resolve_entry, found, no_name, missing, text_eq, named, resolve,
}

-- The name space with an object at the end of a directory.
abbrev pub inserted : ℕ → ℕ → Name → NameSpace → NameSpace
inserted dir o name s = record s {
  object_name = λ p. if p == o then name else s.object_name p;
  children = λ d. if d == dir then s.children d ++ (o ∷ []) else s.children d;
  linked = λ p. if p == o then true else s.linked p;
}

-- An object that no directory holds.
abbrev pub Fresh : ℕ → NameSpace → Type 0
Fresh o s = (d : ℕ) → o ∉ s.children d

abbrev pub last_name : Text → List Text → Text
last_name p [] = p
last_name p (q ∷ qs) = last_name q qs

text_eq_refl : (p : Text) → text_eq p p ≡ true
text_eq_refl [] = refl
text_eq_refl (c ∷ p) = ground (arith, text_eq_refl p)

module _ (s : NameSpace) (d o : ℕ) (name : Text) (fresh : Fresh o s) where
  abbrev after : NameSpace
  after = inserted d o (name_of name) s

  named-after : (os : List ℕ) (p : Text) → o ∉ os → named os p after ≡ named os p s
  unfolding named
  named-after [] p h = refl
  named-after (x ∷ os) p h = ground (arith, h, named-after os p)

  named-append-some :
      (os : List ℕ) (p : Text) (x : ℕ)
      → named os p after ≡ some x
      → named (os ++ (o ∷ [])) p after ≡ some x
  unfolding named
  named-append-some [] p x e = cc
  named-append-some (y ∷ os) p x e = ground (arith, e, named-append-some os p x)

  named-append-none :
      (os : List ℕ) → named os name after ≡ none → named (os ++ (o ∷ [])) name after ≡ some o
  unfolding named
  named-append-none [] e = ground (arith, text_eq_refl name)
  named-append-none (y ∷ os) e = ground (arith, e, named-append-none os)

  named_entry :
      (dir : ℕ) (p : Text) (x : ℕ)
      → named (s.children dir) p s ≡ some x
      → named (after.children dir) p after ≡ some x
  named_entry dir p x e =
      let same = named-after (s.children dir) p (fresh dir) ∙ e in
      elim (Bool-cases (dir == d)) [
        | inl here ↦ rw here (named-append-some (s.children dir) p x same)
        | inr there ↦ rw there same
      ]

  named_last : named (s.children d) name s ≡ none → named (after.children d) name after ≡ some o
  named_last e =
      let here : (d == d) ≡ true = ground arith in
      rw here (named-append-none (s.children d) (named-after (s.children d) name (fresh d) ∙ e))

at_last :
    (s : NameSpace) (o d dir : ℕ) (p : Text) (ps : List Text)
    → Fresh o s
    → is_directory (s.object_type dir) ≡ true
    → named (s.children dir) p s ≡ none
    → missing dir ps ≡ no_name d
    → resolve (inserted d o (name_of (last_name p ps)) s) dir (p ∷ ps) false ≡ found o
unfolding resolve
at_last s o d dir p [] fresh is_dir absent e =
    let here : dir ≡ d = cc in
    subst (λ (x : ℕ). resolve (inserted x o (name_of p) s) dir (p ∷ []) false ≡ found o) here
      (resolve_entry (inserted dir o (name_of p) s) dir p [] false o is_dir
        (named_last s dir o p fresh absent))
at_last s o d dir p (q ∷ qs) fresh is_dir absent e = cc

-- Where the walk lacked the last name of a path, it finds the object that was inserted by that name.
pub resolve-inserted :
    (s : NameSpace) (o d dir : ℕ) (p : Text) (ps : List Text)
    → Fresh o s
    → resolve s dir (p ∷ ps) false ≡ no_name d
    → resolve (inserted d o (name_of (last_name p ps)) s) dir (p ∷ ps) false ≡ found o
unfolding resolve
resolve-inserted s o d dir p [] fresh e = elim (Bool-cases (is_directory (s.object_type dir))) [
  | inr file ↦ cc (resolve_file s dir (p ∷ []) false file (λ h. cc))
  | inl is_dir ↦ elim (Option-cases (named (s.children dir) p s)) [
    | inl absent ↦
        at_last s o d dir p [] fresh is_dir absent
          (sym (resolve-missing s dir p [] false is_dir absent) ∙ e)
    | inr (x, there) ↦ cc (resolve_entry s dir p [] false x is_dir there)
  ]
]
resolve-inserted s o d dir p (q ∷ qs) fresh e =
    elim (Bool-cases (is_directory (s.object_type dir))) [
      | inr file ↦ cc (resolve_file s dir (p ∷ q ∷ qs) false file (λ h. cc))
      | inl is_dir ↦ elim (Option-cases (named (s.children dir) p s)) [
        | inl absent ↦ cc (resolve-missing s dir p (q ∷ qs) false is_dir absent)
        | inr (x, there) ↦
            let after = inserted d o (name_of (last_name q qs)) s in
            resolve_entry after dir p (q ∷ qs) false x is_dir
              (named_entry s d o (last_name q qs) fresh dir p x there)
            ∙ resolve-inserted s o d x q qs fresh
                (sym (resolve_entry s dir p (q ∷ qs) false x is_dir there) ∙ e)
      ]
    ]
