-- ===== src/Ob/Names/RoundTrip.antt =====
-- ObpLookupObjectByName, called to insert an object and then to find it.
use kaush_os.Base.{
  ℕ, zero, suc, ◌<◌, ◌≡◌, refl, sym, ap, ◌∙◌, subst, Bool, true, false, not, ◌&&◌, Option, none,
  some, List, [], ◌∷◌, ◌==◌, if◌then◌else◌, Bool-cases, Option-cases, inl, inr, arith,
}
use kaush_os.Base.Outcome.{Outcome, ok}
use kaush_os.Strings.{Text, strlen}
use kaush_os.Strings.Texts.{IsText}
use kaush_os.Ob.Names.{
  Name, NameSpace, Context, success, Lookup, is_directory, parse_directory_path, find_entry,
  entered, lookup_missing, lookup_from, insert_missing, insert_entry_directory,
}
use kaush_os.Ob.Names.Parts.{
  parts_from, parts, trailing, Short, name_of, Parsed, parse_directory_path-Parsed,
}
use kaush_os.Ob.Names.Walk.{
  at_path, is_mount, lookup_from_missing, lookup_from_next, entered-object,
}
use kaush_os.Ob.Names.Resolve.{
  resolve_file, resolve-missing, resolve_entry, found, no_name, no_path, missing, named, named-mem,
  resolve, WellFormed, find_entry-named,
}
use kaush_os.Ob.Names.Insert.{inserted, last_name}

-- The object was inserted into the directory by the last name of the path.
abbrev pub Inserts : Outcome Lookup → ℕ → ℕ → Text → List Text → NameSpace → Type 0
Inserts l d o p ps s =
    (c : Context) × (l ≡ ok (success, c, inserted d o (name_of (last_name p ps)) s))

insert_missing-Inserts :
    (dir o : ℕ) (p : Text) (c : Context) (s : NameSpace)
    → s.valid dir ≡ true
    → is_directory (s.object_type dir) ≡ true
    → s.linked o ≡ false
    → c.found_in ≡ dir
    → Inserts (insert_missing (some o) dir (name_of p) c s) dir o p [] s
unfolding insert_entry_directory
insert_missing-Inserts dir o p c s v d unlinked here =
    let same : (c.found_in == dir) ≡ true = ground (arith, here) in
    (c, rw (v, d, unlinked, same) refl)

lookup_missing-Inserts :
    (dir o : ℕ) (p rest : Text) (c : Context) (s : NameSpace)
    → s.valid dir ≡ true
    → is_directory (s.object_type dir) ≡ true
    → s.linked o ≡ false
    → Short (parts rest)
    → parts rest ≡ []
    → Inserts (lookup_missing (some o) dir (name_of p) rest c s) dir o p [] s
unfolding lookup_missing
lookup_missing-Inserts dir o p rest c s v d unlinked short empty =
    by_next (parse_directory_path-Parsed rest short)
  where
    by_next :
        ((r : Option (Name × Text)) × (parse_directory_path rest ≡ ok r) × Parsed rest r)
        → Inserts (lookup_missing (some o) dir (name_of p) rest c s) dir o p [] s
    by_next (none, e, _) =
        let (c1, e1) =
          insert_missing-Inserts dir o p (record c { found_in = dir; object = 0 }) s v d unlinked
            refl in
        (c1, rw (e, lookup_missing) e1)
    by_next (some next, e, (q, _, whole, _, _)) = cc

walk_ends : (s : NameSpace) (x : ℕ) (closed : Bool) (d : ℕ) → ¬ (resolve s x [] closed ≡ no_name d)
unfolding resolve
walk_ends s x closed d e = by_test (closed && not (is_directory (s.object_type x))) e
  where
    by_test : (b : Bool) → ¬ ((if b then no_path else found x) ≡ no_name d)
    by_test true e = cc
    by_test false e = cc

module _ (s : NameSpace) (w : WellFormed s) (o : ℕ) (unlinked : s.linked o ≡ false)
    (d fuel : ℕ) where
  abbrev Later : Type 0
  Later =
      (dir : ℕ) (path : Text) (c : Context) (p : Text) (ps : List Text)
      → s.valid dir ≡ true
      → Short (parts path)
      → strlen path < fuel
      → parts path ≡ p ∷ ps
      → resolve s dir (p ∷ ps) (trailing path) ≡ no_name d
      → Inserts (lookup_from fuel (some o) dir path success c s) d o p ps s

  entry-Inserts :
      (dir : ℕ) (path : Text) (c : Context) (p rest : Text) (x : ℕ) (ps : List Text)
      → Later
      → s.valid dir ≡ true
      → is_directory (s.object_type dir) ≡ true
      → parse_directory_path path ≡ ok (some (name_of p, rest))
      → find_entry (s.children dir) (name_of p) s ≡ some x
      → s.valid x ≡ true
      → Short (parts rest)
      → strlen rest < fuel
      → parts rest ≡ ps
      → resolve s x ps (trailing rest) ≡ no_name d
      → Inserts (lookup_from (suc fuel) (some o) dir path success c s) d o p ps s
  unfolding resolve parts_from
  entry-Inserts dir path c p rest x [] later v is_dir e f vx short lt empty lacks =
      absurd (walk_ends s x (trailing rest) d lacks)
  entry-Inserts dir path c p [] x (q ∷ qs) later v is_dir e f vx short lt whole lacks = cc
  entry-Inserts dir path c p (y ∷ ys) x (q ∷ qs) later v is_dir e f vx short lt whole lacks =
      let c1 = entered dir (at_path path c) x (is_mount x s) in
      let same : c1.object ≡ x = entered-object dir (at_path path c) x (is_mount x s) in
      let (c2, e2) = later x (y ∷ ys) c1 q qs vx short lt whole lacks in
      (
        c2,
        lookup_from_next fuel (some o) dir path success c s v is_dir (name_of p) x f vx y ys e
            ∙ ap (λ (a : ℕ). lookup_from fuel (some o) a (y ∷ ys) success c1 s) same
            ∙ e2,
      )

  last-Inserts :
      (dir : ℕ) (path : Text) (c : Context) (p rest : Text) (ps : List Text)
      → s.valid dir ≡ true
      → is_directory (s.object_type dir) ≡ true
      → parse_directory_path path ≡ ok (some (name_of p, rest))
      → find_entry (s.children dir) (name_of p) s ≡ none
      → Short (parts rest)
      → parts rest ≡ ps
      → missing dir ps ≡ no_name d
      → Inserts (lookup_from (suc fuel) (some o) dir path success c s) d o p ps s
  last-Inserts dir path c p rest [] v is_dir e f short empty lacks =
      let here : dir ≡ d = cc in
      let (c1, e1) =
        lookup_missing-Inserts dir o p rest (at_path path c) s v is_dir unlinked short empty in
      subst (λ (x : ℕ). Inserts (lookup_from (suc fuel) (some o) dir path success c s) x o p [] s)
        here
        (
          c1,
          lookup_from_missing fuel (some o) dir path success c s v is_dir (name_of p) rest e f ∙ e1,
        )
  last-Inserts dir path c p rest (q ∷ qs) v is_dir e f short whole lacks = cc

  round-Inserts :
      (dir : ℕ) (path : Text) (c : Context) (p : Text) (ps : List Text)
      → Later
      → s.valid dir ≡ true
      → is_directory (s.object_type dir) ≡ true
      → Short (parts path)
      → strlen path < suc fuel
      → parts path ≡ p ∷ ps
      → resolve s dir (p ∷ ps) (trailing path) ≡ no_name d
      → ((r : Option (Name × Text)) × (parse_directory_path path ≡ ok r) × Parsed path r)
      → Inserts (lookup_from (suc fuel) (some o) dir path success c s) d o p ps s
  round-Inserts dir path c p ps later v is_dir short lt whole lacks (none, e, (empty, _)) = cc
  round-Inserts dir path c p ps later v is_dir short lt whole lacks
        (some (name, rest), e, (p1, is_name, whole1, ends, less)) =
      let same_p : p1 ≡ p = cc in
      let same_ps : parts rest ≡ ps = cc in
      let (_, text, short_rest) : Short (p1 ∷ parts rest) = subst Short whole1 short in
      let e1 : parse_directory_path path ≡ ok (some (name_of p, rest)) =
        e ∙ ap (λ (n : Name). ok (some (n, rest))) (is_name ∙ ap name_of same_p) in
      let named_p = find_entry-named (s.children dir) p s w (subst IsText same_p text) in
      elim (Option-cases (named (s.children dir) p s)) [
        | inl absent ↦
            last-Inserts dir path c p rest ps v is_dir e1 (named_p ∙ absent) short_rest same_ps
              (sym (resolve-missing s dir p ps (trailing path) is_dir absent) ∙ lacks)
        | inr (x, there) ↦
            entry-Inserts dir path c p rest x ps later v is_dir e1 (named_p ∙ there)
              (w.entries dir x (named-mem (s.children dir) p s x there)) short_rest
              (omega (arith, less, lt)) same_ps
              (ap (resolve s x ps) (sym ends)
                ∙ sym (resolve_entry s dir p ps (trailing path) x is_dir there)
                ∙ lacks)
      ]

pub lookup_from-Inserts :
    (fuel : ℕ) (s : NameSpace) (o d dir : ℕ) (path : Text) (c : Context) (p : Text) (ps : List Text)
    → WellFormed s
    → s.linked o ≡ false
    → s.valid dir ≡ true
    → Short (parts path)
    → strlen path < fuel
    → parts path ≡ p ∷ ps
    → resolve s dir (p ∷ ps) (trailing path) ≡ no_name d
    → Inserts (lookup_from fuel (some o) dir path success c s) d o p ps s
lookup_from-Inserts zero s o d dir path c p ps w unlinked v short lt whole lacks =
    absurd (omega (arith, lt))
lookup_from-Inserts (suc fuel) s o d dir path c p ps w unlinked v short lt whole lacks =
    elim (Bool-cases (is_directory (s.object_type dir))) [
      | inl is_dir ↦
          round-Inserts s w o unlinked d fuel dir path c p ps
            (λ dir1 path1 c1 p1 ps1 v1 short1 lt1 whole1 lacks1.
              lookup_from-Inserts fuel s o d dir1 path1 c1 p1 ps1 w unlinked v1 short1 lt1 whole1
                lacks1)
            v is_dir short lt whole lacks (parse_directory_path-Parsed path short)
      | inr file ↦ cc (resolve_file s dir (p ∷ ps) (trailing path) file (λ h. cc))
    ]
