-- ===== src/Ob/Names/Lookup.antt =====
-- ObpLookupObjectByName against the walk along the parts of a path.
use kaush_os.Base.{
  ℕ, zero, suc, ◌<◌, ◌≡◌, ◌≢◌, refl, sym, ap, ◌∙◌, subst, true, false, Option, none, some, List, [],
  ◌∷◌, ◌==◌, ◌!=◌, Bool-cases, Option-cases, inl, inr, arith,
}
use kaush_os.Base.Outcome.{Outcome, ok, assert-pass}
use kaush_os.Strings.{Text, strlen}
use kaush_os.Ob.Names.{
  Name, NameSpace, Context, success, Lookup, is_directory, parse_directory_path, find_entry,
  entered, lookup_missing, lookup_from, lookup_object_by_name,
}
use kaush_os.Ob.Names.Parts.{
  parts_from, parts, trailing, Short, name_of, Parsed, parse_directory_path-Parsed,
}
use kaush_os.Ob.Names.Walk.{
  at_path, is_mount, lookup_from_file, lookup_from_end, lookup_from_missing, lookup_from_last,
  lookup_from_next, entered-object,
}
use kaush_os.Ob.Names.Resolve.{
  Resolved, missing, named, named-mem, resolve, resolve_file, resolve_end, resolve-missing,
  resolve_entry, WellFormed, find_entry-named, status_of, Agrees, Resolves,
}

-- A round at the end of a path has entered the object there, which a separator follows.
abbrev AtEnd : Text → ℕ → Context → Type 0
AtEnd path dir c = parts path ≡ [] → (c.object ≡ dir) × (trailing path ≡ true)

-- Behind a name of a path: the path ends there, or its rest has parts, or it ends in separators.
ends_closed :
    (x : ℕ) (xs : Text) → Short (parts (x ∷ xs)) → parts (x ∷ xs) ≡ [] → trailing (x ∷ xs) ≡ true
ends_closed x xs short e = closed_of (parse_directory_path-Parsed (x ∷ xs) short)
  where
    closed_of :
        ((r : Option (Name × Text)) × (parse_directory_path (x ∷ xs) ≡ ok r) × Parsed (x ∷ xs) r)
        → trailing (x ∷ xs) ≡ true
    closed_of (none, _, (_, inl empty)) = cc
    closed_of (none, _, (_, inr closed)) = closed
    closed_of (some (name, rest), _, (p, _, whole, _, _)) = cc

lookup_missing-Resolves :
    (dir : ℕ) (name : Name) (rest : Text) (c : Context) (s : NameSpace)
    → Short (parts rest)
    → Resolves (lookup_missing none dir name rest c s) (missing dir (parts rest)) s
unfolding lookup_missing
lookup_missing-Resolves dir name rest c s short = by_next (parse_directory_path-Parsed rest short)
  where
    by_next :
        ((r : Option (Name × Text)) × (parse_directory_path rest ≡ ok r) × Parsed rest r)
        → Resolves (lookup_missing none dir name rest c s) (missing dir (parts rest)) s
    by_next (none, e, (empty, _)) =
        let c1 = record c { found_in = dir; object = 0 } in
        rw empty (c1, rw (e, lookup_missing) refl, (refl, refl))
    by_next (some next, e, (p, _, whole, _, _)) =
        let c1 = record c { found_in = dir; object = 0 } in
        rw whole (c1, rw (e, lookup_missing) refl, refl)

Resolves-of :
    {l l' : Outcome Lookup} {r r' : Resolved} {s : NameSpace}
    → l ≡ l'
    → r ≡ r'
    → Resolves l' r' s
    → Resolves l r s
Resolves-of {s} el er (c, e, agrees) = (
  c,
  el ∙ e ∙ ap (λ (r : Resolved). ok (status_of r, c, s)) (sym er),
  subst (λ (r : Resolved). Agrees r c) (sym er) agrees,
)

module _ (s : NameSpace) (w : WellFormed s) (fuel : ℕ) where
  -- The rounds behind this one.
  abbrev Later : Type 0
  Later =
      (dir : ℕ) (path : Text) (c : Context)
      → s.valid dir ≡ true
      → Short (parts path)
      → strlen path < fuel
      → AtEnd path dir c
      → Resolves (lookup_from fuel none dir path success c s)
          (resolve s dir (parts path) (trailing path)) s

  entry-Resolves :
      (dir : ℕ) (path : Text) (c : Context) (p rest : Text) (o : ℕ)
      → Later
      → s.valid dir ≡ true
      → is_directory (s.object_type dir) ≡ true
      → parse_directory_path path ≡ ok (some (name_of p, rest))
      → find_entry (s.children dir) (name_of p) s ≡ some o
      → s.valid o ≡ true
      → Short (parts rest)
      → strlen rest < fuel
      → Resolves
          (lookup_from (suc fuel) none dir path success c s)
          (resolve s o (parts rest) (trailing rest))
          s
  unfolding parts_from resolve
  entry-Resolves dir path c p [] o later v d e f vo short lt =
      let c1 = entered dir (at_path path c) o (is_mount o s) in
      (
        c1,
        lookup_from_last fuel none dir path success c s v d (name_of p) o f vo e,
        entered-object dir (at_path path c) o (is_mount o s),
      )
  entry-Resolves dir path c p (x ∷ xs) o later v d e f vo short lt =
      let c1 = entered dir (at_path path c) o (is_mount o s) in
      let same : c1.object ≡ o = entered-object dir (at_path path c) o (is_mount o s) in
      Resolves-of
        (lookup_from_next fuel none dir path success c s v d (name_of p) o f vo x xs e
          ∙ ap (λ (a : ℕ). lookup_from fuel none a (x ∷ xs) success c1 s) same)
        refl (later o (x ∷ xs) c1 vo short lt (λ empty. (same, ends_closed x xs short empty)))

  round-Resolves :
      (dir : ℕ) (path : Text) (c : Context)
      → Later
      → s.valid dir ≡ true
      → is_directory (s.object_type dir) ≡ true
      → Short (parts path)
      → strlen path < suc fuel
      → AtEnd path dir c
      → ((r : Option (Name × Text)) × (parse_directory_path path ≡ ok r) × Parsed path r)
      → Resolves
          (lookup_from (suc fuel) none dir path success c s)
          (resolve s dir (parts path) (trailing path))
          s
  round-Resolves dir path c later v d short lt at_end (none, e, (empty, _)) =
      Resolves-of (lookup_from_end fuel none dir path success c s v d e)
        (resolve_end s dir (parts path) (trailing path) d empty)
        (at_path path c, refl, (at_end empty).0)
  round-Resolves dir path c later v d short lt at_end
        (some (name, rest), e, (p, is_name, whole, ends, less)) =
      let (small, text, short_rest) : Short (p ∷ parts rest) = subst Short whole short in
      let e1 : parse_directory_path path ≡ ok (some (name_of p, rest)) =
        e ∙ ap (λ (n : Name). ok (some (n, rest))) is_name in
      let named_p = find_entry-named (s.children dir) p s w text in
      elim (Option-cases (named (s.children dir) p s)) [
        | inl absent ↦
            Resolves-of
              (lookup_from_missing fuel none dir path success c s v d (name_of p) rest e1
                (named_p ∙ absent))
              (ap (λ (ps : List Text). resolve s dir ps (trailing path)) whole
                ∙ resolve-missing s dir p (parts rest) (trailing path) d absent)
              (lookup_missing-Resolves dir (name_of p) rest (at_path path c) s short_rest)
        | inr (o, there) ↦
            Resolves-of refl
              (ap (λ (ps : List Text). resolve s dir ps (trailing path)) whole
                ∙ resolve_entry s dir p (parts rest) (trailing path) o d there
                ∙ ap (resolve s o (parts rest)) ends)
              (entry-Resolves dir path c p rest o later v d e1 (named_p ∙ there)
                (w.entries dir o (named-mem (s.children dir) p s o there)) short_rest
                (omega (arith, less, lt)))
      ]

lookup_from-Resolves :
    (fuel : ℕ) (s : NameSpace) (dir : ℕ) (path : Text) (c : Context)
    → WellFormed s
    → s.valid dir ≡ true
    → Short (parts path)
    → strlen path < fuel
    → AtEnd path dir c
    → Resolves
        (lookup_from fuel none dir path success c s)
        (resolve s dir (parts path) (trailing path))
        s
lookup_from-Resolves zero s dir path c w v short lt at_end = absurd (omega (arith, lt))
lookup_from-Resolves (suc fuel) s dir path c w v short lt at_end =
    elim (Bool-cases (is_directory (s.object_type dir))) [
      | inl d ↦
          round-Resolves s w fuel dir path c
            (λ dir1 path1 c1 v1 short1 lt1 at_end1.
              lookup_from-Resolves fuel s dir1 path1 c1 w v1 short1 lt1 at_end1)
            v d short lt at_end (parse_directory_path-Parsed path short)
      | inr file ↦
          Resolves-of (lookup_from_file fuel none dir path success c s v file)
            (resolve_file s dir (parts path) (trailing path) file (λ empty. (at_end empty).1))
            (_, refl, refl)
    ]

-- ObpLookupObjectByName, called to find an object from one that is valid, in a well-formed name
-- space, for a path that has a part and whose parts fit into a name, with a root directory and a
-- buffer for a name: it returns, leaves the name space as it was, and finds what the walk along the
-- parts finds. That is STATUS_SUCCESS and the object; STATUS_OBJECT_NAME_NOT_FOUND and the directory
-- that lacks the last name; or STATUS_OBJECT_PATH_NOT_FOUND and no object, where an earlier name is
-- missing or what should be a directory is none.
pub lookup_object_by_name-Resolves :
    (s : NameSpace) (parent : ℕ) (path : Text) (c : Context)
    → WellFormed s
    → (s.root_directory == 0) ≡ false
    → (parent == 0) ≡ false
    → s.valid parent ≡ true
    → Short (parts path)
    → parts path ≢ []
    → Resolves
        (lookup_object_by_name true parent path c none s)
        (resolve s parent (parts path) (trailing path))
        s
unfolding lookup_object_by_name
lookup_object_by_name-Resolves s parent path c w root some_parent v short has_part =
    Resolves-of
      (assert-pass {b = s.root_directory != 0} _ (ground (arith, root))
        ∙ assert-pass {b = parent != 0} _ (ground (arith, some_parent)))
      refl
      (lookup_from-Resolves (suc (strlen path)) s parent path c w v short (omega arith)
        (λ empty. absurd (has_part empty)))
