-- ===== src/KList/Remove.antt =====
-- LIST_REMOVE, LIST_REMOVE_HEAD and LIST_REMOVE_TAIL on the lists that they stand for.
use mathlib.Core.List.{append-nil}
use kaush_os.Base.{
  ℕ, ◌+◌, ◌-◌, ◌%◌, ◌^◌, ◌<◌, ◌≡◌, refl, sym, ap, subst, false, List, [], ◌∷◌, ◌++◌, arith, ◌==◌,
  if◌then◌else◌, length, length-append, ◌∈◌, has-append, erase, Distinct-snoc, mem_split,
  Distinct-append, ◌∙◌, Bool-cases, inl, inr, eqb→eq, Distinct-drop, erase-snoc,
}
use kaush_os.KList.{KList, null, list_empty, list_last, list_next, remove, remove_head, remove_tail}
use kaush_os.KList.Ring.{
  Leads, last_of-mem, Leads-split, Leads-append, prev-last_of, next-mem, last_of-snoc,
}
use kaush_os.KList.Refine.{IsList, list_empty-nil, list_empty-cons}
use kaush_os.KList.Unlink.{Unlinked, Leads-Unlinked}

-- The links after LIST_REMOVE, where the element's neighbours are other elements.
remove-Unlinked :
    (e p n : ℕ) (l : KList)
    → l.links.le_prev e ≡ p
    → l.links.le_next e ≡ n
    → (e == p) ≡ false
    → (e == n) ≡ false
    → Unlinked l.links (remove e l).links p n
unfolding remove
remove-Unlinked e p n l hp hn ep en = record {
  next_prev = ground arith;
  next_rest = ground arith;
  prev_next = ground arith;
  prev_rest = ground arith;
}

remove-count :
    (e : ℕ) (l : KList)
    → (remove e l).number_of_elements ≡ (l.number_of_elements + 2 ^ 32 - 1) % 2 ^ 32
unfolding remove
remove-count e l = ground arith

remove-first :
    (e : ℕ) (l : KList)
    → (remove e l).lh_first ≡ (if e == l.lh_first then list_next l e else l.lh_first)
unfolding remove
remove-first e l = ground arith

-- The whole ring without an element other than the first.
remove-rest :
    {l : KList} (x e : ℕ) (ys zs : List ℕ)
    → IsList l (x ∷ ys ++ e ∷ zs)
    → Leads (remove e l).links x (ys ++ zs) x
remove-rest {l} x e ys zs is =
    let (q, r) = Leads-split l.links x e x ys zs is.ring in
    let (_, dz, apart) = Distinct-append ys (e ∷ zs) is.distinct.1 in
    Leads-Unlinked x e x ys zs
      (remove-Unlinked e (l.links.le_prev e) (l.links.le_next e) l refl refl
        (ground (
          arith,
          prev-last_of l.links x e ys q,
          last_of-mem x ys,
          has-append x ys (e ∷ zs),
          is.distinct.0,
          apart e,
        ))
        (ground (arith, next-mem l.links e x zs r, has-append x ys (e ∷ zs), is.distinct.0)))
      is.ring refl refl is.distinct.0 is.distinct.0 is.distinct.1

-- The ring without its first element.
remove-front :
    {l : KList} (x y : ℕ) (zs : List ℕ) → IsList l (x ∷ y ∷ zs) → Leads (remove x l).links y zs y
remove-front {l} x y zs is =
    let p = prev-last_of l.links y x zs is.ring.1 in
    rw (sym (append-nil zs)) (
      Leads-Unlinked y x y zs []
        (remove-Unlinked x (l.links.le_prev x) (l.links.le_next x) l refl refl
          (ground (arith, p, last_of-mem y zs, is.distinct.0))
          (ground (arith, is.ring.0.0, is.distinct.0)))
        (Leads-append l.links y x y zs [] is.ring.1 is.ring.0) refl refl
        (ground (arith, has-append y zs (x ∷ []), is.distinct.0, is.distinct.1.0))
        (ground (arith, has-append y zs (x ∷ []), is.distinct.0, is.distinct.1.0))
        (Distinct-snoc zs x is.distinct.1.1 (ground (arith, is.distinct.0))))

remove_front-IsList :
    {l : KList} (x : ℕ) (xs : List ℕ)
    → IsList l (x ∷ xs)
    → length xs + 1 < 2 ^ 32
    → IsList (remove x l) xs
unfolding list_next
remove_front-IsList {l} x [] is bound = record {
  first = rw (remove-first x l) (ground (arith, is.first, is.ring));
  count = omega (arith, remove-count x l, is.count);
  ring = tt;
  distinct = tt;
  not_null = refl;
}
remove_front-IsList {l} x (y ∷ zs) is bound = record {
  first = rw (remove-first x l) (ground (arith, is.first, is.ring.0, is.distinct.0));
  count = omega (arith, remove-count x l, is.count);
  ring = remove-front x y zs is;
  distinct = is.distinct.1;
  not_null = ground (arith, is.not_null);
}

remove_rest-IsList :
    {l : KList} (x e : ℕ) (ys zs : List ℕ)
    → IsList l (x ∷ ys ++ e ∷ zs)
    → length (x ∷ ys ++ e ∷ zs) < 2 ^ 32
    → IsList (remove e l) (x ∷ ys ++ zs)
remove_rest-IsList {l} x e ys zs is bound = record {
  first = rw (remove-first e l) (ground (arith, is.first, is.distinct.0, has-append x ys (e ∷ zs)));
  count = omega (arith, remove-count e l, is.count, length-append ys (e ∷ zs), length-append ys zs);
  ring = remove-rest x e ys zs is;
  distinct = Distinct-drop (x ∷ ys) zs e is.distinct;
  not_null = ground (arith, is.not_null, has-append null ys (e ∷ zs), has-append null ys zs);
}

-- LIST_REMOVE takes an element of the list out and leaves the others in their order.
pub remove-erase :
    {l : KList} (xs : List ℕ) (e : ℕ)
    → IsList l xs
    → e ∈ xs
    → length xs < 2 ^ 32
    → IsList (remove e l) (erase e xs)
unfolding erase
remove-erase {l} [] e is m bound = cc
remove-erase {l} (x ∷ xs) e is m bound = elim (Bool-cases (e == x)) [
  | inl h ↦ rw h (rw (eqb→eq e x h) (remove_front-IsList x xs is (omega (arith, bound))))
  | inr h ↦
      let (ys, zs, p, q) = mem_split e xs (ground arith) in
      rw (h, q)
        (remove_rest-IsList x e ys zs (subst (λ t. IsList l (x ∷ t)) p is)
          (subst (λ t. length (x ∷ t) < 2 ^ 32) p bound))
]

-- LIST_REMOVE_HEAD on a list that is not empty gives the first element and leaves the others.
pub remove_head-cons :
    {l : KList} (x : ℕ) (xs : List ℕ)
    → IsList l (x ∷ xs)
    → length xs + 1 < 2 ^ 32
    → ((remove_head l).1 ≡ x) × IsList (remove_head l).0 xs
unfolding remove_head
remove_head-cons {l} x xs is bound = rw (list_empty-cons is) (
  is.first,
  subst (λ t. IsList (remove t l) xs) (sym is.first) (remove_front-IsList x xs is bound),
)

pub remove_head-nil : {l : KList} → IsList l [] → remove_head l ≡ (l, null)
unfolding remove_head
remove_head-nil is = rw (list_empty-nil is)

list_last-snoc : {l : KList} (xs : List ℕ) (e : ℕ) → IsList l (xs ++ e ∷ []) → list_last l ≡ e
unfolding list_last
list_last-snoc {l} [] e is = rw (list_empty-cons is) (ground (arith, is.first, is.ring))
list_last-snoc {l} (x ∷ xs) e is = rw (list_empty-cons is) (
    ap l.links.le_prev is.first
    ∙ prev-last_of l.links x x (xs ++ e ∷ []) is.ring
    ∙ last_of-snoc x e xs)

list_empty-snoc : {l : KList} (xs : List ℕ) (e : ℕ) → IsList l (xs ++ e ∷ []) → list_empty l ≡ false
list_empty-snoc [] e is = list_empty-cons is
list_empty-snoc (x ∷ xs) e is = list_empty-cons is

-- LIST_REMOVE_TAIL on a list that is not empty gives the last element and leaves the others.
pub remove_tail-snoc :
    {l : KList} (xs : List ℕ) (e : ℕ)
    → IsList l (xs ++ e ∷ [])
    → length xs + 1 < 2 ^ 32
    → ((remove_tail l).1 ≡ e) × IsList (remove_tail l).0 xs
unfolding remove_tail
remove_tail-snoc {l} xs e is bound =
    rw (list_empty-snoc xs e is, list_last-snoc xs e is)
      (
        refl,
        subst (IsList (remove e l))
            (erase-snoc xs e ((Distinct-append xs (e ∷ []) is.distinct).2 e (ground arith)))
            (remove-erase (xs ++ e ∷ []) e is (ground (arith, has-append e xs (e ∷ [])))
              (omega (arith, length-append xs (e ∷ [])))),
      )
