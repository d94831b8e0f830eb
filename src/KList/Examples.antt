-- ===== src/KList/Examples.antt =====
-- The macros on a list of two elements.
use kaush_os.Base.{[], ◌∷◌, refl, ◌==◌, if◌then◌else◌, erase, arith}
use kaush_os.Base.Outcome.{Returns}
use kaush_os.KList.{KList, remove, insert_tail}
use kaush_os.KList.Refine.{IsList, insert_tail-append}
use kaush_os.KList.Remove.{remove-erase}

abbrev two : KList
two = record {
  lh_first = 8;
  number_of_elements = 2;
  links = record {
    le_next = λ p. if p == 8 then 16 else 8;
    le_prev = λ p. if p == 8 then 16 else 8;
  };
}

two-IsList : IsList two (8 ∷ 16 ∷ [])
two-IsList = record {
  first = refl;
  count = ground arith;
  ring = ((refl, refl), (refl, refl));
  distinct = ground arith;
  not_null = refl;
}

insert_tail-append_example : Returns (λ g. IsList g (8 ∷ 16 ∷ 24 ∷ [])) (insert_tail 24 two)
insert_tail-append_example =
    insert_tail-append (8 ∷ 16 ∷ []) 24 two-IsList refl (omega arith) (omega arith)

remove-erase_example : IsList (remove 16 two) (erase 16 (8 ∷ 16 ∷ []))
remove-erase_example = remove-erase (8 ∷ 16 ∷ []) 16 two-IsList refl (omega arith)
