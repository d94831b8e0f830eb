-- ===== src/Mm/Boot/Examples.antt =====
-- A boot with 1300 kilobytes in front of the free memory.
use kaush_os.Base.{ℕ, ◌+◌, ◌≡◌, refl, false, ◌&&◌, arith, [], has, ltb, leb}
use kaush_os.Base.Outcome.{Outcome, ok}
use kaush_os.Mm.Pages.{Memory, kernel_base}
use kaush_os.Mm.Pages.Accounting.{Accounted}
use kaush_os.Mm.Pages.Examples.{calm_entries, only_boot}
use kaush_os.Mm.Boot.{init_pfn_database, boot_va_to_pa, number_of_physical_pages}
use kaush_os.Mm.Boot.Frames.{
  BootEntries, boot_references, first_free_page, init_pfn_database-Accounted,
}

abbrev blank : Memory
blank = record {
  ref_count = λ f. 0;
  pte_address = λ f. 0;
  pfn_free_list = [];
  entries = calm_entries;
  testing_on = false;
}

abbrev freemem : ℕ
freemem = kernel_base + 1331200

abbrev memory_of : Outcome Memory → Memory
memory_of (ok m) = m
memory_of x = blank

booted : init_pfn_database freemem blank ≡ ok (memory_of (init_pfn_database freemem blank))
unfolding init_pfn_database boot_va_to_pa
booted = refl

entries_at_boot : BootEntries calm_entries
entries_at_boot = record {
  only = λ i h. only_boot i h;
  words = λ i. ground arith;
  self_map = refl;
  absent = λ i lt h. ground (arith, h, lt);
  clean = λ i h. ground (arith, h);
}

init_pfn_database-Accounted_example :
    Accounted
      (boot_references (first_free_page freemem) blank)
      (record (memory_of (init_pfn_database freemem blank)) { entries = calm_entries })
    × ((g : ℕ)
        → has g (memory_of (init_pfn_database freemem blank)).pfn_free_list
          ≡ (leb (first_free_page freemem) g && ltb g number_of_physical_pages))
init_pfn_database-Accounted_example =
    init_pfn_database-Accounted freemem blank _ calm_entries entries_at_boot (omega arith)
      (λ g. omega arith) booted
