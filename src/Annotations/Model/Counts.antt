-- ===== src/Annotations/Model/Counts.antt =====
-- The counts over the store (`stats` of model.js).
use open_webbridge.Base.{
  ℕ, ◌+◌, ◌≡◌, refl, Text, text_keys, length, filter, lookup, insert, Table, or_else, List, [], ◌∷◌,
  arith,
}
use open_webbridge.Annotations.Record.{Annotation}
use open_webbridge.Annotations.Model.{Stats, page_of, count_item, count_items, stats, is_resolved}

-- The records of all pages together.
abbrev pub on_pages : Table Text ℕ → ℕ
on_pages [] = 0
on_pages ((_, n) ∷ m) = n + on_pages m

on_pages-insert :
    (k : Text) (m : Table Text ℕ)
    → on_pages (insert k (or_else (lookup k m) 0 + 1) m) ≡ on_pages m + 1
unfolding insert lookup
on_pages-insert k [] = refl
on_pages-insert k ((j, n) ∷ m) = ground (arith, on_pages-insert k m)

module _ {F : Type 0} where
  -- The loop adds to each count the records that it is about.
  count_items-adds :
      (s : Stats) (items : List (Annotation F))
      → ((count_items s items).total ≡ s.total)
        × ((count_items s items).resolved ≡ s.resolved + length (filter is_resolved items))
        × ((count_items s items).open_count + (count_items s items).resolved
            ≡ s.open_count + s.resolved + length items)
        × ((count_items s items).with_screenshot
            ≡ s.with_screenshot + length (filter (λ it. it.has_screenshot) items))
        × (on_pages (count_items s items).pages ≡ on_pages s.pages + length items)
  unfolding count_items
  count_items-adds s [] = ground arith
  count_items-adds s (it ∷ rest) =
      ground (arith, count_items-adds (count_item s it) rest, on_pages-insert (page_of it) s.pages)

  -- Every record is counted once as open or resolved, the resolved and the illustrated ones are
  -- those that say so, and every record is counted on one page.
  pub stats-adds :
      (items : List (Annotation F))
      → ((stats items).open_count + (stats items).resolved ≡ (stats items).total)
        × ((stats items).total ≡ length items)
        × ((stats items).resolved ≡ length (filter is_resolved items))
        × ((stats items).with_screenshot ≡ length (filter (λ it. it.has_screenshot) items))
        × (on_pages (stats items).pages ≡ length items)
  unfolding stats
  stats-adds items = ground (
    arith,
    count_items-adds
        (record {
          total = length items;
          open_count = 0;
          resolved = 0;
          with_screenshot = 0;
          pages = [];
        })
        items,
  )
