-- ===== src/Routes/SkuLibrary/Laws.antt =====
-- The SKUs of the library.
use jtfp_cloudrun.Base.{String, ◌≡◌, refl, ap, ◌∙◌, Option, List, [], ◌∷◌, ◌++◌, map, filter, take}
use jtfp_cloudrun.Base.Int.{ℤ, ◌*ℤ◌, ◌+ℤ◌, ◌-ℤ◌}
use jtfp_cloudrun.Base.Sort.{sort}
use jtfp_cloudrun.Base.Slice.{slice-pos}
use jtfp_cloudrun.Js.Objects.{Row, get}
use jtfp_cloudrun.Store.Table.{products, product_skus, table_eq}
use jtfp_cloudrun.Store.State.{Process, rows, load_data, get_table, write_rows, contents}
use jtfp_cloudrun.Store.Views.{cached-load_data, rows-load_data}
use jtfp_cloudrun.Store.Changes.{find_all-rows}
use jtfp_cloudrun.Repositories.Paging.{page_of, page_size, sort_table}
use jtfp_cloudrun.Repositories.Products.{
  list, list_filters, is_unfiltered, product_order, larger_first, of_product, get_skus,
}
use jtfp_cloudrun.Routes.SkuLibrary.{all_products, skus_of, with_title, sku_page, get_sku_library}

-- The SKUs of some products in turn, each product's in their order, under the product's title.
unfoldable pub skus_by_product : List Row → List Row → List Row
skus_by_product [] skus = []
skus_by_product (product ∷ rest) skus =
    map (with_title product)
      (sort (larger_first "sort_order") (filter (of_product (get "id" product)) skus))
    ++ skus_by_product rest skus

skus_of-rows :
    (ps : List Row) (now : String) (s : Process)
    → (skus_of ps now s).0 ≡ skus_by_product ps (rows product_skus s)
unfolding skus_of skus_by_product get_skus
skus_of-rows [] now s = refl
skus_of-rows (p ∷ ps) now s = rw find_all-rows (
    ap
      (◌++◌ (
        map (with_title p) (
          sort (larger_first "sort_order")
            (filter (of_product (get "id" p)) (rows product_skus s)))))
      (skus_of-rows ps now (load_data now s)
        ∙ ap (skus_by_product ps) (rows-load_data product_skus now s)))

module _ (to_lower_case : String → String) (now : String) (s : Process) where
  -- A query for ten thousand products finds the first hundred.
  listed :
      (list to_lower_case all_products now s).0.page_rows
      ≡ take 100 (sort product_order (rows products s))
  unfolding list list_filters page_of page_size is_unfiltered sort_table get_table ◌*ℤ◌ ◌+ℤ◌ ◌-ℤ◌
  listed =
      slice-pos 0 100 _
      ∙ ap (λ rs. take 100 (sort product_order rs)) (cached-load_data products now s)

  listed-skus : rows product_skus (list to_lower_case all_products now s).1 ≡ rows product_skus s
  unfolding list list_filters is_unfiltered sort_table get_table table_eq write_rows rows contents
      load_data
  listed-skus = cached-load_data product_skus now s

  -- The SKU library, whatever page is asked for, has the SKUs of the first hundred products in the
  -- order of the product list, and of no others, and its total counts only these.
  pub get_sku_library-first_hundred :
      (page size : Option ℤ)
      → (get_sku_library to_lower_case page size now s).0
        ≡ sku_page page size (
            skus_by_product (take 100 (sort product_order (rows products s))) (rows product_skus s))
  unfolding get_sku_library
  get_sku_library-first_hundred page size = ap (sku_page page size) (
      skus_of-rows (list to_lower_case all_products now s).0.page_rows now
        (list to_lower_case all_products now s).1
      ∙ rw (listed, listed-skus))
