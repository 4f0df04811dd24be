-- ===== src/Approval/Hash.antt =====
-- `CanonicalHash` of approval.go over the bytes of its texts.
pub mod Order
pub mod Text
use algebra.Prelude.{
  ℕ, String, Bool, true, false, List, [], ◌∷◌, ◌++◌, ◌≡◌, bytes, ltb, ◌==◌, if◌then◌else◌,
}
use algebra.Prelude.Int.{ℤ}
use algebra.Approval.Decimal.{decimal}

pub record HashableItem : Type 0 where
  pub merchant_product_id : String
  pub quantity : ℤ
  pub unit_price_minor_units : ℤ

-- `<` on Go strings.
unfoldable pub bytes_less : List ℕ → List ℕ → Bool
bytes_less s [] = false
bytes_less [] (d ∷ t) = true
bytes_less (c ∷ s) (d ∷ t) =
    let rest = bytes_less s t in if ltb c d then true else if c == d then rest else false

-- `sort.Slice` by the product's id. Items with one id keep their order here, which the source leaves
-- open.
unfoldable pub insert_item : HashableItem → List HashableItem → List HashableItem
insert_item x [] = x ∷ []
insert_item x (y ∷ ys) =
    let later = y ∷ insert_item x ys in
    if bytes_less (bytes y.merchant_product_id) (bytes x.merchant_product_id)
    then later
    else x ∷ y ∷ ys

unfoldable pub sort_items : List HashableItem → List HashableItem
sort_items [] = []
sort_items (x ∷ xs) = insert_item x (sort_items xs)

unfoldable pub item_text : HashableItem → List ℕ
item_text it =
    bytes "item="
    ++ (bytes it.merchant_product_id
        ++ (b':'
            ∷ (decimal it.quantity ++ (b':' ∷ (decimal it.unit_price_minor_units ++ b';' ∷ [])))))

unfoldable pub items_text : List HashableItem → List ℕ
items_text [] = []
items_text (it ∷ rest) = item_text it ++ items_text rest

unfoldable pub canonical_text : String → List HashableItem → String → String → List ℕ
canonical_text merchant items currency alias =
    bytes "merchant="
    ++ (bytes merchant
        ++ (b';'
            ∷ (items_text (sort_items items)
                ++ (bytes "currency=" ++ (bytes currency ++ (bytes ";payment=" ++ bytes alias))))))

module _ (sha256_hex : List ℕ → String) where
  unfoldable pub canonical_hash : String → List HashableItem → String → String → String
  canonical_hash merchant items currency alias =
      sha256_hex (canonical_text merchant items currency alias)
