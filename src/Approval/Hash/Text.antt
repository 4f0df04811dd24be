-- ===== src/Approval/Hash/Text.antt =====
-- The canonical text does not keep the items apart (approval.go).
use algebra.Prelude.{ℕ, List, ◌∷◌, ◌++◌, bytes}
use algebra.Approval.Decimal.{decimal}
use algebra.Approval.Hash.{HashableItem}

-- The product id that spells the item `a` and the id of `b`.
abbrev pub spelled : HashableItem → HashableItem → List ℕ
spelled a b =
    bytes a.merchant_product_id
    ++ (b':'
        ∷ (decimal a.quantity
            ++ (b':'
                ∷ (decimal a.unit_price_minor_units
                    ++ (b';' ∷ (bytes "item=" ++ bytes b.merchant_product_id))))))
