-- ===== src/Approval/Hash/Order.antt =====
-- The order of the items does not change the hash (approval.go).
use algebra.Prelude.{ℕ, Bool, List, bytes}
use algebra.Approval.Hash.{HashableItem, bytes_less}

abbrev key : HashableItem → List ℕ
key x = bytes x.merchant_product_id

abbrev before : HashableItem → HashableItem → Bool
before x y = bytes_less (key x) (key y)
