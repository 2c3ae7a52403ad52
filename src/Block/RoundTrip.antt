-- ===== src/Block/RoundTrip.antt =====
-- A block survives `to_dict` and `from_dict`.
use blockchain_messaging_pro.Common.{◌≡◌, refl, ok}
use blockchain_messaging_pro.Json.{get_field}
use blockchain_messaging_pro.Block.{
  Block, to_dict, from_dict, num_at, float_at, str_at, obj_at, str_or,
}

-- `Block.from_dict` reads back every block from the dictionary that `to_dict` makes of it.
pub from_dict-to_dict : (b : Block) → from_dict (to_dict b) ≡ ok b
unfolding from_dict to_dict num_at float_at str_at obj_at str_or get_field
from_dict-to_dict b = refl
