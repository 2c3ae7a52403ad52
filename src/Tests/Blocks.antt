-- ===== src/Tests/Blocks.antt =====
-- Blocks: mining, validation and the stored form.
use blockchain_messaging_pro.Common.{◌≡◌, refl, some}
use blockchain_messaging_pro.Block.{new_block, calculate_hash, Block, mine, has_work}
use blockchain_messaging_pro.Tests.{toy, genesis}

genesis_mined : mine toy 5 1 genesis ≡ some genesis
unfolding mine has_work new_block calculate_hash
genesis_mined = refl
