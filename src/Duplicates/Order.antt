-- ===== src/Duplicates/Order.antt =====
-- The order of ranks is a total preorder.
use ani_vault.Base.{◌≡◌, true, false, arith}
use ani_vault.Base.Int.{ℤ}
use ani_vault.Duplicates.{Rank, leb_pair, leb_rank}

pair_total : (p q : ℤ × ℤ) → leb_pair p q ≡ false → leb_pair q p ≡ true
pair_total (a, b) (c, d) h = ground arith

pair_trans : (p q r : ℤ × ℤ) → leb_pair p q ≡ true → leb_pair q r ≡ true → leb_pair p r ≡ true
pair_trans (a, b) (c, d) (e, f) h k = ground arith

pub rank_total : (p q : Rank) → leb_rank p q ≡ false → leb_rank q p ≡ true
unfolding leb_rank
rank_total (a, b, c) (a', b', c') h = ground (arith, pair_total (b, c) (b', c'))

pub rank_trans : (p q r : Rank) → leb_rank p q ≡ true → leb_rank q r ≡ true → leb_rank p r ≡ true
unfolding leb_rank
rank_trans (a, b, c) (a', b', c') (a'', b'', c'') h k =
    ground (arith, pair_trans (b, c) (b', c') (b'', c''))
