-- ===== src/Values/Header.antt =====
-- Headers: the words that the runtime writes as `tag | (size << 10)`.
use certirocq.Prelude.{ℕ, ◌+◌, ◌*◌, ◌%◌, ◌^◌, ◌<◌, ◌≡◌, bit_or, not, ◌==◌, arith}
use certirocq.Word.{bit_and_mask, bit_or_fields, ◌<<<◌}
use certirocq.Values.{is_long, is_block, tag_hd, wosize_hd}

pub tag_hd-mod : (hd : ℕ) → tag_hd hd ≡ hd % 256
unfolding tag_hd
tag_hd-mod hd = bit_and_mask 8 hd

pub is_block-mod : (x : ℕ) → is_block x ≡ (x % 2 == 0)
unfolding is_block
is_block-mod x = rw (bit_and_mask 1 x)

pub is_long-not : (x : ℕ) → is_long x ≡ not (is_block x)
unfolding is_long is_block
is_long-not x = ground arith

-- A header made of a tag and a size gives both back.
pub header_fields :
    (size tag : ℕ)
    → size < 2 ^ 54
    → tag < 256
    → (tag_hd (bit_or (size <<< 10) tag) ≡ tag) × (wosize_hd (bit_or (size <<< 10) tag) ≡ size)
unfolding wosize_hd
header_fields size tag hs ht =
    ground (arith, bit_or_fields 10 size tag (omega arith), tag_hd-mod (size * 2 ^ 10 + tag))
