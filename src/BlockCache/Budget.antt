-- ===== src/BlockCache/Budget.antt =====
-- lib/copernicus_decoded_block_cache.h: `CopernicusDecodedBlockBudget` and
-- `CopernicusTemporaryDecodeReservation`.
use aowis_server_map.Prelude.{
  ℕ, ◌+◌, ◌-◌, ◌≤◌, ◌≡◌, Bool, true, false, ◌||◌, ◌&&◌, Option, none, some, arith, if◌then◌else◌,
  ltb, leb, ◌==◌,
}
use aowis_server_map.Prelude.Int.{ℤ, pos, negsuc, pos_part}

pub record CopernicusDecodedBlockBudget : Type 0 where
  pub maximum_bytes : ℕ
  pub reserved_bytes : ℕ

-- A maximum that is not positive is 0.
unfoldable pub init : ℤ → CopernicusDecodedBlockBudget
init maximum = record { maximum_bytes = pos_part maximum; reserved_bytes = 0 }

unfoldable pub reserve : CopernicusDecodedBlockBudget → ℤ → CopernicusDecodedBlockBudget × Bool
reserve b (negsuc n) = (b, false)
reserve b (pos n) =
    if n == 0 || ltb (b.maximum_bytes - b.reserved_bytes) n
    then (b, false)
    else (record b { reserved_bytes = b.reserved_bytes + n }, true)

-- The assertion `bytes >= 0 && bytes <= this->reserved_bytes`, and the subtraction.
unfoldable pub release : CopernicusDecodedBlockBudget → ℤ → Option CopernicusDecodedBlockBudget
release b (negsuc n) = none
release b (pos n) =
    if leb n b.reserved_bytes
    then some (record b { reserved_bytes = b.reserved_bytes - n })
    else none

unfoldable pub bytes : CopernicusDecodedBlockBudget → ℕ
bytes b = b.reserved_bytes

pub record CopernicusTemporaryDecodeReservation : Type 0 where
  pub reserved_bytes : ℕ

-- The constructor.
unfoldable pub begin_decode :
    CopernicusDecodedBlockBudget
    → ℤ
    → CopernicusDecodedBlockBudget × CopernicusTemporaryDecodeReservation
unfolding reserve
begin_decode b n =
    let (b', granted) = reserve b n in
    (b', record { reserved_bytes = if granted then pos_part n else 0 })

-- The destructor.
unfoldable pub end_decode :
    CopernicusDecodedBlockBudget
    → CopernicusTemporaryDecodeReservation
    → Option CopernicusDecodedBlockBudget
unfolding release
end_decode b r = if ltb 0 r.reserved_bytes then release b (pos r.reserved_bytes) else some b

unfoldable pub acquired : CopernicusTemporaryDecodeReservation → Bool
acquired r = ltb 0 r.reserved_bytes

-- A reservation is granted exactly to a positive amount that fits beside what is reserved. While it
-- lives, the budget holds that amount more and stays within its maximum; its end gives back the
-- budget that it began with, and no assertion fails.
pub decode-returns :
    (b : CopernicusDecodedBlockBudget) (n : ℤ)
    → b.reserved_bytes ≤ b.maximum_bytes
    → let (b', r) = begin_decode b n in
      (end_decode b' r ≡ some b)
      × (b'.reserved_bytes ≡ b.reserved_bytes + r.reserved_bytes)
      × (b'.reserved_bytes ≤ b.maximum_bytes)
      × (b'.maximum_bytes ≡ b.maximum_bytes)
      × (acquired r ≡ (ltb 0 (pos_part n) && leb (b.reserved_bytes + pos_part n) b.maximum_bytes))
unfolding begin_decode end_decode acquired
decode-returns b (negsuc n) h = ground arith
decode-returns b (pos n) h = ground arith
