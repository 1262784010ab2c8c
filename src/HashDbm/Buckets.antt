-- ===== src/HashDbm/Buckets.antt =====
-- The buckets of a `HashDBM` and the records behind them, in the bytes of the file (tkrzw_dbm_hash.cc), and
-- what they become when a record is put at the end of the file and in front of a chain.
use native.Mathlib.Nat.{mul-le-mul_right, add-mul}
use tkrzw.Base.{
  ℕ, ◌+◌, ◌*◌, ◌^◌, ◌≤◌, ◌<◌, ◌≡◌, arith, List, Bytes, if◌then◌else◌, ltb, length, take, drop,
}
use tkrzw.Hash.{primary_hash}
use tkrzw.Codec.FixNum.{read_fix_num}
use tkrzw.Dbm.Interface.{Map}
use tkrzw.HashDbm.Record.{Format, align_number}
use tkrzw.HashDbm.Layout.{IsFormat}
use tkrzw.HashDbm.Table.{metadata_size}
use tkrzw.HashDbm.Chain.{Entry, lookup_in, Chain}

-- `HashDBMImpl::SetRecordBase`.
unfoldable pub record_base : Format → ℕ → ℕ
record_base fmt num_buckets =
    let align = if ltb 4096 (2 ^ fmt.align_pow) then 2 ^ fmt.align_pow else 4096 in
    align_number (metadata_size + num_buckets * fmt.offset_width + 1008 + 16) align

pub record_base-ge :
    (fmt : Format) (n : ℕ) → metadata_size + n * fmt.offset_width + 1024 ≤ record_base fmt n
unfolding record_base align_number
record_base-ge fmt n = ground arith

module _ (fmt : Format) (n : ℕ) where
  abbrev pub base : ℕ
  base = record_base fmt n

  abbrev pub place : ℕ → ℕ
  place b = metadata_size + b * fmt.offset_width

  -- What a bucket holds, in units of the alignment.
  abbrev pub slot_at : Bytes → ℕ → ℕ
  slot_at c b = read_fix_num (take fmt.offset_width (drop (place b) c)) fmt.offset_width

  -- The bytes of the file stand for the map.
  pub record IsTable (c : Bytes) (m : Map) : Type 0 where
    pub format : IsFormat fmt
    pub positive : 1 ≤ n
    pub chains : ℕ → List Entry
    pub units : ℕ
    pub aligned : length c ≡ units * 2 ^ fmt.align_pow
    pub sized : base ≤ length c
    pub small : length c < 2 ^ 63
    pub linked : (b : ℕ) → b < n → Chain fmt base c (slot_at c b) (chains b)
    pub shows : (key : Bytes) → m key ≡ lookup_in (chains (primary_hash key n)) key

  -- A bucket ends before the next ones and before the records.
  pub place-lt : (a b : ℕ) → a < b → place a + fmt.offset_width ≤ place b
  place-lt a b h = omega (arith, mul-le-mul_right fmt.offset_width h, add-mul 1 a fmt.offset_width)

  pub place-base : (b : ℕ) → b < n → place b + fmt.offset_width ≤ base
  place-base b h = omega (arith, place-lt b n h, record_base-ge fmt n)
