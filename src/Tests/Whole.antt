-- ===== src/Tests/Whole.antt =====
-- The theorems on the whole of `TinyDBM` at a small table.
use tkrzw.Base.{ℕ, ◌≡◌, refl, Bytes, [], some}
use tkrzw.Status.{status_of, success}
use tkrzw.Tiny.Table.{Iter}
use tkrzw.Tiny.Buckets.{IsValid, lookup}
use tkrzw.Tiny.Whole.{rebuild, get_hash_bucket_size, cancel_iterators}
use tkrzw.Tiny.Iterator.{next}
use tkrzw.Tiny.Visits.{Steps, remaining, next-Steps}
use tkrzw.Tiny.Rebuild.{rebuild_lem}
use tkrzw.Tests.Tables.{one, one-IsValid}

-- The square root of the numbers from 121 to 143.
abbrev eleven : ℕ → ℕ
eleven n = 11

rebuild_lem_example :
    ((rebuild eleven one 120).0 ≡ status_of success)
    × IsValid (rebuild eleven one 120).1
    × ((j : Bytes) → lookup (rebuild eleven one 120).1 j ≡ lookup one j)
    × ((rebuild eleven one 120).1.iterators ≡ cancel_iterators one.iterators)
rebuild_lem_example = rebuild_lem eleven one 120 one-IsValid

-- The first prime from 122 on.
bucket_size_122 : get_hash_bucket_size eleven 122 ≡ 127
unfolding get_hash_bucket_size tkrzw.Tiny.Whole.find_prime tkrzw.Tiny.Whole.is_prime_number
    tkrzw.Tiny.Whole.has_no_divisor
bucket_size_122 = refl

abbrev at_start : Iter
at_start = record { bucket_index = some 0; keys = [] }

next-Steps_example : Steps one (remaining one at_start) (next one at_start)
next-Steps_example = next-Steps one at_start
