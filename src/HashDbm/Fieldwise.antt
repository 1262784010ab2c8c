-- ===== src/HashDbm/Fieldwise.antt =====
-- A buffer into which bytes are copied one after the other, as `HashDBMImpl::SaveMetadata`
-- (tkrzw_dbm_hash.cc) does.
use tkrzw.Base.{
  ℕ, zero, suc, ◌+◌, ◌*◌, ◌^◌, ◌≤◌, ◌<◌, ◌≡◌, refl, ap, ◌∙◌, arith, Bytes, List, [], ◌∷◌, ◌++◌,
  length, take, drop, replicate,
}
use tkrzw.Codec.FixNum.{write_fix_num, read_fix_num, read_fix_num-write_fix_num}
use tkrzw.HashDbm.Patch.{patch, length-patch, patch_behind, patch_before, patch_same}
use tkrzw.HashDbm.Metadata.{put_all, number_at}

-- The fields follow one another from an offset on and end within the buffer.
abbrev pub Within : ℕ → ℕ → List (ℕ × Bytes) → Type 0
Within low size [] = low ≤ size
Within low size ((off, w) ∷ rest) =
    (low ≤ off) × (off + length w ≤ size) × Within (off + length w) size rest

-- Each field stands at its offset.
abbrev pub Holds : Bytes → List (ℕ × Bytes) → Type 0
Holds c [] = Unit {0}
Holds c ((off, w) ∷ rest) = (take (length w) (drop off c) ≡ w) × Holds c rest

pub length-put_all :
    (low : ℕ) (buf : Bytes) (fields : List (ℕ × Bytes))
    → Within low (length buf) fields
    → length (put_all buf fields) ≡ length buf
unfolding put_all
length-put_all low buf [] h = refl
length-put_all low buf ((off, w) ∷ rest) h =
    let same = length-patch buf off w h.1 in
    length-put_all (off + length w) (patch buf off w) rest (rw same h.2) ∙ same

-- What lies before the fields stays.
pub put_all_behind :
    (a n low : ℕ) (buf : Bytes) (fields : List (ℕ × Bytes))
    → a + n ≤ low
    → Within low (length buf) fields
    → take n (drop a (put_all buf fields)) ≡ take n (drop a buf)
unfolding put_all
put_all_behind a n low buf [] l h = refl
put_all_behind a n low buf ((off, w) ∷ rest) l h =
    let same = length-patch buf off w h.1 in
    put_all_behind a n (off + length w) (patch buf off w) rest (omega (arith, h.0)) (rw same h.2)
    ∙ patch_before buf off w h.1 a n (omega (arith, h.0))

-- What lies between fields stays.
pub put_all_between :
    (a n low : ℕ) (buf : Bytes) (head tail : List (ℕ × Bytes))
    → Within low a head
    → Within (a + n) (length buf) tail
    → a ≤ length buf
    → take n (drop a (put_all buf (head ++ tail))) ≡ take n (drop a buf)
unfolding put_all
put_all_between a n low buf [] tail h k l = put_all_behind a n (a + n) buf tail (omega arith) k
put_all_between a n low buf ((off, w) ∷ rest) tail h k l =
    let inside : off + length w ≤ length buf = omega (arith, h.1) in
    let same = length-patch buf off w inside in
    put_all_between a n (off + length w) (patch buf off w) rest tail h.2 (rw same k) (rw same l)
    ∙ ap (take n) (patch_behind buf off w inside a h.1)

pub put_all-Holds :
    (low : ℕ) (buf : Bytes) (fields : List (ℕ × Bytes))
    → Within low (length buf) fields
    → Holds (put_all buf fields) fields
unfolding put_all
put_all-Holds low buf [] h = tt
put_all-Holds low buf ((off, w) ∷ rest) h =
    let same = length-patch buf off w h.1 in
    let later : Within (off + length w) (length (patch buf off w)) rest = rw same h.2 in
    (
      put_all_behind off (length w) (off + length w) (patch buf off w) rest (omega arith) later
          ∙ patch_same buf off w h.1,
      put_all-Holds (off + length w) (patch buf off w) rest later,
    )

-- A number is read where its bytes stand.
pub number_at_lem :
    (c : Bytes) (off width num : ℕ)
    → 1 ≤ width
    → width ≤ 8
    → num < 2 ^ (width * 8)
    → take (length (write_fix_num num width)) (drop off c) ≡ write_fix_num num width
    → number_at c off width ≡ num
number_at_lem c off width num lo hi small h =
    let (back, size) = read_fix_num-write_fix_num width num lo hi small in
    ap (λ n. read_fix_num (take n (drop off c)) width) (rw size refl)
    ∙ ap (λ b. read_fix_num b width) h
    ∙ back

-- The window in a buffer of zeros.
pub window_zeros :
    (a n size : ℕ) → a + n ≤ size → take {A = ℕ} n (drop a (replicate size 0)) ≡ replicate n 0
window_zeros zero zero size h = refl
window_zeros zero (suc n) zero h = absurd (omega arith)
window_zeros zero (suc n) (suc size) h = ap (◌∷◌ 0) (window_zeros zero n size (omega arith))
window_zeros (suc a) n zero h = absurd (omega arith)
window_zeros (suc a) n (suc size) h = window_zeros a n size (omega arith)
