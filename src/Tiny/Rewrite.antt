-- ===== src/Tiny/Rewrite.antt =====
-- Rewriting the value of a block in place or in a new block: `reserialize` and `reserialize_append`.
use tkrzw.Base.{
  from_int32, from_int32_lem, ℕ, ◌+◌, ◌≤◌, Bytes, ◌++◌, if◌then◌else◌, ◌≡◌, sym, ap, ap₂, ◌∙◌, Bool,
  true, false, ltb, length, take, drop, arith, length-append, drop_append, append_assoc, append-nil,
  Bool-cases, inl, inr, [],
}
use tkrzw.Codec.VarNum.{write_var_num, size_var_num}
use tkrzw.Codec.VarRound.{length-write_var_num, size_var_num_mono}
use tkrzw.Tiny.Record.{
  allocated, Block, overwrite, resize, key_part, block_size, reserialize, reserialize_append,
}
use tkrzw.Tiny.Layout.{
  FitsBlock, FitsBlock-IsSmall, allocated_lem, take-append_front, Holds, overwrite-append,
  resize-append, length-key_part, serialize-Holds,
}

-- Where the value part of a block begins.
abbrev value_offset : Bytes → ℕ
value_offset key = size_var_num (length key) + length key

-- A value part written behind a key part.
write_value :
    (key q w v : Bytes)
    → (s : Bytes) × (overwrite (key_part key ++ q) (value_offset key) (w ++ v)
        ≡ key_part key ++ (w ++ (v ++ s)))
write_value key q w v = (
  drop (length (w ++ v)) q,
  ap (λ n. overwrite (key_part key ++ q) n (w ++ v)) (sym (length-key_part key))
      ∙ overwrite-append (key_part key) q (w ++ v)
      ∙ ap (λ x. key_part key ++ x) (append_assoc w v (drop (length (w ++ v)) q)),
)

front_assoc : (p h v s : Bytes) → (p ++ (h ++ v)) ++ s ≡ p ++ (h ++ (v ++ s))
front_assoc p h v s = append_assoc p (h ++ v) s ∙ ap (λ x. p ++ x) (append_assoc h v s)

-- What was written fits in a block of this size.
written_size :
    (key v : Bytes)
    → FitsBlock key v
    → length (key_part key ++ (write_var_num (length v) ++ v))
      ≡ allocated (block_size (length key) (length v))
written_size key v h = omega (
  arith,
  allocated_lem (length key) (length v) h,
  length-append (key_part key) (write_var_num (length v) ++ v),
  length-key_part key,
  length-append (write_var_num (length v)) v,
  (length-write_var_num (length v)).0,
)

-- So the end of the block cuts off stale bytes only.
cut_stale :
    (key v s : Bytes)
    → FitsBlock key v
    → (s' : Bytes) × (take
          (allocated (block_size (length key) (length v)))
          (key_part key ++ (write_var_num (length v) ++ (v ++ s)))
        ≡ key_part key ++ (write_var_num (length v) ++ (v ++ s')))
cut_stale key v s h =
    let w = write_var_num (length v) in
    let n = allocated (block_size (length key) (length v)) in
    let (s', e) =
      take-append_front (key_part key ++ (w ++ v)) s n (omega (arith, written_size key v h)) in
    (
      s',
      ap (take n) (sym (front_assoc (key_part key) w v s)) ∙ e ∙ front_assoc (key_part key) w v s',
    )

-- The optional `xrealloc` and the write behind it.
write_grown :
    (test : Bool) (key q new : Bytes)
    → FitsBlock key new
    → (s : Bytes) × ((if test
          then take (allocated (block_size (length key) (length new))) (
              overwrite
                (resize (allocated (block_size (length key) (length new))) (key_part key ++ q))
                (value_offset key)
                (write_var_num (length new) ++ new))
          else overwrite (key_part key ++ q) (value_offset key) (write_var_num (length new) ++ new))
        ≡ key_part key ++ (write_var_num (length new) ++ (new ++ s)))
write_grown false key q new h = write_value key q (write_var_num (length new)) new
write_grown true key q new h =
    let n = allocated (block_size (length key) (length new)) in
    let w = write_var_num (length new) in
    let (q', grown) =
      resize-append (key_part key) q n
        (omega (arith, length-key_part key, allocated_lem (length key) (length new) h)) in
    let (s, written) = write_value key q' w new in
    let (s', cut) = cut_stale key new s h in
    (
      s',
      ap (λ c. take n (overwrite c (value_offset key) (w ++ new))) grown
          ∙ ap (take n) written
          ∙ cut,
    )

-- After `reserialize` the block holds the key and the new value, whether it was moved, grown or kept, if a
-- block of them fits in the 31 bits of its size.
pub reserialize-Holds :
    (b : Block) (key old new : Bytes)
    → Holds b key old
    → FitsBlock key new
    → Holds (reserialize (record { key = key; value = new }) b (length old)) key new
unfolding reserialize
reserialize-Holds b key old new h small =
    elim (Bool-cases (ltb (size_var_num (length old)) (size_var_num (length new)))) [
      | inl e ↦ rw e (serialize-Holds (record { key = key; value = new }) small)
      | inr e ↦
          let w = write_var_num (length new) in
          let n = allocated (block_size (length key) (length new)) in
          let body = write_var_num (length old) ++ (old ++ h.stale) in
          let test = ltb (length old) (length new) in
          let (s, written) = write_grown test key body new small in
          rw e (record {
            small_key = h.small_key;
            small_value = (FitsBlock-IsSmall key new small).1;
            stale = s;
            layout =
                ap
                  (λ c.
                    if test
                    then take n (overwrite (resize n c) (value_offset key) (w ++ new))
                    else overwrite c (value_offset key) (w ++ new))
                  h.layout
                ∙ written;
          })
    ]

-- The three writes of an append within a block: the new size over the old one, then the new part
-- behind the value.
append_in_place :
    (key v more h h' s : Bytes)
    → length h' ≡ length h
    → (s' : Bytes) × (overwrite
          (overwrite (key_part key ++ (h ++ (v ++ s))) (value_offset key) h')
          (value_offset key + length h' + length v)
          more
        ≡ key_part key ++ (h' ++ ((v ++ more) ++ s')))
append_in_place key v more h h' s e =
    let front = key_part key ++ (h' ++ v) in
    let header : overwrite (key_part key ++ (h ++ (v ++ s))) (value_offset key) h' ≡ front ++ s =
      ap (λ n. overwrite (key_part key ++ (h ++ (v ++ s))) n h') (sym (length-key_part key))
      ∙ overwrite-append (key_part key) (h ++ (v ++ s)) h'
      ∙ ap (λ n. key_part key ++ (h' ++ drop n (h ++ (v ++ s)))) e
      ∙ ap (λ x. key_part key ++ (h' ++ x)) (drop_append h (v ++ s))
      ∙ sym (
          append_assoc (key_part key) (h' ++ v) s
          ∙ ap (λ x. key_part key ++ x) (append_assoc h' v s)) in
    let size : value_offset key + length h' + length v ≡ length front =
      omega
        (arith, length-key_part key, length-append (key_part key) (h' ++ v), length-append h' v) in
    let s' = drop (length more) s in
    (
      s',
      ap₂ (λ c n. overwrite c n more) header size
          ∙ overwrite-append front s more
          ∙ append_assoc (key_part key) (h' ++ v) (more ++ s')
          ∙ ap (λ x. key_part key ++ x)
              (append_assoc h' v (more ++ s') ∙ ap (λ x. h' ++ x) (sym (append_assoc v more s'))),
    )

-- The branch of `reserialize_append` that keeps the block, where the sizes have forms of one length.
append_kept :
    (b : Block) (key v more : Bytes)
    → Holds b key v
    → FitsBlock key (v ++ more)
    → size_var_num (length (v ++ more)) ≡ size_var_num (length v)
    → (s : Bytes) × (take (allocated (block_size (length key) (length (v ++ more)))) (
          overwrite
            (overwrite
              (resize (allocated (block_size (length key) (length (v ++ more)))) b)
              (value_offset key)
              (write_var_num (length (v ++ more))))
            (value_offset key + size_var_num (length (v ++ more)) + length v)
            more)
        ≡ key_part key ++ (write_var_num (length (v ++ more)) ++ ((v ++ more) ++ s)))
append_kept b key v more h small same =
    let n = length (v ++ more) in
    let old = write_var_num (length v) in
    let new = write_var_num n in
    let len = length-write_var_num n in
    let old_len = length-write_var_num (length v) in
    let wp = value_offset key in
    let big = allocated (block_size (length key) n) in
    let whole = h.layout ∙ sym (front_assoc (key_part key) old v h.stale) in
    let room : length (key_part key ++ (old ++ v)) ≤ big = omega (
      arith,
      allocated_lem (length key) n small,
      length-key_part key,
      length-append (key_part key) (old ++ v),
      length-append old v,
      length-append v more,
      old_len,
    ) in
    let (s, grown) = resize-append (key_part key ++ (old ++ v)) h.stale big room in
    let (s', written) = append_in_place key v more old new s (omega arith) in
    let (s'', cut) = cut_stale key (v ++ more) s' small in
    (
      s'',
      ap
            (λ c.
              take big
                (overwrite (overwrite (resize big c) wp new) (wp + size_var_num n + length v) more))
            whole
          ∙ ap
              (λ c. take big (overwrite (overwrite c wp new) (wp + size_var_num n + length v) more))
              (grown ∙ front_assoc (key_part key) old v s)
          ∙ ap
              (λ k. take big (
                overwrite (overwrite (key_part key ++ (old ++ (v ++ s))) wp new) (wp + k + length v)
                  more))
              (sym len.0)
          ∙ ap (take big) written
          ∙ cut,
    )

-- After `reserialize_append` the block holds the old value, the delimiter and the new part, if a block of
-- them fits in the 31 bits of its size.
pub reserialize_append-Holds :
    (b : Block) (key v cat delim : Bytes)
    → Holds b key v
    → FitsBlock key (v ++ (delim ++ cat))
    → Holds
        (reserialize_append (record { key = key; value = v }) b cat delim)
        key
        (v ++ (delim ++ cat))
unfolding reserialize_append
reserialize_append-Holds b key v cat delim h small =
    let all = v ++ (delim ++ cat) in
    let (small_key, small_value) = FitsBlock-IsSmall key all small in
    let sum : length v + length delim + length cat ≡ length all =
      omega (arith, length-append v (delim ++ cat), length-append delim cat) in
    let size : from_int32 (length v + length delim + length cat) ≡ length all =
      ap from_int32 sum ∙ from_int32_lem (length all) small_value in
    elim (Bool-cases (ltb (size_var_num (length v)) (size_var_num (length all)))) [
      | inl e ↦
          let (s, cut) = cut_stale key all [] small in
          rw (size, e)
            (record {
              small_key = small_key;
              small_value = small_value;
              stale = s;
              layout =
                  ap
                    (λ x.
                      take (allocated (block_size (length key) (length all)))
                        (key_part key ++ (write_var_num (length all) ++ x)))
                    (sym (append-nil all))
                  ∙ cut;
            })
      | inr e ↦
          let same : size_var_num (length all) ≡ size_var_num (length v) =
            ground (arith, size_var_num_mono (length v) (length all) (omega arith)) in
          let (s, written) = append_kept b key v (delim ++ cat) h small same in
          rw (size, e)
            (record {
              small_key = small_key;
              small_value = small_value;
              stale = s;
              layout = written;
            })
    ]
