-- ===== src/Tiny/Layout.antt =====
-- What `deserialize` finds in the blocks that `serialize`, `reserialize` and `reserialize_append`
-- leave.
use tkrzw.Base.{
  ℕ, ◌+◌, ◌-◌, ◌^◌, ◌<◌, ◌≤◌, Bytes, [], ◌∷◌, ◌++◌, ◌≡◌, refl, ap, ap₂, ◌∙◌, length, take, drop,
  replicate, arith, length-append, take_all, take_append, drop_append, append_assoc, append-nil,
  suc,
}
use tkrzw.Codec.VarNum.{write_var_num, size_var_num}
use tkrzw.Codec.VarRound.{read_var_num-write_var_num, length-write_var_num}
use tkrzw.Tiny.Record.{
  block_size, allocated, Block, TinyRecord, overwrite, resize, key_part, serialize, read_size,
  deserialize,
}

-- The sizes are int32_t.
abbrev pub IsSmall : Bytes → Type 0
IsSmall s = length s < 2 ^ 31

-- The size of the whole block is one too.
abbrev pub FitsBlock : Bytes → Bytes → Type 0
FitsBlock key value = block_size (length key) (length value) < 2 ^ 31

-- A record of the key with a value of eight bytes can be stored.
abbrev pub FitsKey : Bytes → Type 0
FitsKey key = block_size (length key) 8 < 2 ^ 31

pub FitsBlock-IsSmall : (key value : Bytes) → FitsBlock key value → IsSmall key × IsSmall value
FitsBlock-IsSmall key value h = (omega arith, omega arith)

pub allocated_lem :
    (key_size value_size : ℕ)
    → block_size key_size value_size < 2 ^ 31
    → allocated (block_size key_size value_size)
      ≡ size_var_num key_size + key_size + size_var_num value_size + value_size
allocated_lem key_size value_size h = ground arith

-- A block that holds a key and a value; an overwritten longer value leaves stale bytes behind it.
pub record Holds (b : Block) (key value : Bytes) : Type 0 where
  pub small_key : IsSmall key
  pub small_value : IsSmall value
  pub stale : Bytes
  pub layout : b ≡ key_part key ++ (write_var_num (length value) ++ (value ++ stale))

read_size-write :
    (s rest : Bytes) → IsSmall s → read_size (write_var_num (length s) ++ rest) ≡ (length s, rest)
unfolding read_size
read_size-write s rest h =
    let e = read_var_num-write_var_num (length s) rest (omega arith) in ground (arith, e)

-- Any block that holds a record is read as that record.
pub deserialize-Holds :
    (b : Block) (key value : Bytes)
    → Holds b key value
    → deserialize b ≡ record { key = key; value = value }
unfolding deserialize
deserialize-Holds b key value h =
    let body = write_var_num (length value) ++ (value ++ h.stale) in
    let first : read_size b ≡ (length key, key ++ body) =
      ap read_size (h.layout ∙ append_assoc (write_var_num (length key)) key body)
      ∙ read_size-write key (key ++ body) h.small_key in
    let second : read_size body ≡ (length value, value ++ h.stale) =
      read_size-write value (value ++ h.stale) h.small_value in
    rw first (
      rw (drop_append key body, second)
        (ap₂ (λ k v. record { key = k; value = v }) (take_append key body)
          (take_append value h.stale)))

pub length-key_part : (key : Bytes) → length (key_part key) ≡ size_var_num (length key) + length key
length-key_part key =
    length-append (write_var_num (length key)) key
    ∙ ap (λ n. n + length key) (length-write_var_num (length key)).0

pub serialize-Holds : (r : TinyRecord) → FitsBlock r.key r.value → Holds (serialize r) r.key r.value
unfolding serialize
serialize-Holds r h =
    let written = write_var_num (length r.value) ++ r.value in
    let (small_key, small_value) = FitsBlock-IsSmall r.key r.value h in
    record {
      small_key = small_key;
      small_value = small_value;
      stale = [];
      layout =
          take_all (allocated (block_size (length r.key) (length r.value)))
            (key_part r.key ++ written)
            (omega (
              arith,
              allocated_lem (length r.key) (length r.value) h,
              length-append (key_part r.key) written,
              length-key_part r.key,
              length-append (write_var_num (length r.value)) r.value,
              (length-write_var_num (length r.value)).0,
            ))
          ∙ rw append-nil refl;
    }

drop_further : (p q : Bytes) (n : ℕ) → drop (length p + n) (p ++ q) ≡ drop n q
drop_further [] q n = let e : 0 + n ≡ n = omega arith in rw e
drop_further (x ∷ p) q n =
    let e : suc (length p) + n ≡ suc (length p + n) = omega arith in rw e (drop_further p q n)

take_further : (p q : Bytes) (n : ℕ) → take (length p + n) (p ++ q) ≡ p ++ take n q
take_further [] q n = let e : 0 + n ≡ n = omega arith in rw e
take_further (x ∷ p) q n =
    let e : suc (length p) + n ≡ suc (length p + n) = omega arith in
    rw e (ap (◌∷◌ x) (take_further p q n))

pub overwrite-append :
    (p q bytes : Bytes)
    → overwrite (p ++ q) (length p) bytes ≡ p ++ (bytes ++ drop (length bytes) q)
unfolding overwrite
overwrite-append p q bytes =
    ap₂ (λ x y. x ++ (bytes ++ y)) (take_append p q) (drop_further p q (length bytes))

-- What lies in front stays when a block grows or shrinks behind it.
pub resize-append :
    (p q : Bytes) (n : ℕ) → length p ≤ n → (q' : Bytes) × (resize n (p ++ q) ≡ p ++ q')
unfolding resize
resize-append p q n h =
    let e : n ≡ length p + (n - length p) = omega arith in
    (
      take (n - length p) q ++ replicate (n - length (p ++ q)) 0,
      ap (λ m. take m (p ++ q) ++ replicate (n - length (p ++ q)) 0) e
          ∙ ap (λ x. x ++ replicate (n - length (p ++ q)) 0) (take_further p q (n - length p))
          ∙ append_assoc p (take (n - length p) q) (replicate (n - length (p ++ q)) 0),
    )

-- What lies in front stays when a block ends behind it.
pub take-append_front :
    (p q : Bytes) (n : ℕ) → length p ≤ n → (q' : Bytes) × (take n (p ++ q) ≡ p ++ q')
take-append_front p q n h =
    let e : n ≡ length p + (n - length p) = omega arith in
    (take (n - length p) q, ap (λ m. take m (p ++ q)) e ∙ take_further p q (n - length p))
