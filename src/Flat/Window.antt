-- ===== src/Flat/Window.antt =====
-- Bytes seen through a window of limited size, and the header of a record in it.
use tkrzw.Base.{
  ℕ, zero, suc, ◌+◌, ◌-◌, ◌^◌, ◌<◌, ◌≤◌, ◌≡◌, refl, ap, ◌∙◌, Bytes, ◌++◌, length, take, arith,
  length-append, take_append, append_assoc, take_past, length-take,
}
use tkrzw.Codec.VarNum.{write_var_num, size_var_num}
use tkrzw.Codec.VarRound.{read_var_num-write_var_num, length-write_var_num}
use tkrzw.Flat.Record.{flat_bytes, header, read_size, read_header}

pub length-flat_bytes : (s : Bytes) → length (flat_bytes s) ≡ 1 + size_var_num (length s) + length s
unfolding flat_bytes
length-flat_bytes s =
    omega (arith, length-append (write_var_num (length s)) s, (length-write_var_num (length s)).0)

read_size-write :
    (n : ℕ) (behind : Bytes)
    → n < 2 ^ 64
    → read_size (write_var_num n ++ behind)
      ≡ header n (length (write_var_num n ++ behind) - length behind) behind
unfolding read_size
read_size-write n behind h = let e = read_var_num-write_var_num n behind h in ground (arith, e)

-- A window that holds the header of a record shows it, and the start of what is behind.
pub read_header-flat_bytes :
    (s rest : Bytes) (n : ℕ)
    → length s < 2 ^ 32
    → 1 + size_var_num (length s) ≤ n
    → read_header (take n (flat_bytes s ++ rest))
      ≡ header
          (length s)
          (size_var_num (length s))
          (take (n - (1 + size_var_num (length s))) (s ++ rest))
unfolding flat_bytes read_header
read_header-flat_bytes s rest zero hs hn = absurd (omega arith)
read_header-flat_bytes s rest (suc n) hs hn =
    let w = write_var_num (length s) in
    let size = (length-write_var_num (length s)).0 in
    let behind = take (n - length w) (s ++ rest) in
    let shape : take n ((w ++ s) ++ rest) ≡ w ++ behind =
      ap (take n) (append_assoc w s rest) ∙ take_past n w (s ++ rest) (omega arith) in
    let e = read_size-write (length s) behind (omega arith) in
    let step : length (w ++ behind) - length behind ≡ size_var_num (length s) =
      omega (arith, length-append w behind) in
    let cut : suc n - (1 + size_var_num (length s)) ≡ n - length w = omega arith in
    rw (shape, e, step, cut) refl

-- A window that holds a string shows it.
pub take_window : (s rest : Bytes) (n : ℕ) → length s ≤ n → take (length s) (take n (s ++ rest)) ≡ s
take_window s rest n h = rw (take_past n s rest h) (take_append s (take (n - length s) rest))

-- Whether it does is read off the length of the window's bytes.
pub window_size : (s rest : Bytes) (n : ℕ) → length s ≤ length (take n (s ++ rest)) → length s ≤ n
window_size s rest n h = omega (arith, length-take n (s ++ rest))

pub window_short :
    (s rest : Bytes) (n : ℕ)
    → length (take n (s ++ rest)) < length s
    → (n < length s) × (length (take n (s ++ rest)) ≡ n)
window_short s rest n h = ground (arith, length-take n (s ++ rest), length-append s rest)
