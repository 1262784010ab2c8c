-- ===== src/Flat/File.antt =====
-- `File` of tkrzw_file.h: the interface of the file classes, as far as the databases here call it.
use tkrzw.Base.{
  ℕ, ◌+◌, ◌≤◌, ◌≡◌, Bool, true, Bytes, [], ◌++◌, length, take, drop, replicate, ltb, if◌then◌else◌,
}
use tkrzw.Status.{Status, status_of, success, infeasible_error, is_success}

-- A method that changes the file gives the file back.
pub record File (F : Type 0) : Type 0 where
  pub open_file : F → Bytes → Bool → ℕ → Status × F
  pub close : F → Status × F
  pub read : F → ℕ → ℕ → Status × Bytes
  pub write : F → ℕ → Bytes → Status × F
  pub append : F → Bytes → Status × F × ℕ
  pub truncate : F → ℕ → Status × F
  pub synchronize : F → Bool → Status × F
  pub get_size : F → Status × ℕ

-- What the methods say of the bytes in the file. A write may fail; a region inside is readable.
pub record FileLaws {F : Type 0} (file : File F) : Type 0 where
  pub contents : F → Bytes
  pub read_inside :
      (f : F) (off size : ℕ)
      → off + size ≤ length (contents f)
      → file.read f off size ≡ (status_of success, take size (drop off (contents f)))
  pub size_known : (f : F) → file.get_size f ≡ (status_of success, length (contents f))
  pub write_at :
      (f : F) (off : ℕ) (buf : Bytes)
      → off ≤ length (contents f)
      → is_success (file.write f off buf).0 ≡ true
      → contents (file.write f off buf).1
        ≡ take off (contents f) ++ (buf ++ drop (off + length buf) (contents f))
  pub append_end :
      (f : F) (buf : Bytes)
      → is_success (file.append f buf).0 ≡ true
      → contents (file.append f buf).1 ≡ contents f ++ buf
  pub append_offset :
      (f : F) (buf : Bytes)
      → is_success (file.append f buf).0 ≡ true
      → (file.append f buf).2 ≡ length (contents f)
  pub truncate_empty :
      (f : F) → is_success (file.truncate f 0).0 ≡ true → contents (file.truncate f 0).1 ≡ []
  pub truncate_size :
      (f : F) (size : ℕ)
      → is_success (file.truncate f size).0 ≡ true
      → length (contents (file.truncate f size).1) ≡ size

-- A file that is its bytes, on which everything but a read out of bounds succeeds.
abbrev pub memory_file : File Bytes
memory_file = record {
  open_file = λ f path writable options. (status_of success, f);
  close = λ f. (status_of success, f);
  read = λ f off size.
      if ltb (length f) (off + size)
      then (status_of infeasible_error, [])
      else (status_of success, take size (drop off f));
  write = λ f off buf. (status_of success, take off f ++ (buf ++ drop (off + length buf) f));
  append = λ f buf. (status_of success, f ++ buf, length f);
  truncate = λ f size. (status_of success, take size (f ++ replicate size 0));
  synchronize = λ f hard. (status_of success, f);
  get_size = λ f. (status_of success, length f);
}
