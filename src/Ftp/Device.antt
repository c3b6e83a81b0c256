-- ===== src/Ftp/Device.antt =====
-- `FTPDevice` of pacsys/acnet/ftp.py.
use pacsys.Prelude.{
  value_error, ℕ, ◌*◌, ◌^◌, bit_or, not, ◌||◌, List, ◌==◌, if◌then◌else◌, Result, ok, err, length,
}

pub record Device : Type 0 where
  pub di : ℕ
  pub pi : ℕ
  pub ssdn : List ℕ
  pub offset : ℕ
  pub data_length : ℕ

-- `__post_init__`.
unfoldable new_device : ℕ → ℕ → List ℕ → ℕ → ℕ → Result Device
new_device di pi ssdn offset data_length =
    if not (length ssdn == 8)
    then err value_error
    else if not (data_length == 2 || data_length == 4)
    then err value_error
    else ok (record { di = di; pi = pi; ssdn = ssdn; offset = offset; data_length = data_length })

-- `dipi`.
unfoldable pub dipi : Device → ℕ
dipi d = bit_or (d.pi * 2 ^ 24) d.di
