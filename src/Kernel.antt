-- ===== src/Kernel.antt =====
-- The error codes that the driver of backport-4.9/ returns, and the results of its functions.
use gud.Base.{Bool, true, false, ◌≡◌, refl, ◌⊎◌, inl, inr}

-- `-errno`; `host_error` is any other code that the USB core or DRM hands up.
pub data Errno : Type 0 where
  einval eoverflow e2big enomem enodev eio ebusy eagain enoent : Errno
  eopnotsupp eproto eprotonosupport eremoteio etimedout ehostunreach : Errno
  host_error : Errno

-- An `int` result that is 0 or a negative error code.
pub data Ret : Type 0 where
  success : Ret
  failure : Errno → Ret

-- `ret != -EAGAIN`, `result == -EBUSY` and `ret != -ENOMEM` of the callers.
unfoldable pub is_eagain : Ret → Bool
is_eagain (failure eagain) = true
is_eagain _ = false

unfoldable pub is_ebusy : Ret → Bool
is_ebusy (failure ebusy) = true
is_ebusy _ = false

unfoldable pub is_enomem : Ret → Bool
is_enomem (failure enomem) = true
is_enomem _ = false

-- `!ret`.
unfoldable pub is_success : Ret → Bool
is_success success = true
is_success (failure e) = false

pub Ret-cases : (r : Ret) → (r ≡ success) ⊎ ((e : Errno) × (r ≡ failure e))
Ret-cases success = inl refl
Ret-cases (failure e) = inr (e, refl)
