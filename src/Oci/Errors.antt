-- ===== src/Oci/Errors.antt =====
-- oci/errors.go: the error codes, their HTTP statuses, and the result of a fallible call. The
-- formatted message of an error is left out; the detail that clients read is kept.
use oci_amber.Prelude.{◌≡◌, ◌⊎◌, refl, inl, inr, ℕ, Bool, true, false}
use oci_amber.Prelude.Text.{Bytes}

pub data ErrorCode : Type 0 where
  blob_unknown blob_upload_invalid blob_upload_unknown digest_invalid : ErrorCode
  manifest_blob_unknown manifest_invalid manifest_unknown name_invalid name_unknown : ErrorCode
  size_invalid unauthorized denied unsupported too_many_requests : ErrorCode
  rootfs_unavailable path_unknown path_invalid platform_unknown : ErrorCode
  other_code : Bytes → ErrorCode

unfoldable pub default_status : ErrorCode → ℕ
default_status blob_unknown = 404
default_status blob_upload_unknown = 404
default_status manifest_blob_unknown = 404
default_status manifest_unknown = 404
default_status name_unknown = 404
default_status rootfs_unavailable = 404
default_status path_unknown = 404
default_status blob_upload_invalid = 400
default_status digest_invalid = 400
default_status manifest_invalid = 400
default_status name_invalid = 400
default_status size_invalid = 400
default_status path_invalid = 400
default_status platform_unknown = 400
default_status unauthorized = 401
default_status denied = 403
default_status unsupported = 405
default_status too_many_requests = 429
default_status (other_code c) = 500

pub data Detail : Type 0 where
  no_detail : Detail
  digest_detail : Bytes → Detail
  mismatch_detail : Bytes → Bytes → Detail

pub record Error : Type 0 where
  pub code : ErrorCode
  pub detail : Detail

abbrev pub new_error : ErrorCode → Error
new_error c = record { code = c; detail = no_detail }

-- (*Error).WithDetail
abbrev pub with_detail : Error → Detail → Error
with_detail e d = record { code = e.code; detail = d }

-- What a call returns beside its error.
pub data Result {ℓ} (Value : Type ℓ) : Type ℓ where
  ok : Value → Result Value
  err : Error → Result Value

abbrev pub is_ok {ℓ} : {Value : Type ℓ} → Result Value → Bool
is_ok (err failure) = false
is_ok (ok value) = true

pub Result-cases {ℓ} :
    {Value : Type ℓ} (r : Result Value) → ((e : Error) × (r ≡ err e)) ⊎ ((v : Value) × (r ≡ ok v))
Result-cases (err e) = inl (e, refl)
Result-cases (ok v) = inr (v, refl)

pub ok_injective {ℓ} : {Value : Type ℓ} {v w : Value} → ok v ≡ ok w → v ≡ w
ok_injective h = cc

-- `if err != nil { return err }` between two calls, for a call with a value and for one without.
infixl 5 ◌>>=◌
abbrev pub ◌>>=◌ {ℓ κ} :
    {Value : Type ℓ} {Next : Type κ} → Result Value → (Value → Result Next) → Result Next
err failure >>= next = err failure
ok value >>= next = next value

infixl 5 ◌>>◌
abbrev pub ◌>>◌ {κ} : {Next : Type κ} → Result (Unit {0}) → Result Next → Result Next
first >> second = first >>= λ done. second
