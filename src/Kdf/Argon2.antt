-- ===== src/Kdf/Argon2.antt =====
-- src/kdf.rs: `derive_argon2id`. The argon2 crate and the host are parameters.
pub mod Checks
use odf_crypto.Prelude.{
  ℕ, ◌-◌, ◌*◌, ◌^◌, ℤ, pos, negsuc, Bool, true, false, not, ◌&&◌, ◌||◌, Option, none, some, Str,
  Bytes, codes, leb, ltb, if◌then◌else◌, in_range, length, unwrap_or, Result, ok, err, ◌>>=◌, ◌>>◌,
  refuse_if, map_err,
}
use odf_crypto.Limits.{argon2_min_t_cost, argon2_min_m_cost_kib, argon2_min_p_cost}
use odf_crypto.BadParameter.{
  Argon2Axis, ManifestField, Primitive, BadParameter, out_of_range, cipher_rejects, wide,
}
use odf_crypto.Decrypt.Ceilings.{DecryptLimits}

pub data KdfError : Type 0 where
  params : BadParameter → KdfError
  internal : Str → KdfError
  host_cannot_allocate host_cannot_spawn : ℕ → KdfError

-- The errors of the argon2 crate that the code tells apart, and the rest as one.
pub data Argon2Error : Type 0 where
  output_too_short output_too_long pwd_too_long secret_too_long : Argon2Error
  salt_too_short salt_too_long memory_too_little memory_too_much other : Argon2Error

pub record Params : Type 0 where
  pub m_cost : ℕ
  pub t_cost : ℕ
  pub p_cost : ℕ
  pub block_count : ℕ

-- `new` takes `m`, `t`, `p` and the length of the key, and `hash` the start key, the salt and that
-- length.
pub record Argon2Crate : Type 0 where
  pub max_p_cost : ℕ
  pub min_salt_len : ℕ
  pub max_salt_len : ℕ
  pub block_size : ℕ
  pub new : ℕ → ℕ → ℕ → ℕ → Result Argon2Error Params
  pub hash : Params → Bytes → Bytes → ℕ → Result Argon2Error Bytes

-- What the host grants: so many bytes, and a pool of so many threads.
pub record Host : Type 0 where
  pub can_reserve : ℕ → Bool
  pub available_parallelism : Option ℕ
  pub can_spawn : ℕ → Bool

abbrev pub argon2_internal : Argon2Error → KdfError
argon2_internal output_too_short = internal (codes "argon2 refused the derived key length")
argon2_internal output_too_long = internal (codes "argon2 refused the derived key length")
argon2_internal pwd_too_long = internal (codes "argon2 refused the start key's length")
argon2_internal secret_too_long = internal (codes "argon2 refused the start key's length")
argon2_internal salt_too_short = internal (codes "argon2 refused a salt length the screen passed")
argon2_internal salt_too_long = internal (codes "argon2 refused a salt length the screen passed")
argon2_internal memory_too_little =
    internal (codes "argon2 refused a memory cost the screen passed")
argon2_internal memory_too_much = internal (codes "argon2 refused a memory cost the screen passed")
argon2_internal other = internal (codes "argon2 refused parameters the screen passed")

abbrev pub lane_thread_stack : ℕ
lane_thread_stack = 2 * 1024 * 1024

-- `lanes.clamp(1, cores)`
abbrev pub clamp_lanes : ℕ → ℕ → ℕ
clamp_lanes lanes cores = if ltb lanes 1 then 1 else if ltb cores lanes then cores else lanes

-- The threads that the pool has.
unfoldable pub on_lane_threads : Host → ℕ → Result KdfError ℕ
on_lane_threads host lanes =
    let want = clamp_lanes lanes (unwrap_or host.available_parallelism 1) in
    if host.can_spawn want
    then ok want
    else if host.can_spawn 1
    then ok 1
    else err (host_cannot_spawn lane_thread_stack)

-- `u32::try_from`, and the refusal of an axis where it fails.
abbrev pub u32_try_from : Argon2Axis → ℕ → ℕ → ℤ → Result KdfError ℕ
u32_try_from axis low high (pos n) = ok n
u32_try_from axis low high (negsuc n) =
    err (params (out_of_range (ManifestField.argon2 axis) (negsuc n) (pos low) (pos high)))

-- The refusal of an axis outside its range.
abbrev pub axis_out_of_range : Argon2Axis → ℕ → ℕ → ℕ → KdfError
axis_out_of_range axis got low high =
    params (out_of_range (ManifestField.argon2 axis) (pos got) (pos low) (pos high))

module _ (crate : Argon2Crate) where
  -- The range of `p`, and whose rule a value outside it breaks.
  unfoldable pub check_p : ℕ → ℕ → Result KdfError Unit
  check_p limit p =
      let p_max = if leb limit crate.max_p_cost then limit else crate.max_p_cost in
      if in_range argon2_min_p_cost p_max p
      then ok tt
      else if ltb crate.max_p_cost p && leb crate.max_p_cost limit
      then err (
          params (
            cipher_rejects (ManifestField.argon2 Argon2Axis.p) Primitive.argon2 (pos p)
              (pos argon2_min_p_cost) (pos crate.max_p_cost)))
      else err (axis_out_of_range Argon2Axis.p p argon2_min_p_cost limit)

  -- The values of `m`, `t` and `p` once every check before `Params::new` has passed.
  unfoldable pub check_argon2 : DecryptLimits → Bytes → ℤ → ℤ → ℤ → Result KdfError (ℕ × ℕ × ℕ)
  check_argon2 limits salt signed_t signed_m signed_p = do
    t ← u32_try_from Argon2Axis.t argon2_min_t_cost limits.argon2_max_t signed_t
    m ← u32_try_from Argon2Axis.m_kib argon2_min_m_cost_kib limits.argon2_max_m_kib signed_m
    p ← u32_try_from Argon2Axis.p argon2_min_p_cost limits.argon2_max_p signed_p
    refuse_if (not (in_range argon2_min_t_cost limits.argon2_max_t t))
        (axis_out_of_range Argon2Axis.t t argon2_min_t_cost limits.argon2_max_t)
    refuse_if (not (in_range argon2_min_m_cost_kib limits.argon2_max_m_kib m))
        (axis_out_of_range Argon2Axis.m_kib m argon2_min_m_cost_kib limits.argon2_max_m_kib)
    check_p limits.argon2_max_p p
    refuse_if (ltb m (8 * p)) (
        params (
          cipher_rejects (ManifestField.argon2 Argon2Axis.m_kib) Primitive.argon2 (pos m)
            (pos (8 * p)) (pos limits.argon2_max_m_kib)))
    refuse_if (not (in_range crate.min_salt_len crate.max_salt_len (length salt))) (
        params (
          cipher_rejects ManifestField.salt_len Primitive.argon2 (wide (length salt))
            (wide crate.min_salt_len) (wide crate.max_salt_len)))
    ok (m, t, p)

  -- `saturating_mul`
  abbrev pub requested_bytes : ℕ → ℕ
  requested_bytes blocks =
      let bytes = blocks * crate.block_size in if ltb bytes (2 ^ 64) then bytes else 2 ^ 64 - 1

  -- From the checked `m`, `t` and `p` on.
  unfoldable pub derive_checked : Host → Bytes → Bytes → ℕ → ℕ × ℕ × ℕ → Result KdfError Bytes
  derive_checked host start_key salt out_len (m, t, p) = do
    chosen ← map_err argon2_internal (crate.new m t p out_len)
    refuse_if (not (host.can_reserve (requested_bytes chosen.block_count)))
        (host_cannot_allocate (requested_bytes chosen.block_count))
    threads ← on_lane_threads host chosen.p_cost
    map_err argon2_internal (crate.hash chosen start_key salt out_len)

  -- The key of `out_len` bytes.
  unfoldable pub derive_argon2id :
      Host → Bytes → Bytes → ℤ → ℤ → ℤ → DecryptLimits → ℕ → Result KdfError Bytes
  derive_argon2id host start_key salt signed_t signed_m signed_p limits out_len =
      check_argon2 limits salt signed_t signed_m signed_p
      >>= derive_checked host start_key salt out_len
