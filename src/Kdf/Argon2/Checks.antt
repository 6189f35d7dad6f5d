-- ===== src/Kdf/Argon2/Checks.antt =====
-- src/kdf.rs: which Argon2 parameters pass, and what the refusals say.
use odf_crypto.Prelude.{
  ℕ, ◌-◌, ◌*◌, ◌^◌, ◌≤◌, ◌<◌, ℤ, pos, negsuc, Bool, true, false, not, ◌&&◌, ◌≡◌, refl, sym, ap, ◌∙◌,
  subst, arith, Bytes, leb, ltb, in_range, in_range_ℤ, length, unsigned_abs, inl, inr, Result,
  Result-cases, map_err, ok, err, is_ok, is_ok->>, is_ok-refuse_if, ◌>>=◌, refuse_if, Refuses,
  Refuses->>=, Refuses-guard,
}
use odf_crypto.BadParameter.{Argon2Axis, ManifestField, Primitive, cipher_rejects, wide}
use odf_crypto.BadParameter.Honest.{KdfHonest, IsHonest, lies_within}
use odf_crypto.Decrypt.Ceilings.{DecryptLimits}
use odf_crypto.Kdf.Argon2.{
  KdfError, Argon2Error, Argon2Crate, Host, argon2_internal, axis_out_of_range, u32_try_from,
  check_p, check_argon2, on_lane_threads, derive_checked, derive_argon2id,
}

-- The error blames the parameters, and truly.
abbrev Blames : KdfError → Type 0
Blames (KdfError.params b) = IsHonest b
Blames _ = ⊥

abbrev pub is_params : KdfError → Bool
is_params (KdfError.params b) = true
is_params _ = false

-- The result is an error that blames the parameters.
abbrev pub is_blaming : {A : Type 0} → Result KdfError A → Bool
is_blaming (ok a) = false
is_blaming (err e) = is_params e

-- The error does not blame the parameters.
abbrev Spares : KdfError → Type 0
Spares e = is_params e ≡ false

spared : {A : Type 0} (r : Result KdfError A) → Refuses Spares r → is_blaming r ≡ false
spared (ok a) h = refl
spared (err e) h = h

Blames-is_params : (e : KdfError) → Blames e → is_params e ≡ true
Blames-is_params (KdfError.params b) h = refl
Blames-is_params (KdfError.internal s) h = absurd h
Blames-is_params (KdfError.host_cannot_allocate n) h = absurd h
Blames-is_params (KdfError.host_cannot_spawn n) h = absurd h

pub Blames-KdfHonest : (e : KdfError) → Blames e → KdfHonest e
Blames-KdfHonest (KdfError.params b) h = h
Blames-KdfHonest (KdfError.internal s) h = tt
Blames-KdfHonest (KdfError.host_cannot_allocate n) h = tt
Blames-KdfHonest (KdfError.host_cannot_spawn n) h = tt

module _ (crate : Argon2Crate) where
  -- The parameters that both this program and the cipher run.
  abbrev pub is_runnable : DecryptLimits → Bytes → ℤ → ℤ → ℤ → Bool
  is_runnable limits salt t m p =
      in_range_ℤ 1 limits.argon2_max_t t
      && in_range_ℤ 1 limits.argon2_max_m_kib m
      && in_range_ℤ 1 limits.argon2_max_p p
      && in_range_ℤ 1 crate.max_p_cost p
      && leb (8 * unsigned_abs p) (unsigned_abs m)
      && in_range crate.min_salt_len crate.max_salt_len (length salt)

  check_p-exact :
      (limit p : ℕ)
      → is_ok (check_p crate limit p) ≡ (in_range 1 limit p && in_range 1 crate.max_p_cost p)
  unfolding check_p
  check_p-exact limit p = ground arith

  check_p-Blames : (limit p : ℕ) → Refuses Blames (check_p crate limit p)
  unfolding check_p
  check_p-Blames limit p = ground arith

  -- The checks before the derivation pass exactly the iterations, memory and lanes inside the
  -- caller's limits with lanes that the crate admits, 8 KiB of memory per lane and a salt of an
  -- admitted length.
  pub check_argon2-exact :
      (limits : DecryptLimits) (salt : Bytes) (t m p : ℤ)
      → is_ok (check_argon2 crate limits salt t m p) ≡ is_runnable limits salt t m p
  unfolding check_argon2
  check_argon2-exact limits salt (negsuc t) m p = refl
  check_argon2-exact limits salt (pos t) (negsuc m) p = ground arith
  check_argon2-exact limits salt (pos t) (pos m) (negsuc p) = ground arith
  check_argon2-exact limits salt (pos t) (pos m) (pos p) =
      simp (is_ok->>, is_ok-refuse_if, check_p-exact limits.argon2_max_p p) (ground arith)

  salt-lies_outside :
      (n : ℕ)
      → crate.max_salt_len < 2 ^ 63 - 1
      → crate.min_salt_len ≤ crate.max_salt_len
      → not (in_range crate.min_salt_len crate.max_salt_len n) ≡ true
      → lies_within (wide crate.min_salt_len) (wide crate.max_salt_len) (wide n) ≡ false
  unfolding wide
  salt-lies_outside n h k out = ground arith

  u32_try_from-Blames :
      (axis : Argon2Axis) (low high : ℕ) (n : ℤ) → Refuses Blames (u32_try_from axis low high n)
  u32_try_from-Blames axis low high (pos n) = tt
  u32_try_from-Blames axis low high (negsuc n) = refl

  axis-Blames :
      (axis : Argon2Axis) (got low high : ℕ)
      → Refuses Blames
          (refuse_if (not (in_range low high got)) (axis_out_of_range axis got low high))
  axis-Blames axis got low high = ground arith

  lanes-Blames :
      (m p high : ℕ)
      → Refuses Blames (
          refuse_if (ltb m (8 * p)) (
            KdfError.params (
              cipher_rejects
                (ManifestField.argon2 Argon2Axis.m_kib)
                Primitive.argon2
                (pos m)
                (pos (8 * p))
                (pos high))))
  lanes-Blames m p high = ground arith

  pub check_argon2-Blames :
      crate.max_salt_len < 2 ^ 63 - 1
      → crate.min_salt_len ≤ crate.max_salt_len
      → (limits : DecryptLimits) (salt : Bytes) (t m p : ℤ)
      → Refuses Blames (check_argon2 crate limits salt t m p)
  unfolding check_argon2
  check_argon2-Blames h k limits salt t m p =
      Refuses->>= Blames _ _ (u32_try_from-Blames _ _ _ t) (λ t' e1.
        Refuses->>= Blames _ _ (u32_try_from-Blames _ _ _ m) (λ m' e2.
          Refuses->>= Blames _ _ (u32_try_from-Blames _ _ _ p) (λ p' e3.
            Refuses->>= Blames _ _ (axis-Blames Argon2Axis.t t' 1 limits.argon2_max_t) (λ u e4.
              Refuses->>= Blames _ _ (axis-Blames Argon2Axis.m_kib m' 1 limits.argon2_max_m_kib)
                (λ v e5. Refuses->>= Blames _ _ (check_p-Blames limits.argon2_max_p p') (λ w e6.
                  Refuses->>= Blames _ _ (lanes-Blames m' p' limits.argon2_max_m_kib) (λ x e7.
                    Refuses-guard Blames _ _ (ok (m', t', p')) (salt-lies_outside (length salt) h k)
                      tt)))))))

  internal-is_params : (e : Argon2Error) → is_params (argon2_internal e) ≡ false
  internal-is_params Argon2Error.output_too_short = refl
  internal-is_params Argon2Error.output_too_long = refl
  internal-is_params Argon2Error.pwd_too_long = refl
  internal-is_params Argon2Error.secret_too_long = refl
  internal-is_params Argon2Error.salt_too_short = refl
  internal-is_params Argon2Error.salt_too_long = refl
  internal-is_params Argon2Error.memory_too_little = refl
  internal-is_params Argon2Error.memory_too_much = refl
  internal-is_params Argon2Error.other = refl

  from_crate : {A : Type 0} (r : Result Argon2Error A) → Refuses Spares (map_err argon2_internal r)
  from_crate (ok a) = tt
  from_crate (err e) = internal-is_params e

  threads-Spares : (host : Host) (lanes : ℕ) → Refuses Spares (on_lane_threads host lanes)
  unfolding on_lane_threads
  threads-Spares host lanes = ground arith

  derive_checked-Spares :
      (host : Host) (start_key salt : Bytes) (out_len : ℕ) (mtp : ℕ × ℕ × ℕ)
      → Refuses Spares (derive_checked crate host start_key salt out_len mtp)
  unfolding derive_checked
  derive_checked-Spares host start_key salt out_len (m, t, p) =
      Refuses->>= Spares _ _ (from_crate (crate.new m t p out_len)) (λ chosen e1.
        Refuses-guard Spares _ _ _ (λ full. refl)
          (Refuses->>= Spares _ _ (threads-Spares host chosen.p_cost)
            (λ threads e2. from_crate (crate.hash chosen start_key salt out_len))))

  -- The derivation blames the parameters of the package exactly where this program or the cipher
  -- does not run them, whatever the crate and the host answer; it is assumed that the crate admits
  -- some length of a salt and that its greatest is below that of a buffer.
  pub derive_argon2id-blames :
      crate.max_salt_len < 2 ^ 63 - 1
      → crate.min_salt_len ≤ crate.max_salt_len
      → (host : Host) (start_key salt : Bytes) (t m p : ℤ) (limits : DecryptLimits) (out_len : ℕ)
      → is_blaming (derive_argon2id crate host start_key salt t m p limits out_len)
        ≡ not (is_runnable limits salt t m p)
  unfolding derive_argon2id
  derive_argon2id-blames h k host start_key salt t m p limits out_len =
      let exact = check_argon2-exact limits salt t m p in
      elim (Result-cases (check_argon2 crate limits salt t m p)) [
        | inl (mtp, e) ↦
            let runs : true ≡ is_runnable limits salt t m p = ap is_ok (sym e) ∙ exact in
            ap
              (λ (r : Result KdfError (ℕ × ℕ × ℕ)).
                is_blaming (r >>= derive_checked crate host start_key salt out_len))
              e
            ∙ spared (derive_checked crate host start_key salt out_len mtp)
                (derive_checked-Spares host start_key salt out_len mtp)
            ∙ ap not runs
        | inr (x, e) ↦
            let refused : false ≡ is_runnable limits salt t m p = ap is_ok (sym e) ∙ exact in
            ap
              (λ (r : Result KdfError (ℕ × ℕ × ℕ)).
                is_blaming (r >>= derive_checked crate host start_key salt out_len))
              e
            ∙ Blames-is_params x
                (subst (Refuses Blames) e (check_argon2-Blames h k limits salt t m p))
            ∙ ap not refused
      ]

  checked-KdfHonest : (r : Result KdfError Bytes) → Refuses Spares r → Refuses KdfHonest r
  checked-KdfHonest (ok key) h = tt
  checked-KdfHonest (err (KdfError.params b)) h = cc
  checked-KdfHonest (err (KdfError.internal s)) h = tt
  checked-KdfHonest (err (KdfError.host_cannot_allocate n)) h = tt
  checked-KdfHonest (err (KdfError.host_cannot_spawn n)) h = tt

  of_Blames : (r : Result KdfError (ℕ × ℕ × ℕ)) → Refuses Blames r → Refuses KdfHonest r
  of_Blames (ok mtp) h = tt
  of_Blames (err e) h = Blames-KdfHonest e h

  pub derive_argon2id-KdfHonest :
      crate.max_salt_len < 2 ^ 63 - 1
      → crate.min_salt_len ≤ crate.max_salt_len
      → (host : Host) (start_key salt : Bytes) (t m p : ℤ) (limits : DecryptLimits) (out_len : ℕ)
      → Refuses KdfHonest (derive_argon2id crate host start_key salt t m p limits out_len)
  unfolding derive_argon2id
  derive_argon2id-KdfHonest h k host start_key salt t m p limits out_len =
      Refuses->>= KdfHonest _ _
        (of_Blames (check_argon2 crate limits salt t m p)
          (check_argon2-Blames h k limits salt t m p))
        (λ mtp e.
          checked-KdfHonest (derive_checked crate host start_key salt out_len mtp)
            (derive_checked-Spares host start_key salt out_len mtp))
