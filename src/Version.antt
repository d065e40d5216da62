-- ===== src/Version.antt =====
-- The checks of a version: `dpiUtils__checkClientVersion`, `dpiUtils__checkClientVersionMulti` and
-- `dpiUtils__checkDatabaseVersion` of odpi/src/dpiUtils.c. Versions and releases are not negative.
mod Tests
use godror.Base.{
  ℕ, zero, suc, ◌+◌, ◌≤◌, ◌<◌, ◌≡◌, refl, ◌⊎◌, inl, inr, ◌↔◌, Bool, true, false, Bool-cases, ◌&&◌,
  ◌||◌, ◌==◌, ltb, if◌then◌else◌, Result, ok, err, ◌>>=◌, ◌>>◌, fail_if, oracle_client_too_old,
  oracle_db_too_old, arith,
}

-- the fields of dpiVersionInfo that are compared
pub record VersionInfo : Type 0 where
  pub version_num : ℕ
  pub release_num : ℕ

-- what the three functions compare with one minimum
abbrev pub is_older : VersionInfo → ℕ → ℕ → Bool
is_older v version release =
    ltb v.version_num version || v.version_num == version && ltb v.release_num release

-- `dpiUtils__checkClientVersion`
unfoldable pub check_client_version : VersionInfo → ℕ → ℕ → Result (Unit {0})
check_client_version v version release = fail_if (is_older v version release) oracle_client_too_old

-- `dpiUtils__checkClientVersionMulti`
unfoldable pub check_client_version_multi : VersionInfo → ℕ → ℕ → ℕ → ℕ → Result (Unit {0})
check_client_version_multi v version₁ release₁ version₂ release₂ =
    fail_if
      (ltb v.version_num version₁
        || v.version_num == version₁ && ltb v.release_num release₁
        || ltb version₁ v.version_num && ltb v.version_num version₂
        || v.version_num == version₂ && ltb v.release_num release₂)
      oracle_client_too_old

-- `dpiUtils__checkDatabaseVersion`, given what `dpiConn__getServerVersion` finds
unfoldable pub check_database_version : Result VersionInfo → ℕ → ℕ → Result (Unit {0})
check_database_version server version release = do
  v ← server
  fail_if (is_older v version release) oracle_db_too_old

-- A version is at least another: it is later, or the same in a release that is.
abbrev pub IsAtLeast : VersionInfo → ℕ → ℕ → Type 0
IsAtLeast v version release =
    (version < v.version_num) ⊎ ((v.version_num ≡ version) × (release ≤ v.release_num))

abbrev pub IsBefore : VersionInfo → ℕ → ℕ → Type 0
IsBefore v version release =
    (v.version_num < version) ⊎ ((v.version_num ≡ version) × (v.release_num < release))

-- Where the first version is the earlier one, a client passes that has at least the second version and
-- release, or that has the first version in at least the first release, and every other is refused.
pub check_client_version_multi_lem :
    (v : VersionInfo) (version₁ release₁ version₂ release₂ : ℕ)
    → version₁ < version₂
    → let checked = check_client_version_multi v version₁ release₁ version₂ release₂ in
      ((checked ≡ ok tt)
        × (IsAtLeast v version₂ release₂
            ⊎ ((v.version_num ≡ version₁) × (release₁ ≤ v.release_num))))
      ⊎ ((checked ≡ err oracle_client_too_old)
          × IsBefore v version₂ release₂
          × ¬ ((v.version_num ≡ version₁) × (release₁ ≤ v.release_num)))
unfolding check_client_version_multi
check_client_version_multi_lem v version₁ release₁ version₂ release₂ lt =
    let late = ltb version₁ v.version_num && ltb v.version_num version₂ in
    let test =
      ltb v.version_num version₁
      || v.version_num == version₁ && ltb v.release_num release₁
      || late
      || v.version_num == version₂ && ltb v.release_num release₂ in
    elim (Bool-cases test) [
      | inl refused ↦ inr (rw refused refl, ground arith, λ h. ground arith)
      | inr passed ↦ inl (rw passed refl, ground arith)
    ]
