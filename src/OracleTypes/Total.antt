-- ===== src/OracleTypes/Total.antt =====
-- Describing a column does not fail for its type.
use godror.Base.{
  ℕ, ◌≡◌, refl, inl, inr, Bool-cases, some, [], ◌∷◌, ◌==◌, if◌then◌else◌, ℤ, ok, arith,
}
use godror.OracleTypes.Numbers.{sqlt_chr, sqlt_afc, sqlt_vcs, sqlt_clob, charset_implicit}
use godror.OracleTypes.Convert.{is_one_of, convert_from_oracle}
use godror.OracleTypes.Order.{convert_from_oracle_found}
use godror.OracleTypes.Describe.{
  Descriptor, TypeInfo, charset_form_of, native_type_of, has_scale, has_fs_precision,
  populate_type_info,
}

-- the charset form that counts for a type code
abbrev pub form_for : ℕ → ℕ → ℕ
form_for code form =
    if is_one_of code (sqlt_chr ∷ sqlt_afc ∷ sqlt_vcs ∷ sqlt_clob ∷ [])
    then form
    else charset_implicit

charset_form_of_ok :
    (code form : ℕ) (d : Descriptor)
    → d.charset_form ≡ some form
    → charset_form_of code d ≡ ok (form_for code form)
unfolding charset_form_of
charset_form_of_ok code form d h =
    elim (Bool-cases (is_one_of code (sqlt_chr ∷ sqlt_afc ∷ sqlt_vcs ∷ sqlt_clob ∷ []))) [
      | inl e ↦ rw (e, h) refl
      | inr e ↦ rw e refl
    ]

native_type_of_ok :
    (code form : ℕ) → (n : ℕ) × (native_type_of (convert_from_oracle code form) ≡ ok n)
unfolding native_type_of
native_type_of_ok code form = elim (Bool-cases (convert_from_oracle code form == 0)) [
  | inl e ↦ (0, rw e refl)
  | inr e ↦ elim (convert_from_oracle_found code form) [
    | inl unsupported ↦ absurd (ground arith)
    | inr (t, (found, same)) ↦ (t.default_native_type_num, rw (e, found) refl)
  ]
]

-- Where OCI gives the attributes that are asked for, a column of any type is described without an
-- error, and the number of its type is that of its type code and charset form, 0 if it is not supported.
pub populate_type_info_total :
    (code form precision info : ℕ) (scale : ℤ)
    → (i : TypeInfo) × ((populate_type_info
            (record {
              data_type = some code;
              charset_form = some form;
              scale = some scale;
              precision = some precision;
            })
            info
          ≡ ok i)
        × (i.oracle_type_num ≡ convert_from_oracle code (form_for code form)))
unfolding populate_type_info
populate_type_info_total code form precision info scale =
    let d : Descriptor = record {
      data_type = some code;
      charset_form = some form;
      scale = some scale;
      precision = some precision;
    } in
    let (native, known) = native_type_of_ok code (form_for code form) in
    elim (Bool-cases (has_scale native)) [
      | inl scaled ↦ elim (Bool-cases (has_fs_precision native)) [
        | inl fs ↦ rw (charset_form_of_ok code form d refl, known, scaled, fs) (_, (refl, refl))
        | inr no_fs ↦
            rw (charset_form_of_ok code form d refl, known, scaled, no_fs) (_, (refl, refl))
      ]
      | inr plain ↦ rw (charset_form_of_ok code form d refl, known, plain) (_, (refl, refl))
    ]
