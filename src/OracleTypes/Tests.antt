-- ===== src/OracleTypes/Tests.antt =====
-- Lookups in the table of the types, and the theorems applied to them.
use godror.Base.{◌≡◌, refl, inr, ok, err, invalid_oracle_type, arith}
use godror.OracleTypes.Numbers.{type_nvarchar, type_json_id, sqlt_chr, charset_nchar}
use godror.OracleTypes.Table.{get_from_num, zero_type}
use godror.OracleTypes.Convert.{convert_from_oracle}
use godror.OracleTypes.Order.{get_from_num_other}

convert_nchar : convert_from_oracle sqlt_chr charset_nchar ≡ type_nvarchar
unfolding convert_from_oracle
convert_nchar = refl

-- The entry of DPI_ORACLE_TYPE_JSON_ID is missing.
json_id_missing : get_from_num type_json_id ≡ ok zero_type
unfolding get_from_num
json_id_missing = refl

get_from_num_other_example : get_from_num 2035 ≡ err invalid_oracle_type
get_from_num_other_example = get_from_num_other 2035 (inr (omega arith))
