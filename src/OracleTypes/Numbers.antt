-- ===== src/OracleTypes/Numbers.antt =====
-- The numbers of the types: `dpiOracleTypeNum` and `dpiNativeTypeNum` of odpi/include/dpi.h, and the OCI
-- type codes and charset forms of odpi/src/dpiImpl.h.
use godror.Base.{ℕ}

abbrev pub type_none : ℕ
type_none = 2000

abbrev pub type_varchar : ℕ
type_varchar = 2001

abbrev pub type_nvarchar : ℕ
type_nvarchar = 2002

abbrev pub type_char : ℕ
type_char = 2003

abbrev pub type_nchar : ℕ
type_nchar = 2004

abbrev pub type_rowid : ℕ
type_rowid = 2005

abbrev pub type_raw : ℕ
type_raw = 2006

abbrev pub type_native_float : ℕ
type_native_float = 2007

abbrev pub type_native_double : ℕ
type_native_double = 2008

abbrev pub type_native_int : ℕ
type_native_int = 2009

abbrev pub type_number : ℕ
type_number = 2010

abbrev pub type_date : ℕ
type_date = 2011

abbrev pub type_timestamp : ℕ
type_timestamp = 2012

abbrev pub type_timestamp_tz : ℕ
type_timestamp_tz = 2013

abbrev pub type_timestamp_ltz : ℕ
type_timestamp_ltz = 2014

abbrev pub type_interval_ds : ℕ
type_interval_ds = 2015

abbrev pub type_interval_ym : ℕ
type_interval_ym = 2016

abbrev pub type_clob : ℕ
type_clob = 2017

abbrev pub type_nclob : ℕ
type_nclob = 2018

abbrev pub type_blob : ℕ
type_blob = 2019

abbrev pub type_bfile : ℕ
type_bfile = 2020

abbrev pub type_stmt : ℕ
type_stmt = 2021

abbrev pub type_boolean : ℕ
type_boolean = 2022

abbrev pub type_object : ℕ
type_object = 2023

abbrev pub type_long_varchar : ℕ
type_long_varchar = 2024

abbrev pub type_long_raw : ℕ
type_long_raw = 2025

abbrev pub type_native_uint : ℕ
type_native_uint = 2026

abbrev pub type_json : ℕ
type_json = 2027

abbrev pub type_json_object : ℕ
type_json_object = 2028

abbrev pub type_json_array : ℕ
type_json_array = 2029

abbrev pub type_urowid : ℕ
type_urowid = 2030

abbrev pub type_long_nvarchar : ℕ
type_long_nvarchar = 2031

abbrev pub type_xmltype : ℕ
type_xmltype = 2032

abbrev pub type_vector : ℕ
type_vector = 2033

abbrev pub type_json_id : ℕ
type_json_id = 2034

abbrev pub type_max : ℕ
type_max = 2035

abbrev pub typecode_smallint : ℕ
typecode_smallint = 246

abbrev pub typecode_rowid : ℕ
typecode_rowid = 262

abbrev pub typecode_long : ℕ
typecode_long = 263

abbrev pub typecode_long_raw : ℕ
typecode_long_raw = 264

abbrev pub typecode_binary_integer : ℕ
typecode_binary_integer = 265

abbrev pub typecode_pls_integer : ℕ
typecode_pls_integer = 266

abbrev pub native_int64 : ℕ
native_int64 = 3000

abbrev pub native_uint64 : ℕ
native_uint64 = 3001

abbrev pub native_float : ℕ
native_float = 3002

abbrev pub native_double : ℕ
native_double = 3003

abbrev pub native_bytes : ℕ
native_bytes = 3004

abbrev pub native_timestamp : ℕ
native_timestamp = 3005

abbrev pub native_interval_ds : ℕ
native_interval_ds = 3006

abbrev pub native_interval_ym : ℕ
native_interval_ym = 3007

abbrev pub native_lob : ℕ
native_lob = 3008

abbrev pub native_object : ℕ
native_object = 3009

abbrev pub native_stmt : ℕ
native_stmt = 3010

abbrev pub native_boolean : ℕ
native_boolean = 3011

abbrev pub native_rowid : ℕ
native_rowid = 3012

abbrev pub native_json : ℕ
native_json = 3013

abbrev pub native_json_object : ℕ
native_json_object = 3014

abbrev pub native_json_array : ℕ
native_json_array = 3015

abbrev pub native_vector : ℕ
native_vector = 3017

abbrev pub sqlt_chr : ℕ
sqlt_chr = 1

abbrev pub charset_implicit : ℕ
charset_implicit = 1

abbrev pub charset_nchar : ℕ
charset_nchar = 2

abbrev pub sqlt_num : ℕ
sqlt_num = 2

abbrev pub sqlt_int : ℕ
sqlt_int = 3

abbrev pub sqlt_flt : ℕ
sqlt_flt = 4

abbrev pub sqlt_vnu : ℕ
sqlt_vnu = 6

abbrev pub sqlt_pdn : ℕ
sqlt_pdn = 7

abbrev pub sqlt_lng : ℕ
sqlt_lng = 8

abbrev pub sqlt_vcs : ℕ
sqlt_vcs = 9

abbrev pub sqlt_dat : ℕ
sqlt_dat = 12

abbrev pub sqlt_bfloat : ℕ
sqlt_bfloat = 21

abbrev pub sqlt_bdouble : ℕ
sqlt_bdouble = 22

abbrev pub sqlt_bin : ℕ
sqlt_bin = 23

abbrev pub sqlt_lbi : ℕ
sqlt_lbi = 24

abbrev pub sqlt_uin : ℕ
sqlt_uin = 68

abbrev pub sqlt_lvb : ℕ
sqlt_lvb = 95

abbrev pub sqlt_afc : ℕ
sqlt_afc = 96

abbrev pub sqlt_ibfloat : ℕ
sqlt_ibfloat = 100

abbrev pub sqlt_ibdouble : ℕ
sqlt_ibdouble = 101

abbrev pub sqlt_rdd : ℕ
sqlt_rdd = 104

abbrev pub sqlt_nty : ℕ
sqlt_nty = 108

abbrev pub sqlt_clob : ℕ
sqlt_clob = 112

abbrev pub sqlt_blob : ℕ
sqlt_blob = 113

abbrev pub sqlt_bfile : ℕ
sqlt_bfile = 114

abbrev pub sqlt_rset : ℕ
sqlt_rset = 116

abbrev pub sqlt_json : ℕ
sqlt_json = 119

abbrev pub sqlt_nco : ℕ
sqlt_nco = 122

abbrev pub sqlt_vec : ℕ
sqlt_vec = 127

abbrev pub sqlt_odt : ℕ
sqlt_odt = 156

abbrev pub sqlt_date : ℕ
sqlt_date = 184

abbrev pub sqlt_timestamp : ℕ
sqlt_timestamp = 187

abbrev pub sqlt_timestamp_tz : ℕ
sqlt_timestamp_tz = 188

abbrev pub sqlt_interval_ym : ℕ
sqlt_interval_ym = 189

abbrev pub sqlt_interval_ds : ℕ
sqlt_interval_ds = 190

abbrev pub sqlt_timestamp_ltz : ℕ
sqlt_timestamp_ltz = 232

abbrev pub sqlt_rec : ℕ
sqlt_rec = 250

abbrev pub sqlt_bol : ℕ
sqlt_bol = 252
