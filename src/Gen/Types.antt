-- ===== src/Gen/Types.antt =====
-- The types of handles and the table of them: `dpiHandleTypeNum` of odpi/src/dpiImpl.h and
-- `dpiAllTypeDefs` of odpi/src/dpiGen.c. The sizes, the names, which are only printed, and the free
-- procedures are left out.
use godror.Base.{ℕ}

-- dpiHandleTypeNum
pub data HandleType : Type 0 where
  conn pool stmt var lob object : HandleType
  object_type object_attr subscr deq_options enq_options msg_props : HandleType
  rowid context soda_coll soda_coll_cursor soda_db soda_doc : HandleType
  soda_doc_cursor queue json vector : HandleType

-- the place of a type in the table, `typeNum - DPI_HTYPE_NONE - 1`
unfoldable pub type_index : HandleType → ℕ
type_index conn = 0
type_index pool = 1
type_index stmt = 2
type_index var = 3
type_index lob = 4
type_index object = 5
type_index object_type = 6
type_index object_attr = 7
type_index subscr = 8
type_index deq_options = 9
type_index enq_options = 10
type_index msg_props = 11
type_index rowid = 12
type_index context = 13
type_index soda_coll = 14
type_index soda_coll_cursor = 15
type_index soda_db = 16
type_index soda_doc = 17
type_index soda_doc_cursor = 18
type_index queue = 19
type_index json = 20
type_index vector = 21

-- `checkInt` of the table
unfoldable pub type_check_int : HandleType → ℕ
type_check_int conn = 1239179276
type_check_int pool = 417442379
type_check_int stmt = 833628974
type_check_int var = 719898332
type_check_int lob = 3639809862
type_check_int object = 945905792
type_check_int object_type = 2248368217
type_check_int object_attr = 3933035998
type_check_int subscr = 2752881088
type_check_int deq_options = 1894664589
type_check_int enq_options = 1747925318
type_check_int msg_props = 2729923846
type_check_int rowid = 1644493316
type_check_int context = 3625685377
type_check_int soda_coll = 914676514
type_check_int soda_coll_cursor = 3452386182
type_check_int soda_db = 523788577
type_check_int soda_doc = 2952631562
type_check_int soda_doc_cursor = 2161031227
type_check_int queue = 1418742690
type_check_int json = 4134611948
type_check_int vector = 1815992041
