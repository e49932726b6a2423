-- ===== src/Proto/Storage.antt =====
-- The messages of proto/object_storage.proto, as pkg/proto/gen/object_storage.pb.go declares them. A getter
-- called on a nil pointer answers the zero value of its field: the getters of a message are one
-- function `…_get` to the record of what they answer.
use kube_pfs.Base.{ℕ, Bool, Option, none, some, []}
use kube_pfs.Text.{Text}

pub record BlockRef : Type 0 where
  pub file_id : Text
  pub chunk_id : ℕ
  pub ost_id : Text

abbrev pub block_ref_get : Option BlockRef → BlockRef
block_ref_get none = record { file_id = []; chunk_id = 0; ost_id = [] }
block_ref_get (some x) = x

pub record WriteBlockRequest : Type 0 where
  pub block : Option BlockRef
  pub payload : Text

abbrev pub write_block_request_get : Option WriteBlockRequest → WriteBlockRequest
write_block_request_get none = record { block = none; payload = [] }
write_block_request_get (some x) = x

pub record WriteBlockResponse : Type 0 where
  pub bytes_written : ℕ

pub record ReadBlockRequest : Type 0 where
  pub block : Option BlockRef
  pub offset : ℕ
  pub length : ℕ

abbrev pub read_block_request_get : Option ReadBlockRequest → ReadBlockRequest
read_block_request_get none = record { block = none; offset = 0; length = 0 }
read_block_request_get (some x) = x

pub record ReadBlockResponse : Type 0 where
  pub payload : Text

pub record DeleteBlockRequest : Type 0 where
  pub block : Option BlockRef

abbrev pub delete_block_request_get : Option DeleteBlockRequest → DeleteBlockRequest
delete_block_request_get none = record { block = none }
delete_block_request_get (some x) = x

pub record DeleteBlockResponse : Type 0 where
  pub deleted : Bool

pub record HealthResponse : Type 0 where
  pub ost_id : Text
  pub healthy : Bool
  pub iops_total : ℕ
  pub throughput_bytes : ℕ
