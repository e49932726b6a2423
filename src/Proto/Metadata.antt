-- ===== src/Proto/Metadata.antt =====
-- The messages of proto/metadata.proto, as pkg/proto/gen/metadata.pb.go declares them. A getter
-- called on a nil pointer answers the zero value of its field: the getters of a message are one
-- function `…_get` to the record of what they answer.
use kube_pfs.Base.{ℕ, Bool, false, Option, none, some, List, []}
use kube_pfs.Text.{Text}

pub record StripeLayout : Type 0 where
  pub stripe_size_bytes : ℕ
  pub ost_ids : List Text

abbrev pub stripe_layout_get : Option StripeLayout → StripeLayout
stripe_layout_get none = record { stripe_size_bytes = 0; ost_ids = [] }
stripe_layout_get (some x) = x

pub record Inode : Type 0 where
  pub inode_id : Text
  pub parent_inode_id : Text
  pub name : Text
  pub is_dir : Bool
  pub size_bytes : ℕ
  pub mode : ℕ
  pub created_unix : ℕ
  pub modified_unix : ℕ
  pub stripe_layout : Option StripeLayout

pub record CreateRequest : Type 0 where
  pub parent_inode_id : Text
  pub name : Text
  pub is_dir : Bool
  pub mode : ℕ

abbrev pub create_request_get : Option CreateRequest → CreateRequest
create_request_get none = record { parent_inode_id = []; name = []; is_dir = false; mode = 0 }
create_request_get (some x) = x

pub record CreateResponse : Type 0 where
  pub inode : Option Inode

pub record LookupRequest : Type 0 where
  pub parent_inode_id : Text
  pub name : Text

abbrev pub lookup_request_get : Option LookupRequest → LookupRequest
lookup_request_get none = record { parent_inode_id = []; name = [] }
lookup_request_get (some x) = x

pub record LookupResponse : Type 0 where
  pub inode : Option Inode

pub record StatRequest : Type 0 where
  pub inode_id : Text

abbrev pub stat_request_get : Option StatRequest → StatRequest
stat_request_get none = record { inode_id = [] }
stat_request_get (some x) = x

pub record StatResponse : Type 0 where
  pub inode : Option Inode

pub record ListDirRequest : Type 0 where
  pub inode_id : Text

abbrev pub list_dir_request_get : Option ListDirRequest → ListDirRequest
list_dir_request_get none = record { inode_id = [] }
list_dir_request_get (some x) = x

pub record ListDirResponse : Type 0 where
  pub entries : List Inode

pub record UnlinkRequest : Type 0 where
  pub parent_inode_id : Text
  pub name : Text

abbrev pub unlink_request_get : Option UnlinkRequest → UnlinkRequest
unlink_request_get none = record { parent_inode_id = []; name = [] }
unlink_request_get (some x) = x

pub record UnlinkResponse : Type 0 where
  pub deleted : Bool
