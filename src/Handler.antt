-- ===== src/Handler.antt =====
-- What the request handlers of pkg/handler share: the current user and the answers.
pub mod Users
pub mod Clusters
pub mod Quota
use singlecloud.Base.{String, Bool, false, Option, none, some, str_eq}
use singlecloud.Auth.{administrator}

-- The codes of `resterr` and of types/errorcode.go that the handlers answer with.
pub data ErrorCode : Type 0 where
  permission_denied unauthorized not_nullable duplicate_resource not_found : ErrorCode
  invalid_format invalid_body_content invalid_action server_error : ErrorCode
  connect_cluster_failed invalid_cluster_config : ErrorCode

pub data Answer (A : Type 0) : Type 0 where
  ok : A → Answer A
  error : ErrorCode → Answer A

-- `getCurrentUser`; the argument is the value in the context, if there is one.
unfoldable pub get_current_user : Option String → String
get_current_user none = ""
get_current_user (some user) = user

unfoldable pub is_admin : String → Bool
is_admin user = str_eq user administrator
