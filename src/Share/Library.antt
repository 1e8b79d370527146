-- ===== src/Share/Library.antt =====
-- The packages outside the repository that core/share.go calls, and its errors.
use oneagent.Prelude.{String, Option, ◌==◌, if◌then◌else◌, Dict, insert}

-- net: the host of SplitHostPort, none where it gives an error, and JoinHostPort. net/url: the field
-- Host of what Parse gives, QueryEscape, Values.Encode, and the method String of a URL with the given
-- scheme, user, host and fragment. encoding/base64: EncodeToString of RawURLEncoding and StdEncoding,
-- DecodeString of RawURLEncoding. encoding/json: Marshal of a map of strings. crypto/ecdh: the public
-- key of a private one, none where NewPrivateKey refuses it.
pub record Library : Type 0 where
  pub split_host_port : String → Option String
  pub join_host_port : String → String → String
  pub url_host : String → Option String
  pub query_escape : String → String
  pub encode : Dict String → String
  pub url_text : String → Option (String × String) → String → String → String
  pub raw_base64 : String → String
  pub std_base64 : String → String
  pub decode_base64 : String → Option String
  pub json_text : Dict String → Option String
  pub public_key : String → Option String

pub data ShareError : Type 0 where
  bad_private_key : ShareError
  bad_json : ShareError
  no_address : String → ShareError
  not_supported : String → ShareError
  no_inbound : String → ShareError
  no_outbound : String → ShareError

pub data ShareResult : Type 0 where
  refused : ShareError → ShareResult
  link : String → ShareResult

-- `addQueryValue`
abbrev pub add_query_value : String → String → Dict String → Dict String
add_query_value key value values = if value == "" then values else insert key value values
