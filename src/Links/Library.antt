-- ===== src/Links/Library.antt =====
-- The packages outside the repository that core/link_parser.go calls, and the errors that its parser
-- gives.
use oneagent.Prelude.{String, List, Option, none, some, Dict, lookup}
use oneagent.Config.Types.{OutboundConfig}
use oneagent.Links.Values.{Anys, Fields}

-- A parsed URL of the package net/url: its fields, what its methods Hostname and Port give, the name
-- and password of its user, and the first value of each key of its query.
pub record Url : Type 0 where
  pub scheme : String
  pub opaque : String
  pub user : Option (String × Option String)
  pub host : String
  pub hostname : String
  pub port : String
  pub path : String
  pub raw_query : String
  pub query : Dict String
  pub fragment : String
  pub raw_fragment : String

-- Where a function gives an error it is none here: url.Parse and url.QueryUnescape; DecodeString of
-- base64.RawURLEncoding, RawStdEncoding, URLEncoding and StdEncoding; json.Unmarshal and
-- yaml.Unmarshal into a map[string]any, and yaml.Unmarshal into an []any.
pub record Library : Type 0 where
  pub parse_url : String → Option Url
  pub query_unescape : String → Option String
  pub decodings : List (String → Option String)
  pub json_object : String → Option Fields
  pub yaml_object : String → Option Fields
  pub yaml_list : String → Option Anys

-- The errors of `parseOutboundLink` and `parseJSONShare`, with the link that they print.
pub data LinkError : Type 0 where
  not_a_url not_json : LinkError
  missing_scheme : String → LinkError
  invalid_payload : String → LinkError
  missing_port : String → LinkError
  missing_server : String → LinkError
  incomplete_share : String → LinkError
  -- The fuel of the model has run out.
  unfinished : LinkError

pub data LinkResult : Type 0 where
  failed : LinkError → LinkResult
  parsed : OutboundConfig → LinkResult

-- u.Query().Get(key)
abbrev pub get : String → Url → String
get key u = elim (lookup key u.query) [ none ↦ "" | some value ↦ value ]
