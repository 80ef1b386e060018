-- ===== src/Types.antt =====
-- pkg/types: the hosts, the statistics and the context that the components exchange.
mod Context
pub mod Float
pub mod Request
pub mod Response
unfoldable pub use Context.*
use istio_llm_filter.Common.{ℕ, String, Bool, List, Option, Dict}
use istio_llm_filter.Common.Int.{ℤ}

-- `Host`, an interface whose methods only read.
pub record Host : Type 0 where
  pub ip : String
  pub port : ℕ
  pub address : String
  pub labels : Dict String

pub record EndpointStats : Type 0 where
  pub prefill_reqs : ℤ
  pub total_reqs : ℤ
  pub prompt_length : ℤ

pub record KvCacheLocation : Type 0 where
  pub ip : String
  pub length : ℤ

-- The queries of `MetadataCenter` and the switches of pkg/metadata, as the load balancer sees them.
-- A query that fails gives `none`.
pub record MetadataQueries : Type 0 where
  pub query_load : String → Option (Dict EndpointStats)
  pub query_kv_cache : String → List ℕ → ℕ → Option (List KvCacheLocation)
  pub is_enabled : Bool
  pub is_cache_enabled : Bool
