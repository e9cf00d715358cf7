-- ===== src/Memory/Chunks.antt =====
-- src/memory/types.ts: the rows of memory_chunks, a request for evidence, and the pack it gets.
use nestfleet.Prelude.{ℕ, String, List, Option, Bool}
use nestfleet.Memory.Sources.{SourceTier, SourceType}

pub data Audience : Type 0 where
  public internal : Audience

pub data ContentType : Type 0 where
  prose code structured : ContentType

-- `ActionType` of this file.
pub data RetrievalAction : Type 0 where
  auto_reply triage known_issue_match change_prep pr_draft_prep outage_routing : RetrievalAction

pub data AbstainReason : Type 0 where
  insufficient_tier stale_evidence knowledge_conflict capability_disabled : AbstainReason
  audience_violation version_unknown no_results : AbstainReason

-- The columns of memory_chunks that a search reads, the embedding aside.
pub record ChunkRow (W : Type 0) : Type 0 where
  pub chunk_id : String
  pub product_id : String
  pub source_type : SourceType
  pub source_uri : String
  pub section_path : String
  pub content_type : ContentType
  pub content : String
  pub tier : SourceTier
  pub freshness_score : W
  pub conflict_flag : Bool
  pub product_version : String
  pub audience : Audience

-- The query's text and embedding stand in the search engine.
pub record RetrievalRequest : Type 0 where
  pub product_id : String
  pub audience : Audience
  pub product_version : Option String
  pub min_tier : Option SourceTier
  pub content_types : Option (List ContentType)
  pub top_k : Option ℕ
  pub top_n : Option ℕ
  pub action_type : Option RetrievalAction

pub record EvidenceChunk (W : Type 0) : Type 0 where
  pub chunk_id : String
  pub source_type : SourceType
  pub source_uri : String
  pub section_path : String
  pub content_type : ContentType
  pub content : String
  pub tier : SourceTier
  pub freshness_score : W
  pub conflict_flag : Bool
  pub audience : Audience
  pub score : W

-- The number of chunks of each tier.
pub record TierSummary : Type 0 where
  pub count1 : ℕ
  pub count2 : ℕ
  pub count3 : ℕ
  pub count4 : ℕ

pub record EvidencePack (W : Type 0) : Type 0 where
  pub chunks : List (EvidenceChunk W)
  pub tier_summary : TierSummary
  pub min_freshness : W
  pub avg_freshness : W
  pub has_conflicts : Bool
  pub abstain : Bool
  pub abstain_reason : Option AbstainReason
