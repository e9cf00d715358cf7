-- ===== src/Memory/Retrieval.antt =====
-- src/memory/retrieval/retrieval-service.ts: reranking, the version filter, and the policy gates.
use nestfleet.Prelude.{
  ℕ, ◌+◌, String, List, [], ◌∷◌, Option, none, some, Bool, true, false, not, ◌&&◌, ◌||◌, keep, any,
  find, take, map, length, sort_with, get_or, is_some, str_eq, if◌then◌else◌, by_text,
}
use nestfleet.Memory.Double.{Double}
use nestfleet.Memory.Sources.{SourceTier, t1, t2, t3, t4, tier_le, is_stale_for_auto_reply}
use nestfleet.Memory.Chunks.{
  Audience, public, internal, RetrievalAction, auto_reply, outage_routing, AbstainReason,
  insufficient_tier, stale_evidence, knowledge_conflict, audience_violation, no_results, ChunkRow,
  RetrievalRequest, EvidenceChunk, TierSummary, EvidencePack,
}
use nestfleet.System.{truthy}
use nestfleet.Memory.Search.{SearchEngine, Candidate, hybrid_search}

abbrev pub default_top_k : ℕ
default_top_k = 20

abbrev pub default_top_n : ℕ
default_top_n = 5

abbrev pub min_tier_for_action : RetrievalAction → SourceTier
min_tier_for_action auto_reply = t1
min_tier_for_action outage_routing = t1
min_tier_for_action _ = t2

-- `tierSummary[c.tier]++`
abbrev pub count_tier : SourceTier → TierSummary → TierSummary
count_tier t1 s = record s { count1 = s.count1 + 1 }
count_tier t2 s = record s { count2 = s.count2 + 1 }
count_tier t3 s = record s { count3 = s.count3 + 1 }
count_tier t4 s = record s { count4 = s.count4 + 1 }

-- The actions that answer a user by themselves.
abbrev pub is_answer : RetrievalAction → Bool
is_answer auto_reply = true
is_answer outage_routing = true
is_answer _ = false

abbrev pub is_public : Audience → Bool
is_public public = true
is_public internal = false

module _ {W : Type 0} where
  unfoldable pub tier_summary_of : List (EvidenceChunk W) → TierSummary
  tier_summary_of [] = record { count1 = 0; count2 = 0; count3 = 0; count4 = 0 }
  tier_summary_of (c ∷ cs) = count_tier c.tier (tier_summary_of cs)

  -- A version that is absent or empty filters nothing; `*` is agnostic.
  abbrev pub of_version : Option String → ChunkRow W → Bool
  of_version none r = true
  of_version (some v) r = str_eq r.product_version "*" || str_eq r.product_version v

  unfoldable pub apply_version_filter : Option String → List (Candidate W) → List (Candidate W)
  apply_version_filter version cs = keep (λ c. of_version (truthy version) c.0) cs

  abbrev pub evidence_of : Candidate W → EvidenceChunk W
  evidence_of (r, score) = record {
    chunk_id = r.chunk_id;
    source_type = r.source_type;
    source_uri = r.source_uri;
    section_path = r.section_path;
    content_type = r.content_type;
    content = r.content;
    tier = r.tier;
    freshness_score = r.freshness_score;
    conflict_flag = r.conflict_flag;
    audience = r.audience;
    score = score;
  }

module _ {W : Type 0} ⦃d : Double W⦄ where
  abbrev tier_weight : SourceTier → W
  tier_weight t1 = d.decimal 1 1
  tier_weight t2 = d.decimal 85 100
  tier_weight t3 = d.decimal 65 100
  tier_weight t4 = d.decimal 45 100

  abbrev pub composite : Candidate W → Candidate W
  composite (r, score) =
      (r, d.times (d.times score (tier_weight r.tier)) (d.max r.freshness_score (d.decimal 1 10)))

  -- The highest score first.
  unfoldable pub rerank_candidates : List (Candidate W) → List (Candidate W)
  rerank_candidates cs = sort_with (λ a b. not (d.less a.1 b.1)) (map composite cs)

  abbrev pub is_stale : Option (EvidenceChunk W) → Bool
  is_stale none = false
  is_stale (some c) = is_stale_for_auto_reply c.freshness_score c.tier

  -- The gates on tier and freshness.
  abbrev gate : Option RetrievalAction → List (EvidenceChunk W) → Option AbstainReason
  gate none chunks = none
  gate (some action) chunks =
      if not (any (λ c. tier_le c.tier (min_tier_for_action action)) chunks)
      then some insufficient_tier
      else if is_answer action && is_stale (find (λ c. tier_le c.tier t2) chunks)
      then some stale_evidence
      else none

  -- An audience violation, then a conflict, then the gates.
  unfoldable pub evaluate_abstain : RetrievalRequest → List (EvidenceChunk W) → Option AbstainReason
  unfolding is_stale_for_auto_reply
  evaluate_abstain request chunks =
      if is_public request.audience && not (any (λ c. is_public c.audience) chunks)
      then some audience_violation
      else if any (λ c. c.conflict_flag) chunks
      then some knowledge_conflict
      else gate request.action_type chunks

  unfoldable pub build_abstain_pack : AbstainReason → EvidencePack W
  build_abstain_pack reason = record {
    chunks = [];
    tier_summary = record { count1 = 0; count2 = 0; count3 = 0; count4 = 0 };
    min_freshness = d.decimal 0 1;
    avg_freshness = d.decimal 0 1;
    has_conflicts = false;
    abstain = true;
    abstain_reason = some reason;
  }

  abbrev min_of : W → List (EvidenceChunk W) → W
  min_of x [] = x
  min_of x (c ∷ cs) = min_of (d.min x c.freshness_score) cs

  abbrev sum_of : W → List (EvidenceChunk W) → W
  sum_of x [] = x
  sum_of x (c ∷ cs) = sum_of (d.plus x c.freshness_score) cs

  -- Of no chunk at all, or of the first one and the others.
  unfoldable pub pack_of : RetrievalRequest → List (EvidenceChunk W) → EvidencePack W
  unfolding build_abstain_pack tier_summary_of evaluate_abstain
  pack_of request [] = build_abstain_pack no_results
  pack_of request (c ∷ cs) = record {
    chunks = c ∷ cs;
    tier_summary = tier_summary_of (c ∷ cs);
    min_freshness = min_of c.freshness_score cs;
    avg_freshness = d.over (sum_of (d.decimal 0 1) (c ∷ cs)) (d.decimal (length (c ∷ cs)) 1);
    has_conflicts = any (λ c. c.conflict_flag) (c ∷ cs);
    abstain = is_some (evaluate_abstain request (c ∷ cs));
    abstain_reason = evaluate_abstain request (c ∷ cs);
  }

  unfoldable pub assemble_evidence_pack : List (Candidate W) → ℕ → RetrievalRequest → EvidencePack W
  unfolding pack_of
  assemble_evidence_pack candidates top_n request =
      pack_of request (map evidence_of (take top_n candidates))

  unfoldable pub retrieve_from : List (Candidate W) → RetrievalRequest → EvidencePack W
  unfolding rerank_candidates apply_version_filter assemble_evidence_pack build_abstain_pack
  retrieve_from [] request = build_abstain_pack no_results
  retrieve_from (c ∷ cs) request =
      assemble_evidence_pack
        (apply_version_filter request.product_version (rerank_candidates (c ∷ cs)))
        (get_or request.top_n default_top_n) request

  unfoldable pub retrieve : SearchEngine W → List (ChunkRow W) → RetrievalRequest → EvidencePack W
  unfolding hybrid_search rerank_candidates apply_version_filter assemble_evidence_pack
      build_abstain_pack
  retrieve engine table request =
      retrieve_from (hybrid_search engine request (get_or request.top_k default_top_k) table)
        request
