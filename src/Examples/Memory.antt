-- ===== src/Examples/Memory.antt =====
-- The theorems on evidence, applied to a table of three chunks.
use nestfleet.Memory.Retrieval.{retrieve_from}
use nestfleet.Prelude.{
  ℕ, ◌+◌, ◌-◌, ◌*◌, ◌/◌, ◌≡◌, refl, String, List, [], ◌∷◌, some, none, true, false, ltb,
  if◌then◌else◌, inl,
}
use nestfleet.Memory.Double.{Double}
use nestfleet.Memory.Sources.{SourceTier, t1, t2, SourceType, faq, runbook}
use nestfleet.Memory.Chunks.{
  Audience, public, internal, prose, auto_reply, ChunkRow, RetrievalRequest, EvidenceChunk,
  EvidencePack,
}
use nestfleet.Memory.Search.{SearchEngine}
use nestfleet.Memory.Retrieval.{retrieve, evidence_of}
use nestfleet.Memory.Evidence.{retrieve-IsKept, IsKept}

-- Thousandths, rounded down.
instance abbrev thousandths : Double ℕ
thousandths = record {
  decimal = λ n d. n * 1000 / d;
  plus = λ a b. a + b;
  minus = λ a b. a - b;
  times = λ a b. a * b / 1000;
  over = λ a b. a * 1000 / b;
  max = λ a b. if ltb a b then b else a;
  min = λ a b. if ltb a b then a else b;
  less = ltb;
}

abbrev chunk : String → SourceType → SourceTier → ℕ → Audience → ChunkRow ℕ
chunk id type tier freshness audience = record {
  chunk_id = id;
  product_id = "acme";
  source_type = type;
  source_uri = "docs/faq.md";
  section_path = "Login";
  content_type = prose;
  content = "Reset the password.";
  tier = tier;
  freshness_score = freshness;
  conflict_flag = false;
  product_version = "*";
  audience = audience;
}

abbrev table : List (ChunkRow ℕ)
table =
    chunk "c-1" faq t1 900 public
    ∷ chunk "c-2" runbook t2 800 internal
    ∷ chunk "c-3" runbook t2 700 public
    ∷ []

abbrev engine : SearchEngine ℕ
engine = record { by_vector = λ rows. rows; by_text_rank = λ rows. rows; hits = λ r. true }

abbrev question : RetrievalRequest
question = record {
  product_id = "acme";
  audience = public;
  product_version = some "2.0";
  min_tier = none;
  content_types = none;
  top_k = none;
  top_n = some 2;
  action_type = some auto_reply;
}

abbrev answer : EvidencePack ℕ
answer = retrieve engine table question

abbrev best : EvidenceChunk ℕ
best = evidence_of (chunk "c-1" faq t1 900 public, 13)

retrieve-IsKept_example :
    (r : ChunkRow ℕ) × (x : ℕ) × IsKept engine (λ rows q h. h, λ rows q h. h) question table r
    × (evidence_of (r, x) ≡ best)
unfolding retrieve retrieve_from
retrieve-IsKept_example =
    retrieve-IsKept engine (λ rows q h. h, λ rows q h. h) question table best (inl refl)
