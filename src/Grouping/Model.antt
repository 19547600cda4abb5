-- ===== src/Grouping/Model.antt =====
-- The findings that are grouped, and the rows of the investigation tables of app/models.py. A text is
-- the number of its place in the order of texts. Times are seconds of UTC.
use trace_x.Common.{ℕ, Bool, false, Option, List, [], ◌==◌}

-- `entity_ref`: a transaction's, or another entity's.
pub data EntityRef : Type 0 where
  tx : ℕ → EntityRef
  entity : ℕ → EntityRef

-- What the code makes of texts: the family of a rule and its version, "peel" in the rule's name, the
-- identifier of a group, the digests of anchors, and
-- the place of a reference in the order of texts.
pub record Texts : Type 0 where
  pub family_of : (rule_id rule_version : ℕ) → ℕ
  pub is_peeling : (rule_id : ℕ) → Bool
  pub group_id : (run_id finding_id : ℕ) → ℕ
  pub utxo_token : (txid : ℕ) → ℕ
  pub source_token : (evidence_id locator : ℕ) → (source_sha256 : Option ℕ) → ℕ
  pub sha256 : ℕ → ℕ
  pub ref_rank : EntityRef → ℕ

abbrev pub same_ref : EntityRef → EntityRef → Bool
same_ref (EntityRef.tx a) (EntityRef.tx b) = a == b
same_ref (EntityRef.entity a) (EntityRef.entity b) = a == b
same_ref _ _ = false

-- A node of the graph: `out:<txid>:<vout>`, `tx:<txid>`, or another.
pub data Node : Type 0 where
  output : (txid vout : ℕ) → Node
  transaction : (txid : ℕ) → Node
  other : ℕ → Node

-- An edge of type SPENT_BY.
pub record Edge : Type 0 where
  pub edge_id : ℕ
  pub from_node : Node
  pub to_node : Node

pub record SourceRef : Type 0 where
  pub evidence_id : Option ℕ
  pub locator : Option ℕ
  pub source_sha256 : Option ℕ

-- `edge_ids` is the list of the detector's graph path.
pub record Finding : Type 0 where
  pub id : ℕ
  pub snapshot_id : ℕ
  pub rule_id : ℕ
  pub rule_version : ℕ
  pub entity_ref : EntityRef
  pub window_start : ℕ
  pub window_end : ℕ
  pub raw_score : ℕ
  pub edge_ids : List ℕ
  pub source_refs : List SourceRef

-- `InvestigationGroup`, without the columns that the run fixes.
pub record Group : Type 0 where
  pub id : ℕ
  pub family : ℕ
  pub peeling : Bool
  pub focal_ref : EntityRef
  pub episode_start : ℕ
  pub window_start : ℕ
  pub window_end : ℕ
  pub representative_id : ℕ
  pub representative_score : ℕ
  pub representative_anchors : ℕ
  pub is_singleton : Bool
  pub member_count : ℕ
  pub transaction_count : ℕ
  pub entity_count : ℕ

pub record Anchor : Type 0 where
  pub group_id : ℕ
  pub token : ℕ

pub record Member : Type 0 where
  pub group_id : ℕ
  pub finding_id : ℕ
  pub ordinal : ℕ

pub data Kind : Type 0 where
  of_transaction of_entity : Kind

pub record Subject : Type 0 where
  pub kind : Kind
  pub ref : ℕ

-- A row of `InvestigationSubject`.
pub record GroupSubject : Type 0 where
  pub group_id : ℕ
  pub subject : Subject

pub record Replacement : Type 0 where
  pub prior_id : ℕ
  pub replacement_id : ℕ

-- The rows of one run, the newest first.
pub record Generation : Type 0 where
  pub groups : List Group
  pub anchors : List Anchor
  pub members : List Member
  pub subjects : List GroupSubject
  pub replacements : List Replacement

abbrev pub no_rows : Generation
no_rows = record { groups = []; anchors = []; members = []; subjects = []; replacements = [] }

-- `max_members` of the policy, and the seconds of an episode.
abbrev pub max_members : ℕ
max_members = 256

abbrev pub episode_seconds : ℕ
episode_seconds = 86400
